-- ===== src/App/Peers.antt =====
-- app/app.go: the WireGuard configuration that a mode makes of an identity or of a file.
use vwarp.Prelude.{ℕ, Bool, true, false, ◌||◌, List, [], ◌∷◌, Option, none, some, if◌then◌else◌}
use vwarp.Prelude.Int.{ℤ, pos}
use vwarp.Text.{codes, text_eq}
use vwarp.WireConfig.{
  PeerConfig, InterfaceConfig, Configuration, Prefix, Libraries, parse_reserved,
  encode_base64_to_hex, no_pre_shared_key,
}
use vwarp.App.{Result, ok, err, panicked, AppError, Io, ◌>>=◌, pure, lift, Identity, Outside}
use vwarp.App.Options.{WarpOptions, get_atomic_noize_config}

abbrev pub single_mtu : ℤ
single_mtu = pos 1280

-- A result of `EncodeBase64ToHex` whose error is dropped: the text is then empty.
unfoldable pub text_or_empty : vwarp.WireConfig.Result (List ℕ) → List ℕ
text_or_empty (vwarp.WireConfig.ok s) = s
text_or_empty (vwarp.WireConfig.err e) = []

-- The first three bytes of the client id; `none` is the panic of an index out of range.
unfoldable pub client_bytes : Option (List ℕ) → Option (ℕ × ℕ × ℕ)
client_bytes (some (a ∷ b ∷ c ∷ rest)) = some (a, b, c)
client_bytes _ = none

unfoldable pub must : {A : Type 0} → Option A → Result A
must none = panicked
must (some a) = ok a

unfoldable pub bind_result : {A B : Type 0} → Result A → (A → Result B) → Result B
bind_result (ok a) f = f a
bind_result (err e) f = err e
bind_result panicked f = panicked

abbrev pub first_of : {A : Type 0} → List A → Option A
first_of [] = none
first_of (a ∷ rest) = some a

abbrev all_prefixes : List Prefix
all_prefixes =
    record { addr = codes "0.0.0.0"; bits = 0 } ∷ record { addr = codes "::"; bits = 0 } ∷ []

-- `generateWireguardConfig`. The fields that it does not set have the zero value.
unfoldable pub generate_wireguard_config : Libraries → Identity → Result Configuration
generate_wireguard_config lib i = bind_result (must (first_of i.peers)) λ peer.
    bind_result (must (lib.parse_addr i.v4)) λ v4. bind_result (must (lib.parse_addr i.v6)) λ v6.
      bind_result (must (client_bytes (lib.decode_base64 i.client_id))) λ reserved. ok (record {
        interface = record {
          private_key = text_or_empty (encode_base64_to_hex lib i.private_key);
          addresses = v4 ∷ v6 ∷ [];
          dns = [];
          mtu = pos 0;
        };
        peers =
            record {
              public_key = text_or_empty (encode_base64_to_hex lib peer.0);
              pre_shared_key = no_pre_shared_key;
              endpoint = peer.1;
              keep_alive = pos 0;
              allowed_ips = all_prefixes;
              trick = false;
              reserved = reserved;
            }
            ∷ [];
      })

-- The MTU and the DNS server of a configuration.
unfoldable pub with_network : List ℕ → Configuration → Configuration
with_network dns_addr conf = record conf {
  interface = record conf.interface { mtu = single_mtu; dns = dns_addr ∷ [] };
}

unfoldable pub from_wire : {A : Type 0} → vwarp.WireConfig.Result A → Result A
from_wire (vwarp.WireConfig.ok a) = ok a
from_wire (vwarp.WireConfig.err e) = err (AppError.bad_reserved e)

unfoldable pub read_reserved : Libraries → List ℕ → ℕ × ℕ × ℕ → Result (ℕ × ℕ × ℕ)
read_reserved lib text old = if text_eq text [] then ok old else from_wire (parse_reserved lib text)

no_config {ℓ} : {A : Type ℓ} → Option A → Bool
no_config none = true
no_config (some a) = false

-- What a loop over the peers sets: the endpoint, the trick (where the older options have no AtomicNoize
-- configuration) and the interval, before the reserved bytes of the options.
unfoldable pub set_peer : WarpOptions → List ℕ → PeerConfig → PeerConfig
unfolding no_config
set_peer opts endpoint peer = record peer {
  endpoint = endpoint;
  trick = no_config opts.atomic_noize_config || peer.trick;
  keep_alive = pos 5;
}

unfoldable pub set_inner_peer : List ℕ → PeerConfig → PeerConfig
set_inner_peer endpoint peer = record peer { endpoint = endpoint; keep_alive = pos 20 }

unfoldable pub prepare_peers :
    Libraries → List ℕ → (PeerConfig → PeerConfig) → List PeerConfig → Result (List PeerConfig)
prepare_peers lib reserved change [] = ok []
prepare_peers lib reserved change (peer ∷ peers) =
    bind_result (read_reserved lib reserved (change peer).reserved) λ r.
      bind_result (prepare_peers lib reserved change peers)
        λ rest. ok (record (change peer) { reserved = r } ∷ rest)

-- An identity's configuration with its peers set.
unfoldable pub prepare :
    Outside → WarpOptions → (PeerConfig → PeerConfig) → Identity → Io Configuration
prepare o opts change ident = do
  conf ← lift (generate_wireguard_config o.libraries ident)
  peers ← lift (prepare_peers o.libraries opts.reserved change conf.peers)
  pure (record (with_network opts.dns_addr conf) { peers = peers })

-- The trick and the interval of the peers of a file, with their endpoints resolved.
unfoldable pub resolved_endpoint : Option (List ℕ) → List ℕ → List ℕ
resolved_endpoint none old = old
resolved_endpoint (some addr) old = addr

unfoldable pub set_file_peers : Outside → WarpOptions → List PeerConfig → List PeerConfig
unfolding no_config
set_file_peers o opts [] = []
set_file_peers o opts (peer ∷ peers) =
    record peer {
      trick = no_config (get_atomic_noize_config opts) || peer.trick;
      keep_alive = pos 5;
      endpoint = resolved_endpoint (o.resolve peer.endpoint opts.dns_addr) peer.endpoint;
    }
    ∷ set_file_peers o opts peers
