-- ===== src/WireConfig/Examples.antt =====
-- WireConfig at a file with one peer.
use vwarp.Prelude.{
  ℕ, ◌≤◌, ◌≡◌, refl, false, List, [], ◌∷◌, none, some, arith, length, replicate, if◌then◌else◌,
}
use vwarp.Prelude.Int.{pos}
use vwarp.Text.{codes, text_eq}
use vwarp.Text.Decimal.{itoa}
use vwarp.Text.Hex.{hex_encode}
use vwarp.WireConfig.{
  ParseError, ok, err, Key, Section, Libraries, PeerConfig, no_pre_shared_key, parse_reserved,
  parse_peers, reserved_form, parse_interface, one_interface,
}
use vwarp.WireConfig.Parsed.{AllPeers, parse_reserved-itoa, parse_peers-Peers}

abbrev lib : Libraries
lib = record {
  decode_base64 = λ s. if text_eq s (codes "key") then some (replicate 32 7) else none;
  parse_prefix = λ s. none;
  parse_addr = λ s. none;
  read_random = some (1, 2, 3);
}

abbrev key_of : List ℕ → Key
key_of s = record { text = s; strings = []; int = none; bool = none }

abbrev section : Section
section = λ name.
    if text_eq name (codes "PublicKey")
    then some (key_of (codes "key"))
    else if text_eq name (codes "Reserved")
    then some (key_of (codes "1,20,255"))
    else none

abbrev peer : PeerConfig
peer = record {
  public_key = hex_encode (replicate 32 7);
  pre_shared_key = no_pre_shared_key;
  endpoint = [];
  keep_alive = pos 0;
  allowed_ips = [];
  trick = false;
  reserved = (1, 20, 255);
}

peer_parsed : parse_peers lib (section ∷ []) ≡ ok (peer ∷ [])
unfolding parse_peers vwarp.WireConfig.peers_of vwarp.WireConfig.parse_peer vwarp.WireConfig.field
    text_eq vwarp.WireConfig.encode_base64_to_hex vwarp.WireConfig.encode_decoded parse_reserved
    vwarp.WireConfig.three_bytes vwarp.Text.Hex.split vwarp.WireConfig.byte_of
    vwarp.Text.Decimal.atoi
peer_parsed = refl

two_interfaces : parse_interface lib (section ∷ section ∷ []) ≡ err one_interface
unfolding parse_interface
two_interfaces = refl

too_large : parse_reserved lib (codes "1,2,256") ≡ err reserved_form
unfolding parse_reserved text_eq vwarp.WireConfig.three_bytes vwarp.Text.Hex.split
    vwarp.WireConfig.byte_of vwarp.Text.Decimal.atoi
too_large = refl

parse_peers-Peers_example : AllPeers lib (section ∷ []) (peer ∷ []) × (1 ≤ length (section ∷ []))
unfolding vwarp.WireConfig.Parsed.Sure vwarp.WireConfig.Parsed.AreBytes
parse_peers-Peers_example =
    parse_peers-Peers lib (section ∷ []) (peer ∷ []) (omega arith, omega arith, omega arith)
      peer_parsed
