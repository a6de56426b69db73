-- ===== src/App/Examples.antt =====
-- app/app.go and app/wg.go at concrete inputs.
use vwarp.Prelude.{
  ℕ, ◌≡◌, refl, true, false, List, [], ◌∷◌, Option, none, some, inl, replicate, arith,
}
use vwarp.Prelude.Int.{pos}
use vwarp.Text.{codes}
use vwarp.Noize.Conn.Presets.{default_config}
use vwarp.WireConfig.{Configuration, Libraries}
use vwarp.App.{Call, err, AppError, Identity, Outside}
use vwarp.App.Options.{WarpOptions}
use vwarp.App.Device.{print_settings}
use vwarp.App.Modes.{run_warp}
use vwarp.App.Refused.{modes, run_warp-refused}
use vwarp.App.Tested.{AllTested}
use vwarp.App.Tested.Modes.{run_warp-AllTested}

abbrev plain_options : WarpOptions
plain_options = record {
  bind = codes "127.0.0.1:8086";
  endpoint = codes "162.159.192.1:2408";
  dns_addr = codes "1.1.1.1";
  psiphon = none;
  gool = false;
  masque = false;
  masque_preferred = false;
  masque_noize = false;
  masque_noize_preset = [];
  masque_noize_config = [];
  scan = false;
  fw_mark = 0;
  wireguard_config = [];
  reserved = [];
  test_url = codes "http://a/";
  atomic_noize_config = none;
  unified_noize_config = none;
  proxy_address = [];
}

abbrev both_options : WarpOptions
both_options = record plain_options { masque = true; gool = true }

abbrev some_identity : Identity
some_identity = record {
  private_key = codes "k";
  peers = (codes "p", codes "162.159.192.1:2408") ∷ [];
  client_id = codes "c";
  v4 = codes "172.16.0.2";
  v6 = codes "fd00::2";
}

abbrev some_libraries : Libraries
some_libraries = record {
  decode_base64 = λ s. some (replicate 32 7);
  parse_prefix = λ s. none;
  parse_addr = λ s. some s;
  read_random = none;
}

abbrev some_configuration : Configuration
some_configuration = record {
  interface = record { private_key = codes "ab"; addresses = []; dns = []; mtu = pos 1280 };
  peers =
      record {
        public_key = codes "cd";
        pre_shared_key = codes "00";
        endpoint = codes "1.2.3.4:2408";
        keep_alive = pos 5;
        allowed_ips = record { addr = codes "::"; bits = 0 } ∷ [];
        trick = true;
        reserved = (1, 2, 3);
      }
      ∷ [];
}

-- Nothing fails; the first answer of the device has no handshake yet.
abbrev quiet : Outside
quiet = record {
  error = λ l c. none;
  identity = λ l. some_identity;
  endpoints = λ l. codes "162.159.192.5:2408" ∷ [];
  configuration = λ l. some_configuration;
  noize = λ l. default_config;
  stack = λ l. 7;
  address = λ l. codes "127.0.0.1:4000";
  tunnel_addresses = λ l. (codes "172.16.0.2", []);
  polls = λ l.
      some (print_settings ((codes "last_handshake_time_sec", codes "0") ∷ []))
      ∷ some (print_settings ((codes "last_handshake_time_sec", codes "17") ∷ []))
      ∷ [];
  libraries = some_libraries;
  resolve = λ endpoint dns. none;
}

-- No adapter can be created.
abbrev is_adapter : Call → Option (List ℕ)
is_adapter (Call.new_adapter endpoint noize) = some (codes "timeout")
is_adapter c = none

abbrev no_adapters : Outside
no_adapters = record quiet { error = λ l c. is_adapter c }

run_warp-refused_example : (e : AppError) × (run_warp quiet both_options [] ≡ (err e, []))
run_warp-refused_example =
    run_warp-refused quiet both_options [] refl (inl (unfold modes in omega arith))

run_warp-AllTested_example : AllTested quiet (run_warp quiet plain_options []).1
run_warp-AllTested_example = run_warp-AllTested quiet plain_options refl refl
