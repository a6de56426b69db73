-- ===== src/Proxy/Socks4/Examples.antt =====
-- The theorems on proxy/pkg/socks4 and on proxy/pkg/mixed/proxy.go at concrete inputs.
use vwarp.Prelude.{true, ℕ, ◌≡◌, refl, List, [], ◌∷◌, ◌++◌, none, some, false, arith}
use vwarp.Text.{codes}
use vwarp.Wire.{Conn}
use vwarp.Wire.Laws.{fed}
use vwarp.Proxy.{Address}
use vwarp.Proxy.Tunnel.{Ending}
use vwarp.Proxy.Socks4.{Server, dial_error, target, connect_command, serve_conn}
use vwarp.Proxy.Socks4.Session.{target_form, connect_outcome, serve_connect}

abbrev fresh : List ℕ → Conn
fresh input = record { input = input; output = []; writes_left = 9; closed = false }

abbrev server : Server
server = record {
  proxy_dial = λ network address. dial_error (codes "refused");
  user_connect_handle = none;
  windows = false;
  ip_string = λ ip. ip;
}

abbrev by_name : Address
by_name = record { name = codes "a.b"; ip = none; port = 80 }

abbrev local : Address
local = record { name = []; ip = some (10 ∷ 0 ∷ 0 ∷ 2 ∷ []); port = 50000 }

abbrev no_error : Ending
no_error = record {
  copy1 = none;
  copy2 = none;
  close1 = none;
  close2 = none;
  ctx_err = none;
  ctx_canceled = true;
}

abbrev dialer : Server
dialer = record server { proxy_dial = λ network address. target local no_error }

serve_connect_example :
    serve_conn dialer
      (fed (4 ∷ connect_command ∷ (target_form by_name (codes "u") ++ (9 ∷ []))) (fresh []))
    ≡ connect_outcome false (9 ∷ []) (fresh []) 6 (target local no_error)
serve_connect_example =
    serve_connect dialer by_name (codes "u") (9 ∷ []) (fresh []) 6 (target local no_error)
      (omega arith, refl, refl) refl refl refl
