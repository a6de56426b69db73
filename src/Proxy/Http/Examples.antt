-- ===== src/Proxy/Http/Examples.antt =====
-- proxy/pkg/http at concrete inputs.
use vwarp.Prelude.{ℕ, ◌≡◌, ◌↔◌, refl, false, true, List, [], ◌∷◌, ◌++◌, none, length, take, drop}
use vwarp.Text.{codes, text_eq}
use vwarp.Text.HostPort.{IsPart, join_host_port}
use vwarp.Wire.{Conn, Io, ok}
use vwarp.Proxy.Http.{Request, Dialed, dial_error, serve_conn}
use vwarp.Proxy.Http.CustomConn.{
  custom_conn_read, custom_conn_read-first, data_read, inner_read, fresh,
}
use vwarp.Proxy.Http.Session.{
  server, open_conn, eleven_more, connect_outcome, plain_outcome, serve_conn-tunnelled,
  serve_conn-plain,
}

abbrev stale : List ℕ
stale = 9 ∷ 9 ∷ 9 ∷ 9 ∷ 9 ∷ 9 ∷ []

custom_conn_read-first_example :
    (data_read (custom_conn_read stale (fresh (codes "GET ") (codes "body"))).0
      ≡ take 6 (codes "GET ") ++ drop 4 stale)
    × ((data_read (custom_conn_read stale (fresh (codes "GET ") (codes "body"))).0 ≡ codes "GET ")
        ↔ (length stale ≡ 4))
    × ((q : List ℕ)
        → (custom_conn_read q (custom_conn_read stale (fresh (codes "GET ") (codes "body"))).1).0
          ≡ (inner_read q (fresh (codes "GET ") (codes "body"))).0)
custom_conn_read-first_example = custom_conn_read-first stale (codes "ET ") (codes "body") b'G'

abbrev refuse_all : List ℕ → List ℕ → Dialed
refuse_all network address = dial_error address

abbrev unavailable : ℕ → List ℕ
unavailable code = codes "Service Unavailable"

abbrev connect_request : Request
connect_request = record { is_connect = true; host = codes "a.b:443"; scheme = []; printed = none }

abbrev plain_request : Request
plain_request = record {
  is_connect = false;
  host = codes "a.b";
  scheme = codes "http";
  printed = none;
}

abbrev waiting : Conn
waiting = open_conn [] [] (eleven_more 0)

abbrev reads : Request → Io Request
reads req c = (ok req, waiting)

serve_conn-tunnelled_example :
    serve_conn (server refuse_all (reads connect_request) unavailable false) waiting
    ≡ connect_outcome false (codes "Service Unavailable") [] [] 0 (dial_error (codes "a.b:443"))
unfolding join_host_port
serve_conn-tunnelled_example =
    serve_conn-tunnelled refuse_all (reads connect_request) unavailable false (codes "a.b")
      (codes "443") [] none waiting [] [] 0 b'S' (codes "ervice Unavailable") host-IsPart
      port-IsPart refl refl refl
  where
    host-IsPart : IsPart (codes "a.b")
    host-IsPart = record { no_open = refl; no_close = refl }

    port-IsPart : IsPart (codes "443")
    port-IsPart = record { no_open = refl; no_close = refl }

serve_conn-plain_example :
    serve_conn (server refuse_all (reads plain_request) unavailable false) waiting
    ≡ plain_outcome false (codes "Service Unavailable") [] [] 0 (dial_error (codes "a.b:80"))
serve_conn-plain_example =
    serve_conn-plain refuse_all (reads plain_request) unavailable false (codes "a.b") (codes "http")
      none waiting [] [] 0 b'S' (codes "ervice Unavailable") refl (unfold text_eq in refl) refl refl
