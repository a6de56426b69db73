-- ===== src/Proxy/Mixed.antt =====
-- proxy/pkg/mixed/proxy.go: one port for SOCKS5, SOCKS4 and HTTP, told apart by the first byte.
use vwarp.Prelude.{[], ◌∷◌, ◌==◌, if◌then◌else◌}
use vwarp.Wire.{Io, eof, raise, closing}
use vwarp.Proxy.Http
use vwarp.Proxy.Socks4
use vwarp.Proxy.Socks5.Server

-- The three servers of a `Proxy`.
pub record Proxy : Type 0 where
  pub socks5_proxy : Server.Server
  pub socks4_proxy : Socks4.Server
  pub http_proxy : Http.Server

-- `Peek(1)` leaves the byte in the buffer that the servers then read from.
unfoldable pub handle_connection : Proxy → Io (Unit {0})
handle_connection p c = elim c.input [
  | [] ↦ raise eof c
  | b ∷ rest ↦
      (if b == 5
          then Server.serve_conn p.socks5_proxy
          else if b == 4
          then Socks4.serve_conn p.socks4_proxy
          else Http.serve_conn p.http_proxy)
        c
]

-- The goroutine of a connection that was accepted, `defer conn.Close()` in front.
unfoldable pub serve_accepted : Proxy → Io (Unit {0})
serve_accepted p = closing (handle_connection p)
