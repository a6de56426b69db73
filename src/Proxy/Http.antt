-- ===== src/Proxy/Http.antt =====
-- proxy/pkg/http: `ServeConn` (server.go), the writer of responses and the connection that starts with
-- a request (common.go). Go's `net/http` is a parameter: reading a request from a connection through a
-- buffer, the printed form of a request, and the texts of status codes.
pub mod CustomConn
pub mod Session
mod Examples
use vwarp.Prelude.{
  ℕ, ◌-◌, ◌%◌, ◌^◌, Bool, true, false, ◌||◌, List, [], ◌∷◌, ◌++◌, Option, none, some, ltb,
  if◌then◌else◌,
}
use vwarp.Prelude.Int.{ℤ, pos, negsuc}
use vwarp.Text.{codes, text_eq}
use vwarp.Text.Decimal.{itoa, atoi}
use vwarp.Text.HostPort.{join_host_port, split_host_port}
use vwarp.Wire.{
  Conn, Io, ok, err, Error, net_error, pure, raise, catch, closing, write, ◌>>=◌, ◌>>◌,
}
use vwarp.Proxy.Tunnel.{NetError, Ending, tunnel}

-- `http.Request`, as far as it is used. `printed` is what `req.Write` writes, `none` if it fails.
pub record Request : Type 0 where
  pub is_connect : Bool
  pub host : List ℕ
  pub scheme : List ℕ
  pub printed : Option (List ℕ)

-- The `ProxyRequest` of a user handler; `dest_port` is an int32.
pub record ProxyRequest : Type 0 where
  pub network : List ℕ
  pub destination : List ℕ
  pub dest_host : List ℕ
  pub dest_port : ℤ

-- What a dial gives: the text of its error, or a connection, by the error of a write to it and the way
-- its tunnel ends.
pub data Dialed : Type 0 where
  dial_error : List ℕ → Dialed
  target : Option (List ℕ) → Ending → Dialed

-- A handler runs on the connection, or on a `customConn` around it, which starts with a request.
abbrev pub Handler : Type 0
Handler = Option Request → ProxyRequest → Io (Unit {0})

-- The fields of `Server` that `ServeConn` reads, and the parameters.
pub record Server : Type 0 where
  pub proxy_dial : List ℕ → List ℕ → Dialed
  pub user_connect_handle : Option Handler
  pub windows : Bool
  pub read_request : Io Request
  pub status_text : ℕ → List ℕ

-- `responseWriter`, less the connection. The status is only kept.
pub record ResponseWriter : Type 0 where
  pub headers : List (List ℕ × List ℕ)
  pub status : ℕ
  pub written : Bool

abbrev pub new_response_writer : ResponseWriter
new_response_writer = record { headers = []; status = 200; written = false }

-- A write whose error is dropped, and `headers.Write`, piece by piece.
unfoldable pub try_write : List ℕ → Io (Unit {0})
try_write bytes = catch (write bytes) λ e. pure tt

unfoldable pub write_headers : List (List ℕ × List ℕ) → Io (Unit {0})
write_headers [] = pure tt
write_headers ((key, value) ∷ headers) = do
  try_write key
  try_write (codes ": ")
  try_write value
  try_write (13 ∷ 10 ∷ [])
  write_headers headers

unfoldable pub named_status : ℕ → List ℕ → List ℕ
named_status code [] = codes "status code " ++ itoa code
named_status code (c ∷ text) = c ∷ text

unfoldable pub status_line : ℕ → List ℕ → List ℕ
status_line code text =
    codes "HTTP/1.1 " ++ (itoa code ++ (codes " " ++ (named_status code text ++ (13 ∷ 10 ∷ []))))

unfoldable pub established : List ℕ
established = codes "HTTP/1.1 200 Connection Established" ++ (13 ∷ 10 ∷ 13 ∷ 10 ∷ [])

-- The value of a CONNECT request without a port is the one of https.
unfoldable pub default_port : Request → List ℕ
default_port req =
    if text_eq req.scheme (codes "https") || req.is_connect then codes "443" else codes "80"

-- The host and the port of a request.
unfoldable pub host_and_port : Request → Option (List ℕ × List ℕ) → List ℕ × List ℕ
host_and_port req none = (req.host, default_port req)
host_and_port req (some parts) = parts

unfoldable pub int32 : ℤ → ℤ
int32 (pos n) =
    if ltb (n % 2 ^ 32) (2 ^ 31) then pos (n % 2 ^ 32) else negsuc (2 ^ 32 - 1 - n % 2 ^ 32)
int32 (negsuc n) =
    if ltb (n % 2 ^ 32) (2 ^ 31) then negsuc (n % 2 ^ 32) else pos (2 ^ 32 - 1 - n % 2 ^ 32)

abbrev pub tunnel_result : Option NetError → Io (Unit {0})
tunnel_result none = pure tt
tunnel_result (some e) = raise (net_error e.text)

module _ (s : Server) where
  -- `WriteHeader` and `Write`.
  unfoldable pub write_header : ℕ → ResponseWriter → Io ResponseWriter
  write_header code rw = if rw.written then pure rw else (do
    try_write (status_line code (s.status_text code))
    write_headers rw.headers
    try_write (13 ∷ 10 ∷ [])
    pure (record rw { status = code; written = true }))

  unfoldable pub write_body : List ℕ → ResponseWriter → Io (Unit {0})
  write_body body rw = do after ← write_header 200 rw; write body

  -- Go's `http.Error` on a new writer; its last write is not checked.
  unfoldable pub http_error : List ℕ → ℕ → Io (Unit {0})
  http_error text code = do
    rw ← write_header code (record new_response_writer {
      headers =
          (codes "Content-Type", codes "text/plain; charset=utf-8")
          ∷ (codes "X-Content-Type-Options", codes "nosniff")
          ∷ [];
    })
    catch (write_body (text ++ (10 ∷ [])) rw) λ e. pure tt

  -- What goes out before the tunnel: the answer to the client, or the request to the target.
  unfoldable pub opening : Request → Option (List ℕ) → Io (Unit {0})
  opening req target_error =
      if req.is_connect
      then write established
      else elim target_error [ none ↦ pure tt | some e ↦ raise (net_error e) ]

  unfoldable pub dialed : Request → Dialed → Io (Unit {0})
  dialed req (dial_error e) = do http_error e 503; raise (net_error e)
  dialed req (target target_error ending) = do
    opening req target_error
    tunnel_result (tunnel s.windows ending)

  -- `embedHandleHTTP`.
  unfoldable pub embed_handle_http : Request → Io (Unit {0})
  embed_handle_http req =
      let (host, port) = host_and_port req (split_host_port req.host) in
      closing (dialed req (s.proxy_dial (codes "tcp") (join_host_port host port)))

  -- The request for a handler, whose address is as it was given if it has a port.
  unfoldable pub handed_over :
      Request → Option (List ℕ × List ℕ) → Option ℤ → Handler → Io (Unit {0})
  handed_over req parts none handler = raise (net_error (codes "strconv.Atoi: parsing port"))
  handed_over req parts (some port) handler =
      let (host, port_text) = host_and_port req parts in
      handler (if req.is_connect then none else some req) (record {
        network = codes "tcp";
        destination = elim parts [ none ↦ join_host_port host port_text | some p ↦ req.host ];
        dest_host = host;
        dest_port = int32 port;
      })

  -- `handleHTTP`.
  unfoldable pub handle_http : Request → Io (Unit {0})
  handle_http req = elim s.user_connect_handle [
    | none ↦ embed_handle_http req
    | some handler ↦ do
      if req.is_connect then write established else pure tt
      handed_over req (split_host_port req.host)
          (atoi (host_and_port req (split_host_port req.host)).1) handler
  ]

  -- `ServeConn`.
  unfoldable pub serve_conn : Io (Unit {0})
  serve_conn = do req ← s.read_request; handle_http req
