-- ===== src/Proxy/Http/Session.antt =====
-- What `ServeConn` of proxy/pkg/http/server.go does with a request when there is no user handler.
use vwarp.Prelude.{
  ℕ, suc, ◌≡◌, refl, ap, ◌∙◌, Bool, true, false, List, [], ◌∷◌, ◌++◌, Option, none, some,
}
use mathlib.Core.List.{append_assoc}
use vwarp.Text.{codes, text_eq}
use vwarp.Text.Bytes.{has_byte}
use vwarp.Text.Decimal.{itoa}
use vwarp.Text.HostPort.{join_host_port, split_host_port, IsPart, split-join, split_host_port-none}
use vwarp.Wire.{Conn, Io, Result, ok, err, net_error, closing, write}
use vwarp.Proxy.Tunnel.{NetError, tunnel}
use vwarp.Proxy.Http.{
  Request, Dialed, dial_error, target, Server, embed_handle_http, handle_http, serve_conn, dialed,
  opening, http_error, write_header, write_headers, write_body, try_write, status_line,
  named_status, established, host_and_port, default_port, tunnel_result,
}

abbrev pub server : (List ℕ → List ℕ → Dialed) → Io Request → (ℕ → List ℕ) → Bool → Server
server dial read_request status_text windows = record {
  proxy_dial = dial;
  user_connect_handle = none;
  windows = windows;
  read_request = read_request;
  status_text = status_text;
}

abbrev pub open_conn : List ℕ → List ℕ → ℕ → Conn
open_conn input output writes = record {
  input = input;
  output = output;
  writes_left = writes;
  closed = false;
}

abbrev pub closed_conn : List ℕ → List ℕ → ℕ → Conn
closed_conn input output writes = record {
  input = input;
  output = output;
  writes_left = writes;
  closed = true;
}

-- The page that announces a failed dial, for the text of the status.
abbrev pub failure_page : List ℕ → List ℕ → List ℕ
failure_page status text =
    codes "HTTP/1.1 503 "
    ++ (status
        ++ (13
            ∷ 10
            ∷ (codes "Content-Type: text/plain; charset=utf-8"
                ++ (13
                    ∷ 10
                    ∷ (codes "X-Content-Type-Options: nosniff"
                        ++ (13 ∷ 10 ∷ 13 ∷ 10 ∷ (text ++ (10 ∷ []))))))))

-- The writes of the page.
abbrev pub ten_more : ℕ → ℕ
ten_more k = suc (suc (suc (suc (suc (suc (suc (suc (suc (suc k)))))))))

abbrev pub eleven_more : ℕ → ℕ
eleven_more k = suc (suc (suc (suc (suc (suc (suc (suc (suc (suc (suc k))))))))))

abbrev pub result_of : Option NetError → Result (Unit {0})
result_of none = ok tt
result_of (some e) = err (net_error e.text)

-- What a client of a CONNECT request gets, by the outcome of the dial.
unfoldable pub connect_outcome :
    Bool → List ℕ → List ℕ → List ℕ → ℕ → Dialed → Result (Unit {0}) × Conn
connect_outcome windows status input output k (dial_error e) =
    (err (net_error e), closed_conn input (output ++ failure_page status e) k)
connect_outcome windows status input output k (target e ending) =
    (result_of (tunnel windows ending), closed_conn input (output ++ established) (ten_more k))

-- The same for any other request, whose answer is left to the tunnel.
unfoldable pub plain_outcome :
    Bool → List ℕ → List ℕ → List ℕ → ℕ → Dialed → Result (Unit {0}) × Conn
plain_outcome windows status input output k (dial_error e) =
    (err (net_error e), closed_conn input (output ++ failure_page status e) k)
plain_outcome windows status input output k (target (some e) ending) =
    (err (net_error e), closed_conn input output (eleven_more k))
plain_outcome windows status input output k (target none ending) =
    (result_of (tunnel windows ending), closed_conn input output (eleven_more k))

tunnelled : (r : Option NetError) (c : Conn) → tunnel_result r c ≡ (result_of r, c)
tunnelled none c = refl
tunnelled (some e) c = refl

module _ (dial : List ℕ → List ℕ → Dialed) (read_request : Io Request) (status_text : ℕ → List ℕ)
    (windows : Bool) where
  -- Eleven writes.
  dialed_error :
      (req : Request) (e input output : List ℕ) (k s : ℕ) (status : List ℕ)
      → status_text 503 ≡ s ∷ status
      → dialed
          (server dial read_request status_text windows)
          req
          (dial_error e)
          (open_conn input output (eleven_more k))
        ≡ (err (net_error e), open_conn input (output ++ failure_page (s ∷ status) e) k)
  unfolding dialed http_error write_header write_headers write_body try_write status_line
      named_status write itoa
  dialed_error req e input output k s status h = rw h (simp (append_assoc))

  connect_dialed :
      (host scheme : List ℕ) (printed : Option (List ℕ)) (input output : List ℕ) (k s : ℕ)
      (status : List ℕ) (d : Dialed)
      → status_text 503 ≡ s ∷ status
      → closing
          (dialed
            (server dial read_request status_text windows)
            (record { is_connect = true; host = host; scheme = scheme; printed = printed })
            d)
          (open_conn input output (eleven_more k))
        ≡ connect_outcome windows (s ∷ status) input output k d
  unfolding connect_outcome dialed opening write
  connect_dialed host scheme printed input output k s status (dial_error e) h = rw (
      dialed_error (record { is_connect = true; host = host; scheme = scheme; printed = printed }) e
        input output k s status h)
  connect_dialed host scheme printed input output k s status (target e ending) h =
      rw (tunnelled (tunnel windows ending) (open_conn input (output ++ established) (ten_more k)))

  plain_dialed :
      (host scheme : List ℕ) (printed : Option (List ℕ)) (input output : List ℕ) (k s : ℕ)
      (status : List ℕ) (d : Dialed)
      → status_text 503 ≡ s ∷ status
      → closing
          (dialed
            (server dial read_request status_text windows)
            (record { is_connect = false; host = host; scheme = scheme; printed = printed })
            d)
          (open_conn input output (eleven_more k))
        ≡ plain_outcome windows (s ∷ status) input output k d
  unfolding plain_outcome dialed opening
  plain_dialed host scheme printed input output k s status (dial_error e) h = rw (
      dialed_error (record { is_connect = false; host = host; scheme = scheme; printed = printed })
        e input output k s status h)
  plain_dialed host scheme printed input output k s status (target none ending) h =
      rw (tunnelled (tunnel windows ending) (open_conn input output (eleven_more k)))
  plain_dialed host scheme printed input output k s status (target (some e) ending) h = refl

  -- Which address is dialled.
  embed-address :
      (req : Request) (parts : List ℕ × List ℕ) (c : Conn)
      → host_and_port req (split_host_port req.host) ≡ parts
      → embed_handle_http (server dial read_request status_text windows) req c
        ≡ closing
            (dialed
              (server dial read_request status_text windows)
              req
              (dial (codes "tcp") (join_host_port parts.0 parts.1)))
            c
  unfolding embed_handle_http
  embed-address req parts c e = rw e

  -- A CONNECT request whose host is a host with a port, both without brackets, the port without a
  -- colon, on a connection that takes eleven more writes: what is dialled is that host with that port.
  -- If the dial fails, the client gets the page of status 503 with the text of the error and nothing
  -- else; if not, it gets the line that the connection is established, and the result is the one of the
  -- tunnel. In both cases the connection is closed.
  pub serve_conn-tunnelled :
      (host port scheme : List ℕ) (printed : Option (List ℕ)) (c : Conn) (input output : List ℕ)
      (k s : ℕ) (status : List ℕ)
      → IsPart host
      → IsPart port
      → has_byte port b':' ≡ false
      → read_request c ≡ (
        ok (record {
          is_connect = true;
          host = join_host_port host port;
          scheme = scheme;
          printed = printed;
        }),
        open_conn input output (eleven_more k),
      )
      → status_text 503 ≡ s ∷ status
      → serve_conn (server dial read_request status_text windows) c
        ≡ connect_outcome windows
            (s ∷ status)
            input
            output
            k
            (dial (codes "tcp") (join_host_port host port))
  unfolding serve_conn handle_http host_and_port
  serve_conn-tunnelled host port scheme printed c input output k s status hh hp colon e h = rw e (
      embed-address
        (record {
          is_connect = true;
          host = join_host_port host port;
          scheme = scheme;
          printed = printed;
        })
        (host, port) (open_conn input output (eleven_more k))
        (ap (host_and_port _) (split-join port hp colon host hh))
      ∙ connect_dialed (join_host_port host port) scheme printed input output k s status
          (dial (codes "tcp") (join_host_port host port)) h)

  -- A request of another method, to a host without a colon and over a scheme that is not https, on a
  -- connection that takes eleven more writes: port 80 of the host is dialled. If the dial fails, the
  -- client gets the page of status 503; if the request cannot be written to the target, the client gets
  -- nothing and the error is returned; if it can, the result is the one of the tunnel. In all cases the
  -- connection is closed.
  pub serve_conn-plain :
      (host scheme : List ℕ) (printed : Option (List ℕ)) (c : Conn) (input output : List ℕ)
      (k s : ℕ) (status : List ℕ)
      → has_byte host b':' ≡ false
      → text_eq scheme (codes "https") ≡ false
      → read_request c ≡ (
        ok (record { is_connect = false; host = host; scheme = scheme; printed = printed }),
        open_conn input output (eleven_more k),
      )
      → status_text 503 ≡ s ∷ status
      → serve_conn (server dial read_request status_text windows) c
        ≡ plain_outcome windows
            (s ∷ status)
            input
            output
            k
            (dial (codes "tcp") (host ++ codes ":80"))
  unfolding serve_conn handle_http host_and_port default_port join_host_port
  serve_conn-plain host scheme printed c input output k s status colon other e h = rw e (
      embed-address (record { is_connect = false; host = host; scheme = scheme; printed = printed })
        (host, codes "80") (open_conn input output (eleven_more k))
        (rw (split_host_port-none host colon, other))
      ∙ (rw colon (
          plain_dialed host scheme printed input output k s status
            (dial (codes "tcp") (host ++ codes ":80")) h)))
