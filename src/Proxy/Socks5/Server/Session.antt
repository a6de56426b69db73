-- ===== src/Proxy/Socks5/Server/Session.antt =====
-- Whole sessions of proxy/pkg/socks5/server.go, from the greeting on.
use mathlib.Core.List.{append_assoc}
use vwarp.Prelude.{
  Bool, ℕ, suc, ◌≡◌, ◌≢◌, refl, ◌∙◌, List, [], ◌∷◌, ◌++◌, Option, none, some, true, false, length,
  arith, Bool-cases, inl, inr, ◌==◌,
}
use vwarp.Text.{codes}
use vwarp.Text.Bytes.{has_byte, index_byte}
use vwarp.Wire.{
  not_inet_addr, Conn, Result, ok, err, unsupported_version, unsupported_command, no_supported_auth,
  connect_failed, net_error, read_byte, write,
}
use vwarp.Wire.Laws.{fed, read_full-append, write_ok}
use vwarp.Proxy.{Address}
use vwarp.Proxy.Tunnel.{NetError, tunnel}
use vwarp.Proxy.Socks5.{
  connect_command, associate_command, read_bytes, send_reply, write_addr, address_text,
  err_to_reply,
}
use vwarp.Proxy.Socks5.Codec.{
  IsAddress, canonical, address_form, read_addr_form, write_addr_form, sent,
}
use vwarp.Proxy.Socks5.Server.{
  Dialed, Server, dial_error, target, serve_conn, check_version, negotiate, read_command, handle,
  handle_connect, embed_handle_connect, connected, reply_or_fail, tunnel_result,
}

-- The greeting with its list of methods, and the request behind it.
abbrev pub greeting : List ℕ → List ℕ
greeting methods = 5 ∷ length methods ∷ methods

abbrev pub request_form : ℕ → Address → List ℕ
request_form cmd a = 5 ∷ cmd ∷ 0 ∷ address_form a

-- The end of a session by `closing`.
abbrev pub shut : Conn → Conn
shut c = record c { closed = true }

-- A reply with no address.
abbrev pub refusal_form : ℕ → List ℕ
refusal_form code = 5 ∷ code ∷ 0 ∷ 1 ∷ 0 ∷ 0 ∷ 0 ∷ 0 ∷ 0 ∷ 0 ∷ []

-- How a session ends by the error of its tunnel.
abbrev pub tunnel_outcome : Option NetError → Result (Unit {0})
tunnel_outcome none = ok tt
tunnel_outcome (some e) = err (net_error e.text)

tunnel_result-eq : (o : Option NetError) (c : Conn) → tunnel_result o c ≡ (tunnel_outcome o, c)
tunnel_result-eq none c = refl
tunnel_result-eq (some e) c = refl

read_methods :
    (methods rest : List ℕ) (c : Conn)
    → read_bytes (fed (length methods ∷ (methods ++ rest)) c) ≡ (ok methods, fed rest c)
unfolding read_bytes read_byte
read_methods methods rest c = read_full-append (length methods) methods rest c refl

index_byte-none : (xs : List ℕ) (b : ℕ) → has_byte xs b ≡ false → index_byte xs b ≡ none
unfolding index_byte
index_byte-none [] b h = refl
index_byte-none (x ∷ xs) b h = ground (arith, index_byte-none xs b)

index_byte-some :
    (xs : List ℕ) (b : ℕ) → has_byte xs b ≡ true → (i : ℕ) × (index_byte xs b ≡ some i)
unfolding index_byte
index_byte-some [] b h = cc
index_byte-some (x ∷ xs) b h = elim (Bool-cases (x == b)) [
  | inl here ↦ (0, rw here)
  | inr later ↦ let (i, e) = index_byte-some xs b (ground arith) in (suc i, rw later (rw e))
]

-- What is asked of a connection that was dialled: a local address that fits a reply.
abbrev pub BindAddress : Dialed → Type 0
BindAddress (dial_error e) = Unit
BindAddress (target none t) = Unit
BindAddress (target (some bind) t) = IsAddress bind

-- How a CONNECT session ends, by what the dialer gave.
abbrev pub connect_outcome : Bool → List ℕ → Conn → ℕ → Dialed → Result (Unit {0}) × Conn
connect_outcome windows rest c k (dial_error e) = (
  err (connect_failed (net_error e)),
  shut (fed rest (sent ((5 ∷ 0 ∷ []) ++ refusal_form (err_to_reply (some e))) (suc (suc k)) c)),
)
connect_outcome windows rest c k (target none t) = (
  err (connect_failed not_inet_addr),
  shut (fed rest (sent (5 ∷ 0 ∷ []) (suc (suc (suc (suc k)))) c)),
)
connect_outcome windows rest c k (target (some bind) t) = (
  tunnel_outcome (tunnel windows t),
  shut (fed rest (sent ((5 ∷ 0 ∷ []) ++ (5 ∷ 0 ∷ 0 ∷ address_form bind)) k c)),
)

module _ (s : Server) where
  negotiated :
      (methods : List ℕ) (c : Conn) (k : ℕ)
      → has_byte methods 0 ≡ true
      → c.writes_left ≡ suc k
      → negotiate s methods c ≡ (ok tt, sent (5 ∷ 0 ∷ []) k c)
  unfolding negotiate
  negotiated methods c k h e =
      let (i, found) = index_byte-some methods 0 h in
      rw (found, negotiate) (write_ok (5 ∷ 0 ∷ []) c k e)

  refused :
      (methods : List ℕ) (c : Conn) (k : ℕ)
      → has_byte methods 0 ≡ false
      → c.writes_left ≡ suc k
      → negotiate s methods c ≡ (err no_supported_auth, sent (5 ∷ 255 ∷ []) k c)
  unfolding negotiate
  refused methods c k h e =
      rw (index_byte-none methods 0 h, negotiate) (rw (write_ok (5 ∷ 255 ∷ []) c k e))

  -- A greeting that offers no authentication and a well-formed request reach the handler of the
  -- command with the address that was sent.
  pub serve_conn-handle :
      (methods : List ℕ) (cmd : ℕ) (a : Address) (rest : List ℕ) (c : Conn) (k : ℕ)
      → has_byte methods 0 ≡ true
      → IsAddress a
      → c.writes_left ≡ suc k
      → serve_conn s (fed (greeting methods ++ (request_form cmd a ++ rest)) c)
        ≡ handle s
            (record { command = cmd; destination_addr = canonical a })
            (fed rest (sent (5 ∷ 0 ∷ []) k c))
  unfolding serve_conn check_version read_command read_byte
  serve_conn-handle methods cmd a rest c k h ha e =
      rw (read_methods methods (request_form cmd a ++ rest) c) (
        rw (negotiated methods (fed (request_form cmd a ++ rest) c) k h e) (
          rw
            (read_full-append 3 (5 ∷ cmd ∷ 0 ∷ []) (address_form a ++ rest) (sent (5 ∷ 0 ∷ []) k c)
              refl)
            (rw (read_addr_form a rest (sent (5 ∷ 0 ∷ []) k c) ha))))

  -- The ways in which a session ends before its request is handled, on a connection where a write
  -- succeeds. A wrong version gets no answer; a greeting without the method "no authentication" gets
  -- the bytes 5 and 255 and nothing behind it is read; both whatever the server's functions are.
  pub serve_conn-refusals :
      (v : ℕ) (methods rest : List ℕ) (c : Conn) (k : ℕ)
      → c.writes_left ≡ suc k
      → v ≢ 5
      → has_byte methods 0 ≡ false
      → (serve_conn s (fed (v ∷ rest) c) ≡ (err (unsupported_version v), fed rest c))
        × (serve_conn s (fed (greeting methods ++ rest) c)
            ≡ (err no_supported_auth, fed rest (sent (5 ∷ 255 ∷ []) k c)))
  unfolding serve_conn check_version read_byte
  serve_conn-refusals v methods rest c k e ne h =
      (ground arith, rw (read_methods methods rest c) (rw (refused methods (fed rest c) k h e)))

  -- A request with a command that is neither CONNECT nor ASSOCIATE is answered by the reply 7, with
  -- the IPv4 address 0.0.0.0 and port 0, and fails.
  pub serve_conn-unknown_command :
      (methods : List ℕ) (cmd : ℕ) (a : Address) (rest : List ℕ) (c : Conn) (k : ℕ)
      → has_byte methods 0 ≡ true
      → IsAddress a
      → cmd ≢ connect_command
      → cmd ≢ associate_command
      → c.writes_left ≡ suc (suc (suc k))
      → serve_conn s (fed (greeting methods ++ (request_form cmd a ++ rest)) c) ≡ (
        err (unsupported_command cmd),
        fed rest (sent ((5 ∷ 0 ∷ []) ++ (5 ∷ 7 ∷ 0 ∷ 1 ∷ 0 ∷ 0 ∷ 0 ∷ 0 ∷ 0 ∷ 0 ∷ [])) k c),
      )
  serve_conn-unknown_command methods cmd a rest c k h ha n1 n2 e =
      let c1 : (cmd == connect_command) ≡ false = ground arith in
      let c2 : (cmd == associate_command) ≡ false = ground arith in
      serve_conn-handle methods cmd a rest c (suc (suc k)) h ha e
      ∙ (unfold handle send_reply write_addr write in
          rw (c1, handle) (rw (c2, handle) (simp append_assoc)))

  connect_handled :
      (a : Address) (rest : List ℕ) (c : Conn) (k : ℕ) (d : Dialed)
      → s.user_connect_handle ≡ none
      → BindAddress d
      → s.proxy_dial (codes "tcp") (address_text s.ip_string (canonical a)) ≡ d
      → handle s
          (record { command = connect_command; destination_addr = canonical a })
          (fed rest (sent (5 ∷ 0 ∷ []) (suc (suc (suc (suc k)))) c))
        ≡ connect_outcome s.windows rest c k d
  connect_handled a rest c k (dial_error x) no_handler hb dialed =
      unfold handle handle_connect embed_handle_connect connected reply_or_fail send_reply
        write_addr write in
      rw (no_handler, handle_connect) (rw dialed (simp append_assoc))
  connect_handled a rest c k (target none t) no_handler hb dialed =
      unfold handle handle_connect embed_handle_connect connected in
      rw (no_handler, handle_connect) (rw dialed refl)
  connect_handled a rest c k (target (some bind) t) no_handler hb dialed =
      unfold handle handle_connect embed_handle_connect connected reply_or_fail send_reply write in
      rw (no_handler, handle_connect)
        (rw dialed (
          rw
            (write_addr_form bind
              (sent (5 ∷ 0 ∷ 0 ∷ []) (suc (suc (suc k)))
                (fed rest (sent (5 ∷ 0 ∷ []) (suc (suc (suc (suc k)))) c)))
              k hb refl)
            (rw (tunnel_result-eq (tunnel s.windows t) _) (simp append_assoc))))

  -- A well-formed CONNECT session on a server with no user handler, where `d` is what the dialer gives
  -- when it is called with "tcp" and the printed form of the address that was sent. If it fails, the
  -- client gets a reply with the code of the error's text and the address 0.0.0.0:0; if it gives a
  -- connection with no TCP address, the client gets no reply; if it gives one with a TCP address, the
  -- client gets the reply 0 with that address, and the session ends as the tunnel does. On every path
  -- the bytes behind the request are left for the tunnel and the connection is closed.
  pub serve_conn-connect :
      (methods : List ℕ) (a : Address) (rest : List ℕ) (c : Conn) (k : ℕ) (d : Dialed)
      → has_byte methods 0 ≡ true
      → IsAddress a
      → s.user_connect_handle ≡ none
      → c.writes_left ≡ suc (suc (suc (suc (suc k))))
      → BindAddress d
      → s.proxy_dial (codes "tcp") (address_text s.ip_string (canonical a)) ≡ d
      → serve_conn s (fed (greeting methods ++ (request_form connect_command a ++ rest)) c)
        ≡ connect_outcome s.windows rest c k d
  serve_conn-connect methods a rest c k d h ha no_handler e hb dialed =
      serve_conn-handle methods connect_command a rest c _ h ha e
      ∙ connect_handled a rest c k d no_handler hb dialed
