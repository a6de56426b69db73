-- ===== src/Proxy/Socks4/Session.antt =====
-- Whole sessions of proxy/pkg/socks4, on well-formed and on truncated requests.
use mathlib.Core.List.{append_assoc, append-nil}
use vwarp.Prelude.{
  Bool, ℕ, suc, ◌%◌, ◌^◌, ◌<◌, ◌≡◌, ◌≢◌, refl, ◌∙◌, List, [], ◌∷◌, ◌++◌, Option, none, some, true,
  false, length, arith, ◌==◌, Bool-cases, inl, inr, ◌⊎◌,
}
use vwarp.Text.{codes, text_eq, text_eq_iff}
use vwarp.Text.Bytes.{has_byte}
use vwarp.Wire.{
  Conn, Result, ok, err, eof, Error, connect_failed, net_error, panicked, read_byte, write,
}
use vwarp.Wire.Laws.{fed, read_full-append, write_ok, IsEnd}
use vwarp.Wire.Reader.{IsReader, value, ended, reader_rules, cut_short}
use vwarp.Proxy.{Address}
use vwarp.Proxy.Ip.{to4, put_uint16}
use vwarp.Proxy.Tunnel.{NetError, tunnel}
use vwarp.Proxy.Socks5.Codec.{sent, uint16-put}
use vwarp.Proxy.Socks4.{
  Dialed, Server, dial_error, other_target, target, is_socks4a, is_none, connect_command, scan_zero,
  read_bytes, read_host, read_addr_and_user, write_addr, reply_ip, reply_port, ip4_of, send_reply,
  reply_or_fail, address_text, serve_conn, handle, handle_connect, embed_handle_connect, connected,
  read_failed, check_version, tunnel_result,
}

-- A request without its version: command, port, IP, user name, and the host name of SOCKS4a.
abbrev host_tail : Option (List ℕ) → List ℕ → List ℕ
host_tail (some ip) name = []
host_tail none name = name ++ (0 ∷ [])

abbrev wire_ip : Option (List ℕ) → List ℕ
wire_ip (some ip) = ip
wire_ip none = is_socks4a

abbrev pub target_form : Address → List ℕ → List ℕ
target_form a user = put_uint16 a.port ++ (wire_ip a.ip ++ (user ++ (0 ∷ host_tail a.ip a.name)))

-- Addresses that a request can carry: an IP of 4 bytes that is not the mark of SOCKS4a, or a name
-- with no zero byte.
abbrev IsHost : Option (List ℕ) → List ℕ → Type 0
IsHost (some ip) name = (length ip ≡ 4) × (ip ≢ is_socks4a) × (name ≡ [])
IsHost none name = has_byte name 0 ≡ false

abbrev pub IsTarget : Address → List ℕ → Type 0
IsTarget a user = (a.port < 2 ^ 16) × (has_byte user 0 ≡ false) × IsHost a.ip a.name

scan_zero-append :
    (buf xs rest : List ℕ) (c : Conn)
    → has_byte xs 0 ≡ false
    → scan_zero buf (xs ++ (0 ∷ rest)) c ≡ (ok (buf ++ xs), fed rest c)
unfolding scan_zero
scan_zero-append buf [] rest c h = rw append-nil
scan_zero-append buf (x ∷ xs) rest c h = elim (Bool-cases (x == 0)) [
  | inl is_zero ↦ absurd (ground arith)
  | inr other ↦
      rw other (scan_zero-append (buf ++ (x ∷ [])) xs rest c (ground arith) ∙ rw append_assoc)
]

-- The scan does not read the input field of its connection.
scan_zero-fed : (buf xs z : List ℕ) (c : Conn) → scan_zero buf xs (fed z c) ≡ scan_zero buf xs c
unfolding scan_zero
scan_zero-fed buf [] z c = refl
scan_zero-fed buf (x ∷ xs) z c = elim (Bool-cases (x == 0)) [
  | inl e ↦ rw e
  | inr e ↦ rw e (scan_zero-fed (buf ++ (x ∷ [])) xs z c)
]

scan_zero-cases :
    (buf xs : List ℕ) (c : Conn)
    → ((v : List ℕ) × (rest : List ℕ) × ((ys : List ℕ)
          → scan_zero buf (xs ++ ys) c ≡ (ok v, fed (rest ++ ys) c)))
      ⊎ (scan_zero buf xs c ≡ (err eof, fed [] c))
unfolding scan_zero
scan_zero-cases buf [] c = inr refl
scan_zero-cases buf (x ∷ xs) c = elim (Bool-cases (x == 0)) [
  | inl e ↦ inl (buf, xs, λ ys. rw e)
  | inr e ↦ elim (scan_zero-cases (buf ++ (x ∷ [])) xs c) [
    | inl (v, rest, h) ↦ inl (v, rest, λ ys. rw e (h ys))
    | inr h ↦ inr (rw e h)
  ]
]

read_bytes-IsReader : IsReader read_bytes
unfolding read_bytes
read_bytes-IsReader c xs = elim (scan_zero-cases [] xs c) [
  | inl (v, rest, h) ↦ value v rest (λ ys. scan_zero-fed [] (xs ++ ys) (xs ++ ys) c ∙ h ys)
  | inr h ↦ ended eof (inl refl) (scan_zero-fed [] xs xs c ∙ h)
]

read_host-IsReader : (port : ℕ) (ip user : List ℕ) → IsReader (read_host port ip user)
unfolding read_host
read_host-IsReader port ip user = search (reader_rules, read_bytes-IsReader) depth 8

read_addr_and_user-IsReader : IsReader read_addr_and_user
unfolding read_addr_and_user
read_addr_and_user-IsReader =
    search (reader_rules, read_bytes-IsReader, read_host-IsReader) depth 12

read_host_form :
    (a : Address) (user rest : List ℕ) (c : Conn)
    → IsHost a.ip a.name
    → read_host a.port (wire_ip a.ip) user (fed (host_tail a.ip a.name ++ rest) c)
      ≡ (ok (record { address = a; username = user }), fed rest c)
unfolding read_host read_bytes text_eq
read_host_form a user rest c h = by_host a.ip a.name h
  where
    by_host :
        (ip : Option (List ℕ)) (name : List ℕ)
        → IsHost ip name
        → read_host a.port (wire_ip ip) user (fed (host_tail ip name ++ rest) c) ≡ (
          ok (record { address = record { name = name; ip = ip; port = a.port }; username = user }),
          fed rest c,
        )
    by_host none name h =
        rw append_assoc (rw (scan_zero-append [] name rest (fed (name ++ (0 ∷ rest)) c) h))
    by_host (some ip) name h =
        let plain : text_eq ip is_socks4a ≡ false =
          ground (arith, text_eq_iff ip is_socks4a, h.1) in
        rw (plain, h.2)

-- Reading a request's target gives the address and the user name, and leaves what follows.
pub read_target_form :
    (a : Address) (user rest : List ℕ) (c : Conn)
    → IsTarget a user
    → read_addr_and_user (fed (target_form a user ++ rest) c)
      ≡ (ok (record { address = a; username = user }), fed rest c)
unfolding read_addr_and_user
read_target_form a user rest c (port_fits, no_zero, host) = rw (regroup) (
    rw (read_full-append 2 (put_uint16 a.port) after_port c (unfold put_uint16 in refl)) (
      rw (read_full-append 4 (wire_ip a.ip) after_ip c (ip_length a.ip a.name host))
        (rw (user_read) (rw (uint16-put a.port port_fits) (read_host_form a user rest c host)))))
  where
    after_ip : List ℕ
    after_ip = user ++ (0 ∷ (host_tail a.ip a.name ++ rest))

    after_port : List ℕ
    after_port = wire_ip a.ip ++ after_ip

    regroup : target_form a user ++ rest ≡ put_uint16 a.port ++ after_port
    regroup = simp append_assoc

    ip_length : (ip : Option (List ℕ)) (name : List ℕ) → IsHost ip name → length (wire_ip ip) ≡ 4
    ip_length none name h = refl
    ip_length (some ip) name h = h.0

    user_read : read_bytes (fed after_ip c) ≡ (ok user, fed (host_tail a.ip a.name ++ rest) c)
    user_read =
        unfold read_bytes in
        scan_zero-append [] user (host_tail a.ip a.name ++ rest) (fed after_ip c) no_zero

-- The end of a session by `closing`.
abbrev pub shut : Conn → Conn
shut c = record c { closed = true }

-- The reply of eight bytes that carries no address.
abbrev pub reply_form : ℕ → List ℕ
reply_form code = 0 ∷ code ∷ 0 ∷ 0 ∷ 0 ∷ 0 ∷ 0 ∷ 0 ∷ []

abbrev pub tunnel_outcome : Option NetError → Result (Unit {0})
tunnel_outcome none = ok tt
tunnel_outcome (some e) = err (net_error e.text)

tunnel_result-eq : (o : Option NetError) (c : Conn) → tunnel_result o c ≡ (tunnel_outcome o, c)
tunnel_result-eq none c = refl
tunnel_result-eq (some e) c = refl

to4-short : (ip : List ℕ) → length ip ≡ 4 → to4 ip ≡ some ip
unfolding to4
to4-short ip h = rw h

-- What a reply says of a local address: its port, and its IPv4 form, or zeros where it has none.
ip4_bytes : Option (List ℕ) → List ℕ
ip4_bytes none = 0 ∷ 0 ∷ 0 ∷ 0 ∷ []
ip4_bytes (some ip4) = ip4

local_ip4 : Option (List ℕ) → List ℕ
local_ip4 none = 0 ∷ 0 ∷ 0 ∷ 0 ∷ []
local_ip4 (some ip) = ip4_bytes (to4 ip)

unfoldable pub local_form : Address → List ℕ
unfolding local_ip4 ip4_bytes
local_form a = put_uint16 (a.port % 2 ^ 16) ++ local_ip4 a.ip

reply_ip-local :
    (name : List ℕ) (ip : Option (List ℕ)) (port : ℕ)
    → reply_ip (some (record { name = name; ip = ip; port = port })) ≡ local_ip4 ip
unfolding reply_ip local_ip4 ip4_of ip4_bytes
reply_ip-local name none port = refl
reply_ip-local name (some ip) port = by_form (to4 ip)
  where
    by_form : (o : Option (List ℕ)) → elim o [ none ↦ is_none | some ip4 ↦ ip4 ] ≡ ip4_bytes o
    by_form none = refl
    by_form (some ip4) = refl

write_local :
    (a : Address) (c : Conn) (k : ℕ)
    → c.writes_left ≡ suc (suc k)
    → write_addr (some a) c ≡ (ok tt, sent (local_form a) k c)
unfolding write_addr reply_port local_form
write_local a c k e = rw (write_ok (put_uint16 (a.port % 2 ^ 16)) c (suc k) e) (
    rw (reply_ip-local a.name a.ip a.port) (
      rw (write_ok (local_ip4 a.ip) (sent (put_uint16 (a.port % 2 ^ 16)) (suc k) c) k refl)
        (simp append_assoc)))

-- What a session does after a well-formed CONNECT request, by what the dial gives.
abbrev pub connect_outcome : Bool → List ℕ → Conn → ℕ → Dialed → Result (Unit {0}) × Conn
connect_outcome w rest c k (dial_error e) =
    (err (connect_failed (net_error e)), shut (fed rest (sent (reply_form 0x5b) k c)))
connect_outcome w rest c k other_target = (panicked, shut (fed rest c))
connect_outcome w rest c k (target bind t) =
    (tunnel_outcome (tunnel w t), shut (fed rest (sent (0 ∷ 0x5a ∷ local_form bind) k c)))

module _ (s : Server) where
  serve_conn-handle :
      (cmd : ℕ) (a : Address) (user rest : List ℕ) (c : Conn)
      → IsTarget a user
      → serve_conn s (fed (4 ∷ cmd ∷ (target_form a user ++ rest)) c)
        ≡ handle s (record { command = cmd; destination_addr = a; username = user }) (fed rest c)
  unfolding serve_conn check_version read_byte
  serve_conn-handle cmd a user rest c h = rw (read_target_form a user rest c h)

  connect_handled :
      (a : Address) (user rest : List ℕ) (c : Conn) (k : ℕ) (d : Dialed)
      → s.user_connect_handle ≡ none
      → c.writes_left ≡ suc (suc (suc k))
      → s.proxy_dial (codes "tcp") (address_text s a) ≡ d
      → handle s
          (record { command = connect_command; destination_addr = a; username = user })
          (fed rest c)
        ≡ connect_outcome s.windows rest c k d
  connect_handled a user rest c k (dial_error x) no_handler e dialed =
      unfold handle handle_connect embed_handle_connect connected reply_or_fail send_reply
        write_addr write put_uint16 in
      rw (no_handler, handle_connect) (rw dialed (rw (e, write) (simp append_assoc)))
  connect_handled a user rest c k other_target no_handler e dialed =
      unfold handle handle_connect embed_handle_connect connected in
      rw (no_handler, handle_connect) (rw dialed refl)
  connect_handled a user rest c k (target bind t) no_handler e dialed =
      unfold handle handle_connect embed_handle_connect connected reply_or_fail send_reply in
      rw (no_handler, handle_connect)
        (rw dialed (
          rw (write_ok (0 ∷ 0x5a ∷ []) (fed rest c) (suc (suc k)) e) (
            rw (write_local bind (sent (0 ∷ 0x5a ∷ []) (suc (suc k)) (fed rest c)) k refl)
              (rw (tunnel_result-eq (tunnel s.windows t) _) (simp append_assoc)))))

  -- A well-formed CONNECT request on a server with no user handler, whose client takes the writes of a
  -- reply, where `d` is what the dialer gives when it is called with "tcp" and the printed form of the
  -- address that was sent. If it fails, the client gets the reply 0x5b. If it gives a connection whose
  -- local address is none of TCP, the session panics with nothing answered. Otherwise the client gets
  -- 0x5a with the port modulo 2^16 and the IP of the local address, in its IPv4 form, or zeros where it
  -- has none, and the session ends as the tunnel does. In each case the bytes behind the request are left
  -- unread and the connection is closed.
  pub serve_connect :
      (a : Address) (user rest : List ℕ) (c : Conn) (k : ℕ) (d : Dialed)
      → IsTarget a user
      → s.user_connect_handle ≡ none
      → c.writes_left ≡ suc (suc (suc k))
      → s.proxy_dial (codes "tcp") (address_text s a) ≡ d
      → serve_conn s (fed (4 ∷ connect_command ∷ (target_form a user ++ rest)) c)
        ≡ connect_outcome s.windows rest c k d
  serve_connect a user rest c k d h no_handler e dialed =
      serve_conn-handle connect_command a user rest c h
      ∙ connect_handled a user rest c k d no_handler e dialed

  -- A request that is cut short anywhere behind its command is answered by the reply 0x5b and ends with
  -- an end-of-input error.
  pub serve_truncated :
      (cmd : ℕ) (a : Address) (user front : List ℕ) (x : ℕ) (back : List ℕ) (c : Conn) (k : ℕ)
      → IsTarget a user
      → target_form a user ≡ front ++ (x ∷ back)
      → c.writes_left ≡ suc (suc (suc k))
      → (e : Error) × IsEnd e
        × (serve_conn s (fed (4 ∷ cmd ∷ front) c) ≡ (err e, fed [] (sent (reply_form 0x5b) k c)))
  unfolding serve_conn check_version read_byte read_failed reply_or_fail send_reply write_addr write
      put_uint16
  serve_truncated cmd a user front x back c k h e w =
      let whole : read_addr_and_user (fed (front ++ (x ∷ back)) c)
          ≡ (ok (record { address = a; username = user }), fed [] c) =
        rw (← e) (rw append-nil at (read_target_form a user [] c h)) in
      let (er, end, failed) =
        cut_short read_addr_and_user _ front x back c read_addr_and_user-IsReader whole in
      (er, end, rw failed (rw (w, write) (simp append_assoc)))
