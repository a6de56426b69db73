-- ===== src/Proxy/Socks5/Relay/Named.antt =====
-- Datagrams to a domain name in the UDP relay of proxy/pkg/socks5/server.go.
use vwarp.Prelude.{
  ℕ, ◌≤◌, ◌≡◌, ◌≢◌, refl, ◌∙◌, sym, ◌⊎◌, List, [], ◌∷◌, ◌++◌, Option, none, some, true, false,
  length, arith, ltb, Bool-cases, inl, inr,
}
use vwarp.Text.{text_eq, text_eq_iff}
use vwarp.Text.Bytes.{has_byte}
use vwarp.Text.HostPort.{join_host_port}
use vwarp.Wire.{ok}
use vwarp.Wire.Laws.{fed}
use vwarp.Proxy.{Address}
use vwarp.Proxy.Socks5.{address_text}
use vwarp.Proxy.Socks5.Codec.{
  IsAddress, IsHost, canonical, canonical_ip, shortest-length, address_form, read_addr_form,
}
use vwarp.Proxy.Socks5.Relay.{
  Datagram, Relay, idle, buffer, skip, relay_step, from_source, parsed, to_known, pin,
}
use vwarp.Proxy.Socks5.Relay.Forward.{IpText, text_eq_refl}

head_differs : (x y : ℕ) (xs ys : List ℕ) → x ≢ y → x ∷ xs ≢ y ∷ ys
head_differs x y xs ys h e = ground arith

ne_nil_of_length : (s : List ℕ) → 1 ≤ length s → s ≢ []
ne_nil_of_length [] h e = absurd (omega arith)
ne_nil_of_length (c ∷ s) h e = cc

join-cases :
    (host port : List ℕ)
    → (join_host_port host port ≡ b'[' ∷ (host ++ (b']' ∷ b':' ∷ port)))
      ⊎ ((has_byte host b':' ≡ false) × (join_host_port host port ≡ host ++ (b':' ∷ port)))
unfolding join_host_port
join-cases host port = elim (Bool-cases (has_byte host b':')) [
  | inl colon ↦ inl (rw colon)
  | inr plain ↦ inr (plain, rw plain)
]

join_empty : (port : List ℕ) → join_host_port [] port ≡ b':' ∷ port
unfolding join_host_port
join_empty port = refl

join-ne_empty :
    (host port port' : List ℕ) → host ≢ [] → join_host_port host port ≢ join_host_port [] port'
join-ne_empty [] port port' h e = h refl
join-ne_empty (c ∷ host) port port' h e = elim (join-cases (c ∷ host) port) [
  | inl bracketed ↦ head_differs b'[' b':' _ _ (omega arith) (sym bracketed ∙ e ∙ join_empty port')
  | inr (plain, joined) ↦ head_differs c b':' _ _ (ground arith) (sym joined ∙ e ∙ join_empty port')
]

-- The state in which a name leaves the relay: its target has no IP.
abbrev pub pinned : List ℕ → ℕ → Relay
pinned client port = record {
  source = some client;
  target = some (record { name = []; ip = none; port = port });
  reply_prefix = none;
}

abbrev pub request : List ℕ → ℕ → ℕ → ℕ → Address → List ℕ → Datagram
request client x y z a payload = record {
  sender = client;
  bytes = x ∷ y ∷ z ∷ (address_form a ++ payload);
  write_ok = true;
}

module _ (ip_string : List ℕ → List ℕ) (parse_ip : List ℕ → Option (List ℕ)) where
  module _ (law : IpText ip_string parse_ip) where
    -- No address that the wire carries prints like a UDP address with no IP.
    text-ne_nil :
        (a : Address) (port : ℕ)
        → IsHost a.ip a.name
        → address_text ip_string a
          ≢ address_text ip_string (record { name = []; ip = none; port = port })
    unfolding address_text
    text-ne_nil a port h = by_host a.ip a.name h
      where
        by_host :
            (ip : Option (List ℕ)) (name : List ℕ)
            → IsHost ip name
            → address_text ip_string (record { name = name; ip = ip; port = a.port })
              ≢ address_text ip_string (record { name = []; ip = none; port = port })
        by_host none name h = join-ne_empty name _ _ (ne_nil_of_length name h.0)
        by_host (some []) name h = absurd (omega arith)
        by_host (some (b ∷ bs)) name h = join-ne_empty (ip_string (b ∷ bs)) _ _ (law.not_empty _)

    canonical-IsHost : (a : Address) → IsHost a.ip a.name → IsHost (canonical a).ip a.name
    canonical-IsHost a h = by_ip a.ip h
      where
        by_ip : (ip : Option (List ℕ)) → IsHost ip a.name → IsHost (canonical_ip ip) a.name
        by_ip none h = h
        by_ip (some ip) h = (shortest-length ip h.0, h.1)

    -- A parsed datagram, once a target with no IP is known, is dropped.
    dropped :
        (client : List ℕ) (p : Datagram) (port : ℕ) (a : Address) (payload : List ℕ)
        → IsHost a.ip a.name
        → to_known ip_string parse_ip p a (record { name = []; ip = none; port = port }) payload
          ≡ skip
    unfolding to_known
    dropped client p port a payload h =
        let nil : Address = record { name = []; ip = none; port = port } in
        let differ : text_eq (address_text ip_string a) (address_text ip_string nil) ≡ false =
          ground (
            arith,
            text_eq_iff (address_text ip_string a) (address_text ip_string nil),
            text-ne_nil a port h,
          ) in
        rw differ

    read_step :
        (s : Relay) (client : List ℕ) (x y z : ℕ) (a : Address) (payload : List ℕ)
        → IsAddress a
        → from_source ip_string parse_ip s (request client x y z a payload)
          ≡ parsed ip_string parse_ip s
              (request client x y z a payload)
              (ok (canonical a))
              (fed payload (buffer [] []))
    unfolding from_source
    read_step s client x y z a payload h =
        let long : ltb (length (x ∷ y ∷ z ∷ (address_form a ++ payload))) 3 ≡ false =
          ground arith in
        rw long (rw (read_addr_form a payload (buffer [] []) h))

    -- The first datagram of a client, if it is for a domain name, is dropped, and so is every later
    -- datagram of the same client that carries a valid address, whatever the address and its port.
    pub relay_named_blocked :
        (client : List ℕ) (x y z : ℕ) (name : List ℕ) (port : ℕ) (payload : List ℕ)
        → IsAddress (record { name = name; ip = none; port = port })
        → (relay_step ip_string parse_ip idle
              (request client x y z (record { name = name; ip = none; port = port }) payload)
            ≡ (pinned client port, skip))
          × ((x' y' z' : ℕ) (a : Address) (payload' : List ℕ)
              → IsAddress a
              → relay_step ip_string parse_ip
                  (pinned client port)
                  (request client x' y' z' a payload')
                ≡ (pinned client port, skip))
    unfolding relay_step parsed pin
    relay_named_blocked client x y z name port payload h =
        let named : Address = record { name = name; ip = none; port = port } in
        (
          rw (text_eq_refl client) (
              rw (read_step (record idle { source = some client }) client x y z named payload h)
                (rw (dropped client (request client x y z named payload) port named payload h.1))),
          λ x' y' z' a payload' h'. rw (text_eq_refl client) (
              rw (read_step (pinned client port) client x' y' z' a payload' h') (
                rw (
                  dropped client (request client x' y' z' a payload') port (canonical a) payload'
                    (canonical-IsHost a h'.1)))),
        )
