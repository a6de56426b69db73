-- ===== src/Proxy/Socks5/Relay/Forward.antt =====
-- Datagrams through the UDP relay of proxy/pkg/socks5/server.go, in both directions.
use vwarp.Prelude.{
  ℕ, ◌+◌, ◌^◌, ◌≤◌, ◌<◌, ◌≡◌, ◌⊎◌, refl, ap, ◌∙◌, inl, inr, List, [], ◌∷◌, ◌++◌, Option, none, some,
  true, false, length, length-append, arith, ltb, ◌≢◌,
}
use vwarp.Text.{text_eq, text_eq_iff}
use vwarp.Text.Bytes.{has_byte}
use vwarp.Text.Decimal.{itoa, AllDigits, itoa-AllDigits, atoi-itoa}
use vwarp.Text.HostPort.{IsPart, split-join, join_host_port}
use vwarp.Wire.{Conn, ok}
use vwarp.Proxy.{Address}
use vwarp.Proxy.Ip.{to4, put_uint16}
use vwarp.Proxy.Socks5.{address_text, write_addr_with_str, split_host_port_num}
use vwarp.Proxy.Socks5.Codec.{
  canonical, shortest, shortest-length, address_form, read_addr_form, write_addr_form, sent,
}
use vwarp.Proxy.Socks5.Relay.{
  Action, Relay, idle, buffer, to_target, to_source, panic, relay_step, from_source, parsed,
  to_known, pin, from_target, made_prefix, prefixed,
}

-- What Go documents of `net.IP.String` and `net.ParseIP`: a printed IP is not empty and has no
-- brackets, and parsing it gives the same IP, in one of its two forms.
pub record IpText (ip_string : List ℕ → List ℕ) (parse_ip : List ℕ → Option (List ℕ)) : Type 0 where
  pub not_empty : (ip : List ℕ) → ip_string ip ≢ []
  pub part : (ip : List ℕ) → IsPart (ip_string ip)
  pub again : List ℕ → List ℕ
  pub parse_string :
      (ip : List ℕ) → (length ip ≡ 4) ⊎ (length ip ≡ 16) → parse_ip (ip_string ip) ≡ some (again ip)
  pub same_ip :
      (ip : List ℕ)
      → (length ip ≡ 4) ⊎ (length ip ≡ 16)
      → shortest (again ip) (to4 (again ip)) ≡ shortest ip (to4 ip)
  pub again_length :
      (ip : List ℕ)
      → (length ip ≡ 4) ⊎ (length ip ≡ 16)
      → (length (again ip) ≡ 4) ⊎ (length (again ip) ≡ 16)

-- An address with an IP and no name.
abbrev pub inet : List ℕ → ℕ → Address
inet ip port = record { name = []; ip = some ip; port = port }

abbrev pub IsIp : List ℕ → Type 0
IsIp ip = (length ip ≡ 4) ⊎ (length ip ≡ 16)

pub text_eq_refl : (s : List ℕ) → text_eq s s ≡ true
text_eq_refl s = (text_eq_iff s s).1 refl

digits_free : (s : List ℕ) (b : ℕ) → AllDigits s → (b < 48) ⊎ (57 < b) → has_byte s b ≡ false
digits_free [] b d h = refl
digits_free (c ∷ s) b d h = ground (arith, digits_free s b d.2 h)

itoa-IsPart : (n : ℕ) → IsPart (itoa n)
itoa-IsPart n = record {
  no_open = digits_free (itoa n) b'[' (itoa-AllDigits n) (omega arith);
  no_close = digits_free (itoa n) b']' (itoa-AllDigits n) (omega arith);
}

module _ (ip_string : List ℕ → List ℕ) (parse_ip : List ℕ → Option (List ℕ)) where
  address_text-inet :
      (ip : List ℕ) (port : ℕ)
      → IsIp ip
      → address_text ip_string (inet ip port) ≡ join_host_port (ip_string ip) (itoa port)
  unfolding address_text
  address_text-inet [] port h = absurd (omega arith)
  address_text-inet (b ∷ bs) port h = refl

  from_source-inet :
      (s : Relay) (client : List ℕ) (x y z : ℕ) (ip : List ℕ) (port : ℕ) (payload : List ℕ)
      → s.target ≡ none
      → IsIp ip
      → port < 2 ^ 16
      → from_source ip_string parse_ip s (record {
        sender = client;
        bytes = x ∷ y ∷ z ∷ (address_form (inet ip port) ++ payload);
        write_ok = true;
      })
        ≡ (
          record s { target = some (canonical (inet ip port)) },
          to_target (canonical (inet ip port)) payload,
        )
  unfolding from_source parsed pin to_known
  from_source-inet s client x y z ip port payload fresh h b =
      let long : ltb (length (x ∷ y ∷ z ∷ (address_form (inet ip port) ++ payload))) 3 ≡ false =
        ground arith in
      rw long (
        rw (read_addr_form (inet ip port) payload (buffer [] []) (b, (h, refl)))
          (rw fresh (rw (text_eq_refl (address_text ip_string (canonical (inet ip port)))))))

  -- The first datagram from a client, with three header bytes, an IP address and a payload, goes to
  -- that address, whose IPv4 form is made 4 bytes long, with the payload alone; the client becomes the
  -- source and the address the target of the association.
  pub relay_forward :
      (client : List ℕ) (x y z : ℕ) (ip : List ℕ) (port : ℕ) (payload : List ℕ)
      → IsIp ip
      → port < 2 ^ 16
      → relay_step ip_string parse_ip idle (record {
        sender = client;
        bytes = x ∷ y ∷ z ∷ (address_form (inet ip port) ++ payload);
        write_ok = true;
      })
        ≡ (
          record {
            source = some client;
            target = some (canonical (inet ip port));
            reply_prefix = none;
          },
          to_target (canonical (inet ip port)) payload,
        )
  unfolding relay_step
  relay_forward client x y z ip port payload h b = rw (text_eq_refl client) (
      from_source-inet (record idle { source = some client }) client x y z ip port payload refl h b)

  module _ (law : IpText ip_string parse_ip) where
    split_inet :
        (ip : List ℕ) (port : ℕ)
        → IsIp ip
        → port < 2 ^ 16
        → (out : Conn)
        → split_host_port_num (address_text ip_string (inet ip port)) out
          ≡ (ok (ip_string ip, port), out)
    unfolding split_host_port_num
    split_inet ip port h b out = rw (address_text-inet ip port h) (
        rw
          (split-join (itoa port) (itoa-IsPart port)
            (digits_free (itoa port) b':' (itoa-AllDigits port) (omega arith)) (ip_string ip)
            (law.part ip))
          (rw (atoi-itoa port (omega arith)) (ground arith)))

    same_form :
        (ip : List ℕ) (port : ℕ)
        → IsIp ip
        → address_form (inet (law.again ip) port) ≡ address_form (inet ip port)
    same_form ip port h = rw (law.same_ip ip h)

    reply_prefix-inet :
        (ip : List ℕ) (port : ℕ)
        → IsIp ip
        → port < 2 ^ 16
        → write_addr_with_str parse_ip
            (address_text ip_string (inet ip port))
            (buffer [] (0 ∷ 0 ∷ 0 ∷ []))
          ≡ (ok tt, sent (address_form (inet ip port)) 0 (buffer [] (0 ∷ 0 ∷ 0 ∷ [])))
    unfolding write_addr_with_str
    reply_prefix-inet ip port h b = rw (split_inet ip port h b) (
        rw (law.parse_string ip h) (
          write_addr_form (inet (law.again ip) port) _ 0 (b, (law.again_length ip h, refl)) refl
          ∙ ap (λ l. (ok tt, sent l 0 (buffer [] (0 ∷ 0 ∷ 0 ∷ [])))) (same_form ip port h)))

    -- A datagram of the target, once source and target are known.
    from_target-inet :
        (client : List ℕ) (ip : List ℕ) (port : ℕ) (bytes : List ℕ)
        → IsIp ip
        → port < 2 ^ 16
        → from_target ip_string parse_ip
            (record { source = some client; target = some (inet ip port); reply_prefix = none })
            (record {
              sender = address_text ip_string (inet ip port);
              bytes = bytes;
              write_ok = true;
            })
            (inet ip port)
          ≡ prefixed
              (record { source = some client; target = some (inet ip port); reply_prefix = none })
              (record {
                sender = address_text ip_string (inet ip port);
                bytes = bytes;
                write_ok = true;
              })
              (0 ∷ 0 ∷ 0 ∷ address_form (inet ip port))
    unfolding from_target made_prefix
    from_target-inet client ip port bytes h b = rw (reply_prefix-inet ip port h b)

    reply_step :
        (client : List ℕ) (ip : List ℕ) (port : ℕ) (bytes : List ℕ)
        → IsIp ip
        → port < 2 ^ 16
        → client ≢ address_text ip_string (inet ip port)
        → relay_step ip_string parse_ip
            (record { source = some client; target = some (inet ip port); reply_prefix = none })
            (record {
              sender = address_text ip_string (inet ip port);
              bytes = bytes;
              write_ok = true;
            })
          ≡ prefixed
              (record { source = some client; target = some (inet ip port); reply_prefix = none })
              (record {
                sender = address_text ip_string (inet ip port);
                bytes = bytes;
                write_ok = true;
              })
              (0 ∷ 0 ∷ 0 ∷ address_form (inet ip port))
    unfolding relay_step
    reply_step client ip port bytes h b ne =
        let other : text_eq client (address_text ip_string (inet ip port)) ≡ false =
          ground (arith, text_eq_iff client (address_text ip_string (inet ip port))) in
        rw other (
          rw (text_eq_refl (address_text ip_string (inet ip port)))
            (from_target-inet client ip port bytes h b))

    length-form :
        (ip : List ℕ) (port : ℕ)
        → IsIp ip
        → (7 ≤ length (address_form (inet ip port))) × (length (address_form (inet ip port)) ≤ 19)
    unfolding put_uint16
    length-form ip port h =
        omega (arith, shortest-length ip h, length-append (shortest ip (to4 ip)) (put_uint16 port))

    -- The prefix is made for the first reply and kept for the later ones.
    abbrev pub IsKept : Option (List ℕ) → List ℕ → ℕ → Type 0
    IsKept prefix ip port =
        (prefix ≡ none) ⊎ (prefix ≡ some (0 ∷ 0 ∷ 0 ∷ address_form (inet ip port)))

    later_reply_step :
        (client : List ℕ) (ip : List ℕ) (port : ℕ) (bytes : List ℕ)
        → client ≢ address_text ip_string (inet ip port)
        → (prefix : List ℕ)
        → relay_step ip_string parse_ip
            (record {
              source = some client;
              target = some (inet ip port);
              reply_prefix = some prefix;
            })
            (record {
              sender = address_text ip_string (inet ip port);
              bytes = bytes;
              write_ok = true;
            })
          ≡ prefixed
              (record {
                source = some client;
                target = some (inet ip port);
                reply_prefix = some prefix;
              })
              (record {
                sender = address_text ip_string (inet ip port);
                bytes = bytes;
                write_ok = true;
              })
              prefix
    unfolding relay_step from_target
    later_reply_step client ip port bytes ne prefix =
        let other : text_eq client (address_text ip_string (inet ip port)) ≡ false =
          ground (arith, text_eq_iff client (address_text ip_string (inet ip port))) in
        rw other (rw (text_eq_refl (address_text ip_string (inet ip port))) refl)

    any_reply_step :
        (client : List ℕ) (ip : List ℕ) (port : ℕ) (bytes : List ℕ)
        → IsIp ip
        → port < 2 ^ 16
        → client ≢ address_text ip_string (inet ip port)
        → (prefix : Option (List ℕ)) → IsKept prefix ip port
        → relay_step ip_string parse_ip
            (record { source = some client; target = some (inet ip port); reply_prefix = prefix })
            (record {
              sender = address_text ip_string (inet ip port);
              bytes = bytes;
              write_ok = true;
            })
          ≡ prefixed
              (record { source = some client; target = some (inet ip port); reply_prefix = prefix })
              (record {
                sender = address_text ip_string (inet ip port);
                bytes = bytes;
                write_ok = true;
              })
              (0 ∷ 0 ∷ 0 ∷ address_form (inet ip port))
    any_reply_step client ip port bytes h b ne prefix (inl e) =
        rw e (reply_step client ip port bytes h b ne)
    any_reply_step client ip port bytes h b ne prefix (inr e) =
        rw e (later_reply_step client ip port bytes ne (0 ∷ 0 ∷ 0 ∷ address_form (inet ip port)))

    -- For the first reply and for every later one: a datagram of at most 2026 bytes from the target of an
    -- association goes to its source, behind three zero bytes and the wire form of the target; only this
    -- prefix is kept from it.
    pub relay_reply :
        (client : List ℕ) (ip : List ℕ) (port : ℕ) (bytes : List ℕ)
        → IsIp ip
        → port < 2 ^ 16
        → client ≢ address_text ip_string (inet ip port)
        → length bytes ≤ 2026
        → (prefix : Option (List ℕ)) → IsKept prefix ip port
        → relay_step ip_string parse_ip
            (record { source = some client; target = some (inet ip port); reply_prefix = prefix })
            (record {
              sender = address_text ip_string (inet ip port);
              bytes = bytes;
              write_ok = true;
            })
          ≡ (
            record {
              source = some client;
              target = some (inet ip port);
              reply_prefix = some (0 ∷ 0 ∷ 0 ∷ address_form (inet ip port));
            },
            to_source ((0 ∷ 0 ∷ 0 ∷ address_form (inet ip port)) ++ bytes),
          )
    relay_reply client ip port bytes h b ne fits prefix kept =
        let (lo, hi) = length-form ip port h in
        let room : ltb 2048 (length (0 ∷ 0 ∷ 0 ∷ address_form (inet ip port)) + length bytes)
            ≡ false =
          ground arith in
        any_reply_step client ip port bytes h b ne prefix kept ∙ (unfold prefixed in rw room)

    -- A datagram of more than 2038 bytes from the target makes the relay panic: the reply prefix and
    -- the datagram pass the end of the buffer.
    pub relay_reply_panics :
        (client : List ℕ) (ip : List ℕ) (port : ℕ) (bytes : List ℕ)
        → IsIp ip
        → port < 2 ^ 16
        → client ≢ address_text ip_string (inet ip port)
        → 2038 < length bytes
        → (relay_step ip_string parse_ip
            (record { source = some client; target = some (inet ip port); reply_prefix = none })
            (record {
              sender = address_text ip_string (inet ip port);
              bytes = bytes;
              write_ok = true;
            })).1
          ≡ panic
    relay_reply_panics client ip port bytes h b ne long =
        let (lo, hi) = length-form ip port h in
        let full : ltb 2048 (length (0 ∷ 0 ∷ 0 ∷ address_form (inet ip port)) + length bytes)
            ≡ true =
          ground arith in
        ap (λ (r : Relay × Action). r.1) (reply_step client ip port bytes h b ne)
        ∙ (unfold prefixed in rw full)
