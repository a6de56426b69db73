-- ===== src/Proxy/Socks5/Relay.antt =====
-- proxy/pkg/socks5/server.go: the UDP side of ASSOCIATE, `embedHandleAssociate`.
-- Go prints addresses to compare them; `ip_string` is `net.IP.String`, `parse_ip` is `net.ParseIP`.
pub mod Forward
pub mod Named
use vwarp.Prelude.{
  ℕ, ◌+◌, List, [], ◌∷◌, ◌++◌, Option, none, some, Bool, true, false, length, drop, ltb,
  if◌then◌else◌,
}
use vwarp.Text.{text_eq}
use vwarp.Wire.{Conn, Io, Error, write_failed, Result, ok, err, blocked, panicked}
use vwarp.Proxy.{Address}
use vwarp.Proxy.Socks5.{read_addr, write_addr_with_str, address_text}

abbrev pub max_udp_packet : ℕ
max_udp_packet = 2048

-- What one `ReadFrom` gave, the sender by its printed address, and whether a `WriteTo` that follows
-- it succeeds.
pub record Datagram : Type 0 where
  pub sender : List ℕ
  pub bytes : List ℕ
  pub write_ok : Bool

-- The local variables of the loop. `wantSource` and `wantTarget` are the printed source and target.
pub record Relay : Type 0 where
  pub source : Option (List ℕ)
  pub target : Option Address
  pub reply_prefix : Option (List ℕ)

abbrev pub idle : Relay
idle = record { source = none; target = none; reply_prefix = none }

-- What a round of the loop does: go on in silence, send and go on, return an error, or panic.
pub data Action : Type 0 where
  skip : Action
  to_target : Address → List ℕ → Action
  to_source : List ℕ → Action
  fail : Error → Action
  panic : Action

-- A `bytes.Buffer`: reads end with its bytes, writes never fail (`write_addr` makes three at most).
abbrev pub buffer : List ℕ → List ℕ → Conn
buffer input output = record { input = input; output = output; writes_left = 3; closed = false }

-- A `net.UDPAddr`, which has no name.
abbrev pub udp_addr : Address → Address
udp_addr a = record a { name = [] }

abbrev sends : Bool → Action → Action
sends true action = action
sends false action = fail write_failed

-- The first address that is read becomes the target.
pin : Option Address → Address → Address
pin none addr = udp_addr addr
pin (some t) addr = t

-- The copy of the prefix to the front of the buffer of `maxUdpPacket` bytes.
prefixed : Relay → Datagram → List ℕ → Relay × Action
prefixed s p prefix = (
  record s { reply_prefix = some prefix },
  (if ltb max_udp_packet (length prefix + length p.bytes)
      then panic
      else sends p.write_ok (to_source (prefix ++ p.bytes))),
)

made_prefix : Relay → Datagram → Result (Unit {0}) → Conn → Relay × Action
made_prefix s p (ok _) c = prefixed s p c.output
made_prefix s p (err e) c = (s, fail e)
made_prefix s p blocked c = (s, skip)
made_prefix s p panicked c = (s, panic)

module _ (ip_string : List ℕ → List ℕ) (parse_ip : List ℕ → Option (List ℕ)) where
  -- `addr.String() != wantTarget`, else the payload goes to the target.
  to_known : Datagram → Address → Address → List ℕ → Action
  to_known p addr t payload =
      if text_eq (address_text ip_string addr) (address_text ip_string t)
      then sends p.write_ok (to_target t payload)
      else skip

  parsed : Relay → Datagram → Result Address → Conn → Relay × Action
  parsed s p (ok addr) c =
      let t = pin s.target addr in (record s { target = some t }, to_known p addr t c.input)
  parsed s p r c = (s, skip)

  from_source : Relay → Datagram → Relay × Action
  from_source s p =
      if ltb (length p.bytes) 3
      then (s, skip)
      else (let (r, c) = read_addr (buffer (drop 3 p.bytes) []) in parsed s p r c)

  from_target : Relay → Datagram → Address → Relay × Action
  from_target s p t = elim s.reply_prefix [
    | some prefix ↦ prefixed s p prefix
    | none ↦
        let (r, c) =
          write_addr_with_str parse_ip (address_text ip_string t) (buffer [] (0 ∷ 0 ∷ 0 ∷ [])) in
        made_prefix s p r c
  ]

  -- `targetAddr != nil && wantTarget == gotAddr`
  other_sender : Relay → Datagram → Relay × Action
  other_sender s p = elim s.target [
    | none ↦ (s, skip)
    | some t ↦ if text_eq (address_text ip_string t) p.sender then from_target s p t else (s, skip)
  ]

  known_source : Relay → Datagram → List ℕ → Relay × Action
  known_source s p want = if text_eq want p.sender then from_source s p else other_sender s p

  -- One round of the loop: the first sender is the source.
  unfoldable pub relay_step : Relay → Datagram → Relay × Action
  unfolding known_source other_sender from_target made_prefix prefixed from_source parsed pin
      to_known
  relay_step s p = elim s.source [
    | some want ↦ known_source s p want
    | none ↦ known_source (record s { source = some p.sender }) p p.sender
  ]
