-- ===== src/Noize/Write.antt =====
-- `ObfuscateWrite` of masque/noize/noize.go, with the state that it keeps for each address.
pub mod Once
pub mod Total
use mathlib.Core.Option
use vwarp.Prelude.{
  ℕ, zero, suc, ◌+◌, ◌≡◌, refl, Bool, true, false, ◌&&◌, ◌||◌, not, List, [], ◌∷◌, ◌++◌, Option,
  none, some, length, ltb, if◌then◌else◌,
}
use vwarp.Prelude.Int.{ℤ, pos, negsuc, ltb_ℤ}
use vwarp.Text.{text_eq}
use vwarp.Noize.{NoizeConfig}
use vwarp.Noize.Packet.{
  QuicPacketType, detect_quic_packet_type, initial, one_rtt, add_padding, wrap_protocol,
  fragment_initial_packet,
}

-- `handshakeState`.
pub record HandshakeState : Type 0 where
  pub pre_sent : Bool
  pub during_sent : Bool
  pub post_sent : Bool
  pub initial_seen : Bool

-- `Noize`, without the fields that only the log reads. `hs_state` maps a printed address to its state.
pub record Noize : Type 0 where
  pub config : NoizeConfig
  pub connected : Bool
  pub hs_state : List ℕ → Option HandshakeState

-- `New` and `WrapConn`.
unfoldable pub new : NoizeConfig → Noize
new c = record { config = c; connected = true; hs_state = λ addr. none }

-- The goroutines that a write starts.
pub data Task : Type 0 where
  pre_handshake : List ℕ → Task
  post_handshake : List ℕ → Task
  send_fragments : List ℕ → List (List ℕ) → Task

-- A write, with the random values that it draws.
pub record Write : Type 0 where
  pub packet : List ℕ
  pub addr : List ℕ
  pub padding_draw : ℕ
  pub padding_noise : ℕ → ℕ
  pub wrapper_draw : ℕ
  pub wrapper_noise : ℕ → ℕ

unfoldable pub put : List ℕ → HandshakeState → Noize → Noize
put addr h n = record n { hs_state = λ a. if text_eq a addr then some h else n.hs_state a }

-- The first packet to an address puts its state in the map and starts the pre-handshake sequence.
unfoldable pub entered : Option HandshakeState → List ℕ → Noize → Noize × List Task
entered none addr n = (
  put addr
      (record { pre_sent = false; during_sent = false; post_sent = false; initial_seen = true }) n,
  pre_handshake addr ∷ [],
)
entered (some h) addr n = (n, [])

unfoldable pub first_packet : List ℕ → Noize → Noize × List Task
first_packet addr n = entered (n.hs_state addr) addr n

is_initial : QuicPacketType → Bool
is_initial initial = true
is_initial _ = false

unfoldable pub is_one_rtt : QuicPacketType → Bool
is_one_rtt one_rtt = true
is_one_rtt _ = false

-- The first 1-RTT packet to an address starts the post-handshake sequence.
unfoldable pub finished : Option HandshakeState → List ℕ → Noize → Noize × List Task
finished none addr n = (n, [])
finished (some h) addr n =
    if h.post_sent
    then (n, [])
    else (put addr (record h { post_sent = true }) n, post_handshake addr ∷ [])

unfoldable pub after_handshake : List ℕ → Noize → Noize × List Task
after_handshake addr n = finished (n.hs_state addr) addr n

wrapped : NoizeConfig → Write → List ℕ → List ℕ
wrapped c w padded =
    if not (text_eq c.mimic_protocol [])
    then wrap_protocol c.mimic_protocol w.wrapper_draw w.wrapper_noise padded
    else padded

-- `none` is the panic of `addPadding`.
dressed : NoizeConfig → Write → Option (List ℕ)
dressed c w = Option.map (wrapped c w) (add_padding c w.padding_draw w.padding_noise w.packet)

must_fragment : NoizeConfig → List ℕ → Bool
must_fragment c packet =
    c.fragment_initial
    && ltb_ℤ (pos 0) c.fragment_size
    && ltb_ℤ c.fragment_size (pos (length packet))

-- Behind the bookkeeping of the first packet.
send : Noize → QuicPacketType → Write → Noize × List Task × Option (List ℕ)
send n t w =
    if is_initial t && must_fragment n.config w.packet
    then (let (first, rest) = fragment_initial_packet n.config.fragment_size n.connected w.packet in
        (n, (if n.connected then send_fragments w.addr rest ∷ [] else []), some first))
    else (let (n', tasks) = (if is_one_rtt t then after_handshake w.addr n else (n, [])) in
        (n', tasks, dressed n.config w))

-- `ObfuscateWrite`: the state, the goroutines it starts and the packet it returns, `none` for a panic.
unfoldable pub obfuscate_write : Noize → Write → Noize × List Task × Option (List ℕ)
unfolding send is_initial must_fragment dressed wrapped
obfuscate_write n w =
    if ltb 0 (length w.packet)
    then (let (n', tasks) = first_packet w.addr n in
        let (n'', more, result) = send n' (detect_quic_packet_type w.packet) w in
        (n'', tasks ++ more, result))
    else (n, [], some w.packet)

-- Writes one after the other; a panic leaves the writes behind it undone, and they are returned.
unfoldable pub resume :
    Option (List ℕ)
    → Noize
    → List Task
    → List Write
    → Noize × List Task × List Write
    → Noize × List Task × List Write
resume none n tasks ws rest = (n, tasks, ws)
resume (some packet) n tasks ws rest = (rest.0, tasks ++ rest.1, rest.2)

unfoldable pub obfuscate_all : Noize → List Write → Noize × List Task × List Write
obfuscate_all n [] = (n, [], [])
obfuscate_all n (w ∷ ws) =
    let (n', tasks, result) = obfuscate_write n w in
    let rest = obfuscate_all n' ws in resume result n' tasks ws rest
