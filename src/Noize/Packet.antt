-- ===== src/Noize/Packet.antt =====
-- masque/noize/noize.go: packet types, protocol wrappers, padding, junk packets and fragments.
pub mod Wrap
pub mod Sizes
pub mod Crossed
pub mod Fragments
use Prim.Native.Nat.{bit_and}
use vwarp.Prelude.{
  ℕ, zero, suc, ◌+◌, ◌-◌, ◌/◌, ◌%◌, ◌^◌, Bool, true, false, ◌&&◌, ◌||◌, not, List, [], ◌∷◌, ◌++◌,
  Option, none, some, length, take, drop, replicate, ltb, leb, ◌==◌, if◌then◌else◌,
}
use vwarp.Prelude.Int.{ℤ, pos, negsuc, ◌+ℤ◌, ◌-ℤ◌, ltb_ℤ, pos_part}
use vwarp.Text.{codes, text_eq}
use vwarp.Proxy.Ip.{put_uint16}
use vwarp.Noize.{NoizeConfig, intn, random_bytes}
use mathlib.Core.Option

pub data QuicPacketType : Type 0 where
  initial handshake zero_rtt one_rtt retry version_negotiation unknown : QuicPacketType

-- The type in bits 4 and 5 of a long header.
long_type : ℕ → QuicPacketType
long_type t =
    if t == 0
    then initial
    else if t == 1
    then zero_rtt
    else if t == 2
    then handshake
    else if t == 3
    then retry
    else one_rtt

unfoldable pub detect_quic_packet_type : List ℕ → QuicPacketType
unfolding long_type
detect_quic_packet_type [] = unknown
detect_quic_packet_type (h ∷ rest) =
    if not (bit_and h 0x80 == 0)
    then (if ltb (length (h ∷ rest)) 5 then unknown else long_type (bit_and (h / 2 ^ 4) 0x03))
    else one_rtt

-- The wrappers take the 16 random bits of their header, and STUN its 12 random bytes.
unfoldable pub wrap_dns : ℕ → List ℕ → List ℕ
wrap_dns id packet = put_uint16 id ++ (0x01 ∷ 0x00 ∷ 0 ∷ 1 ∷ 0 ∷ 0 ∷ 0 ∷ 0 ∷ 0 ∷ 0 ∷ packet)

unfoldable pub wrap_https : List ℕ → List ℕ
wrap_https packet = 0x17 ∷ 0x03 ∷ 0x03 ∷ (put_uint16 (length packet) ++ packet)

unfoldable pub wrap_dtls : ℕ → List ℕ → List ℕ
wrap_dtls epoch packet =
    0x17
    ∷ 0xfe
    ∷ 0xfd
    ∷ (put_uint16 epoch ++ (0 ∷ 0 ∷ 0 ∷ 0 ∷ 0 ∷ 0 ∷ (put_uint16 (length packet) ++ packet)))

unfoldable pub wrap_stun : (ℕ → ℕ) → List ℕ → List ℕ
wrap_stun noise packet =
    0
    ∷ 1
    ∷ (put_uint16 (length packet)
        ++ (0x21 ∷ 0x12 ∷ 0xa4 ∷ 0x42 ∷ (random_bytes noise 12 ++ packet)))

-- `wrapProtocol`, by the name of the protocol; an unknown name wraps nothing.
unfoldable pub wrap_protocol : List ℕ → ℕ → (ℕ → ℕ) → List ℕ → List ℕ
wrap_protocol mimic draw noise packet =
    if text_eq mimic (codes "dns")
    then wrap_dns (draw % 65536) packet
    else if text_eq mimic (codes "https") || text_eq mimic (codes "h3")
    then wrap_https packet
    else if text_eq mimic (codes "dtls")
    then wrap_dtls (draw % 65536) packet
    else if text_eq mimic (codes "stun")
    then wrap_stun noise packet
    else packet

-- The size that `addPadding` draws; `none` is the panic of `Intn`.
padding_size : NoizeConfig → ℕ → Option ℤ
padding_size c draw =
    if c.random_padding
    then Option.map (λ r. c.padding_min +ℤ pos r)
        (intn draw (c.padding_max -ℤ c.padding_min +ℤ pos 1))
    else some c.padding_max

-- The limit of 1200 bytes.
limited : ℕ → ℤ → ℤ
limited len size = if ltb_ℤ (pos 1200) (pos len +ℤ size) then pos 1200 -ℤ pos len else size

pad : (ℕ → ℕ) → List ℕ → ℤ → List ℕ
pad noise packet size =
    if ltb_ℤ (pos 0) size
    then (let size' = limited (length packet) size in
        if ltb_ℤ (pos 0) size' then packet ++ random_bytes noise (pos_part size') else packet)
    else packet

is_zero : ℤ → Bool
is_zero (pos zero) = true
is_zero _ = false

unfoldable pub add_padding : NoizeConfig → ℕ → (ℕ → ℕ) → List ℕ → Option (List ℕ)
unfolding padding_size limited pad is_zero
add_padding c draw noise packet =
    if is_zero c.padding_max || ltb (length packet) 16
    then some packet
    else Option.map (pad noise packet) (padding_size c draw)

-- `minSize` and `maxSize` of `generateJunkPacket`.
junk_limits : NoizeConfig → ℤ × ℤ
junk_limits c =
    if is_zero c.jmin && is_zero c.jmax
    then (pos 40, pos 90)
    else (if not c.allow_zero_size && ltb_ℤ c.jmin (pos 1)
        then (pos 1, c.jmax)
        else (c.jmin, c.jmax))

junk_size : ℕ → ℤ → ℤ → Option ℤ
junk_size draw lo hi =
    if ltb_ℤ lo hi then Option.map (λ r. lo +ℤ pos r) (intn draw (hi -ℤ lo +ℤ pos 1)) else some lo

-- `applyProtocolMimic`: the bytes that are set at the front of a junk packet.
unfoldable pub apply_protocol_mimic : List ℕ → ℕ → List ℕ → List ℕ
apply_protocol_mimic mimic draw junk =
    if text_eq mimic (codes "dns")
    then (if ltb (length junk) 12 then junk else put_uint16 (draw % 65536) ++ (1 ∷ 0 ∷ drop 4 junk))
    else if text_eq mimic (codes "https") || text_eq mimic (codes "h3")
    then (if ltb (length junk) 5 then junk else 0x17 ∷ 3 ∷ 3 ∷ drop 3 junk)
    else if text_eq mimic (codes "stun")
    then (if ltb (length junk) 20
        then junk
        else 0 ∷ 1 ∷ (take 2 (drop 2 junk) ++ (0x21 ∷ 0x12 ∷ 0xa4 ∷ 0x42 ∷ drop 8 junk)))
    else junk

-- `make([]byte, size)` panics at a negative size.
junk_of_size : NoizeConfig → ℕ → (ℕ → ℕ) → ℤ → Option (List ℕ)
junk_of_size c draw noise (negsuc n) = none
junk_of_size c draw noise (pos n) =
    let junk = random_bytes noise n in
    some (
      if not (text_eq c.mimic_protocol []) && ltb 10 n
      then apply_protocol_mimic c.mimic_protocol draw junk
      else junk)

unfoldable pub generate_junk_packet : NoizeConfig → ℕ → ℕ → (ℕ → ℕ) → Option (List ℕ)
unfolding junk_limits junk_size junk_of_size is_zero
generate_junk_packet c draw draw' noise =
    if is_zero c.jmin && is_zero c.jmax && c.allow_zero_size
    then some []
    else (let (lo, hi) = junk_limits c in
        Option.bind (junk_size draw lo hi) (junk_of_size c draw' noise))

-- The loop of `fragmentInitialPacket` over the offsets behind the first fragment, on fuel: one
-- fragment of `size` bytes a round, from what is left of the packet.
unfoldable pub fragments_from : ℕ → ℕ → List ℕ → List (List ℕ)
fragments_from zero size left = []
fragments_from (suc fuel) size [] = []
fragments_from (suc fuel) size (b ∷ left) =
    take size (b ∷ left) ∷ fragments_from fuel size (drop size (b ∷ left))

-- What is returned, and what is sent beside it if there is a connection.
unfoldable pub fragment_initial_packet : ℤ → Bool → List ℕ → List ℕ × List (List ℕ)
fragment_initial_packet (negsuc n) connected packet = (packet, [])
fragment_initial_packet (pos zero) connected packet = (packet, [])
fragment_initial_packet (pos (suc n)) connected packet =
    if leb (length packet) (suc n) then (packet, []) else (
      take (suc n) packet,
      (if connected then fragments_from (length packet) (suc n) (drop (suc n) packet) else []),
    )
