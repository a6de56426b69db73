-- ===== src/Noize/Packet/Wrap.antt =====
-- The protocol headers of masque/noize/noize.go: what they carry, and that the packet stands behind.
use vwarp.Prelude.{
  ℕ, ◌+◌, ◌%◌, ◌^◌, ◌<◌, ◌≡◌, inl, inr, refl, ◌||◌, Bool-cases, List, length, drop, arith,
  if◌then◌else◌,
}
use vwarp.Text.{codes, text_eq}
use vwarp.Proxy.Ip.{put_uint16, uint16}
use vwarp.Noize.{random_bytes}
use vwarp.Noize.Packet.{wrap_protocol, wrap_dns, wrap_https, wrap_dtls, wrap_stun}

-- The bytes in front of the packet, for each protocol that is mimicked.
abbrev pub header_length : List ℕ → ℕ
header_length mimic =
    if text_eq mimic (codes "dns")
    then 12
    else if text_eq mimic (codes "https") || text_eq mimic (codes "h3")
    then 5
    else if text_eq mimic (codes "dtls")
    then 13
    else if text_eq mimic (codes "stun")
    then 20
    else 0

-- A packet behind a header of `n` bytes.
abbrev Behind : ℕ → List ℕ → List ℕ → Type 0
Behind n wrapped packet = (drop n wrapped ≡ packet) × (length wrapped ≡ n + length packet)

dns-Behind : (id : ℕ) (packet : List ℕ) → Behind 12 (wrap_dns id packet) packet
unfolding wrap_dns put_uint16
dns-Behind id packet = (refl, omega arith)

https-Behind : (packet : List ℕ) → Behind 5 (wrap_https packet) packet
unfolding wrap_https put_uint16
https-Behind packet = (refl, omega arith)

dtls-Behind : (epoch : ℕ) (packet : List ℕ) → Behind 13 (wrap_dtls epoch packet) packet
unfolding wrap_dtls put_uint16
dtls-Behind epoch packet = (refl, omega arith)

stun-Behind : (noise : ℕ → ℕ) (packet : List ℕ) → Behind 20 (wrap_stun noise packet) packet
unfolding wrap_stun put_uint16 random_bytes
stun-Behind noise packet = (refl, omega arith)

-- For every protocol name, packet and random draw: the packet stands unchanged behind the header of
-- its protocol (no header for an unknown name), and nothing stands behind it.
pub wrap_protocol-behind :
    (mimic : List ℕ) (draw : ℕ) (noise : ℕ → ℕ) (packet : List ℕ)
    → (drop (header_length mimic) (wrap_protocol mimic draw noise packet) ≡ packet)
      × (length (wrap_protocol mimic draw noise packet) ≡ header_length mimic + length packet)
unfolding wrap_protocol
wrap_protocol-behind mimic draw noise packet = elim (Bool-cases (text_eq mimic (codes "dns"))) [
  | inl dns ↦ rw dns (dns-Behind (draw % 65536) packet)
  | inr not_dns ↦
      rw not_dns (elim (Bool-cases (text_eq mimic (codes "https") || text_eq mimic (codes "h3"))) [
        | inl https ↦ rw https (https-Behind packet)
        | inr not_https ↦ rw not_https (elim (Bool-cases (text_eq mimic (codes "dtls"))) [
          | inl dtls ↦ rw dtls (dtls-Behind (draw % 65536) packet)
          | inr not_dtls ↦ rw not_dtls (elim (Bool-cases (text_eq mimic (codes "stun"))) [
            | inl stun ↦ rw stun (stun-Behind noise packet)
            | inr other ↦ rw other (refl, omega arith)
          ])
        ])
      ])
]

-- The length fields: a packet below 2 ^ 16 bytes is announced by its length in the TLS record header
-- (bytes 3 and 4), the DTLS record header (11 and 12) and the STUN header (2 and 3).
pub wrap_lengths :
    (epoch : ℕ) (noise : ℕ → ℕ) (packet : List ℕ)
    → length packet < 2 ^ 16
    → (uint16 (drop 3 (wrap_https packet)) ≡ length packet)
      × (uint16 (drop 11 (wrap_dtls epoch packet)) ≡ length packet)
      × (uint16 (drop 2 (wrap_stun noise packet)) ≡ length packet)
unfolding wrap_https wrap_dtls wrap_stun put_uint16 uint16
wrap_lengths epoch noise packet h = omega arith
