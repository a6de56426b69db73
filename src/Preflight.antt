-- ===== src/Preflight.antt =====
-- wireguard/preflightbind/preflight_bind.go: what is sent around a WireGuard handshake.
pub mod Frame
pub mod Rate
pub mod Junk
pub mod Cps
pub mod Sequence
pub mod Sizes
pub mod Sent
mod Examples
use vwarp.Prelude.{
  ℕ, zero, suc, ◌+◌, ◌/◌, ◌%◌, ◌^◌, Bool, true, false, ◌&&◌, ◌||◌, List, [], ◌∷◌, ◌++◌, Option,
  none, some, length, take, ltb, leb, ◌==◌, if◌then◌else◌,
}
use vwarp.Text.{text_eq}
use vwarp.Proxy.Ip.{put_uint16}
use vwarp.Noize.{random_bytes}

-- `handshakeInitiation`, with `MessageInitiationSize` and `MessageInitiationType` of the WireGuard device.
unfoldable pub handshake_initiation : List ℕ → Bool
handshake_initiation [] = false
handshake_initiation (b ∷ rest) =
    if ltb (length (b ∷ rest)) 148 then false else (b == 1) && leb 148 (length (b ∷ rest))

unfoldable pub put_uint32 : ℕ → List ℕ
put_uint32 n = (n / 2 ^ 24 % 256) ∷ (n / 2 ^ 16 % 256) ∷ (n / 2 ^ 8 % 256) ∷ (n % 256) ∷ []

-- The SPI of the initiator: the front of the payload, or random bytes.
unfoldable pub initiator_spi : (ℕ → ℕ) → List ℕ → List ℕ
initiator_spi noise payload =
    if leb 8 (length payload) then take 8 payload else random_bytes noise 8

-- `wrapInIKEv2Header`; the two functions are its draws of random bytes.
unfoldable pub wrap_in_ikev2_header : (ℕ → ℕ) → (ℕ → ℕ) → List ℕ → List ℕ
wrap_in_ikev2_header noise noise' [] = []
wrap_in_ikev2_header noise noise' (b ∷ rest) =
    let payload = b ∷ rest in
    initiator_spi noise payload
    ++ (random_bytes noise' 8
        ++ (0x21
            ∷ 0x20
            ∷ 0x22
            ∷ 0x08
            ∷ 0
            ∷ 0
            ∷ 0
            ∷ 0
            ∷ (put_uint32 (28 + 24 + length payload)
                ++ (0
                    ∷ 0
                    ∷ (put_uint16 (24 + length payload)
                        ++ (0 ∷ 0 ∷ 0 ∷ 0x14 ∷ 1 ∷ 1 ∷ 0 ∷ 4 ∷ 3 ∷ 0 ∷ 0 ∷ 8 ∷ 1 ∷ 0 ∷ 0 ∷ 0x0c ∷ 0
                            ∷ 0 ∷ 0 ∷ 0 ∷ payload))))))

-- The fields of `Bind` behind the rate limit. A time is in nanoseconds; an address that is not in the
-- map has the zero time, which lies longer ago than every interval.
pub record Bind : Type 0 where
  pub interval : ℕ
  pub last_sent : List ℕ → Option ℕ

unfoldable pub any_initiation : List (List ℕ) → Bool
unfolding handshake_initiation
any_initiation [] = false
any_initiation (buf ∷ bufs) = handshake_initiation buf || any_initiation bufs

-- A call of `Send`: the time, the destination and the packets.
pub record Sending : Type 0 where
  pub now : ℕ
  pub dst : List ℕ
  pub bufs : List (List ℕ)

-- `now.Sub(last) < b.interval`
unfoldable pub too_early : Option ℕ → ℕ → ℕ → Bool
too_early none now interval = false
too_early (some last) now interval = ltb now (last + interval)

unfoldable pub record_sent : List ℕ → ℕ → Bind → Bind
record_sent dst now b = record b {
  last_sent = λ a. if text_eq a dst then some now else b.last_sent a;
}

-- `maybePreflightUsingSameSocket`: the state, and whether the call gets past the rate limit, behind
-- which a bind with an AtomicNoize configuration runs the preflight sequence.
unfoldable pub maybe_preflight : Bind → Sending → Bind × Bool
maybe_preflight b p =
    if any_initiation p.bufs
    then (if too_early (b.last_sent p.dst) p.now b.interval
        then (b, false)
        else (record_sent p.dst p.now b, true))
    else (b, false)

-- The times at which calls one after the other get past the rate limit for a destination.
unfoldable pub preflights : List ℕ → Bind → List Sending → List ℕ
preflights a b [] = []
preflights a b (p ∷ ps) =
    let (b', run) = maybe_preflight b p in
    let rest = preflights a b' ps in if run && text_eq a p.dst then p.now ∷ rest else rest
