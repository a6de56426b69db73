-- ===== src/Noize.antt =====
-- masque/noize/noize.go: the obfuscation of QUIC packets. This file has the configuration and the
-- random draws; the packets are in Noize/Packet.antt, `ObfuscateWrite` in Noize/Write.antt, and the
-- checks of config/noize/validator.go in Noize/Validator.antt.
pub mod Packet
pub mod Write
pub mod Validator
pub mod Zero
pub mod Cps
pub mod Sequence
pub mod Conn
mod HandshakeExamples
mod Examples
use vwarp.Prelude.{
  ℕ, zero, suc, ◌+◌, ◌%◌, Bool, List, [], ◌∷◌, Option, none, some, length, ◌≡◌, refl, ap,
}
use vwarp.Prelude.Int.{ℤ, pos, negsuc}

-- The comparisons that the program makes with the float `FakeLoss`: with 0, from below and for being
-- equal, and with 1.
pub record Loss : Type 0 where
  pub below_zero : Bool
  pub above_one : Bool
  pub is_none : Bool

-- `NoizeConfig`. An `int` and a `time.Duration`, in nanoseconds, is an integer.
pub record NoizeConfig : Type 0 where
  pub i1 : List ℕ
  pub i2 : List ℕ
  pub i3 : List ℕ
  pub i4 : List ℕ
  pub i5 : List ℕ
  pub fragment_size : ℤ
  pub fragment_initial : Bool
  pub fragment_delay : ℤ
  pub padding_min : ℤ
  pub padding_max : ℤ
  pub random_padding : Bool
  pub jc : ℤ
  pub jmin : ℤ
  pub jmax : ℤ
  pub jc_before_hs : ℤ
  pub jc_after_i1 : ℤ
  pub jc_during_hs : ℤ
  pub jc_after_hs : ℤ
  pub junk_interval : ℤ
  pub junk_random : Bool
  pub mimic_protocol : List ℕ
  pub custom_wrapper : Bool
  pub handshake_delay : ℤ
  pub packet_delay : ℤ
  pub random_delay : Bool
  pub delay_min : ℤ
  pub delay_max : ℤ
  pub sni_fragmentation : Bool
  pub sni_fragment : ℤ
  pub fake_alpn : List (List ℕ)
  pub reversed_order : Bool
  pub duplicate_packets : Bool
  pub allow_zero_size : Bool
  pub use_timestamp : Bool
  pub use_nonce : Bool
  pub randomize_initial : Bool
  pub fake_loss : Loss

-- `rng.Intn` at a random draw; `none` is its panic at an argument that is not positive.
unfoldable pub intn : ℕ → ℤ → Option ℕ
intn draw (pos zero) = none
intn draw (pos (suc m)) = some (draw % suc m)
intn draw (negsuc m) = none

-- `rand.Read` into a buffer of `n` bytes, where `noise i` is the i-th byte drawn.
unfoldable pub random_bytes : (ℕ → ℕ) → ℕ → List ℕ
random_bytes noise zero = []
random_bytes noise (suc n) = noise n ∷ random_bytes noise n

pub length-random_bytes : (noise : ℕ → ℕ) (n : ℕ) → length (random_bytes noise n) ≡ n
unfolding random_bytes
length-random_bytes noise zero = refl
length-random_bytes noise (suc n) = ap suc (length-random_bytes noise n)
