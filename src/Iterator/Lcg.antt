-- ===== src/Iterator/Lcg.antt =====
-- `LCG` of ipscanner/iterator/iterator.go. A `big.Int` is a number.
use native.Mathlib.Nat.{mod-lt}
use vwarp.Prelude.{
  ℕ, zero, suc, ◌+◌, ◌*◌, ◌%◌, ◌<◌, ◌≡◌, refl, Bool, true, false, ◌&&◌, ◌||◌, not, List, [], ◌∷◌,
  Option, none, some, ◌==◌, arith, if◌then◌else◌,
}

pub record Lcg : Type 0 where
  pub modulus : ℕ
  pub multiplier : ℕ
  pub increment : ℕ
  pub current : ℕ

-- `GCD` of two numbers by Euclid's algorithm, on fuel above the second one.
gcd : ℕ → ℕ → ℕ → ℕ
gcd zero a b = a
gcd (suc fuel) a b = let rest = gcd fuel b (a % b) in if b == 0 then a else rest

-- `checkHullDobell`: the low two bits of the multiplier less one are those of the multiplier plus 3.
unfoldable pub check_hull_dobell : ℕ → ℕ → ℕ → Bool
unfolding gcd
check_hull_dobell modulus multiplier increment =
    (gcd (suc modulus) increment modulus == 1)
    && (not (modulus % 4 == 0) || ((multiplier + 3) % 4 == 0))

-- `NewLCG`, with the first pair of draws that is accepted.
unfoldable pub new_lcg : ℕ → List (ℕ × ℕ) → Option Lcg
new_lcg size [] = none
new_lcg size ((a, c) ∷ draws) =
    let later = new_lcg size draws in
    if check_hull_dobell size a c
    then some (record { modulus = size; multiplier = a; increment = c; current = 0 })
    else later

-- `Next`; `none` is nil.
unfoldable pub next : Lcg → Option (Lcg × ℕ)
next lcg =
    if lcg.current == lcg.modulus
    then none
    else (let n = (lcg.multiplier * lcg.current + lcg.increment) % lcg.modulus in
        some (record lcg { current = n }, n))

-- A generator whose number lies below the modulus gives another one, which does so too: the sequence
-- never completes.
next_goes_on :
    (m a c x : ℕ)
    → x < m
    → (y : ℕ) × (next (record { modulus = m; multiplier = a; increment = c; current = x })
        ≡ some (record { modulus = m; multiplier = a; increment = c; current = y }, y))
      × (y < m)
unfolding next
next_goes_on m a c x h =
    let other : (x == m) ≡ false = ground arith in
    ((a * x + c) % m, rw other refl, mod-lt (a * x + c) (omega arith))

-- Parameters that are accepted although the multiplier less one is not divisible by 3, a factor of the
-- modulus: the sequence stays at 1.
accepted_short : check_hull_dobell 3 0 1 ≡ true
unfolding check_hull_dobell
accepted_short = refl

stays :
    next (record { modulus = 3; multiplier = 0; increment = 1; current = 1 })
    ≡ some (record { modulus = 3; multiplier = 0; increment = 1; current = 1 }, 1)
unfolding next
stays = refl
