-- ===== src/Text/Hex.antt =====
-- Go's `hex.EncodeToString`, and `strings.Split` at one byte.
use vwarp.Prelude.{
  ℕ, ◌+◌, ◌*◌, ◌/◌, ◌%◌, ◌≡◌, refl, true, false, List, [], ◌∷◌, ◌++◌, ltb, ◌==◌, if◌then◌else◌,
  length, arith,
}
use vwarp.Text.Bytes.{has_byte}

unfoldable pub hex_digit : ℕ → ℕ
hex_digit n = if ltb n 10 then 48 + n else 87 + n

unfoldable pub hex_encode : List ℕ → List ℕ
hex_encode [] = []
hex_encode (b ∷ bs) = hex_digit (b / 16) ∷ hex_digit (b % 16) ∷ hex_encode bs

pub length-hex_encode : (bs : List ℕ) → length (hex_encode bs) ≡ 2 * length bs
unfolding hex_encode
length-hex_encode [] = omega arith
length-hex_encode (b ∷ bs) = omega (arith, length-hex_encode bs)

-- The first piece grows to the front.
split_before : ℕ → List (List ℕ) → List (List ℕ)
split_before c [] = (c ∷ []) ∷ []
split_before c (piece ∷ pieces) = (c ∷ piece) ∷ pieces

unfoldable pub split : ℕ → List ℕ → List (List ℕ)
unfolding split_before
split sep [] = [] ∷ []
split sep (c ∷ s) = let rest = split sep s in if c == sep then [] ∷ rest else split_before c rest

pub split-none : (sep : ℕ) (s : List ℕ) → has_byte s sep ≡ false → split sep s ≡ s ∷ []
unfolding split
split-none sep [] h = refl
split-none sep (c ∷ s) h =
    let other : (c == sep) ≡ false = ground arith in
    let later : has_byte s sep ≡ false = ground arith in rw (other, split-none sep s later)

pub split-append :
    (sep : ℕ) (s t : List ℕ) → has_byte s sep ≡ false → split sep (s ++ (sep ∷ t)) ≡ s ∷ split sep t
unfolding split
split-append sep [] t h = let same : (sep == sep) ≡ true = ground arith in rw same refl
split-append sep (c ∷ s) t h =
    let other : (c == sep) ≡ false = ground arith in
    let later : has_byte s sep ≡ false = ground arith in rw (other, split-append sep s t later)
