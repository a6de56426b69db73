-- ===== src/Text/Decimal.antt =====
-- Go's `strconv.Itoa` on numbers that are not negative, and `strconv.Atoi`.
use vwarp.Prelude.{
  ℕ, zero, suc, ◌+◌, ◌-◌, ◌*◌, ◌/◌, ◌%◌, ◌^◌, ◌≤◌, ◌<◌, ◌≡◌, ◌≢◌, ◌∙◌, refl, Bool, ◌&&◌, List, [],
  ◌∷◌, Option, none, some, arith, ltb, leb, ◌==◌, min, if◌then◌else◌,
}
use vwarp.Prelude.Int.{ℤ, pos, negsuc}

-- Most significant digit first; `fuel` is above the number of digits.
digits_into : ℕ → ℕ → List ℕ → List ℕ
digits_into zero n out = out
digits_into (suc fuel) n out =
    let more = digits_into fuel (n / 10) ((48 + n % 10) ∷ out) in
    if ltb n 10 then (48 + n) ∷ out else more

unfoldable pub itoa : ℕ → List ℕ
unfolding digits_into
itoa n = digits_into (suc n) n []

unfoldable pub is_digit : ℕ → Bool
is_digit c = leb 48 c && leb c 57

-- The value of a run of digits, `none` on any other byte.
pub value_from : ℕ → List ℕ → Option ℕ
value_from acc [] = some acc
value_from acc (c ∷ s) = if is_digit c then value_from (acc * 10 + (c - 48)) s else none

-- A sign is allowed; at least one digit is wanted; the value has to fit an int64.
unsigned : List ℕ → Option ℕ
unfolding value_from is_digit
unsigned [] = none
unsigned (c ∷ s) = value_from 0 (c ∷ s)

in_range_pos : Option ℕ → Option ℤ
in_range_pos none = none
in_range_pos (some n) = if ltb n (2 ^ 63) then some (pos n) else none

in_range_neg : Option ℕ → Option ℤ
in_range_neg none = none
in_range_neg (some zero) = some (pos 0)
in_range_neg (some (suc n)) = if ltb n (2 ^ 63) then some (negsuc n) else none

unfoldable pub atoi : List ℕ → Option ℤ
unfolding unsigned in_range_pos in_range_neg
atoi [] = none
atoi (c ∷ s) =
    if c == b'-'
    then in_range_neg (unsigned s)
    else if c == b'+'
    then in_range_pos (unsigned s)
    else in_range_pos (unsigned (c ∷ s))

-- The value that `strconv.Atoi` returns beside its error: 0 on a text that is no number, and the limit
-- of an int64 on a number that is too large. The digits are read as a uint64, which may be full before
-- a byte that is no digit is reached.
unfoldable pub clamped_from : ℕ → List ℕ → ℕ
clamped_from acc [] = acc
clamped_from acc (c ∷ s) =
    let acc' = acc * 10 + (c - 48) in
    let rest = clamped_from acc' s in
    if is_digit c then (if ltb acc' (2 ^ 64) then rest else 2 ^ 64 - 1) else 0

clamped_neg : ℕ → ℤ
clamped_neg zero = pos 0
clamped_neg (suc n) = if ltb n (2 ^ 63) then negsuc n else negsuc (2 ^ 63 - 1)

unfoldable pub atoi_value : List ℕ → ℤ
unfolding clamped_from clamped_neg is_digit
atoi_value [] = pos 0
atoi_value (c ∷ s) =
    if c == b'-'
    then clamped_neg (clamped_from 0 s)
    else pos (min (clamped_from 0 (if c == b'+' then s else c ∷ s)) (2 ^ 63 - 1))

atoi_runs : (atoi (itoa 65535) ≡ some (pos 65535)) × (atoi (b'-' ∷ b'7' ∷ []) ≡ some (negsuc 6))
unfolding atoi itoa
atoi_runs = (refl, refl)

abbrev pub AllDigits : List ℕ → Type 0
AllDigits [] = Unit
AllDigits (c ∷ s) = (48 ≤ c) × (c ≤ 57) × AllDigits s

digits_into-AllDigits :
    (fuel n : ℕ) (out : List ℕ) → AllDigits out → AllDigits (digits_into fuel n out)
unfolding digits_into
digits_into-AllDigits zero n out h = h
digits_into-AllDigits (suc fuel) n out h =
    ground (arith, digits_into-AllDigits fuel (n / 10) ((48 + n % 10) ∷ out))

pub itoa-AllDigits : (n : ℕ) → AllDigits (itoa n)
unfolding itoa
itoa-AllDigits n = digits_into-AllDigits (suc n) n [] tt

-- Reading what was written, with the digits behind it.
value_from-digits :
    (fuel n : ℕ) (out : List ℕ)
    → n < fuel
    → value_from 0 (digits_into fuel n out) ≡ value_from n out
unfolding value_from digits_into is_digit
value_from-digits zero n out h = absurd (omega arith)
value_from-digits (suc fuel) n out h =
    ground (arith, value_from-digits fuel (n / 10) ((48 + n % 10) ∷ out))

value_from-itoa : (n : ℕ) → value_from 0 (itoa n) ≡ some n
unfolding itoa
value_from-itoa n = value_from-digits (suc n) n [] (omega arith) ∙ (unfold value_from in refl)

digits_into-ne-nil : (fuel n : ℕ) (c : ℕ) (out : List ℕ) → digits_into fuel n (c ∷ out) ≢ []
unfolding digits_into
digits_into-ne-nil zero n c out e = cc
digits_into-ne-nil (suc fuel) n c out e =
    ground (arith, digits_into-ne-nil fuel (n / 10) (48 + n % 10) (c ∷ out))

pub itoa-ne-nil : (n : ℕ) → itoa n ≢ []
unfolding itoa digits_into
itoa-ne-nil n e = ground (arith, digits_into-ne-nil n (n / 10) (48 + n % 10) [])

atoi-digits :
    (s : List ℕ) (n : ℕ)
    → s ≢ []
    → AllDigits s
    → value_from 0 s ≡ some n
    → n < 2 ^ 63
    → atoi s ≡ some (pos n)
unfolding atoi
atoi-digits [] n h d e b = absurd (h refl)
atoi-digits (c ∷ s) n h d e b = ground arith

-- `Atoi` reads back what `Itoa` wrote.
pub atoi-itoa : (n : ℕ) → n < 2 ^ 63 → atoi (itoa n) ≡ some (pos n)
atoi-itoa n b = atoi-digits (itoa n) n (itoa-ne-nil n) (itoa-AllDigits n) (value_from-itoa n) b

-- `strconv.ParseUint(s, 10, 16)`: digits only, and a value of 16 bits; `none` is its error.
below_uint16 : Option ℕ → Option ℕ
below_uint16 none = none
below_uint16 (some n) = if ltb n 65536 then some n else none

unfoldable pub parse_uint16 : List ℕ → Option ℕ
unfolding below_uint16 unsigned
parse_uint16 s = below_uint16 (unsigned s)

unsigned-itoa : (s : List ℕ) (n : ℕ) → s ≢ [] → value_from 0 s ≡ some n → unsigned s ≡ some n
unfolding unsigned
unsigned-itoa [] n h e = absurd (h refl)
unsigned-itoa (c ∷ s) n h e = e

pub parse_uint16-itoa : (n : ℕ) → n < 65536 → parse_uint16 (itoa n) ≡ some n
unfolding parse_uint16 below_uint16
parse_uint16-itoa n h =
    rw (unsigned-itoa (itoa n) n (itoa-ne-nil n) (value_from-itoa n)) (ground arith)
