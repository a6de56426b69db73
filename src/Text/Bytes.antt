-- ===== src/Text/Bytes.antt =====
-- Bytes looked up in Go strings and slices.
use vwarp.Prelude.{
  ℕ, suc, ◌≡◌, refl, ap, Bool, false, ◌||◌, List, [], ◌∷◌, ◌++◌, Option, none, some, arith, length,
  take, drop, ◌==◌, if◌then◌else◌,
}
use mathlib.Core.Option

-- `bytes.IndexByte` and its last-index twin; `none` is Go's -1.
unfoldable pub index_byte : List ℕ → ℕ → Option ℕ
index_byte [] b = none
index_byte (x ∷ xs) b = if x == b then some 0 else Option.map suc (index_byte xs b)

unfoldable pub last_index_byte : List ℕ → ℕ → Option ℕ
last_index_byte [] b = none
last_index_byte (x ∷ xs) b = elim (last_index_byte xs b) [
  | some i ↦ some (suc i)
  | none ↦ if x == b then some 0 else none
]

-- Whether a byte stands in a text.
abbrev pub has_byte : List ℕ → ℕ → Bool
has_byte [] b = false
has_byte (x ∷ xs) b = (x == b) || has_byte xs b

pub has_byte-append :
    (xs ys : List ℕ) (b : ℕ) → has_byte (xs ++ ys) b ≡ (has_byte xs b || has_byte ys b)
has_byte-append [] ys b = refl
has_byte-append (x ∷ xs) ys b = ground (arith, has_byte-append xs ys b)

pub last_index_byte-none :
    (xs : List ℕ) (b : ℕ) → has_byte xs b ≡ false → last_index_byte xs b ≡ none
unfolding last_index_byte
last_index_byte-none [] b h = refl
last_index_byte-none (x ∷ xs) b h = ground (arith, last_index_byte-none xs b)

pub last_index_byte-last :
    (xs ys : List ℕ) (b : ℕ)
    → has_byte ys b ≡ false
    → last_index_byte (xs ++ (b ∷ ys)) b ≡ some (length xs)
unfolding last_index_byte
last_index_byte-last [] ys b h = ground (arith, last_index_byte-none ys b)
last_index_byte-last (x ∷ xs) ys b h = ground (arith, last_index_byte-last xs ys b)

pub index_byte-first :
    (xs ys : List ℕ) (b : ℕ)
    → has_byte xs b ≡ false
    → index_byte (xs ++ (b ∷ ys)) b ≡ some (length xs)
unfolding index_byte
index_byte-first [] ys b h = ground arith
index_byte-first (x ∷ xs) ys b h = ground (arith, index_byte-first xs ys b)

pub take-length {ℓ} : {A : Type ℓ} (xs ys : List A) → take (length xs) (xs ++ ys) ≡ xs
take-length [] ys = refl
take-length (x ∷ xs) ys = ap (λ l. x ∷ l) (take-length xs ys)

pub drop-length {ℓ} : {A : Type ℓ} (xs ys : List A) → drop (length xs) (xs ++ ys) ≡ ys
drop-length [] ys = refl
drop-length (x ∷ xs) ys = drop-length xs ys

pub drop-suc-length {ℓ} :
    {A : Type ℓ} (xs : List A) (b : A) (ys : List A) → drop (suc (length xs)) (xs ++ (b ∷ ys)) ≡ ys
drop-suc-length [] b ys = refl
drop-suc-length (x ∷ xs) b ys = drop-suc-length xs b ys
