-- ===== src/Wire/Reader.antt =====
-- Readers: actions that only read, and whose answer rests on the bytes that they have used up.
use mathlib.Core.List.{append_assoc, append-nil}
use vwarp.Prelude.{
  ℕ, ◌≤◌, ◌≡◌, inl, inr, refl, ap, ◌∙◌, Bool, true, false, List, [], ◌∷◌, ◌++◌, length, length-take,
  take, drop, take-append-drop, sym, arith, ltb, ltb→lt, if◌then◌else◌, Bool-cases,
}
use vwarp.Wire.{Conn, Io, ok, err, eof, Error, pure, raise, read_byte, read_full, ◌>>=◌}
use vwarp.Wire.Laws.{fed, IsEnd, read_full-append, read_full_short}

-- The three ways in which a reader answers at an input `xs`: a value or an error that stands whatever
-- follows `xs`, or an error that says that the input ended.
pub data Answer {ℓ} {A : Type ℓ} (m : Io A) (c : Conn) (xs : List ℕ) : Type ℓ where
  value :
      (a : A) (rest : List ℕ)
      → ((ys : List ℕ) → m (fed (xs ++ ys) c) ≡ (ok a, fed (rest ++ ys) c))
      → Answer m c xs
  failure :
      (e : Error) (rest : List ℕ)
      → ((ys : List ℕ) → m (fed (xs ++ ys) c) ≡ (err e, fed (rest ++ ys) c))
      → Answer m c xs
  ended : (e : Error) → IsEnd e → m (fed xs c) ≡ (err e, fed [] c) → Answer m c xs

abbrev pub IsReader {ℓ} : {A : Type ℓ} → Io A → Type ℓ
IsReader m = (c : Conn) (xs : List ℕ) → Answer m c xs

module _ {ℓ} {A : Type ℓ} where
  pub pure-IsReader : (a : A) → IsReader (pure a)
  pure-IsReader a c xs = value a xs (λ ys. refl)

  pub raise-IsReader : (e : Error) → IsReader (raise {A = A} e)
  raise-IsReader e c xs = failure e xs (λ ys. refl)

  pub if-IsReader :
      (b : Bool) (m n : Io A) → IsReader m → IsReader n → IsReader (if b then m else n)
  if-IsReader true m n rm rn = rm
  if-IsReader false m n rm rn = rn

module _ {ℓ κ} {A : Type ℓ} {B : Type κ} where
  pub bind-IsReader :
      (m : Io A) (f : A → Io B) → IsReader m → ((a : A) → IsReader (f a)) → IsReader (m >>= f)
  bind-IsReader m f rm rf c xs = elim (rm c xs) [
    | failure e rest h ↦ failure e rest (λ ys. rw (h ys))
    | ended e end h ↦ ended e end (rw h)
    | value a rest h ↦ elim (rf a c rest) [
      | value b rest' h' ↦ value b rest' (λ ys. rw (h ys) (h' ys))
      | failure e rest' h' ↦ failure e rest' (λ ys. rw (h ys) (h' ys))
      | ended e end h' ↦
          let first : m (fed xs c) ≡ (ok a, fed rest c) = simp append-nil at (h []) in
          ended e end (rw first h')
    ]
  ]

pub read_byte-IsReader : IsReader read_byte
unfolding read_byte
read_byte-IsReader c [] = ended eof (inl refl) refl
read_byte-IsReader c (x ∷ xs) = value x xs (λ ys. refl)

pub read_full-IsReader : (n : ℕ) → IsReader (read_full n)
read_full-IsReader n c xs = elim (Bool-cases (ltb (length xs) n)) [
  | inl short ↦ let (e, h, end) = read_full_short n (fed xs c) (ltb→lt _ _ short) in ended e end h
  | inr enough ↦ value (take n xs) (drop n xs) (full (ground arith))
]
  where
    split : (ys : List ℕ) → xs ++ ys ≡ take n xs ++ (drop n xs ++ ys)
    split ys =
        ap (λ l. l ++ ys) (sym (take-append-drop n xs)) ∙ append_assoc (take n xs) (drop n xs) ys

    full :
        n ≤ length xs
        → (ys : List ℕ) → read_full n (fed (xs ++ ys) c) ≡ (ok (take n xs), fed (drop n xs ++ ys) c)
    full h ys =
        rw (split ys)
          (read_full-append n (take n xs) (drop n xs ++ ys) c (omega (arith, length-take n xs)))

pub ruleset reader_rules = (
  pure-IsReader, raise-IsReader, if-IsReader, bind-IsReader, read_byte-IsReader, read_full-IsReader,
)

-- A reader that reads the whole of `xs`, and no less, finds the end on every proper front of `xs`.
pub cut_short {ℓ} :
    {A : Type ℓ} (m : Io A) (a : A) (front : List ℕ) (x : ℕ) (back : List ℕ) (c : Conn)
    → IsReader m
    → m (fed (front ++ (x ∷ back)) c) ≡ (ok a, fed [] c)
    → (e : Error) × IsEnd e × (m (fed front c) ≡ (err e, fed [] c))
cut_short {A = A} m a front x back c r whole = elim (r c front) [
  | ended e end h ↦ (e, end, h)
  | failure e rest h ↦ absurd (failed e rest (h (x ∷ back)))
  | value b rest h ↦ absurd (left_over b rest (h (x ∷ back)))
]
  where
    failed :
        (e : Error) (rest : List ℕ)
        → m (fed (front ++ (x ∷ back)) c) ≡ (err e, fed (rest ++ (x ∷ back)) c)
        → ⊥
    failed e rest h = cc (whole, h)

    left_over :
        (b : A) (rest : List ℕ)
        → m (fed (front ++ (x ∷ back)) c) ≡ (ok b, fed (rest ++ (x ∷ back)) c)
        → ⊥
    left_over b [] h = cc (whole, h)
    left_over b (y ∷ rest) h = cc (whole, h)
