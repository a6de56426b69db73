-- ===== src/Scanner/Lists.antt =====
-- Texts between commas, as ipscanner/scanner.go and wiresocks/scanner.go take them apart.
use vwarp.Prelude.{ℕ, ◌≡◌, ◌≢◌, refl, false, List, [], ◌∷◌, ◌++◌, arith, inl, inr, Bool-cases}
use vwarp.Text.Bytes.{has_byte}
use vwarp.Text.Decimal.{AllDigits, itoa, itoa-AllDigits}
use vwarp.Text.Hex.{split, split-none, split-append}
use vwarp.Text.HostPort.{join_host_port}
use vwarp.Text.Trim.{is_space, trim_front, trim_back}
use vwarp.WireScan.{trimmed}

-- No byte is white space or a comma.
abbrev pub IsPlain : List ℕ → Type 0
IsPlain [] = Unit
IsPlain (c ∷ s) = (is_space c ≡ false) × (c ≢ b',') × IsPlain s

pub IsPlain-append : (s t : List ℕ) → IsPlain s → IsPlain t → IsPlain (s ++ t)
IsPlain-append [] t h k = k
IsPlain-append (c ∷ s) t (no_space, no_comma, h) k = (no_space, no_comma, IsPlain-append s t h k)

IsPlain-digits : (s : List ℕ) → AllDigits s → IsPlain s
unfolding is_space
IsPlain-digits [] h = tt
IsPlain-digits (c ∷ s) (low, high, h) = (ground arith, (λ e. omega (arith, e)), IsPlain-digits s h)

pub IsPlain-itoa : (n : ℕ) → IsPlain (itoa n)
IsPlain-itoa n = IsPlain-digits (itoa n) (itoa-AllDigits n)

colon : (t : List ℕ) → IsPlain t → IsPlain (b':' ∷ t)
unfolding is_space
colon t h = (refl, (λ e. omega (arith, e)), h)

bracket : (t : List ℕ) → IsPlain t → IsPlain (b']' ∷ b':' ∷ t)
unfolding is_space
bracket t h = (refl, (λ e. omega (arith, e)), colon t h)

opened : (t : List ℕ) → IsPlain t → IsPlain (b'[' ∷ t)
unfolding is_space
opened t h = (refl, (λ e. omega (arith, e)), h)

pub IsPlain-join :
    (host port : List ℕ) → IsPlain host → IsPlain port → IsPlain (join_host_port host port)
unfolding join_host_port
IsPlain-join host port h k = elim (Bool-cases (has_byte host b':')) [
  | inl e ↦ rw e (opened _ (IsPlain-append host (b']' ∷ b':' ∷ port) h (bracket port k)))
  | inr e ↦ rw e (IsPlain-append host (b':' ∷ port) h (colon port k))
]

pub no_comma-IsPlain : (s : List ℕ) → IsPlain s → has_byte s b',' ≡ false
no_comma-IsPlain [] h = refl
no_comma-IsPlain (c ∷ s) (no_space, no_comma, h) = ground (arith, no_comma-IsPlain s h)

trim_back-IsPlain : (s : List ℕ) → IsPlain s → trim_back s ≡ s
unfolding trim_back
trim_back-IsPlain [] h = refl
trim_back-IsPlain (c ∷ []) (no_space, no_comma, h) = rw no_space refl
trim_back-IsPlain (c ∷ d ∷ s) (no_space, no_comma, h) = rw (trim_back-IsPlain (d ∷ s) h) refl

pub trimmed-IsPlain : (s : List ℕ) → IsPlain s → trimmed s ≡ s
unfolding trimmed trim_front
trimmed-IsPlain [] h = trim_back-IsPlain [] h
trimmed-IsPlain (c ∷ s) (no_space, no_comma, h) =
    rw no_space (trim_back-IsPlain (c ∷ s) (no_space, no_comma, h))

-- `strings.Join` with a comma.
abbrev pub join_commas : List (List ℕ) → List ℕ
join_commas [] = []
join_commas (text ∷ []) = text
join_commas (text ∷ more ∷ texts) = text ++ (b',' ∷ join_commas (more ∷ texts))

abbrev pub AllPlain : List (List ℕ) → Type 0
AllPlain [] = Unit
AllPlain (text ∷ texts) = IsPlain text × AllPlain texts

pub split-join_commas :
    (text : List ℕ) (texts : List (List ℕ))
    → AllPlain (text ∷ texts)
    → split b',' (join_commas (text ∷ texts)) ≡ text ∷ texts
split-join_commas text [] (h, k) = split-none b',' text (no_comma-IsPlain text h)
split-join_commas text (more ∷ texts) (h, k) =
    rw
      (
        split-append b',' text (join_commas (more ∷ texts)) (no_comma-IsPlain text h),
        split-join_commas more texts k,
      )
      refl
