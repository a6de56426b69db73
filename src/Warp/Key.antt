-- ===== src/Warp/Key.antt =====
-- warp/key.go: the keys of WireGuard. The random bytes and the curve are parameters.
use vwarp.Prelude.{
  ℕ, zero, suc, ◌+◌, ◌*◌, ◌/◌, ◌%◌, ◌≤◌, ◌<◌, ◌≡◌, refl, ◌∙◌, true, List, [], ◌∷◌, Option, none,
  some, length, get_or, set, length-set, ◌==◌, if◌then◌else◌, arith,
}

abbrev pub key_len : ℕ
key_len = 32

-- `NewKey`.
unfoldable pub new_key : List ℕ → Option (List ℕ)
new_key b = if length b == key_len then some b else none

-- `GenerateKey`; `none` is the error of `rand.Read`.
unfoldable pub generate_key : Option (List ℕ) → Option (List ℕ)
generate_key none = none
generate_key (some b) = new_key b

-- `&= 248`, and `&= 127` with `|= 64` behind it, on a byte.
unfoldable pub clear_low : ℕ → ℕ
clear_low b = b / 8 * 8

unfoldable pub fix_high : ℕ → ℕ
fix_high b = b % 64 + 64

unfoldable pub clamp : List ℕ → List ℕ
clamp key = set (set key 0 (clear_low (get_or key 0 0))) 31 (fix_high (get_or key 31 0))

unfoldable pub clamped : Option (List ℕ) → Option (List ℕ)
clamped none = none
clamped (some key) = some (clamp key)

-- `GeneratePrivateKey`.
unfoldable pub generate_private_key : Option (List ℕ) → Option (List ℕ)
generate_private_key bytes = clamped (generate_key bytes)

get_or-set_self : (xs : List ℕ) (i v d : ℕ) → i < length xs → get_or (set xs i v) i d ≡ v
get_or-set_self [] i v d h = absurd (omega arith)
get_or-set_self (x ∷ xs) zero v d h = refl
get_or-set_self (x ∷ xs) (suc i) v d h = get_or-set_self xs i v d (omega arith)

get_or-set_later : (xs : List ℕ) (i v d : ℕ) → get_or (set xs (suc i) v) 0 d ≡ get_or xs 0 d
get_or-set_later [] i v d = refl
get_or-set_later (x ∷ xs) i v d = refl

-- From 32 random bytes there is a private key of 32 bytes, whose first byte is a multiple of 8, not above
-- the byte that was drawn, and whose last byte has bit 6 set, bit 7 clear and the low six bits of the
-- byte that was drawn.
pub generate_private_key-clamped :
    (bytes : List ℕ)
    → length bytes ≡ 32
    → (key : List ℕ) × (generate_private_key (some bytes) ≡ some key)
      × (length key ≡ 32)
      × (get_or key 0 0 % 8 ≡ 0)
      × (get_or key 0 0 ≤ get_or bytes 0 0)
      × (64 ≤ get_or key 31 0)
      × (get_or key 31 0 < 128)
      × (get_or key 31 0 % 64 ≡ get_or bytes 31 0 % 64)
unfolding generate_private_key generate_key new_key clamped clamp clear_low fix_high
generate_private_key-clamped bytes h =
    let low = get_or bytes 0 0 / 8 * 8 in
    let high = get_or bytes 31 0 % 64 + 64 in
    let once = set bytes 0 low in
    let size : length once ≡ 32 = length-set bytes 0 low ∙ h in
    let same : (length bytes == 32) ≡ true = ground arith in
    let first : get_or (set once 31 high) 0 0 ≡ low =
      get_or-set_later once 30 high 0 ∙ get_or-set_self bytes 0 low 0 (omega arith) in
    let last : get_or (set once 31 high) 31 0 ≡ high =
      get_or-set_self once 31 high 0 (omega arith) in
    (
      set once 31 high,
      rw same refl,
      length-set once 31 high ∙ size,
      omega arith,
      omega arith,
      omega arith,
      omega arith,
      omega arith,
    )
