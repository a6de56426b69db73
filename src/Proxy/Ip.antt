-- ===== src/Proxy/Ip.antt =====
-- Go's `net.IP`: a slice of 4 or of 16 bytes, or anything else, which is no address.
use vwarp.Prelude.{
  ℕ, ◌+◌, ◌*◌, ◌/◌, ◌%◌, ◌<◌, ◌≡◌, ◌&&◌, List, [], ◌∷◌, ◌++◌, Option, none, some, arith, length,
  length-drop, ◌⊎◌, take, drop, ◌==◌, if◌then◌else◌,
}
use vwarp.Text.{text_eq}

-- The first twelve bytes of an IPv4 address in its 16-byte form.
abbrev pub v4_prefix : List ℕ
v4_prefix = 0 ∷ 0 ∷ 0 ∷ 0 ∷ 0 ∷ 0 ∷ 0 ∷ 0 ∷ 0 ∷ 0 ∷ 255 ∷ 255 ∷ []

unfoldable pub to4 : List ℕ → Option (List ℕ)
to4 ip =
    if length ip == 4
    then some ip
    else if length ip == 16 && text_eq (take 12 ip) v4_prefix
    then some (drop 12 ip)
    else none

unfoldable pub to16 : List ℕ → Option (List ℕ)
to16 ip =
    if length ip == 4 then some (v4_prefix ++ ip) else if length ip == 16 then some ip else none

abbrev pub AllBytes : List ℕ → Type 0
AllBytes [] = Unit
AllBytes (b ∷ bs) = (b < 256) × AllBytes bs

-- `binary.BigEndian.PutUint16` of `uint16(n)`, and `Uint16`.
unfoldable pub put_uint16 : ℕ → List ℕ
put_uint16 n = (n / 256 % 256) ∷ (n % 256) ∷ []

unfoldable pub uint16 : List ℕ → ℕ
uint16 (a ∷ b ∷ rest) = a * 256 + b
uint16 _ = 0

pub length-to4 : (ip ip4 : List ℕ) → to4 ip ≡ some ip4 → length ip4 ≡ 4
unfolding to4
length-to4 ip ip4 e = ground (arith, length-drop 12 ip)

-- Of the two lengths, what has no 4-byte form is 16 bytes long.
pub to4-none : (ip : List ℕ) → (length ip ≡ 4) ⊎ (length ip ≡ 16) → to4 ip ≡ none → length ip ≡ 16
unfolding to4
to4-none ip h e = ground arith

pub to16-long : (ip : List ℕ) → length ip ≡ 16 → to16 ip ≡ some ip
unfolding to16
to16-long ip e = rw e
