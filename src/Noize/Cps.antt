-- ===== src/Noize/Cps.antt =====
-- `parseCPSPacket` of masque/noize/noize.go: the packets that a text of tags in angle brackets stands
-- for, such as "<b 0xc0ff><r 16><t>". A text is ASCII.
pub mod RoundTrip
use Prim.Native.Nat.{bit_xor}
use vwarp.Prelude.{
  ℕ, zero, suc, ◌+◌, ◌-◌, ◌*◌, ◌/◌, ◌%◌, ◌^◌, Bool, true, false, ◌&&◌, ◌||◌, List, [], ◌∷◌, ◌++◌,
  Option, none, some, ◌==◌, ◌>>=◌, leb, ltb, map, if◌then◌else◌, length, drop,
}
use vwarp.Prelude.Int.{ℤ, pos, negsuc}
use vwarp.Text.{codes, has_prefix}
use vwarp.Text.Trim.{trim_front, trim_back}
use vwarp.Text.Decimal.{atoi_value}
use vwarp.Preflight.{put_uint32}
use vwarp.Noize.{random_bytes}

-- A match of `<([btcrnx])\s*([^>]*)>`: the letter, and what stands behind it, trimmed. The search is in
-- front of a match, behind a "<", or inside a match that goes on to the next ">".
pub data Scan : Type 0 where
  outside opened : Scan
  inside : (letter : ℕ) → (content : List ℕ) → Scan

unfoldable pub is_tag_letter : ℕ → Bool
is_tag_letter c = (c == 98) || (c == 116) || (c == 99) || (c == 114) || (c == 110) || (c == 120)

-- What the search does at a byte, and the match that ends there.
unfoldable pub scan_byte : Scan → ℕ → Scan
scan_byte outside c = if c == 60 then opened else outside
scan_byte opened c = if is_tag_letter c then inside c [] else if c == 60 then opened else outside
scan_byte (inside letter content) c =
    if c == 62 then outside else inside letter (content ++ (c ∷ []))

unfoldable pub matched : Scan → ℕ → List (ℕ × List ℕ)
matched outside c = []
matched opened c = []
matched (inside letter content) c =
    if c == 62 then (letter, trim_back (trim_front content)) ∷ [] else []

unfoldable pub find_tags : Scan → List ℕ → List (ℕ × List ℕ)
find_tags scan [] = []
find_tags scan (c ∷ s) = matched scan c ++ find_tags (scan_byte scan c) s

-- `strings.TrimPrefix`.
unfoldable pub trim_prefix : List ℕ → List ℕ → List ℕ
trim_prefix s p = if has_prefix s p then drop (length p) s else s

-- `strings.ReplaceAll(data, " ", "")`.
unfoldable pub without_spaces : List ℕ → List ℕ
without_spaces [] = []
without_spaces (c ∷ s) = if c == 32 then without_spaces s else c ∷ without_spaces s

-- `hex.DecodeString`.
unfoldable pub hex_value : ℕ → Option ℕ
hex_value c =
    if leb 48 c && leb c 57
    then some (c - 48)
    else if leb 97 c && leb c 102
    then some (c - 87)
    else if leb 65 c && leb c 70
    then some (c - 55)
    else none

unfoldable pub hex_byte : ℕ → ℕ → Option ℕ
hex_byte a b = do hi ← hex_value a; lo ← hex_value b; some (16 * hi + lo)

unfoldable pub hex_decode : List ℕ → Option (List ℕ)
hex_decode [] = some []
hex_decode (a ∷ []) = none
hex_decode (a ∷ b ∷ s) = do x ← hex_byte a b; rest ← hex_decode s; some (x ∷ rest)

-- The Unix time in seconds and in nanoseconds, and the random bytes drawn for each tag.
pub record Draws : Type 0 where
  pub unix : ℕ
  pub unix_nano : ℕ
  pub noise : ℕ → ℕ → ℕ

unfoldable pub put_uint64 : ℕ → List ℕ
put_uint64 n = put_uint32 (n / 2 ^ 32 % 2 ^ 32) ++ put_uint32 (n % 2 ^ 32)

-- At most 1000 random bytes.
unfoldable pub random_length : ℤ → ℕ
random_length (negsuc n) = 0
random_length (pos n) = if ltb 1000 n then 1000 else n

-- `byte(key)`.
unfoldable pub key_byte : ℤ → ℕ
key_byte (pos n) = n % 256
key_byte (negsuc n) = 255 - n % 256

-- The tags whose bytes do not depend on their content.
unfoldable pub apply_timed : Draws → ℕ → List ℕ → List ℕ
apply_timed draws letter result =
    if letter == 99
    then result ++ put_uint32 (draws.unix % 4294967295 % 2 ^ 32)
    else if letter == 116
    then result ++ put_uint32 (draws.unix % 2 ^ 32)
    else if letter == 110
    then result ++ put_uint64 (draws.unix_nano % 2 ^ 64)
    else result

-- The body of the loop for the i-th tag: the result with the bytes of the tag behind it.
unfoldable pub apply_tag : Draws → ℕ → ℕ → List ℕ → List ℕ → Option (List ℕ)
apply_tag draws i letter [] result = some (apply_timed draws letter result)
apply_tag draws i letter (d ∷ content) result =
    if letter == 98
    then (do
      bytes ←
          hex_decode
            (without_spaces (trim_prefix (trim_prefix (d ∷ content) (codes "0x")) (codes "0X")))
      some (result ++ bytes))
    else if letter == 114
    then some (result ++ random_bytes (draws.noise i) (random_length (atoi_value (d ∷ content))))
    else if letter == 120
    then some (map (λ b. bit_xor b (key_byte (atoi_value (d ∷ content)))) result)
    else some (apply_timed draws letter result)

unfoldable pub apply_tags : Draws → ℕ → List (ℕ × List ℕ) → List ℕ → Option (List ℕ)
apply_tags draws i [] result = some result
apply_tags draws i ((letter, content) ∷ tags) result = do
  result' ← apply_tag draws i letter content result
  apply_tags draws (suc i) tags result'

-- `none` is the error of hexadecimal digits that are none.
unfoldable pub parse_cps_packet : Draws → List ℕ → Option (List ℕ)
parse_cps_packet draws cps = apply_tags draws 0 (find_tags outside cps) []
