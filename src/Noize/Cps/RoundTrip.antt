-- ===== src/Noize/Cps/RoundTrip.antt =====
-- Static bytes in the format of `parseCPSPacket` in masque/noize/noize.go.
use vwarp.Prelude.{
  ℕ, suc, ◌+◌, ◌*◌, ◌/◌, ◌%◌, ◌<◌, ◌≡◌, refl, ap, ◌∙◌, Bool, true, false, ◌&&◌, ◌||◌, List, [], ◌∷◌,
  ◌++◌, some, ◌==◌, leb, arith,
}
use mathlib.Core.List.{append_assoc, append-nil, flatten}
use vwarp.Text.{codes}
use vwarp.Text.Hex.{hex_digit, hex_encode}
use vwarp.Text.Trim.{is_space, trim_front, trim_back}
use vwarp.Noize.Cps.{
  outside, inside, is_tag_letter, scan_byte, matched, find_tags, trim_prefix, without_spaces,
  hex_value, hex_byte, hex_decode, Draws, apply_tag, apply_tags, parse_cps_packet,
}

-- Bytes as text in a tag.
unfoldable pub static_tag : List ℕ → List ℕ
static_tag bs = codes "<b 0x" ++ hex_encode bs ++ codes ">"

unfoldable pub static_tags : List (List ℕ) → List ℕ
static_tags [] = []
static_tags (bs ∷ chunks) = static_tag bs ++ static_tags chunks

abbrev pub AllBytes : List ℕ → Type 0
AllBytes [] = Unit
AllBytes (b ∷ bs) = (b < 256) × AllBytes bs

hex_value-digit : (n : ℕ) → n < 16 → hex_value (hex_digit n) ≡ some n
unfolding hex_value hex_digit
hex_value-digit n h = ground arith

hex_decode-encode : (bs : List ℕ) → AllBytes bs → hex_decode (hex_encode bs) ≡ some bs
unfolding hex_decode hex_encode hex_byte
hex_decode-encode [] h = refl
hex_decode-encode (b ∷ bs) (small, h) =
    let split : 16 * (b / 16) + b % 16 ≡ b = omega arith in
    rw (
      hex_value-digit (b / 16) (omega arith),
      hex_value-digit (b % 16) (omega arith),
      hex_decode-encode bs h,
      split,
    )

is_hex : ℕ → Bool
is_hex c = (leb 48 c && leb c 57) || (leb 97 c && leb c 102)

AllHex : List ℕ → Type 0
AllHex [] = Unit
AllHex (c ∷ s) = (is_hex c ≡ true) × AllHex s

hex_encode-AllHex : (bs : List ℕ) → AllBytes bs → AllHex (hex_encode bs)
unfolding AllHex is_hex hex_encode hex_digit
hex_encode-AllHex [] h = tt
hex_encode-AllHex (b ∷ bs) (small, h) =
    let high : b / 16 < 16 = omega arith in
    let low : b % 16 < 16 = omega arith in (ground arith, (ground arith, hex_encode-AllHex bs h))

find_tags-inside :
    (letter : ℕ)
    → (acc s rest : List ℕ) → AllHex s
    → find_tags (inside letter acc) (s ++ (62 ∷ rest))
      ≡ (letter, trim_back (trim_front (acc ++ s))) ∷ find_tags outside rest
unfolding AllHex is_hex find_tags matched scan_byte
find_tags-inside letter acc [] rest h = rw (append-nil acc) refl
find_tags-inside letter acc (c ∷ s) rest (hex, h) =
    let plain : (c == 62) ≡ false = ground arith in
    rw (plain, find_tags-inside letter (acc ++ (c ∷ [])) s rest h, append_assoc acc (c ∷ []) s)

trim_back-keeps :
    (c : ℕ) → (s : List ℕ) → is_space c ≡ false → trim_back s ≡ s → trim_back (c ∷ s) ≡ c ∷ s
unfolding trim_back
trim_back-keeps c [] plain e = rw plain refl
trim_back-keeps c (d ∷ s) plain e = rw e refl

trim_back-hex : (s : List ℕ) → AllHex s → trim_back s ≡ s
unfolding AllHex trim_back is_hex is_space
trim_back-hex [] h = refl
trim_back-hex (c ∷ s) (hex, h) = trim_back-keeps c s (ground arith) (trim_back-hex s h)

no_prefix-hex : (s : List ℕ) → AllHex s → trim_prefix s (codes "0X") ≡ s
unfolding AllHex is_hex trim_prefix vwarp.Text.has_prefix
no_prefix-hex [] h = refl
no_prefix-hex (c ∷ []) h = ground arith
no_prefix-hex (c ∷ d ∷ s) h = ground arith

without_spaces-hex : (s : List ℕ) → AllHex s → without_spaces s ≡ s
unfolding AllHex is_hex without_spaces
without_spaces-hex [] h = refl
without_spaces-hex (c ∷ s) (hex, h) =
    let plain : (c == 32) ≡ false = ground arith in rw (plain, without_spaces-hex s h)

find_tags-static :
    (bs : List ℕ)
    → (rest : List ℕ) → AllBytes bs
    → find_tags outside (static_tag bs ++ rest)
      ≡ (98, codes "0x" ++ hex_encode bs) ∷ find_tags outside rest
unfolding find_tags matched scan_byte static_tag is_tag_letter trim_front is_space trim_back
find_tags-static bs rest h =
    let hex = hex_encode-AllHex bs h in
    let trimmed : trim_back (48 ∷ 120 ∷ hex_encode bs) ≡ 48 ∷ 120 ∷ hex_encode bs =
      trim_back-keeps 48 (120 ∷ hex_encode bs) refl
        (trim_back-keeps 120 (hex_encode bs) refl (trim_back-hex (hex_encode bs) hex)) in
    ap (find_tags (inside 98 (32 ∷ 48 ∷ 120 ∷ []))) (append_assoc (hex_encode bs) (62 ∷ []) rest)
    ∙ find_tags-inside 98 (32 ∷ 48 ∷ 120 ∷ []) (hex_encode bs) rest hex
    ∙ ap (λ t. (98, t) ∷ find_tags outside rest) trimmed

without_0x : (s : List ℕ) → trim_prefix (48 ∷ 120 ∷ s) (48 ∷ 120 ∷ []) ≡ s
unfolding trim_prefix vwarp.Text.has_prefix
without_0x s = refl

apply_tag-static :
    (draws : Draws)
    → (i : ℕ) → (bs result : List ℕ) → AllBytes bs
    → apply_tag draws i 98 (codes "0x" ++ hex_encode bs) result ≡ some (result ++ bs)
unfolding apply_tag
apply_tag-static draws i bs result h =
    let hex = hex_encode-AllHex bs h in
    rw (
      without_0x (hex_encode bs),
      no_prefix-hex (hex_encode bs) hex,
      without_spaces-hex (hex_encode bs) hex,
      hex_decode-encode bs h,
    )

unfoldable pub AllChunks : List (List ℕ) → Type 0
AllChunks [] = Unit
AllChunks (bs ∷ chunks) = AllBytes bs × AllChunks chunks

apply_tags-static :
    (draws : Draws)
    → (i : ℕ) → (chunks : List (List ℕ)) → (result : List ℕ) → AllChunks chunks
    → apply_tags draws i (find_tags outside (static_tags chunks)) result
      ≡ some (result ++ flatten chunks)
unfolding AllChunks apply_tags static_tags find_tags flatten
apply_tags-static draws i [] result h = rw (append-nil result) refl
apply_tags-static draws i (bs ∷ chunks) result (bytes, h) = rw (
  find_tags-static bs (static_tags chunks) bytes,
  apply_tag-static draws i bs result bytes,
  apply_tags-static draws (suc i) chunks (result ++ bs) h,
  append_assoc result bs (flatten chunks),
)

-- Any byte strings, written as tags of static bytes one after the other, are read back as these bytes.
pub parse_cps_packet-static_tags :
    (draws : Draws)
    → (chunks : List (List ℕ)) → AllChunks chunks
    → parse_cps_packet draws (static_tags chunks) ≡ some (flatten chunks)
unfolding parse_cps_packet
parse_cps_packet-static_tags draws chunks h = apply_tags-static draws 0 chunks [] h
