-- ===== src/Preflight/Cps.antt =====
-- `parseCPSPacket` of wireguard/preflightbind/preflight_bind.go: four kinds of tags, and an error also for
-- a length that is no number.
use vwarp.Prelude.{
  ℕ, suc, ◌%◌, ◌^◌, Bool, ◌||◌, List, [], ◌∷◌, ◌++◌, Option, some, ◌==◌, ◌>>=◌, if◌then◌else◌, drop,
}
use vwarp.Text.{codes, has_prefix}
use vwarp.Text.Decimal.{atoi}
use vwarp.Noize.{random_bytes}
use vwarp.Noize.Cps.{
  Scan, outside, opened, inside, matched, without_spaces, hex_decode, Draws, random_length,
}
use vwarp.Preflight.{put_uint32}

-- The search for `<([btcr])\s*([^>]*)>`.
unfoldable pub is_letter : ℕ → Bool
is_letter c = (c == 98) || (c == 116) || (c == 99) || (c == 114)

unfoldable pub search_byte : Scan → ℕ → Scan
search_byte outside c = if c == 60 then opened else outside
search_byte opened c = if is_letter c then inside c [] else if c == 60 then opened else outside
search_byte (inside letter content) c =
    if c == 62 then outside else inside letter (content ++ (c ∷ []))

unfoldable pub search_tags : Scan → List ℕ → List (ℕ × List ℕ)
search_tags scan [] = []
search_tags scan (c ∷ s) = matched scan c ++ search_tags (search_byte scan c) s

-- One prefix is taken off.
unfoldable pub without_0x : List ℕ → List ℕ
without_0x s = if has_prefix s (codes "0x") || has_prefix s (codes "0X") then drop 2 s else s

unfoldable pub timed : Draws → ℕ → List ℕ
timed draws letter =
    if letter == 99
    then put_uint32 (draws.unix % 4294967295 % 2 ^ 32)
    else if letter == 116
    then put_uint32 (draws.unix % 2 ^ 32)
    else []

-- The bytes of the i-th tag.
unfoldable pub tag_bytes : Draws → ℕ → ℕ → List ℕ → Option (List ℕ)
tag_bytes draws i letter [] = some (timed draws letter)
tag_bytes draws i letter (d ∷ content) =
    if letter == 98
    then hex_decode (without_spaces (without_0x (d ∷ content)))
    else if letter == 114
    then (do n ← atoi (d ∷ content); some (random_bytes (draws.noise i) (random_length n)))
    else some (timed draws letter)

unfoldable pub all_tags : Draws → ℕ → List (ℕ × List ℕ) → Option (List ℕ)
all_tags draws i [] = some []
all_tags draws i ((letter, content) ∷ tags) = do
  bytes ← tag_bytes draws i letter content
  rest ← all_tags draws (suc i) tags
  some (bytes ++ rest)

-- `parseCPSPacket`; `none` is an error.
unfoldable pub parse_signature : Draws → List ℕ → Option (List ℕ)
parse_signature draws cps = all_tags draws 0 (search_tags outside cps)
