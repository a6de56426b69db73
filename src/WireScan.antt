-- ===== src/WireScan.antt =====
-- wiresocks/scanner.go: what `RunScan` makes of the endpoints of its options, and what it returns. The
-- parsers of netip are parameters.
pub mod Targets
use vwarp.Prelude.{
  ℕ, Bool, ◌&&◌, not, List, [], ◌∷◌, ◌++◌, Option, none, some, ltb, if◌then◌else◌, ◌>>=◌,
}
use vwarp.Prelude.Int.{ℤ, pos, negsuc}
use vwarp.Text.{codes}
use vwarp.Text.Bytes.{has_byte}
use vwarp.Text.Decimal.{atoi}
use vwarp.Text.Hex.{split}
use vwarp.Text.HostPort.{join_host_port, split_host_port}
use vwarp.Text.Trim.{trim_front, trim_back}

-- An option that a part of the text adds to the scanner.
pub data Target : Type 0 where
  cidr endpoint : List ℕ → Target

-- `netip.ParsePrefix` and `netip.ParseAddr`, as far as they succeed.
pub record Parsers : Type 0 where
  pub is_prefix : List ℕ → Bool
  pub is_addr : List ℕ → Bool

unfoldable pub is_port : Option ℤ → Bool
is_port none = Bool.false
is_port (some (negsuc n)) = Bool.false
is_port (some (pos n)) = ltb n 65536

-- A text with a port is taken as it is, if the port is one.
unfoldable pub with_port : List ℕ → List ℕ → Option Target
with_port part port = if is_port (atoi port) then some (endpoint part) else none

-- Port 0 stands for a random one.
unfoldable pub without_port : Parsers → List ℕ → Option Target
without_port lib part =
    if lib.is_addr part
    then some (endpoint (join_host_port part (codes "0")))
    else if has_byte part b'.' && (not (has_byte part b'/') && not (has_byte part b':'))
    then some (endpoint (join_host_port part (codes "0")))
    else none

unfoldable pub by_port : Parsers → List ℕ → Option (List ℕ × List ℕ) → Option Target
by_port lib part none = without_port lib part
by_port lib part (some (host, port)) = with_port part port

-- A part that is not empty; `none` is an error.
unfoldable pub target_of : Parsers → List ℕ → Option Target
target_of lib part =
    if lib.is_prefix part then some (cidr part) else by_port lib part (split_host_port part)

unfoldable pub trimmed : List ℕ → List ℕ
trimmed s = trim_back (trim_front s)

-- The loop over the parts between commas.
unfoldable pub targets_of : Parsers → List (List ℕ) → Option (List Target)
targets_of lib [] = some []
targets_of lib (part ∷ parts) = elim (trimmed part) [
  | [] ↦ targets_of lib parts
  | c ∷ text ↦ do
    target ← target_of lib (c ∷ text)
    rest ← targets_of lib parts
    some (target ∷ rest)
]

-- At most one of the addresses that were found; `none` is the error of a scan without any.
unfoldable pub scan_result : {A : Type 0} → List A → Option (List A)
scan_result [] = none
scan_result (ip ∷ ips) = some (ip ∷ [])
