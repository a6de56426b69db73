-- ===== src/Scanner/Scan.antt =====
-- wiresocks/scanner.go: the scanner that `RunScan` makes of its options, and `Run` of ipscanner/scanner.go
-- up to the candidates of its engine.
use vwarp.Prelude.{
  ℕ, ◌+◌, ◌-◌, ◌*◌, ◌%◌, ◌^◌, Bool, true, false, ◌&&◌, not, List, [], ◌∷◌, ◌++◌, map, Option, none,
  some, ltb, if◌then◌else◌, ◌>>=◌,
}
use vwarp.Prelude.Int.{ℤ, pos, negsuc, pos_part, neg_part}
use vwarp.Text.Hex.{split}
use vwarp.Queue.{IpInfo}
use vwarp.Engine.Candidates.{candidates_of}
use vwarp.Warp.Endpoint.{Prefix, warp_prefixes}
use vwarp.WireScan.{Target, cidr, endpoint, Parsers, targets_of}
use vwarp.Scanner.{ScannerOptions, Net, new_scanner, second, millisecond}
use vwarp.Scanner.Setters.{
  with_warp_private_key, with_warp_peer_public_key, with_use_ipv4, with_use_ipv6,
  with_max_desirable_rtt, with_concurrent_scanners, with_stop_on_first_good_ips, with_bucket_size,
  with_tcp_ping_filter_rtt, with_scan_timeout, with_cidr_list, with_append_cidr_list,
}
use vwarp.Scanner.Endpoint.{add_endpoint, with_custom_scan_ports}

pub record ScanOptions : Type 0 where
  pub endpoints : List ℕ
  pub scanner_ports : List ℕ
  pub v4 : Bool
  pub v6 : Bool
  pub max_rtt : ℤ
  pub scan_timeout : ℤ
  pub private_key : List ℕ
  pub public_key : List ℕ

-- The int64 with the low 64 bits of a product by `time.Second`.
signed : ℕ → ℤ
signed n = if ltb n (2 ^ 63) then pos n else negsuc (2 ^ 64 - 1 - n)

unfoldable pub times_second : ℤ → ℤ
unfolding signed
times_second d = signed ((pos_part d * second + (2 ^ 64 - neg_part d * second % 2 ^ 64)) % 2 ^ 64)

-- The options that are always set.
abbrev pub fixed_options : ScanOptions → List (ScannerOptions → ScannerOptions)
fixed_options opts =
    with_warp_private_key opts.private_key
    ∷ with_warp_peer_public_key opts.public_key
    ∷ with_use_ipv4 opts.v4
    ∷ with_use_ipv6 opts.v6
    ∷ with_max_desirable_rtt (times_second opts.max_rtt)
    ∷ with_concurrent_scanners (pos 10)
    ∷ with_stop_on_first_good_ips (pos 1)
    ∷ with_bucket_size (pos 1)
    ∷ with_tcp_ping_filter_rtt (pos (300 * millisecond))
    ∷ with_scan_timeout opts.scan_timeout
    ∷ []

unfoldable pub append_prefix : Option Prefix → ScannerOptions → ScannerOptions
append_prefix none o = o
append_prefix (some p) o = with_append_cidr_list p o

unfoldable pub target_option : Net → Target → ScannerOptions → ScannerOptions
target_option net (cidr text) o = append_prefix (net.parse_prefix text) o
target_option net (endpoint text) o = add_endpoint net text o

abbrev pub is_some {ℓ} : {A : Type ℓ} → Option A → Bool
is_some none = false
is_some (some a) = true

abbrev pub parsers : Net → Parsers
parsers net = record {
  is_prefix = λ s. is_some (net.parse_prefix s);
  is_addr = λ s. is_some (net.parse_addr s);
}

-- The options for what is scanned; without endpoints these are the WARP prefixes.
unfoldable pub target_options : Net → List ℕ → Option (List (ScannerOptions → ScannerOptions))
target_options net [] = some (with_cidr_list warp_prefixes ∷ [])
target_options net (c ∷ text) = do
  targets ← targets_of (parsers net) (split b',' (c ∷ text))
  some (map (target_option net) targets)

unfoldable pub port_options : List ℕ → List (ScannerOptions → ScannerOptions)
port_options [] = []
port_options (c ∷ text) = with_custom_scan_ports (c ∷ text) ∷ []

-- `none` is an error in the endpoints.
unfoldable pub scanner_of : Net → ScanOptions → Option ScannerOptions
scanner_of net opts = do
  targets ← target_options net opts.endpoints
  some (new_scanner (fixed_options opts ++ (targets ++ port_options opts.scanner_ports)))

-- What `Run` tries, from the addresses that its generator gives: nothing with both families off. The
-- ports to test of single addresses are another mode, which `RunScan` does not use.
unfoldable pub scan_candidates : List (List ℕ) → ScannerOptions → List IpInfo
scan_candidates generated o =
    if not o.use_ipv4 && not o.use_ipv6 then [] else candidates_of generated o.custom_endpoints
