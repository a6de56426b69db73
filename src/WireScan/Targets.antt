-- ===== src/WireScan/Targets.antt =====
-- The endpoints that `RunScan` of wiresocks/scanner.go accepts.
use vwarp.Prelude.{ℕ, ◌<◌, ◌≡◌, refl, false, List, [], ◌∷◌, some, arith, lt→ltb}
use vwarp.Text.Bytes.{has_byte}
use vwarp.Text.Decimal.{itoa, AllDigits, itoa-AllDigits, atoi-itoa}
use vwarp.Text.HostPort.{join_host_port, IsPart, split-join}
use vwarp.WireScan.{Parsers, endpoint, is_port, with_port, by_port, target_of}

no_byte-digits : (s : List ℕ) (b : ℕ) → AllDigits s → 57 < b → has_byte s b ≡ false
no_byte-digits [] b h k = refl
no_byte-digits (c ∷ s) b (low, high, h) k = ground (arith, no_byte-digits s b h k)

-- A host without brackets with a port below 65536, printed, is scanned as it is, unless it is a prefix.
pub target_of-join :
    (lib : Parsers) (host : List ℕ) (n : ℕ)
    → IsPart host
    → n < 65536
    → lib.is_prefix (join_host_port host (itoa n)) ≡ false
    → target_of lib (join_host_port host (itoa n)) ≡ some (endpoint (join_host_port host (itoa n)))
unfolding target_of by_port with_port is_port
target_of-join lib host n h small other =
    let digits = itoa-AllDigits n in
    let port-IsPart : IsPart (itoa n) = record {
      no_open = no_byte-digits (itoa n) b'[' digits (omega arith);
      no_close = no_byte-digits (itoa n) b']' digits (omega arith);
    } in
    let colon : has_byte (itoa n) b':' ≡ false =
      no_byte-digits (itoa n) b':' digits (omega arith) in
    rw
      (
        other,
        split-join (itoa n) port-IsPart colon host h,
        atoi-itoa n (omega arith),
        lt→ltb n 65536 small,
      )
      refl
