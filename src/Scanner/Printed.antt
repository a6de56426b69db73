-- ===== src/Scanner/Printed.antt =====
-- `RunScan` of wiresocks/scanner.go and the options of ipscanner/scanner.go on endpoints and ports that
-- were printed.
use vwarp.Prelude.{ℕ, ◌*◌, ◌<◌, ◌≡◌, ◌≢◌, refl, ap, Bool, List, [], ◌∷◌, ◌++◌, map, some, arith}
use vwarp.Prelude.Int.{pos}
use vwarp.Text.Decimal.{itoa, parse_uint16, parse_uint16-itoa}
use vwarp.Text.Hex.{split}
use vwarp.Text.Trim.{trim_back, trim_front}
use vwarp.Queue.{AddrPort}
use vwarp.WireScan.{endpoint, trimmed}
use vwarp.Scanner.{
  ScannerOptions, Net, apply_options, with_default_ranges, no_targets, new_scanner, initial_options,
  millisecond,
}
use vwarp.Scanner.Setters.{
  with_warp_private_key, with_warp_peer_public_key, with_use_ipv4, with_use_ipv6,
  with_max_desirable_rtt, with_concurrent_scanners, with_stop_on_first_good_ips, with_bucket_size,
  with_tcp_ping_filter_rtt, with_scan_timeout,
}
use vwarp.Scanner.Endpoint.{scan_ports, keep_port, set_scan_ports, with_custom_scan_ports}
use vwarp.Scanner.Scan.{
  ScanOptions, fixed_options, target_option, port_options, scanner_of, times_second,
}
use vwarp.Scanner.Lists.{IsPlain-itoa, trimmed-IsPlain, join_commas, AllPlain, split-join_commas}
use vwarp.Scanner.Literal.{
  text_of, AllLiteral, texts_of, endpoints_of, AllLiteral-AllPlain, targets_of-literals,
  apply-literals, target_options-text, text_of-ne-nil,
}

-- Ports that fit 16 bits.
abbrev pub AllPorts : List ℕ → Type 0
AllPorts [] = Unit
AllPorts (port ∷ ports) = (port < 65536) × AllPorts ports

AllPlain-ports : (ports : List ℕ) → AllPlain (map itoa ports)
AllPlain-ports [] = tt
AllPlain-ports (port ∷ ports) = (IsPlain-itoa port, AllPlain-ports ports)

scan_ports-itoa : (ports : List ℕ) → AllPorts ports → scan_ports (map itoa ports) ≡ ports
unfolding scan_ports keep_port
scan_ports-itoa [] h = refl
scan_ports-itoa (port ∷ ports) (h, k) =
    rw (trimmed-IsPlain (itoa port) (IsPlain-itoa port), parse_uint16-itoa port h)
      (ap (λ l. port ∷ l) (scan_ports-itoa ports k))

with_custom_scan_ports-itoa :
    (port : ℕ) (ports : List ℕ) (o : ScannerOptions)
    → AllPorts (port ∷ ports)
    → with_custom_scan_ports (join_commas (map itoa (port ∷ ports))) o
      ≡ record o { default_scan_ports = port ∷ ports }
unfolding with_custom_scan_ports
with_custom_scan_ports-itoa port ports o h =
    rw
      (
        split-join_commas (itoa port) (map itoa ports) (AllPlain-ports (port ∷ ports)),
        scan_ports-itoa (port ∷ ports) h,
      )
      (unfold set_scan_ports in refl)

apply-ports :
    (text : List ℕ) (o : ScannerOptions)
    → apply_options (port_options text) o ≡ with_custom_scan_ports text o
unfolding apply_options port_options with_custom_scan_ports set_scan_ports scan_ports keep_port
    trim_back trim_front split trimmed parse_uint16
apply-ports [] o = refl
apply-ports (c ∷ text) o = refl

apply_options-append :
    (xs ys : List (ScannerOptions → ScannerOptions)) (o : ScannerOptions)
    → apply_options (xs ++ ys) o ≡ apply_options ys (apply_options xs o)
unfolding apply_options
apply_options-append [] ys o = refl
apply_options-append (x ∷ xs) ys o = apply_options-append xs ys (x o)

join_commas-ne-nil :
    (text : List ℕ) (texts : List (List ℕ)) → text ≢ [] → join_commas (text ∷ texts) ≢ []
join_commas-ne-nil text [] ne e = ne e
join_commas-ne-nil [] (more ∷ texts) ne e = absurd (ne refl)
join_commas-ne-nil (c ∷ text) (more ∷ texts) ne e = cc

-- With endpoints no ranges are added.
with_default_ranges-endpoint :
    (ep : AddrPort) (eps : List AddrPort) (o : ScannerOptions)
    → o.custom_endpoints ≡ ep ∷ eps
    → with_default_ranges o ≡ o
unfolding with_default_ranges no_targets
with_default_ranges-endpoint ep eps o e = ground arith

-- The fields of a scanner that decide what is tried.
pub record Scans (v4 v6 : Bool) (eps : List AddrPort) (ports : List ℕ) (o : ScannerOptions)
    : Type 0 where
  pub custom_endpoints : o.custom_endpoints ≡ eps
  pub no_ranges : o.cidr_list ≡ []
  pub no_test_ports : o.test_ports_for_ips ≡ []
  pub default_scan_ports : o.default_scan_ports ≡ ports
  pub families : (o.use_ipv4 ≡ v4) × (o.use_ipv6 ≡ v6)
  pub first_good : o.stop_on_first_good_ips ≡ pos 1

-- What the options that are always set leave.
abbrev started : ScanOptions → ScannerOptions
started opts = record initial_options {
  warp_private_key = opts.private_key;
  warp_peer_public_key = opts.public_key;
  use_ipv4 = opts.v4;
  use_ipv6 = opts.v6;
  max_desirable_rtt = times_second opts.max_rtt;
  concurrent_scanners = pos 10;
  stop_on_first_good_ips = pos 1;
  bucket_size = pos 1;
  tcp_ping_filter_rtt = pos (300 * millisecond);
  scan_timeout = opts.scan_timeout;
}

apply-fixed :
    (opts : ScanOptions) → apply_options (fixed_options opts) initial_options ≡ started opts
unfolding apply_options with_scan_timeout with_tcp_ping_filter_rtt with_bucket_size
    with_stop_on_first_good_ips with_concurrent_scanners with_max_desirable_rtt with_use_ipv6
    with_use_ipv4 with_warp_peer_public_key with_warp_private_key
apply-fixed opts = refl

module _ (net : Net) (opts : ScanOptions) where
  new_scanner-literals :
      (host : List ℕ) (ep : AddrPort) (eps : List (List ℕ × AddrPort)) (port : ℕ) (ports : List ℕ)
      → AllLiteral net ((host, ep) ∷ eps)
      → AllPorts (port ∷ ports)
      → new_scanner (
          fixed_options opts
          ++ (map (target_option net) (map endpoint (texts_of ((host, ep) ∷ eps)))
              ++ port_options (join_commas (map itoa (port ∷ ports)))))
        ≡ record (started opts) {
          custom_endpoints = ep ∷ endpoints_of eps;
          default_scan_ports = port ∷ ports;
        }
  unfolding new_scanner
  new_scanner-literals host ep eps port ports h k =
      rw
        (
          apply_options-append (fixed_options opts) _ initial_options,
          apply-fixed opts,
          apply_options-append
              (map (target_option net) (map endpoint (texts_of ((host, ep) ∷ eps)))) _ _,
          apply-literals net ((host, ep) ∷ eps) _ h,
          apply-ports (join_commas (map itoa (port ∷ ports))),
          with_custom_scan_ports-itoa port ports _ k,
        )
        (with_default_ranges-endpoint ep (endpoints_of eps) _ refl)

  -- For endpoints and ports that are written with commas between them, at least one of each, where
  -- netip reads each endpoint back, takes none for a prefix, and each port is below 65536: `RunScan`
  -- accepts the texts, and its scanner has these endpoints and ports in their order, the families of
  -- the options, no range, no ports to test of single addresses, and stops on the first good address.
  pub scanner_of-printed :
      (host : List ℕ) (ep : AddrPort) (eps : List (List ℕ × AddrPort)) (port : ℕ) (ports : List ℕ)
      → AllLiteral net ((host, ep) ∷ eps)
      → AllPorts (port ∷ ports)
      → (o : ScannerOptions) × (scanner_of net (record opts {
        endpoints = join_commas (texts_of ((host, ep) ∷ eps));
        scanner_ports = join_commas (map itoa (port ∷ ports));
      })
          ≡ some o)
        × Scans opts.v4 opts.v6 (ep ∷ endpoints_of eps) (port ∷ ports) o
  unfolding scanner_of
  scanner_of-printed host ep eps port ports h k =
      let given =
        target_options-text net (join_commas (texts_of ((host, ep) ∷ eps)))
          (texts_of ((host, ep) ∷ eps)) (map endpoint (texts_of ((host, ep) ∷ eps)))
          (join_commas-ne-nil (text_of host ep) (texts_of eps) (text_of-ne-nil net host ep))
          (split-join_commas (text_of host ep) (texts_of eps)
            (AllLiteral-AllPlain net ((host, ep) ∷ eps) h))
          (targets_of-literals net ((host, ep) ∷ eps) h) in
      (
        record (started opts) {
          custom_endpoints = ep ∷ endpoints_of eps;
          default_scan_ports = port ∷ ports;
        },
        rw given (ap some (new_scanner-literals host ep eps port ports h k)),
        record {
          custom_endpoints = refl;
          no_ranges = refl;
          no_test_ports = refl;
          default_scan_ports = refl;
          families = (refl, refl);
          first_good = refl;
        },
      )
