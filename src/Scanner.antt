-- ===== src/Scanner.antt =====
-- ipscanner/scanner.go: the options of a scan and the scanner that is made of them. The parsers of
-- netip and the resolver are parameters; the logger, the dialers and the callback of the queue, which
-- nothing calls, are left out.
pub mod Setters
pub mod Endpoint
pub mod Scan
pub mod Lists
pub mod Appended
pub mod Literal
pub mod Printed
pub mod Ping
pub mod Handshake
mod Examples
use vwarp.Prelude.{
  ℕ, ◌+◌, ◌*◌, ◌^◌, Bool, true, false, ◌&&◌, List, [], ◌∷◌, Option, ◌==◌, length, if◌then◌else◌,
}
use vwarp.Prelude.Int.{ℤ, pos}
use vwarp.Text.{codes}
use vwarp.Queue.{AddrPort}
use vwarp.Warp.Endpoint.{Prefix, prefix4, warp_ports}

-- `statute.ScannerOptions`: an address is its 4 or 16 bytes, a duration a number of nanoseconds, and the
-- map of ports to test a list of its entries.
pub record ScannerOptions : Type 0 where
  pub use_ipv4 : Bool
  pub use_ipv6 : Bool
  pub cidr_list : List Prefix
  pub custom_endpoints : List AddrPort
  pub test_ports_for_ips : List (List ℕ × List ℕ)
  pub insecure_skip_verify : Bool
  pub use_http2 : Bool
  pub disable_compression : Bool
  pub http_path : List ℕ
  pub referrer : List ℕ
  pub user_agent : List ℕ
  pub hostname : List ℕ
  pub warp_private_key : List ℕ
  pub warp_peer_public_key : List ℕ
  pub warp_preshared_key : List ℕ
  pub port : ℕ
  pub default_scan_ports : List ℕ
  pub enable_masque_scanning : Bool
  pub masque_only : Bool
  pub masque_scan_ports : List ℕ
  pub icmp_ping : Bool
  pub tcp_ping : Bool
  pub tcp_ping_port : ℕ
  pub bucket_size : ℤ
  pub icmp_ping_filter_rtt : ℤ
  pub tcp_ping_filter_rtt : ℤ
  pub ip_queue_size : ℤ
  pub ip_queue_ttl : ℤ
  pub max_desirable_rtt : ℤ
  pub connection_timeout : ℤ
  pub handshake_timeout : ℤ
  pub tls_version : ℕ
  pub concurrent_scanners : ℤ
  pub scan_timeout : ℤ
  pub stop_on_first_good_ips : ℤ

-- `ParsePrefix`, `ParseAddrPort` and `ParseAddr` of netip, and `LookupIP` of the resolver, which gives the
-- same answer whenever it is asked in one run; `none` is an error.
pub record Net : Type 0 where
  pub parse_prefix : List ℕ → Option Prefix
  pub parse_addr_port : List ℕ → Option AddrPort
  pub parse_addr : List ℕ → Option (List ℕ)
  pub lookup_ip : List ℕ → Option (List (List ℕ))

-- `GetDefaultMasquePorts`.
abbrev pub default_masque_ports : List ℕ
default_masque_ports = 443 ∷ 8443 ∷ 2053 ∷ 2083 ∷ 2087 ∷ 2096 ∷ []

-- `time.Second` and `time.Millisecond`.
abbrev pub second : ℕ
second = 1000000000

abbrev pub millisecond : ℕ
millisecond = 1000000

-- A prefix whose address has the first two groups of sixteen bits.
abbrev pub prefix32 : ℕ → ℕ → ℕ → Prefix
prefix32 a b bits = record {
  addr = record { is4 = false; value = (a * 2 ^ 16 + b) * 2 ^ 96 };
  bits = bits;
}

-- `DefaultCFRanges`.
abbrev pub default_cf_ranges : List Prefix
default_cf_ranges =
    prefix4 103 21 244 0 22
    ∷ prefix4 103 22 200 0 22
    ∷ prefix4 103 31 4 0 22
    ∷ prefix4 104 16 0 0 12
    ∷ prefix4 108 162 192 0 18
    ∷ prefix4 131 0 72 0 22
    ∷ prefix4 141 101 64 0 18
    ∷ prefix4 162 158 0 0 15
    ∷ prefix4 172 64 0 0 13
    ∷ prefix4 173 245 48 0 20
    ∷ prefix4 188 114 96 0 20
    ∷ prefix4 190 93 240 0 20
    ∷ prefix4 197 234 240 0 22
    ∷ prefix4 198 41 128 0 17
    ∷ prefix32 0x2400 0xcb00 32
    ∷ prefix32 0x2405 0x8100 32
    ∷ prefix32 0x2405 0xb500 32
    ∷ prefix32 0x2606 0x4700 32
    ∷ prefix32 0x2803 0xf800 32
    ∷ prefix32 0x2c0f 0xf248 32
    ∷ prefix32 0x2a06 0x98c0 29
    ∷ []

-- The options that `NewScanner` starts from.
abbrev pub initial_options : ScannerOptions
initial_options = record {
  use_ipv4 = true;
  use_ipv6 = true;
  cidr_list = [];
  custom_endpoints = [];
  test_ports_for_ips = [];
  insecure_skip_verify = true;
  use_http2 = false;
  disable_compression = false;
  http_path = codes "/";
  referrer = [];
  user_agent = codes "Chrome/80.0.3987.149";
  hostname = codes "wWw.ClOuDflarRe.Com";
  warp_private_key = [];
  warp_peer_public_key = [];
  warp_preshared_key = [];
  port = 2408;
  default_scan_ports = warp_ports;
  enable_masque_scanning = false;
  masque_only = false;
  masque_scan_ports = [];
  icmp_ping = false;
  tcp_ping = true;
  tcp_ping_port = 443;
  bucket_size = pos 5;
  icmp_ping_filter_rtt = pos (400 * millisecond);
  tcp_ping_filter_rtt = pos (300 * millisecond);
  ip_queue_size = pos 0xffff;
  ip_queue_ttl = pos (30 * second);
  max_desirable_rtt = pos (400 * millisecond);
  connection_timeout = pos second;
  handshake_timeout = pos second;
  tls_version = 0x0304;
  concurrent_scanners = pos 100;
  scan_timeout = pos 0;
  stop_on_first_good_ips = pos 0;
}

-- `for _, option := range options`.
unfoldable pub apply_options :
    List (ScannerOptions → ScannerOptions) → ScannerOptions → ScannerOptions
apply_options [] o = o
apply_options (option ∷ options) o = apply_options options (option o)

-- Nothing to scan was given.
unfoldable pub no_targets : ScannerOptions → Bool
no_targets o =
    (length o.cidr_list == 0)
    && ((length o.custom_endpoints == 0) && (length o.test_ports_for_ips == 0))

unfoldable pub with_default_ranges : ScannerOptions → ScannerOptions
with_default_ranges o = if no_targets o then record o { cidr_list = default_cf_ranges } else o

unfoldable pub new_scanner : List (ScannerOptions → ScannerOptions) → ScannerOptions
new_scanner options = with_default_ranges (apply_options options initial_options)
