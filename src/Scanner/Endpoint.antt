-- ===== src/Scanner/Endpoint.antt =====
-- The options of ipscanner/scanner.go that take endpoints, hosts and ports as text.
use vwarp.Prelude.{
  ℕ, Bool, ◌&&◌, ◌||◌, List, [], ◌∷◌, ◌++◌, Option, none, some, ◌==◌, length, if◌then◌else◌,
}
use vwarp.Text.{text_eq}
use vwarp.Text.Bytes.{has_byte}
use vwarp.Text.Decimal.{parse_uint16}
use vwarp.Text.Hex.{split}
use vwarp.Text.HostPort.{split_host_port}
use vwarp.WireScan.{trimmed}
use vwarp.Queue.{AddrPort}
use vwarp.Scanner.{ScannerOptions, Net}

-- `netip.AddrFromSlice` takes 4 or 16 bytes; `Is4` and `Is6` tell them apart.
unfoldable pub is4 : List ℕ → Bool
is4 addr = length addr == 4

unfoldable pub is6 : List ℕ → Bool
is6 addr = length addr == 16

-- The condition on an address that a name was resolved to.
unfoldable pub family_enabled : ScannerOptions → List ℕ → Bool
family_enabled o addr = (is4 addr && o.use_ipv4) || (is6 addr && o.use_ipv6)

unfoldable pub add_custom : List ℕ → ℕ → ScannerOptions → ScannerOptions
add_custom addr port o = record o {
  custom_endpoints = o.custom_endpoints ++ (record { addr = addr; port = port } ∷ []);
}

-- The loop over the addresses of a name.
unfoldable pub add_resolved : List (List ℕ) → ℕ → ScannerOptions → ScannerOptions
add_resolved [] port o = o
add_resolved (ip ∷ ips) port o =
    add_resolved ips port (if family_enabled o ip then add_custom ip port o else o)

unfoldable pub add_looked_up : Option (List (List ℕ)) → Option ℕ → ScannerOptions → ScannerOptions
add_looked_up none port o = o
add_looked_up (some ips) none o = o
add_looked_up (some ips) (some port) o = add_resolved ips port o

unfoldable pub default_port : ScannerOptions → ℕ
default_port o = if o.port == 0 then 2408 else o.port

-- A host with a port, or else a name without one.
unfoldable pub add_host : Net → List ℕ → Option (List ℕ × List ℕ) → ScannerOptions → ScannerOptions
add_host net endpoint none o = add_looked_up (net.lookup_ip endpoint) (some (default_port o)) o
add_host net endpoint (some (host, port)) o =
    add_looked_up (net.lookup_ip host) (parse_uint16 port) o

unfoldable pub add_addr : Net → List ℕ → Option (List ℕ) → ScannerOptions → ScannerOptions
add_addr net endpoint none o = add_host net endpoint (split_host_port endpoint) o
add_addr net endpoint (some addr) o = add_custom addr (default_port o) o

unfoldable pub add_parsed : Net → List ℕ → Option AddrPort → ScannerOptions → ScannerOptions
add_parsed net endpoint none o = add_addr net endpoint (net.parse_addr endpoint) o
add_parsed net endpoint (some ep) o = record o {
  custom_endpoints = o.custom_endpoints ++ (ep ∷ []);
}

-- `addEndpoint` on a text without a comma.
unfoldable pub add_single : Net → List ℕ → ScannerOptions → ScannerOptions
add_single net endpoint o = add_parsed net endpoint (net.parse_addr_port endpoint) o

-- The loop over the parts between commas; no part holds a comma itself.
unfoldable pub add_parts : Net → List (List ℕ) → ScannerOptions → ScannerOptions
add_parts net [] o = o
add_parts net (part ∷ parts) o = elim (trimmed part) [
  | [] ↦ add_parts net parts o
  | c ∷ text ↦ add_parts net parts (add_single net (c ∷ text) o)
]

-- `addEndpoint`, which is `WithAppendCustomEndpoint`.
unfoldable pub add_endpoint : Net → List ℕ → ScannerOptions → ScannerOptions
add_endpoint net endpoint o =
    if has_byte endpoint b','
    then add_parts net (split b',' endpoint) o
    else add_single net endpoint o

unfoldable pub with_custom_endpoints : Net → List (List ℕ) → ScannerOptions → ScannerOptions
with_custom_endpoints net [] o = o
with_custom_endpoints net (e ∷ endpoints) o =
    with_custom_endpoints net endpoints (add_endpoint net e o)

-- `i.options.TestPortsForIPs[addr] = ports`.
unfoldable pub set_ports : List ℕ → List ℕ → List (List ℕ × List ℕ) → List (List ℕ × List ℕ)
set_ports addr ports [] = (addr, ports) ∷ []
set_ports addr ports ((ip, old) ∷ rest) =
    let later = set_ports addr ports rest in
    if text_eq ip addr then (ip, ports) ∷ rest else (ip, old) ∷ later

unfoldable pub test_ports : List ℕ → List ℕ → ScannerOptions → ScannerOptions
test_ports addr ports o = record o {
  test_ports_for_ips = set_ports addr ports o.test_ports_for_ips;
}

unfoldable pub test_resolved : List (List ℕ) → List ℕ → ScannerOptions → ScannerOptions
test_resolved [] ports o = o
test_resolved (ip ∷ ips) ports o =
    test_resolved ips ports (if family_enabled o ip then test_ports ip ports o else o)

unfoldable pub test_host :
    Option (List ℕ) → Option (List (List ℕ)) → List ℕ → ScannerOptions → ScannerOptions
test_host (some addr) ips ports o = test_ports addr ports o
test_host none (some ips) ports o = test_resolved ips ports o
test_host none none ports o = o

unfoldable pub with_test_endpoint_ports : Net → List ℕ → List ℕ → ScannerOptions → ScannerOptions
with_test_endpoint_ports net host ports o =
    test_host (net.parse_addr host) (net.lookup_ip host) ports o

-- The ports of a list that can be read; the others are skipped.
unfoldable pub keep_port : Option ℕ → List ℕ → List ℕ
keep_port none ports = ports
keep_port (some port) ports = port ∷ ports

unfoldable pub scan_ports : List (List ℕ) → List ℕ
scan_ports [] = []
scan_ports (text ∷ texts) = keep_port (parse_uint16 (trimmed text)) (scan_ports texts)

unfoldable pub set_scan_ports : List ℕ → ScannerOptions → ScannerOptions
set_scan_ports [] o = o
set_scan_ports (port ∷ ports) o = record o { default_scan_ports = port ∷ ports }

unfoldable pub with_custom_scan_ports : List ℕ → ScannerOptions → ScannerOptions
with_custom_scan_ports ports o = set_scan_ports (scan_ports (split b',' ports)) o
