-- ===== src/Scanner/Setters.antt =====
-- The options of ipscanner/scanner.go that set one field, and those of MASQUE.
use vwarp.Prelude.{ℕ, Bool, true, List, [], ◌∷◌, ◌++◌, ◌==◌, length, if◌then◌else◌}
use vwarp.Prelude.Int.{ℤ, pos, ltb_ℤ}
use vwarp.Warp.Endpoint.{Prefix}
use vwarp.Scanner.{ScannerOptions, default_masque_ports}

unfoldable pub with_scan_timeout : ℤ → ScannerOptions → ScannerOptions
with_scan_timeout v o = record o { scan_timeout = v }

unfoldable pub with_stop_on_first_good_ips : ℤ → ScannerOptions → ScannerOptions
with_stop_on_first_good_ips n o =
    if ltb_ℤ (pos 0) n then record o { stop_on_first_good_ips = n } else o

unfoldable pub with_use_ipv4 : Bool → ScannerOptions → ScannerOptions
with_use_ipv4 v o = record o { use_ipv4 = v }

unfoldable pub with_use_ipv6 : Bool → ScannerOptions → ScannerOptions
with_use_ipv6 v o = record o { use_ipv6 = v }

unfoldable pub with_use_http2 : Bool → ScannerOptions → ScannerOptions
with_use_http2 v o = record o { use_http2 = v }

unfoldable pub with_disable_compression : Bool → ScannerOptions → ScannerOptions
with_disable_compression v o = record o { disable_compression = v }

unfoldable pub with_http_path : List ℕ → ScannerOptions → ScannerOptions
with_http_path v o = record o { http_path = v }

unfoldable pub with_referrer : List ℕ → ScannerOptions → ScannerOptions
with_referrer v o = record o { referrer = v }

unfoldable pub with_user_agent : List ℕ → ScannerOptions → ScannerOptions
with_user_agent v o = record o { user_agent = v }

unfoldable pub with_insecure_skip_verify : Bool → ScannerOptions → ScannerOptions
with_insecure_skip_verify v o = record o { insecure_skip_verify = v }

unfoldable pub with_hostname : List ℕ → ScannerOptions → ScannerOptions
with_hostname v o = record o { hostname = v }

unfoldable pub with_port : ℕ → ScannerOptions → ScannerOptions
with_port v o = record o { port = v }

unfoldable pub with_cidr_list : List Prefix → ScannerOptions → ScannerOptions
with_cidr_list v o = record o { cidr_list = v }

unfoldable pub with_append_cidr_list : Prefix → ScannerOptions → ScannerOptions
with_append_cidr_list cidr o = record o { cidr_list = o.cidr_list ++ (cidr ∷ []) }

unfoldable pub with_ip_queue_size : ℤ → ScannerOptions → ScannerOptions
with_ip_queue_size v o = record o { ip_queue_size = v }

unfoldable pub with_max_desirable_rtt : ℤ → ScannerOptions → ScannerOptions
with_max_desirable_rtt v o = record o { max_desirable_rtt = v }

unfoldable pub with_ip_queue_ttl : ℤ → ScannerOptions → ScannerOptions
with_ip_queue_ttl v o = record o { ip_queue_ttl = v }

unfoldable pub with_connection_timeout : ℤ → ScannerOptions → ScannerOptions
with_connection_timeout v o = record o { connection_timeout = v }

unfoldable pub with_handshake_timeout : ℤ → ScannerOptions → ScannerOptions
with_handshake_timeout v o = record o { handshake_timeout = v }

unfoldable pub with_tls_version : ℕ → ScannerOptions → ScannerOptions
with_tls_version v o = record o { tls_version = v }

unfoldable pub with_warp_private_key : List ℕ → ScannerOptions → ScannerOptions
with_warp_private_key v o = record o { warp_private_key = v }

unfoldable pub with_warp_peer_public_key : List ℕ → ScannerOptions → ScannerOptions
with_warp_peer_public_key v o = record o { warp_peer_public_key = v }

unfoldable pub with_warp_preshared_key : List ℕ → ScannerOptions → ScannerOptions
with_warp_preshared_key v o = record o { warp_preshared_key = v }

unfoldable pub with_concurrent_scanners : ℤ → ScannerOptions → ScannerOptions
with_concurrent_scanners v o = record o { concurrent_scanners = v }

unfoldable pub with_bucket_size : ℤ → ScannerOptions → ScannerOptions
with_bucket_size n o = if ltb_ℤ (pos 0) n then record o { bucket_size = n } else o

unfoldable pub with_icmp_ping : Bool → ScannerOptions → ScannerOptions
with_icmp_ping v o = record o { icmp_ping = v }

unfoldable pub with_tcp_ping : Bool → ScannerOptions → ScannerOptions
with_tcp_ping v o = record o { tcp_ping = v }

unfoldable pub with_icmp_ping_filter_rtt : ℤ → ScannerOptions → ScannerOptions
with_icmp_ping_filter_rtt v o = record o { icmp_ping_filter_rtt = v }

unfoldable pub with_tcp_ping_filter_rtt : ℤ → ScannerOptions → ScannerOptions
with_tcp_ping_filter_rtt v o = record o { tcp_ping_filter_rtt = v }

unfoldable pub with_tcp_ping_port : ℕ → ScannerOptions → ScannerOptions
with_tcp_ping_port v o = record o { tcp_ping_port = v }

-- Ports that were not given are the default ones.
unfoldable pub default_ports : ScannerOptions → ScannerOptions
default_ports o =
    if length o.masque_scan_ports == 0
    then record o { masque_scan_ports = default_masque_ports }
    else o

unfoldable pub with_enable_masque_scanning : Bool → ScannerOptions → ScannerOptions
with_enable_masque_scanning enable o =
    let o' = record o { enable_masque_scanning = enable } in if enable then default_ports o' else o'

unfoldable pub with_masque_only : Bool → ScannerOptions → ScannerOptions
with_masque_only masque_only o =
    let o' = record o { masque_only = masque_only } in
    if masque_only then default_ports (record o' { enable_masque_scanning = true }) else o'

unfoldable pub with_masque_ports : List ℕ → ScannerOptions → ScannerOptions
with_masque_ports v o = record o { masque_scan_ports = v }
