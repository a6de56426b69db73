-- ===== src/Engine/Candidates.antt =====
-- The candidates of `Run` in ipscanner/engine/engine.go: the ports to try for each address. The map
-- `candidatePorts` is a list of its entries; Go's order of iteration is arbitrary, and here it is the
-- order of insertion.
use vwarp.Prelude.{ℕ, Bool, false, ◌||◌, List, [], ◌∷◌, ◌++◌, ◌==◌, if◌then◌else◌}
use vwarp.Text.{text_eq}
use vwarp.Queue.{AddrPort, IpInfo}

-- `appendIfMissing`.
unfoldable pub has_port : List ℕ → ℕ → Bool
has_port [] v = false
has_port (x ∷ slice) v = (x == v) || has_port slice v

unfoldable pub append_if_missing : List ℕ → ℕ → List ℕ
unfolding has_port
append_if_missing slice v = if has_port slice v then slice else slice ++ (v ∷ [])

-- `candidatePorts[ip] = appendIfMissing(candidatePorts[ip], port)`.
unfoldable pub add_candidate : List (List ℕ × List ℕ) → List ℕ → ℕ → List (List ℕ × List ℕ)
add_candidate [] ip port = (ip, port ∷ []) ∷ []
add_candidate ((addr, ports) ∷ rest) ip port =
    let later = add_candidate rest ip port in
    if text_eq addr ip then (addr, append_if_missing ports port) ∷ rest else (addr, ports) ∷ later

unfoldable pub add_endpoints : List (List ℕ × List ℕ) → List AddrPort → List (List ℕ × List ℕ)
add_endpoints m [] = m
add_endpoints m (ep ∷ rest) = add_endpoints (add_candidate m ep.addr ep.port) rest

-- A port 0 is added for each address of the CIDR ranges.
unfoldable pub any_port : List (List ℕ) → List AddrPort
any_port [] = []
any_port (ip ∷ rest) = record { addr = ip; port = 0 } ∷ any_port rest

unfoldable pub infos_of : List ℕ → List ℕ → List IpInfo
infos_of ip [] = []
infos_of ip (p ∷ ports) =
    record { addr_port = record { addr = ip; port = p }; rtt = 0 } ∷ infos_of ip ports

unfoldable pub all_candidates : List (List ℕ × List ℕ) → List IpInfo
all_candidates [] = []
all_candidates ((ip, []) ∷ rest) =
    record { addr_port = record { addr = ip; port = 0 }; rtt = 0 } ∷ all_candidates rest
all_candidates ((ip, p ∷ ports) ∷ rest) = infos_of ip (p ∷ ports) ++ all_candidates rest

-- From the generated addresses and `CustomEndpoints`.
unfoldable pub candidates_of : List (List ℕ) → List AddrPort → List IpInfo
candidates_of cidr_ips custom_endpoints =
    all_candidates (add_endpoints (add_endpoints [] (any_port cidr_ips)) custom_endpoints)
