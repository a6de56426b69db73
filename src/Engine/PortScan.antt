-- ===== src/Engine/PortScan.antt =====
-- `runPortScan` of ipscanner/engine/engine.go: one goroutine for each port to test of an address. Only the
-- context from outside ends it early: nothing looks at how many results there are.
use vwarp.Prelude.{
  ℕ, ◌+◌, Bool, true, false, ◌&&◌, not, List, [], ◌∷◌, ◌++◌, Option, none, some, if◌then◌else◌,
}
use vwarp.Queue.{IpInfo}
use vwarp.Engine.{Network, pull}
use vwarp.Engine.Candidates.{infos_of}
use vwarp.Engine.Counts.{tally}
use vwarp.Engine.Complete.{add_result}

-- `found` has the arguments of the calls of `Enqueue` in their order.
pub record PortScan : Type 0 where
  pub pending : List IpInfo
  pub found : List IpInfo
  pub expired : Bool

-- The end of the n-th goroutine that runs; `kept` says whether its ping succeeds although the context has
-- ended. A goroutine that was not started any more ends without.
pub data PortEvent : Type 0 where
  tested : (n : ℕ) → (kept : Bool) → PortEvent
  expire : PortEvent

-- The pairs of an address and a port in `TestPortsForIPs`.
unfoldable pub port_tasks : List (List ℕ × List ℕ) → List IpInfo
port_tasks [] = []
port_tasks ((ip, ports) ∷ rest) = infos_of ip ports ++ port_tasks rest

unfoldable pub test_port : Network → IpInfo → Option IpInfo
test_port net x = net.ping_warp x.addr_port.addr x.addr_port.port

unfoldable pub port_found : Bool → Option IpInfo → List IpInfo → PortScan → PortScan
port_found dropped none rest s = record s { pending = rest }
port_found dropped (some r) rest s =
    if dropped
    then record s { pending = rest }
    else record s { pending = rest; found = s.found ++ (r ∷ []) }

unfoldable pub port_tested :
    (IpInfo → Option IpInfo) → Bool → Option (IpInfo × List IpInfo) → PortScan → PortScan
port_tested f dropped none s = s
port_tested f dropped (some (x, rest)) s = port_found dropped (f x) rest s

unfoldable pub port_step : (IpInfo → Option IpInfo) → PortEvent → PortScan → PortScan
port_step f (tested n kept) s = port_tested f (s.expired && not kept) (pull n s.pending) s
port_step f expire s = record s { expired = true }

unfoldable pub port_run : (IpInfo → Option IpInfo) → List PortEvent → PortScan → PortScan
port_run f [] s = s
port_run f (e ∷ es) s = port_run f es (port_step f e s)

unfoldable pub run_port_scan : Network → List (List ℕ × List ℕ) → List PortEvent → PortScan
run_port_scan net ports es =
    port_run (test_port net) es (record { pending = port_tasks ports; found = []; expired = false })

-- The reference: the results of the tests one after the other.
unfoldable pub port_results : (IpInfo → Option IpInfo) → List IpInfo → List IpInfo
port_results f [] = []
port_results f (x ∷ l) = add_result (f x) (port_results f l)

module _ (f : IpInfo → Option IpInfo) where
  module _ (p : IpInfo → Bool) where
    total : PortScan → ℕ
    total s = tally p f s.pending + tally p (λ x. some x) s.found
