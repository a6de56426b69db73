-- ===== src/Engine.antt =====
-- `Run` of ipscanner/engine/engine.go: candidates flow through an ICMP filter, a TCP filter and the
-- WARP ping to the queue of results, each stage with its workers, over bounded channels. A run is a
-- sequence of events that the scheduler picks; an event that cannot happen leaves the state alone. The
-- outcome of the probe of each candidate is a parameter. Behind a cancellation there are more runs here
-- than in the code: a worker that has returned may still receive an item and drop it. What is shown of
-- every run therefore holds of those of the code; that a run ends is shown without a cancellation only.
pub mod Candidates
pub mod Listed
pub mod Counts
pub mod Flow
pub mod Complete
pub mod Progress
pub mod Stops
pub mod PortScan
mod Examples
use vwarp.Prelude.{
  ℕ, zero, suc, ◌+◌, ◌-◌, Bool, true, false, ◌&&◌, ◌||◌, not, List, [], ◌∷◌, ◌++◌, Option, none,
  some, length, ltb, leb, ◌==◌, if◌then◌else◌,
}
use vwarp.Prelude.Int.{ℤ, pos, ltb_ℤ}
use vwarp.Queue.{AddrPort, IpInfo, IpQueue, new_ip_queue, enqueue_all, size}

-- The fields of `ScannerOptions` that `Run` reads. A limit on an RTT is in nanoseconds.
pub record Options : Type 0 where
  pub icmp_ping : Bool
  pub tcp_ping : Bool
  pub icmp_ping_filter_rtt : ℕ
  pub tcp_ping_filter_rtt : ℕ
  pub port : ℕ
  pub concurrent_scanners : ℕ
  pub ip_queue_size : ℤ
  pub stop_on_first_good_ips : ℤ

-- What `IcmpPing` and `TcpPing` give for a candidate, and `WarpPing` for an address and a port; `none`
-- is an error.
pub record Network : Type 0 where
  pub ping_icmp : AddrPort → Option IpInfo
  pub ping_tcp : AddrPort → Option IpInfo
  pub ping_warp : List ℕ → ℕ → Option IpInfo

-- The result of a filter ping: in time, and with the address and port of the candidate.
unfoldable pub within : ℕ → IpInfo → Option IpInfo → Option IpInfo
within limit candidate none = none
within limit candidate (some info) =
    if leb info.rtt limit then some (record info { addr_port = candidate.addr_port }) else none

unfoldable pub icmp_filter : Network → Options → IpInfo → Option IpInfo
icmp_filter net o candidate =
    if o.icmp_ping
    then within o.icmp_ping_filter_rtt candidate (net.ping_icmp candidate.addr_port)
    else some candidate

unfoldable pub tcp_filter : Network → Options → IpInfo → Option IpInfo
tcp_filter net o candidate =
    if o.tcp_ping
    then within o.tcp_ping_filter_rtt candidate (net.ping_tcp candidate.addr_port)
    else some candidate

-- The port 0 stands for the port of the options.
unfoldable pub warp_probe : Network → Options → IpInfo → Option IpInfo
warp_probe net o candidate =
    net.ping_warp candidate.addr_port.addr
      (if candidate.addr_port.port == 0 then o.port else candidate.addr_port.port)

-- The channel that a stage reads from, and the items that its workers hold.
pub record Stage : Type 0 where
  pub stream : List IpInfo
  pub busy : List IpInfo

-- `found` has the arguments of the calls of `Enqueue` in their order; `checking` counts the workers
-- between such a call and the comparison of the size with `StopOnFirstGoodIPs`.
pub record State : Type 0 where
  pub candidates : List IpInfo
  pub icmp : Stage
  pub tcp : Stage
  pub warp : Stage
  pub checking : ℕ
  pub found : List IpInfo
  pub cancelled : Bool

unfoldable pub start : List IpInfo → State
start candidates = record {
  candidates = candidates;
  icmp = record { stream = []; busy = [] };
  tcp = record { stream = []; busy = [] };
  warp = record { stream = []; busy = [] };
  checking = 0;
  found = [];
  cancelled = false;
}

unfoldable pub ip_queue : Options → State → IpQueue
ip_queue o s = enqueue_all (new_ip_queue o.ip_queue_size) s.found

-- `finish` is the end of the work on the n-th item that is held; `kept` says, when the context is
-- cancelled, whether the probe and the send behind it succeed all the same.
pub data Event : Type 0 where
  generate take_icmp take_tcp take_warp check cancel : Event
  finish_icmp finish_tcp finish_warp : (n : ℕ) → (kept : Bool) → Event

-- A stage that is switched off is one goroutine, which does not look at the context at first.
unfoldable pub workers : Bool → ℕ → ℕ
workers on concurrency = if on then concurrency else 1

unfoldable pub received : Bool → List IpInfo → List IpInfo → Stage
received dropped [] busy = record { stream = []; busy = busy }
received dropped (x ∷ stream) busy = record {
  stream = stream;
  busy = if dropped then busy else x ∷ busy;
}

unfoldable pub take_item : Bool → ℕ → Stage → Stage
take_item dropped free s = if ltb (length s.busy) free then received dropped s.stream s.busy else s

-- The item at a place of a list, and the others.
unfoldable pub keep_first : IpInfo → Option (IpInfo × List IpInfo) → Option (IpInfo × List IpInfo)
keep_first x none = none
keep_first x (some (y, rest)) = some (y, x ∷ rest)

unfoldable pub pull : ℕ → List IpInfo → Option (IpInfo × List IpInfo)
pull n [] = none
pull zero (x ∷ l) = some (x, l)
pull (suc n) (x ∷ l) = keep_first x (pull n l)

-- What a filter worker does with its result: the items held and the channel it sends to, which has
-- room for `capacity`; without room it waits.
unfoldable pub delivered :
    ℕ → Bool → Option IpInfo → List IpInfo → List IpInfo → List IpInfo → List IpInfo × List IpInfo
delivered capacity dropped none busy rest out = (rest, out)
delivered capacity dropped (some r) busy rest out =
    if dropped
    then (rest, out)
    else (if ltb (length out) capacity then (rest, out ++ (r ∷ [])) else (busy, out))

unfoldable pub filtered :
    (IpInfo → Option IpInfo)
    → ℕ
    → Bool
    → Option (IpInfo × List IpInfo)
    → List IpInfo
    → List IpInfo
    → List IpInfo × List IpInfo
filtered f capacity dropped none busy out = (busy, out)
filtered f capacity dropped (some (x, rest)) busy out =
    delivered capacity dropped (f x) busy rest out

-- The end of a WARP ping.
unfoldable pub probed : Bool → Option IpInfo → List IpInfo → State → State
probed dropped none rest s = record s { warp = record s.warp { busy = rest } }
probed dropped (some r) rest s =
    if dropped then record s { warp = record s.warp { busy = rest } } else record s {
      warp = record s.warp { busy = rest };
      found = s.found ++ (r ∷ []);
      checking = suc s.checking;
    }

unfoldable pub pinged :
    (IpInfo → Option IpInfo) → Bool → Option (IpInfo × List IpInfo) → State → State
pinged f dropped none s = s
pinged f dropped (some (x, rest)) s = probed dropped (f x) rest s

unfoldable pub generated : ℕ → List IpInfo → State → State
generated capacity [] s = s
generated capacity (x ∷ rest) s =
    if ltb (length s.icmp.stream) capacity
    then record s { candidates = rest; icmp = record s.icmp { stream = s.icmp.stream ++ (x ∷ []) } }
    else s

-- `e.opts.StopOnFirstGoodIPs > 0 && e.ipQueue.Size() >= e.opts.StopOnFirstGoodIPs`.
unfoldable pub enough : Options → State → Bool
enough o s =
    ltb_ℤ (pos 0) o.stop_on_first_good_ips
    && not (ltb_ℤ (pos (size (ip_queue o s))) o.stop_on_first_good_ips)

unfoldable pub checked : Options → ℕ → State → State
checked o zero s = s
checked o (suc n) s = record s { checking = n; cancelled = s.cancelled || enough o s }

unfoldable pub step : Network → Options → Event → State → State
step net o generate s = generated o.concurrent_scanners s.candidates s
step net o take_icmp s = record s {
  icmp = take_item (s.cancelled && o.icmp_ping) (workers o.icmp_ping o.concurrent_scanners) s.icmp;
}
step net o take_tcp s = record s {
  tcp = take_item (s.cancelled && o.tcp_ping) (workers o.tcp_ping o.concurrent_scanners) s.tcp;
}
step net o take_warp s = record s {
  warp = take_item s.cancelled (o.concurrent_scanners - s.checking) s.warp;
}
step net o (finish_icmp n kept) s =
    let (held, out) =
      filtered (icmp_filter net o) o.concurrent_scanners (s.cancelled && not kept)
        (pull n s.icmp.busy) s.icmp.busy s.tcp.stream in
    record s { icmp = record s.icmp { busy = held }; tcp = record s.tcp { stream = out } }
step net o (finish_tcp n kept) s =
    let (held, out) =
      filtered (tcp_filter net o) o.concurrent_scanners (s.cancelled && not kept)
        (pull n s.tcp.busy) s.tcp.busy s.warp.stream in
    record s { tcp = record s.tcp { busy = held }; warp = record s.warp { stream = out } }
step net o (finish_warp n kept) s =
    pinged (warp_probe net o) (s.cancelled && not kept) (pull n s.warp.busy) s
step net o check s = checked o s.checking s
step net o cancel s = record s { cancelled = true }

unfoldable pub run : Network → Options → List Event → State → State
run net o [] s = s
run net o (e ∷ rest) s = run net o rest (step net o e s)
