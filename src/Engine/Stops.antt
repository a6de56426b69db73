-- ===== src/Engine/Stops.antt =====
-- `StopOnFirstGoodIPs` of ipscanner/engine/engine.go.
use vwarp.Prelude.{
  ℕ, zero, suc, ◌≡◌, Bool, true, false, ◌&&◌, not, List, [], ◌∷◌, Option, none, some, arith,
}
use vwarp.Prelude.Int.{pos, ltb_ℤ}
use vwarp.Queue.{IpInfo, size}
use vwarp.Engine.{
  Network, Options, State, Event, generate, take_icmp, take_tcp, take_warp, check, cancel,
  finish_icmp, finish_tcp, finish_warp, step, run, start, ip_queue, probed, pinged, generated,
  checked, pull, warp_probe, enough,
}

-- Unless the context is cancelled or a check is pending, the queue is too short to stop.
IsShort : Options → State → Type 0
IsShort o s = s.cancelled ≡ false → s.checking ≡ 0 → enough o s ≡ false

generated-IsShort :
    (o : Options)
    → (capacity : ℕ) → (l : List IpInfo) → (s : State) → IsShort o s
    → IsShort o (generated capacity l s)
unfolding generated IsShort enough ip_queue
generated-IsShort o capacity [] s h = h
generated-IsShort o capacity (x ∷ l) s h = ground arith

probed-IsShort :
    (o : Options)
    → (dropped : Bool) → (r : Option IpInfo) → (rest : List IpInfo) → (s : State) → IsShort o s
    → IsShort o (probed dropped r rest s)
unfolding probed IsShort enough ip_queue
probed-IsShort o dropped none rest s h = h
probed-IsShort o dropped (some r) rest s h = ground arith

pinged-IsShort :
    (o : Options)
    → (f : IpInfo → Option IpInfo) → (dropped : Bool) → (pulled : Option (IpInfo × List IpInfo))
    → (s : State) → IsShort o s
    → IsShort o (pinged f dropped pulled s)
unfolding pinged
pinged-IsShort o f dropped none s h = h
pinged-IsShort o f dropped (some (x, rest)) s h = probed-IsShort o dropped (f x) rest s h

checked-IsShort : (o : Options) → (n : ℕ) → (s : State) → IsShort o s → IsShort o (checked o n s)
unfolding checked IsShort enough ip_queue
checked-IsShort o zero s h = h
checked-IsShort o (suc n) s h = ground arith

step-IsShort :
    (net : Network)
    → (o : Options) → (e : Event) → (s : State) → IsShort o s
    → IsShort o (step net o e s)
unfolding step IsShort enough ip_queue
step-IsShort net o generate s h = generated-IsShort o o.concurrent_scanners s.candidates s h
step-IsShort net o take_icmp s h = h
step-IsShort net o take_tcp s h = h
step-IsShort net o take_warp s h = h
step-IsShort net o (finish_icmp n kept) s h = h
step-IsShort net o (finish_tcp n kept) s h = h
step-IsShort net o (finish_warp n kept) s h =
    pinged-IsShort o (warp_probe net o) (s.cancelled && not kept) (pull n s.warp.busy) s h
step-IsShort net o check s h = checked-IsShort o s.checking s h
step-IsShort net o cancel s h = ground arith

run-IsShort :
    (net : Network)
    → (o : Options) → (es : List Event) → (s : State) → IsShort o s
    → IsShort o (run net o es s)
unfolding run
run-IsShort net o [] s h = h
run-IsShort net o (e ∷ es) s h = run-IsShort net o es (step net o e s) (step-IsShort net o e s h)

start-IsShort : (o : Options) → (candidates : List IpInfo) → IsShort o (start candidates)
unfolding IsShort start enough ip_queue size vwarp.Queue.enqueue_all vwarp.Queue.new_ip_queue
start-IsShort o candidates = ground arith

-- For every schedule, if `StopOnFirstGoodIPs` is positive: as long as the context is not cancelled and
-- no worker is about to compare the size, the queue has fewer than `StopOnFirstGoodIPs` entries.
pub scan_stops :
    (net : Network)
    → (o : Options) → (candidates : List IpInfo) → (es : List Event)
    → ltb_ℤ (pos 0) o.stop_on_first_good_ips ≡ true
    → (run net o es (start candidates)).cancelled ≡ false
    → (run net o es (start candidates)).checking ≡ 0
    → ltb_ℤ (pos (size (ip_queue o (run net o es (start candidates))))) o.stop_on_first_good_ips
      ≡ true
unfolding IsShort enough
scan_stops net o candidates es positive alive idle =
    ground (arith, run-IsShort net o es (start candidates) (start-IsShort o candidates))
