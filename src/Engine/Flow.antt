-- ===== src/Engine/Flow.antt =====
-- The pipeline of ipscanner/engine/engine.go neither makes up a result nor, unless it is cancelled,
-- loses one: every event keeps the results that its items lead to.
use vwarp.Prelude.{
  ℕ, zero, suc, ◌+◌, ◌≡◌, refl, Bool, false, List, [], ◌∷◌, Option, none, some, arith, ◌>>=◌, ap,
  sym, ◌&&◌, not, ◌-◌,
}
use vwarp.Queue.{IpInfo}
use vwarp.Engine.{
  Network, Options, Stage, State, Event, generate, take_icmp, take_tcp, take_warp, check, cancel,
  workers, finish_icmp, finish_tcp, finish_warp, icmp_filter, tcp_filter, warp_probe, take_item,
  received, pull, probed, pinged, generated, checked, step,
}
use vwarp.Engine.Counts.{
  tally, hit, tally-append, tally_pulled, pull-tally, Balanced, same-Balanced, filtered-Balanced,
}

-- What an item leads to, by the stage it has reached.
unfoldable pub from_tcp : Network → Options → IpInfo → Option IpInfo
from_tcp net o = λ x. tcp_filter net o x >>= warp_probe net o

unfoldable pub from_icmp : Network → Options → IpInfo → Option IpInfo
unfolding from_tcp
from_icmp net o = λ x. icmp_filter net o x >>= from_tcp net o

unfoldable pub staged : (IpInfo → Bool) → (IpInfo → Option IpInfo) → Stage → ℕ
staged p f s = tally p f s.stream + tally p f s.busy

-- The results with the property `p` that a state has or still leads to.
unfoldable pub total : (IpInfo → Bool) → Network → Options → State → ℕ
total p net o s =
    tally p (from_icmp net o) s.candidates
    + staged p (from_icmp net o) s.icmp
    + staged p (from_tcp net o) s.tcp
    + staged p (warp_probe net o) s.warp
    + tally p (λ x. some x) s.found

received-Balanced :
    (p : IpInfo → Bool)
    → (f : IpInfo → Option IpInfo) → (cancelled dropped : Bool) → (stream busy : List IpInfo)
    → (cancelled ≡ false → dropped ≡ false)
    → Balanced cancelled
        (staged p f (received dropped stream busy))
        (tally p f stream + tally p f busy)
unfolding staged received tally Balanced
received-Balanced p f cancelled dropped [] busy h = ground arith
received-Balanced p f cancelled dropped (x ∷ stream) busy h = ground arith

take_item-Balanced :
    (p : IpInfo → Bool)
    → (f : IpInfo → Option IpInfo) → (cancelled dropped : Bool) → (free : ℕ) → (s : Stage)
    → (cancelled ≡ false → dropped ≡ false)
    → Balanced cancelled (staged p f (take_item dropped free s)) (staged p f s)
unfolding take_item Balanced staged
take_item-Balanced p f cancelled dropped free s h = ground (
  arith,
  received-Balanced p f cancelled dropped s.stream s.busy h,
  same-Balanced cancelled (staged p f s),
)

generated-Balanced :
    (p : IpInfo → Bool)
    → (net : Network) → (o : Options) → (s : State) → (l : List IpInfo) → (c : Bool)
    → s.candidates ≡ l
    → Balanced c (total p net o (generated o.concurrent_scanners l s)) (total p net o s)
unfolding generated total staged tally Balanced
generated-Balanced p net o s [] c e = same-Balanced c (total p net o s)
generated-Balanced p net o s (x ∷ l) c e = ground (
  arith,
  tally-append p (from_icmp net o) s.icmp.stream (x ∷ []),
  ap (tally p (from_icmp net o)) e,
)

probed-Balanced :
    (p : IpInfo → Bool)
    → (net : Network) → (o : Options) → (s : State) → (kept : Bool) → (r : Option IpInfo)
    → (rest : List IpInfo)
    → tally p (warp_probe net o) s.warp.busy ≡ hit p r + tally p (warp_probe net o) rest
    → Balanced s.cancelled
        (total p net o (probed (s.cancelled && not kept) r rest s))
        (total p net o s)
unfolding probed total staged hit Balanced tally
probed-Balanced p net o s kept none rest h = ground arith
probed-Balanced p net o s kept (some r) rest h =
    ground (arith, tally-append p (λ x. some x) s.found (r ∷ []))

pinged-Balanced :
    (p : IpInfo → Bool)
    → (net : Network) → (o : Options) → (s : State) → (kept : Bool)
    → (pulled : Option (IpInfo × List IpInfo))
    → tally_pulled p (warp_probe net o) pulled (tally p (warp_probe net o) s.warp.busy)
      ≡ tally p (warp_probe net o) s.warp.busy
    → Balanced s.cancelled
        (total p net o (pinged (warp_probe net o) (s.cancelled && not kept) pulled s))
        (total p net o s)
unfolding pinged tally_pulled
pinged-Balanced p net o s kept none h = same-Balanced s.cancelled (total p net o s)
pinged-Balanced p net o s kept (some (x, rest)) h =
    probed-Balanced p net o s kept (warp_probe net o x) rest (sym h)

checked-Balanced :
    (p : IpInfo → Bool)
    → (net : Network) → (o : Options) → (s : State) → (n : ℕ) → (c : Bool)
    → Balanced c (total p net o (checked o n s)) (total p net o s)
unfolding checked total
checked-Balanced p net o s zero c = same-Balanced c (total p net o s)
checked-Balanced p net o s (suc n) c = same-Balanced c (total p net o s)

and_false : (c d : Bool) → c ≡ false → (c && d) ≡ false
and_false c d h = ground arith

-- Whatever happens next: no result is made up, and none is lost unless the context is cancelled.
pub step-Balanced :
    (p : IpInfo → Bool)
    → (net : Network) → (o : Options) → (e : Event) → (s : State)
    → Balanced s.cancelled (total p net o (step net o e s)) (total p net o s)
unfolding step total staged Balanced from_icmp from_tcp
step-Balanced p net o generate s = generated-Balanced p net o s s.candidates s.cancelled refl
step-Balanced p net o take_icmp s = ground (
  arith,
  take_item-Balanced p (from_icmp net o) s.cancelled (s.cancelled && o.icmp_ping)
      (workers o.icmp_ping o.concurrent_scanners) s.icmp (and_false s.cancelled o.icmp_ping),
)
step-Balanced p net o take_tcp s = ground (
  arith,
  take_item-Balanced p (from_tcp net o) s.cancelled (s.cancelled && o.tcp_ping)
      (workers o.tcp_ping o.concurrent_scanners) s.tcp (and_false s.cancelled o.tcp_ping),
)
step-Balanced p net o take_warp s = ground (
  arith,
  take_item-Balanced p (warp_probe net o) s.cancelled s.cancelled
      (o.concurrent_scanners - s.checking) s.warp (λ h. h),
)
step-Balanced p net o (finish_icmp n kept) s = ground (
  arith,
  filtered-Balanced p (icmp_filter net o) (from_tcp net o) o.concurrent_scanners s.cancelled kept
      (pull n s.icmp.busy) s.icmp.busy s.tcp.stream (pull-tally p (from_icmp net o) n s.icmp.busy),
)
step-Balanced p net o (finish_tcp n kept) s = ground (
  arith,
  filtered-Balanced p (tcp_filter net o) (warp_probe net o) o.concurrent_scanners s.cancelled kept
      (pull n s.tcp.busy) s.tcp.busy s.warp.stream (pull-tally p (from_tcp net o) n s.tcp.busy),
)
step-Balanced p net o (finish_warp n kept) s =
    pinged-Balanced p net o s kept (pull n s.warp.busy)
      (pull-tally p (warp_probe net o) n s.warp.busy)
step-Balanced p net o check s = checked-Balanced p net o s s.checking s.cancelled
step-Balanced p net o cancel s = same-Balanced s.cancelled (total p net o s)
