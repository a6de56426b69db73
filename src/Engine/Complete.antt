-- ===== src/Engine/Complete.antt =====
-- What a scan of ipscanner/engine/engine.go finds, whatever the scheduler does.
use vwarp.Prelude.{
  ℕ, zero, suc, ◌+◌, ◌≤◌, ◌≡◌, refl, Bool, false, List, [], ◌∷◌, Option, none, some, arith, ◌==◌,
  ap, ◌∙◌, sym, ◌&&◌, not,
}
use vwarp.Queue.{IpInfo, new_ip_queue, enqueue_all}
use vwarp.Queue.Order.{rtts}
use vwarp.Queue.Order.Occurrences.{occurrences, enqueue_all-occurrences}
use vwarp.Engine.{
  Network, Options, State, Event, generate, take_icmp, take_tcp, take_warp, check, cancel,
  finish_icmp, finish_tcp, finish_warp, step, run, start, probed, pinged, generated, checked,
  ip_queue, pull, warp_probe,
}
use vwarp.Engine.Counts.{tally, hit, Balanced}
use vwarp.Engine.Flow.{from_icmp, staged, total, step-Balanced}

-- The reference: the results of the candidates one after the other, through all filters and the ping.
unfoldable pub add_result : Option IpInfo → List IpInfo → List IpInfo
add_result none l = l
add_result (some r) l = r ∷ l

unfoldable pub results : Network → Options → List IpInfo → List IpInfo
results net o [] = []
results net o (x ∷ l) = add_result (from_icmp net o x) (results net o l)

pub add_result-tally :
    (p : IpInfo → Bool)
    → (r : Option IpInfo) → (l : List IpInfo)
    → tally p (λ x. some x) (add_result r l) ≡ hit p r + tally p (λ x. some x) l
unfolding add_result tally hit
add_result-tally p none l = omega arith
add_result-tally p (some r) l = refl

results-tally :
    (p : IpInfo → Bool)
    → (net : Network) → (o : Options) → (l : List IpInfo)
    → tally p (λ x. some x) (results net o l) ≡ tally p (from_icmp net o) l
unfolding results tally
results-tally p net o [] = refl
results-tally p net o (x ∷ l) =
    add_result-tally p (from_icmp net o x) (results net o l)
    ∙ ap (λ t. hit p (from_icmp net o x) + t) (results-tally p net o l)

generated-cancelled :
    (capacity : ℕ)
    → (l : List IpInfo) → (s : State) → (generated capacity l s).cancelled ≡ s.cancelled
unfolding generated
generated-cancelled capacity [] s = refl
generated-cancelled capacity (x ∷ l) s = ground arith

probed-cancelled :
    (dropped : Bool)
    → (r : Option IpInfo) → (rest : List IpInfo) → (s : State)
    → (probed dropped r rest s).cancelled ≡ s.cancelled
unfolding probed
probed-cancelled dropped none rest s = refl
probed-cancelled dropped (some r) rest s = ground arith

pinged-cancelled :
    (f : IpInfo → Option IpInfo)
    → (dropped : Bool) → (pulled : Option (IpInfo × List IpInfo)) → (s : State)
    → (pinged f dropped pulled s).cancelled ≡ s.cancelled
unfolding pinged
pinged-cancelled f dropped none s = refl
pinged-cancelled f dropped (some (x, rest)) s = probed-cancelled dropped (f x) rest s

checked-cancelled :
    (o : Options) → (n : ℕ) → (s : State) → (checked o n s).cancelled ≡ false → s.cancelled ≡ false
unfolding checked
checked-cancelled o zero s h = h
checked-cancelled o (suc n) s h = ground arith

-- The context is never revived.
step-cancelled :
    (net : Network)
    → (o : Options) → (e : Event) → (s : State) → (step net o e s).cancelled ≡ false
    → s.cancelled ≡ false
unfolding step
step-cancelled net o generate s h =
    sym (generated-cancelled o.concurrent_scanners s.candidates s) ∙ h
step-cancelled net o take_icmp s h = h
step-cancelled net o take_tcp s h = h
step-cancelled net o take_warp s h = h
step-cancelled net o (finish_icmp n kept) s h = h
step-cancelled net o (finish_tcp n kept) s h = h
step-cancelled net o (finish_warp n kept) s h =
    sym (pinged-cancelled (warp_probe net o) (s.cancelled && not kept) (pull n s.warp.busy) s) ∙ h
step-cancelled net o check s h = checked-cancelled o s.checking s h
step-cancelled net o cancel s h = ground arith

run-Balanced :
    (p : IpInfo → Bool)
    → (net : Network) → (o : Options) → (es : List Event) → (s : State)
    → Balanced (run net o es s).cancelled (total p net o (run net o es s)) (total p net o s)
      × ((run net o es s).cancelled ≡ false → s.cancelled ≡ false)
unfolding run Balanced
run-Balanced p net o [] s = ground arith
run-Balanced p net o (e ∷ es) s = ground (
  arith,
  run-Balanced p net o es (step net o e s),
  step-cancelled net o e s,
  step-Balanced p net o e s,
)

-- All candidates are through: the channels are empty and no worker holds an item.
unfoldable pub IsDone : State → Type 0
IsDone s =
    (s.candidates ≡ [])
    × (s.icmp.stream ≡ [])
    × (s.icmp.busy ≡ [])
    × (s.tcp.stream ≡ [])
    × (s.tcp.busy ≡ [])
    × (s.warp.stream ≡ [])
    × (s.warp.busy ≡ [])

done-total :
    (p : IpInfo → Bool)
    → (net : Network) → (o : Options) → (s : State) → IsDone s
    → total p net o s ≡ tally p (λ x. some x) s.found
unfolding IsDone total staged tally
done-total p net o s (a, b, c, d, e, f, g) = rw (a, b, c, d, e, f, g) (omega arith)

start-total :
    (p : IpInfo → Bool)
    → (net : Network) → (o : Options) → (l : List IpInfo)
    → total p net o (start l) ≡ tally p (from_icmp net o) l
unfolding start total staged tally
start-total p net o l = omega arith

pub occurrences-rtts :
    (k : ℕ) → (l : List IpInfo) → occurrences k (rtts l) ≡ tally (λ x. x.rtt == k) (λ x. some x) l
unfolding occurrences tally hit
occurrences-rtts k [] = refl
occurrences-rtts k (x ∷ l) = ground (arith, occurrences-rtts k l)

-- For every schedule, cancelled ones included: among the arguments of the calls of `Enqueue` there are
-- at most as many with any given property as among the results of the candidates.
pub scan_sound :
    (net : Network)
    → (o : Options) → (candidates : List IpInfo) → (es : List Event) → (p : IpInfo → Bool)
    → tally p (λ x. some x) (run net o es (start candidates)).found
      ≤ tally p (λ x. some x) (results net o candidates)
unfolding Balanced total
scan_sound net o candidates es p = ground (
  arith,
  run-Balanced p net o es (start candidates),
  start-total p net o candidates,
  results-tally p net o candidates,
)

all_found :
    (net : Network)
    → (o : Options) → (candidates : List IpInfo) → (es : List Event) → (p : IpInfo → Bool)
    → IsDone (run net o es (start candidates))
    → (run net o es (start candidates)).cancelled ≡ false
    → tally p (λ x. some x) (run net o es (start candidates)).found
      ≡ tally p (λ x. some x) (results net o candidates)
unfolding Balanced
all_found net o candidates es p done alive =
    sym (done-total p net o (run net o es (start candidates)) done)
    ∙ (run-Balanced p net o es (start candidates)).0.1 alive
    ∙ start-total p net o candidates
    ∙ sym (results-tally p net o candidates)

-- For every schedule that brings all candidates through and during which the context is not cancelled:
-- the queue lists the same RTTs as after putting in the results of the candidates one after the other.
pub scan_sequential :
    (net : Network)
    → (o : Options) → (candidates : List IpInfo) → (es : List Event)
    → IsDone (run net o es (start candidates))
    → (run net o es (start candidates)).cancelled ≡ false
    → rtts (ip_queue o (run net o es (start candidates))).queue
      ≡ rtts (enqueue_all (new_ip_queue o.ip_queue_size) (results net o candidates)).queue
unfolding ip_queue
scan_sequential net o candidates es done alive =
    enqueue_all-occurrences o.ip_queue_size (run net o es (start candidates)).found
      (results net o candidates)
      λ k.
        occurrences-rtts k (run net o es (start candidates)).found
        ∙ all_found net o candidates es (λ x. x.rtt == k) done alive
        ∙ sym (occurrences-rtts k (results net o candidates))
