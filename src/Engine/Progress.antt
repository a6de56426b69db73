-- ===== src/Engine/Progress.antt =====
-- The pipeline of ipscanner/engine/engine.go comes to an end: there is always an event that gets an
-- item on, and there are only so many of them.
use vwarp.Prelude.{
  ℕ, zero, suc, ◌+◌, ◌*◌, ◌≤◌, ◌<◌, ◌≡◌, Bool, true, false, List, [], ◌∷◌, Option, none, some,
  length,
}
use vwarp.Queue.{IpInfo}
use vwarp.Engine.{
  Network, Options, State, Event, generate, take_icmp, take_tcp, take_warp, check, finish_icmp,
  finish_tcp, finish_warp, step, run,
}
use vwarp.Engine.Complete.{IsDone}

-- The moves that are left at most for the items and the checks under way.
unfoldable pub work : State → ℕ
work s =
    8 * length s.candidates
    + 7 * length s.icmp.stream
    + 6 * length s.icmp.busy
    + 5 * length s.tcp.stream
    + 4 * length s.tcp.busy
    + 3 * length s.warp.stream
    + 2 * length s.warp.busy
    + s.checking

-- An event that gets an item on, the last stage first; `none` when nothing is left to do.
first_event :
    ℕ
    → List IpInfo
    → List IpInfo
    → List IpInfo
    → List IpInfo
    → List IpInfo
    → List IpInfo
    → List IpInfo
    → Option Event
first_event (suc n) wb ws tb ts ib is cs = some check
first_event zero (x ∷ wb) ws tb ts ib is cs = some (finish_warp 0 true)
first_event zero [] (x ∷ ws) tb ts ib is cs = some take_warp
first_event zero [] [] (x ∷ tb) ts ib is cs = some (finish_tcp 0 true)
first_event zero [] [] [] (x ∷ ts) ib is cs = some take_tcp
first_event zero [] [] [] [] (x ∷ ib) is cs = some (finish_icmp 0 true)
first_event zero [] [] [] [] [] (x ∷ is) cs = some take_icmp
first_event zero [] [] [] [] [] [] (x ∷ cs) = some generate
first_event zero [] [] [] [] [] [] [] = none

unfoldable pub next : State → Option Event
unfolding first_event
next s =
    first_event s.checking s.warp.busy s.warp.stream s.tcp.busy s.tcp.stream s.icmp.busy
      s.icmp.stream s.candidates

-- What holds of the event that was picked.
Progress : Network → Options → State → Option Event → Type 0
Progress net o s none = IsDone s × (s.checking ≡ 0)
Progress net o s (some e) = (work (step net o e s) < work s) × ((step net o e s).cancelled ≡ false)

abbrev made :
    Bool
    → List IpInfo
    → ℕ
    → List IpInfo
    → List IpInfo
    → List IpInfo
    → List IpInfo
    → List IpInfo
    → List IpInfo
    → List IpInfo
    → State
made cancelled found checking wb ws tb ts ib is cs = record {
  candidates = cs;
  icmp = record { stream = is; busy = ib };
  tcp = record { stream = ts; busy = tb };
  warp = record { stream = ws; busy = wb };
  checking = checking;
  found = found;
  cancelled = cancelled;
}

Completes : Network → Options → State → Type 0
Completes net o s =
    (es : List Event) × (length es ≤ work s)
    × IsDone (run net o es s)
    × ((run net o es s).checking ≡ 0)
    × ((run net o es s).cancelled ≡ false)
