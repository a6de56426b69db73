-- ===== src/Adapter/Tunnel/Stuck.antt =====
-- The tunnel of app/masque_tun_adapter.go can stop for ever: the channel is drained after a recovery
-- even if the connection broke again while it was tested.
use vwarp.Prelude.{ℕ, ◌+◌, ◌≤◌, ◌≡◌, Bool, true, false, List, [], ◌∷◌, arith, if◌then◌else◌}
use vwarp.Adapter.Tunnel.{
  State, Outcome, Event, idle, testing, done, connection_error, other_error, write_start, tun_error,
  write_result, read_start, read_result, health_tick, failure_tick, write_alert, read_alert,
  rate_alert, health_alert, alerted, next_alarm, calm, take_signal, factory_failed, factory_ok,
  restore, finish, end_cycle, step, run, written, was_read, health, failure_rate, taken,
  attempt_failed, attempt_ok, restored, finished, cycle_failed,
}

-- No goroutine stands between a look at `connectionBroken` and the signal that follows it.
pub record IsCalm (s : State) : Type 0 where
  pub write_calm : s.write_alarm ≡ calm
  pub read_calm : s.read_alarm ≡ calm
  pub rate_calm : s.rate_alarm ≡ calm
  pub health_calm : s.health_alarm ≡ false

-- The forwarding goroutines wait for the connection, and nothing will tell the recovery goroutine.
pub record IsStuck (s : State) : Type 0 where
  pub is_broken : s.broken ≡ true
  pub no_signal : s.signal ≡ false
  pub is_idle : s.phase ≡ idle
  pub no_alarm : IsCalm s

abbrev pub one_if : Bool → ℕ
one_if b = if b then 1 else 0

-- Stuck, and all that has been forwarded since is what was under way.
record StuckSince (before s : State) : Type 0 where
  stuck : IsStuck s
  out : s.sent + one_if s.write_busy ≤ before.sent + one_if before.write_busy
  back : s.received + one_if s.read_busy ≤ before.received + one_if before.read_busy

written-StuckSince :
    (o : Outcome) (now : ℕ) (b s : State)
    → s.write_busy ≡ true
    → StuckSince b s
    → StuckSince b (written o now s)
unfolding written
written-StuckSince done now b s w h = ground arith
written-StuckSince connection_error now b s w h = ground arith
written-StuckSince other_error now b s w h = ground arith

was_read-StuckSince :
    (o : Outcome) (now : ℕ) (b s : State)
    → s.read_busy ≡ true
    → StuckSince b s
    → StuckSince b (was_read o now s)
unfolding was_read
was_read-StuckSince done now b s w h = ground arith
was_read-StuckSince connection_error now b s w h = ground arith
was_read-StuckSince other_error now b s w h = ground arith

step-StuckSince : (e : Event) (b s : State) → StuckSince b s → StuckSince b (step s e)
unfolding step alerted next_alarm health failure_rate taken attempt_failed attempt_ok restored
    finished cycle_failed
step-StuckSince write_start b s h = ground arith
step-StuckSince tun_error b s h = ground arith
step-StuckSince (write_result o now) b s h = ground (arith, written-StuckSince o now b s)
step-StuckSince read_start b s h = ground arith
step-StuckSince (read_result o now) b s h = ground (arith, was_read-StuckSince o now b s)
step-StuckSince (health_tick now) b s h = ground arith
step-StuckSince (failure_tick now) b s h = ground arith
step-StuckSince write_alert b s h = ground arith
step-StuckSince read_alert b s h = ground arith
step-StuckSince rate_alert b s h = ground arith
step-StuckSince health_alert b s h = ground arith
step-StuckSince take_signal b s h = ground arith
step-StuckSince factory_failed b s h = ground arith
step-StuckSince (factory_ok now) b s h = ground arith
step-StuckSince restore b s h = ground arith
step-StuckSince (finish now) b s h = ground arith
step-StuckSince end_cycle b s h = ground arith

finish-StuckSince :
    (now : ℕ) (s : State)
    → s.phase ≡ testing
    → s.broken ≡ true
    → IsCalm s
    → StuckSince s (step s (finish now))
unfolding step finished
finish-StuckSince now s p broken quiet = ground arith

run-StuckSince : (es : List Event) (b s : State) → StuckSince b s → StuckSince b (run s es)
unfolding run
run-StuckSince [] b s h = h
run-StuckSince (e ∷ es) b s h = run-StuckSince es b (step s e) (step-StuckSince e b s h)

-- Take a tunnel that is under test after a recovery. If, when the test is over, the connection is marked
-- as broken again and no goroutine stands between a look at this mark and the signal that follows, then
-- behind the test, whatever happens: the connection stays marked as broken, no signal is pending or about
-- to be sent, and the recovery goroutine waits for one; and no packet is forwarded but at most one in each
-- direction that was under way.
pub recovery-IsStuck :
    (s : State) (now : ℕ) (es : List Event)
    → s.phase ≡ testing
    → s.broken ≡ true
    → IsCalm s
    → let later = run s (finish now ∷ es) in
      IsStuck later
      × (later.sent ≤ s.sent + one_if s.write_busy)
      × (later.received ≤ s.received + one_if s.read_busy)
unfolding run
recovery-IsStuck s now es p broken quiet =
    let end = run-StuckSince es s _ (finish-StuckSince now s p broken quiet) in
    (end.stuck, omega (arith, end.out), omega (arith, end.back))
