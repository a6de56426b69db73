-- ===== src/Adapter/Tunnel/Recovery.antt =====
-- What the recovery of app/masque_tun_adapter.go keeps true, at every interleaving of its goroutines.
use vwarp.Prelude.{ℕ, ◌≤◌, ◌<◌, ◌≡◌, refl, Bool, true, false, not, ◌||◌, List, [], ◌∷◌, arith}
use vwarp.Adapter.Tunnel.{
  State, Phase, Event, idle, trying, placed, testing, failed, done, connection_error, other_error,
  write_start, tun_error, write_result, read_start, read_result, health_tick, failure_tick,
  write_alert, read_alert, rate_alert, health_alert, alerted, Alarm, calm, noticed, marked,
  take_signal, factory_failed, factory_ok, restore, finish, end_cycle, step, run, start, written,
  was_read, health, failure_rate, taken, attempt_failed, attempt_ok, restored, finished,
  cycle_failed,
}

abbrev pub is_idle : Phase → Bool
is_idle idle = true
is_idle _ = false

-- Whether the phase has a new adapter in place.
abbrev pub has_adapter : Phase → Bool
has_adapter placed = true
has_adapter testing = true
has_adapter _ = false

-- The number of the attempt.
abbrev pub attempt : Phase → ℕ
attempt (trying a) = a
attempt _ = 1

-- A closed adapter is one that a signal or the recovery goroutine attends to; attempts and cycles
-- are counted within their limits.
pub record IsTended (s : State) : Type 0 where
  pub tended : (s.adapter_open || s.signal || not (is_idle s.phase)) ≡ true
  pub replaced : (not (has_adapter s.phase) || s.adapter_open) ≡ true
  pub first : 1 ≤ attempt s.phase
  pub last : attempt s.phase ≤ 5
  pub cycles : s.recovery_attempts < 5

phase-IsTended :
    (p : Phase) (s : State)
    → s.phase ≡ p
    → IsTended s
    → IsTended (taken p s)
      × IsTended (attempt_failed p s)
      × IsTended (restored p s)
      × IsTended (cycle_failed p s)
unfolding taken attempt_failed restored cycle_failed
phase-IsTended idle s e h = ground arith
phase-IsTended (trying a) s e h = ground arith
phase-IsTended placed s e h = ground arith
phase-IsTended testing s e h = ground arith
phase-IsTended failed s e h = ground arith

at-IsTended :
    (p : Phase) (now : ℕ) (s : State)
    → s.phase ≡ p
    → IsTended s
    → IsTended (attempt_ok p now s) × IsTended (finished p now s)
unfolding attempt_ok finished
at-IsTended idle now s e h = ground arith
at-IsTended (trying a) now s e h = ground arith
at-IsTended placed now s e h = ground arith
at-IsTended testing now s e h = ground arith
at-IsTended failed now s e h = ground arith

alerted-IsTended : (a : Alarm) (s : State) → IsTended s → IsTended (alerted a s)
unfolding alerted
alerted-IsTended calm s h = h
alerted-IsTended noticed s h = ground arith
alerted-IsTended marked s h = ground arith

step-IsTended : (e : Event) (s : State) → IsTended s → IsTended (step s e)
unfolding step health failure_rate written was_read
step-IsTended write_start s h = ground arith
step-IsTended tun_error s h = ground arith
step-IsTended (write_result done now) s h = ground arith
step-IsTended (write_result connection_error now) s h = ground arith
step-IsTended (write_result other_error now) s h = ground arith
step-IsTended read_start s h = ground arith
step-IsTended (read_result done now) s h = ground arith
step-IsTended (read_result connection_error now) s h = ground arith
step-IsTended (read_result other_error now) s h = ground arith
step-IsTended (health_tick now) s h = ground arith
step-IsTended (failure_tick now) s h = ground arith
step-IsTended write_alert s h = ground (arith, alerted-IsTended s.write_alarm s)
step-IsTended read_alert s h = ground (arith, alerted-IsTended s.read_alarm s)
step-IsTended rate_alert s h = ground (arith, alerted-IsTended s.rate_alarm s)
step-IsTended health_alert s h = ground arith
step-IsTended take_signal s h = (phase-IsTended s.phase s refl h).0
step-IsTended factory_failed s h = (phase-IsTended s.phase s refl h).1
step-IsTended (factory_ok now) s h = (at-IsTended s.phase now s refl h).0
step-IsTended restore s h = (phase-IsTended s.phase s refl h).2
step-IsTended (finish now) s h = (at-IsTended s.phase now s refl h).1
step-IsTended end_cycle s h = (phase-IsTended s.phase s refl h).3

run_from-IsTended : (es : List Event) (s : State) → IsTended s → IsTended (run s es)
unfolding run
run_from-IsTended [] s h = h
run_from-IsTended (e ∷ es) s h = run_from-IsTended es (step s e) (step-IsTended e s h)

-- At every state that the goroutines can reach, in any order of their events: if the adapter in use is
-- closed, a signal is pending or the recovery goroutine is at work; while a new adapter is in place
-- under test it is open; an attempt has a number from 1 to 5; and fewer than 5 cycles are counted.
pub run-IsTended :
    (now global_failures global_reset : ℕ) (es : List Event)
    → IsTended (run (start now global_failures global_reset) es)
unfolding start
run-IsTended now g r es = run_from-IsTended es (start now g r) (ground arith)
