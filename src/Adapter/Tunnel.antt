-- ===== src/Adapter/Tunnel.antt =====
-- `maintainMasqueTunnel` of app/masque_tun_adapter.go: the state that its goroutines share, and one
-- function for each thing that one of them does between two waits.
pub mod Stuck
pub mod Recovery
use vwarp.Prelude.{
  ℕ, zero, suc, ◌+◌, ◌-◌, ◌≡◌, Bool, true, false, not, ◌&&◌, ◌||◌, List, [], ◌∷◌, ltb, leb, ◌==◌,
  if◌then◌else◌,
}

-- Where the recovery goroutine is: it waits for a signal; it is before an attempt; a new adapter is in
-- place; the tunnel is marked as restored and is tested; all attempts have failed.
pub data Phase : Type 0 where
  idle : Phase
  trying : ℕ → Phase
  placed : Phase
  testing : Phase
  failed : Phase

-- Where a goroutine is that tells of a broken connection: it has seen that `connectionBroken` is not set,
-- and will set it; it has set it, and will send the signal.
pub data Alarm : Type 0 where
  calm : Alarm
  noticed : Alarm
  marked : Alarm

-- `signal` says that the channel `connectionDown`, of capacity 1, is full. `write_busy` and `read_busy` say
-- that a forwarding goroutine is past its look at `connectionBroken`. Times are in seconds;
-- `adapter_open` says that the adapter in use has not been closed, and the last two fields count the
-- packets that were forwarded.
pub record State : Type 0 where
  pub broken : Bool
  pub signal : Bool
  pub write_busy : Bool
  pub read_busy : Bool
  pub write_alarm : Alarm
  pub read_alarm : Alarm
  pub rate_alarm : Alarm
  pub health_alarm : Bool
  pub write_errors : ℕ
  pub consecutive_errors : ℕ
  pub failures : ℕ
  pub global_failures : ℕ
  pub last_read : ℕ
  pub last_write : ℕ
  pub last_recovery : ℕ
  pub last_reset : ℕ
  pub global_reset : ℕ
  pub phase : Phase
  pub recovery_attempts : ℕ
  pub adapter_open : Bool
  pub sent : ℕ
  pub received : ℕ

-- The state at the time `now`, with what the global counters hold.
unfoldable pub start : ℕ → ℕ → ℕ → State
start now global_failures global_reset = record {
  broken = false;
  signal = false;
  write_busy = false;
  read_busy = false;
  write_alarm = calm;
  read_alarm = calm;
  rate_alarm = calm;
  health_alarm = false;
  write_errors = 0;
  consecutive_errors = 0;
  failures = 0;
  global_failures = global_failures;
  last_read = now;
  last_write = now;
  last_recovery = 0;
  last_reset = now;
  global_reset = global_reset;
  phase = idle;
  recovery_attempts = 0;
  adapter_open = true;
  sent = 0;
  received = 0;
}

abbrev pub max_reconnection_attempts : ℕ
max_reconnection_attempts = 5

abbrev pub max_recovery_attempts : ℕ
max_recovery_attempts = 5

-- What a read or a write of the adapter gives.
pub data Outcome : Type 0 where
  done : Outcome
  connection_error : Outcome
  other_error : Outcome

pub data Event : Type 0 where
  write_start : Event
  tun_error : Event
  write_result : Outcome → ℕ → Event
  read_start : Event
  read_result : Outcome → ℕ → Event
  health_tick : ℕ → Event
  failure_tick : ℕ → Event
  write_alert : Event
  read_alert : Event
  rate_alert : Event
  health_alert : Event
  take_signal : Event
  factory_failed : Event
  factory_ok : ℕ → Event
  restore : Event
  finish : ℕ → Event
  end_cycle : Event

-- The two steps that follow a look at `connectionBroken`: `Store(true)`, and the send on the channel, which
-- is dropped if it is full.
unfoldable pub alerted : Alarm → State → State
alerted calm s = s
alerted noticed s = record s { broken = true }
alerted marked s = record s { signal = true }

unfoldable pub next_alarm : Alarm → Alarm
next_alarm noticed = marked
next_alarm _ = calm

abbrev pub is_calm : Alarm → Bool
is_calm calm = true
is_calm _ = false

-- The end of a round of the goroutine that forwards to MASQUE.
unfoldable pub written : Outcome → ℕ → State → State
written done now s = record s {
  write_busy = false;
  write_errors = 0;
  last_write = now;
  sent = s.sent + 1;
}
written connection_error now s =
    let s' = record s {
      write_busy = false;
      write_errors = s.write_errors + 1;
      failures = s.failures + 1;
      global_failures = s.global_failures + 1;
    } in
    if leb 3 s'.write_errors && not s.broken then record s' { write_alarm = noticed } else s'
written other_error now s = record s { write_busy = false; write_errors = s.write_errors + 1 }

-- The end of a round of the goroutine that forwards from MASQUE.
unfoldable pub was_read : Outcome → ℕ → State → State
was_read done now s = record s {
  read_busy = false;
  consecutive_errors = 0;
  last_read = now;
  received = s.received + 1;
}
was_read connection_error now s =
    let s' = record s {
      read_busy = false;
      consecutive_errors = s.consecutive_errors + 1;
      failures = s.failures + 1;
      global_failures = s.global_failures + 1;
    } in
    if leb 3 s'.consecutive_errors && not s.broken then record s' { read_alarm = noticed } else s'
was_read other_error now s = record s {
  read_busy = false;
  consecutive_errors = s.consecutive_errors + 1;
}

-- `now - a > b` and `now - a < b` on signed seconds.
abbrev older : ℕ → ℕ → ℕ → Bool
older now a b = ltb (a + b) now

abbrev younger : ℕ → ℕ → ℕ → Bool
younger now a b = ltb now (a + b)

-- A tick of the health monitor.
unfoldable pub health : ℕ → State → State
health now s =
    if not s.broken
      && not (younger now s.last_recovery 60)
      && (older now s.last_read 120 || older now s.last_write 120 || leb 3 s.failures)
    then record s { health_alarm = true }
    else s

-- A tick of the failure monitor.
unfoldable pub failure_rate : ℕ → State → State
failure_rate now s =
    let high =
      leb 5 s.failures && younger now s.last_reset 120
      || leb 8 s.global_failures && younger now s.global_reset 180 in
    let s' = (if high && not s.broken then record s { rate_alarm = noticed } else s) in
    if older now s.last_reset 300 && ltb 0 s.failures
    then record s' { failures = 0; last_reset = now }
    else s'

-- The recovery goroutine, by its phase; an event that its phase does not allow changes nothing.
unfoldable pub taken : Phase → State → State
taken idle s = if s.signal then record s { signal = false; phase = trying 1 } else s
taken _ s = s

-- The old adapter is closed before the factory is called.
unfoldable pub attempt_failed : Phase → State → State
attempt_failed (trying a) s = record s {
  adapter_open = false;
  phase = (if ltb a max_reconnection_attempts then trying (a + 1) else failed);
}
attempt_failed _ s = s

unfoldable pub attempt_ok : Phase → ℕ → State → State
attempt_ok (trying a) now s = record s {
  adapter_open = true;
  last_read = now;
  last_write = now;
  phase = placed;
}
attempt_ok _ now s = s

unfoldable pub restored : Phase → State → State
restored placed s = record s { broken = false; phase = testing }
restored _ s = s

-- The tests are over, and whatever they said the recovery counts as successful: the counters are
-- reset and the channel is drained.
unfoldable pub finished : Phase → ℕ → State → State
finished testing now s = record s {
  last_recovery = now;
  recovery_attempts = 0;
  failures = 0;
  last_reset = now;
  global_failures = 0;
  global_reset = now;
  signal = false;
  phase = idle;
}
finished _ now s = s

unfoldable pub cycle_failed : Phase → State → State
cycle_failed failed s = record s {
  recovery_attempts =
      (if leb max_recovery_attempts (s.recovery_attempts + 1) then 0 else s.recovery_attempts + 1);
  signal = true;
  phase = idle;
}
cycle_failed _ s = s

-- One event. A round that starts while the connection is broken sleeps and looks again; a goroutine that
-- has an alarm to give does nothing else before.
unfoldable pub step : State → Event → State
step s write_start =
    if not s.broken && (not s.write_busy && is_calm s.write_alarm)
    then record s { write_busy = true }
    else s
step s tun_error = record s { write_busy = false }
step s (write_result outcome now) = if s.write_busy then written outcome now s else s
step s read_start =
    if not s.broken && (not s.read_busy && is_calm s.read_alarm)
    then record s { read_busy = true }
    else s
step s (read_result outcome now) = if s.read_busy then was_read outcome now s else s
step s (health_tick now) = if s.health_alarm then s else health now s
step s (failure_tick now) = if is_calm s.rate_alarm then failure_rate now s else s
step s write_alert = record (alerted s.write_alarm s) { write_alarm = next_alarm s.write_alarm }
step s read_alert = record (alerted s.read_alarm s) { read_alarm = next_alarm s.read_alarm }
step s rate_alert = record (alerted s.rate_alarm s) { rate_alarm = next_alarm s.rate_alarm }
step s health_alert = if s.health_alarm then record s { signal = true; health_alarm = false } else s
step s take_signal = taken s.phase s
step s factory_failed = attempt_failed s.phase s
step s (factory_ok now) = attempt_ok s.phase now s
step s restore = restored s.phase s
step s (finish now) = finished s.phase now s
step s end_cycle = cycle_failed s.phase s

unfoldable pub run : State → List Event → State
run s [] = s
run s (e ∷ es) = run (step s e) es
