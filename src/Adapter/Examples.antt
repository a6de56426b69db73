-- ===== src/Adapter/Examples.antt =====
-- A run of the goroutines of app/masque_tun_adapter.go.
use vwarp.Prelude.{◌+◌, ◌≤◌, refl, List, [], ◌∷◌, ◌++◌, ℕ}
use vwarp.Adapter.Tunnel.{
  State, Event, connection_error, write_start, write_result, write_alert, health_tick, take_signal,
  factory_ok, factory_failed, restore, finish, step, run, start, written, alerted, next_alarm,
  taken, attempt_failed, attempt_ok, restored,
}
use vwarp.Adapter.Tunnel.Stuck.{IsStuck, one_if, recovery-IsStuck}
use vwarp.Adapter.Tunnel.Recovery.{IsTended, run-IsTended}

-- A round of the goroutine that forwards to MASQUE, which loses the connection.
abbrev lost_write : ℕ → List Event
lost_write now = write_start ∷ write_result connection_error now ∷ []

-- Three lost writes and the alarm, and a recovery at the second attempt, up to its test.
abbrev events : List Event
events =
    lost_write 1000
    ++ lost_write 1001
    ++ lost_write 1002
    ++ write_alert ∷ write_alert ∷ take_signal ∷ factory_failed ∷ factory_ok 1010 ∷ restore ∷ []

-- During the test one more write fails, and the alarm is given before the test is over.
abbrev reached : State
unfolding run start step written alerted next_alarm taken attempt_failed attempt_ok restored
reached = run (start 1000 0 1000) (events ++ lost_write 1012 ++ write_alert ∷ write_alert ∷ [])

recovery-IsStuck_example :
    let later = run reached (finish 1015 ∷ health_tick 1200 ∷ []) in
    IsStuck later
    × (later.sent ≤ reached.sent + one_if reached.write_busy)
    × (later.received ≤ reached.received + one_if reached.read_busy)
unfolding reached run start step written alerted next_alarm taken attempt_failed attempt_ok restored
recovery-IsStuck_example =
    recovery-IsStuck reached 1015 (health_tick 1200 ∷ []) refl refl
      (record { write_calm = refl; read_calm = refl; rate_calm = refl; health_calm = refl })

run-IsTended_example : IsTended (run (start 1000 0 1000) events)
run-IsTended_example = run-IsTended 1000 0 1000 events
