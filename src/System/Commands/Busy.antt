-- ===== src/System/Commands/Busy.antt =====
-- The `$` commands of grbl/system.c while the machine is at work.
use tele_handwriter.Base.{ℕ, ◌≡◌, ◌≢◌, List, arith}
use tele_handwriter.System.{Machine, state_idle, state_alarm, state_check_mode, state_jog}
use tele_handwriter.Number.{Floats}
use tele_handwriter.System.Commands.{
  Services, system_execute_line, execute_jog, execute_mode, execute_idle, toggle_check_mode,
  disable_alarm_lock,
}

-- Neither idle, nor locked, nor jogging, nor in check mode: a cycle, a hold, homing, the door or sleep.
abbrev pub IsBusy : ℕ → Type 0
IsBusy state =
    (state ≢ state_idle) × (state ≢ state_alarm) × (state ≢ state_jog) × (state ≢ state_check_mode)

module _ {ℓ} {W : Type ℓ} (floats : Floats W) (services : Services W) where
  -- While the machine is busy, no `$` command changes it: at most a report is printed.
  pub busy_unchanged :
      (line : List ℕ) (m : Machine)
      → IsBusy m.sys.state
      → let n = (system_execute_line floats services line m).1 in n ≡ record m { calls = n.calls }
  unfolding system_execute_line execute_jog execute_mode execute_idle toggle_check_mode
      disable_alarm_lock
  busy_unchanged line m b = ground (arith, b)
