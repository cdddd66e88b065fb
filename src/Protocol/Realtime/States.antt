-- ===== src/Protocol/Realtime/States.antt =====
-- The values of sys.state, and the parts of the executor in grbl/protocol.c that change it.
use tele_handwriter.Base.{ℕ, ◌≡◌, ap, ◌⊎◌, Bool, arith}
use tele_handwriter.System.{
  Machine, Sys, state_idle, state_alarm, state_check_mode, state_homing, state_cycle, state_hold,
  state_jog, state_safety_door, state_sleep,
}
use tele_handwriter.Protocol.Realtime.{
  start_hold, flag_hold, restart_retract, open_door, go_to_sleep, hold_sys, exec_holds, hold_calls,
  resume_door, begin_cycle, start_cycle, exec_start, complete_hold, flush_jog, complete_motion,
  exec_stop, exec_report, exec_state_flags,
}

abbrev pub IsState : ℕ → Type 0
IsState s =
    (s ≡ state_idle)
    ⊎ (s ≡ state_alarm)
    ⊎ (s ≡ state_check_mode)
    ⊎ (s ≡ state_homing)
    ⊎ (s ≡ state_cycle)
    ⊎ (s ≡ state_hold)
    ⊎ (s ≡ state_jog)
    ⊎ (s ≡ state_safety_door)
    ⊎ (s ≡ state_sleep)

hold_sys-IsState : (rt_exec : ℕ) (s : Sys) → IsState s.state → IsState (hold_sys rt_exec s).state
unfolding hold_sys start_hold flag_hold open_door restart_retract go_to_sleep
hold_sys-IsState rt_exec s h = ground arith

exec_holds-IsState :
    (rt_exec : ℕ) (m : Machine) → IsState m.sys.state → IsState (exec_holds rt_exec m).sys.state
unfolding exec_holds hold_calls
exec_holds-IsState rt_exec m h = ground (arith, hold_sys-IsState rt_exec m.sys h)

exec_start-IsState :
    (has_block : Bool) (rt_exec : ℕ) (m : Machine)
    → IsState m.sys.state
    → IsState (exec_start has_block rt_exec m).sys.state
unfolding exec_start start_cycle begin_cycle resume_door
exec_start-IsState has_block rt_exec m h = ground arith

exec_stop-IsState :
    (rt_exec : ℕ) (m : Machine) → IsState m.sys.state → IsState (exec_stop rt_exec m).sys.state
unfolding exec_stop complete_hold complete_motion flush_jog
exec_stop-IsState rt_exec m h = ground arith

exec_report-sys : (rt_exec : ℕ) (m : Machine) → (exec_report rt_exec m).sys ≡ m.sys
unfolding exec_report
exec_report-sys rt_exec m = ground arith

-- Serving the realtime flags keeps sys.state one of the nine states, whatever the flags are.
pub exec_state_flags-IsState :
    (has_block : Bool) (m : Machine)
    → IsState m.sys.state
    → IsState (exec_state_flags has_block m).sys.state
unfolding exec_state_flags
exec_state_flags-IsState has_block m h =
    let flags = m.exec.state in
    let reported = exec_report flags m in
    let held = exec_holds flags reported in
    exec_stop-IsState flags (exec_start has_block flags held) (
      exec_start-IsState has_block flags held (
        exec_holds-IsState flags reported
          (rw (ap (λ (s : Sys). s.state) (exec_report-sys flags m)) h)))
