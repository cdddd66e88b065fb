-- ===== src/System/Reset.antt =====
-- `mc_reset` of grbl/motion_control.c with the routines that it calls: `spindle_stop`,
-- `coolant_stop` and `st_go_idle`. The delay in `st_go_idle` takes time only, and the clock prescaler
-- that it resets is always off with step smoothing.
pub mod Laws
use tele_handwriter.Base.{ℕ, Bool, true, false, not, ◌&&◌, ◌||◌, ◌==◌, if◌then◌else◌, bit_or}
use tele_handwriter.Base.Bits.{bit_istrue, bit_isfalse}
use tele_handwriter.System.{
  Machine, Exec, exec_reset, exec_alarm_homing_fail_reset, exec_alarm_abort_cycle, state_homing,
  state_cycle, state_jog, state_sleep, step_control_execute_hold, step_control_execute_sys_motion,
  bitflag_invert_st_enable, system_set_exec_state_flag, system_set_exec_alarm,
}

unfoldable pub spindle_stop : Machine → Machine
spindle_stop m = record m { pins = record m.pins { spindle_pwm = false } }

unfoldable pub coolant_stop : Machine → Machine
coolant_stop m = record m { pins = record m.pins { coolant_flood = false } }

-- Steppers are released unless the idle lock time says to keep them, and never while homing.
idle_pin_state : Machine → Bool
idle_pin_state m =
    (not (m.stepper_idle_lock_time == 0xff)
      || not (m.exec.alarm == 0)
      || m.sys.state == state_sleep)
    && not (m.sys.state == state_homing)

unfoldable pub st_go_idle : Machine → Machine
unfolding idle_pin_state
st_go_idle m =
    let pin_state = idle_pin_state m in
    record m {
      pins = record m.pins {
        step_interrupt = false;
        busy = false;
        steppers_disable =
            if bit_istrue m.settings_flags bitflag_invert_st_enable
            then not pin_state
            else pin_state;
      };
    }

-- The machine moves, or is being brought to a halt.
abbrev pub in_motion : Machine → Bool
in_motion m =
    bit_istrue m.sys.state (bit_or (bit_or state_cycle state_homing) state_jog)
    || bit_istrue m.sys.step_control
        (bit_or step_control_execute_hold step_control_execute_sys_motion)

abbrev reset_alarm : Machine → Exec → Exec
reset_alarm m e =
    if m.sys.state == state_homing
    then (if e.alarm == 0 then system_set_exec_alarm exec_alarm_homing_fail_reset e else e)
    else system_set_exec_alarm exec_alarm_abort_cycle e

unfoldable pub mc_reset : Machine → Machine
unfolding spindle_stop coolant_stop st_go_idle
mc_reset m =
    if bit_isfalse m.exec.state exec_reset
    then (let flagged = record m { exec = system_set_exec_state_flag exec_reset m.exec } in
        let stopped = coolant_stop (spindle_stop flagged) in
        if in_motion m
        then st_go_idle (record stopped { exec = reset_alarm m stopped.exec })
        else stopped)
    else m
