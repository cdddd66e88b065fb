-- ===== src/Main.antt =====
-- grbl/main.c, and the checks at the start of `protocol_main_loop` in grbl/protocol.c. The safety door
-- pin and FORCE_INITIALIZATION_ALARM are not defined; HOMING_INIT_LOCK and CHECK_LIMITS_AT_INIT are.
-- The routines that set up hardware only, and the positions, are left out.
pub mod Restart
use tele_handwriter.Base.{ℕ, Bool, true, false, not, ◌&&◌, ◌==◌, if◌then◌else◌, bit_or}
use tele_handwriter.Base.Bits.{bit_istrue}
use tele_handwriter.Serial.{serial_reset_read_buffer}
use tele_handwriter.System.{
  Machine, Sys, Exec, call, with_sys, report_feedback_message, report_status_message,
  report_init_message, plan_reset, st_reset, plan_sync_position, gc_sync_position, state_idle,
  state_alarm, state_sleep, bitflag_homing_enable, bitflag_hard_limit_enable,
}
use tele_handwriter.System.Reset.{st_go_idle, coolant_stop}
use tele_handwriter.Spindle.{spindle_init}
use tele_handwriter.System.Commands.{Services, system_execute_startup, status_setting_read_fail}
use tele_handwriter.Number.{Floats}
use tele_handwriter.Limits.{limits_get_state}
use tele_handwriter.Protocol.Overrides.{default_override}

abbrev pub message_alarm_lock : ℕ
message_alarm_lock = 2

abbrev pub message_check_limits : ℕ
message_check_limits = 7

-- Lines 50 to 67: sys.state after power-up.
pub power_up_state : ℕ → ℕ
power_up_state settings_flags =
    if bit_istrue settings_flags bitflag_homing_enable then state_alarm else state_idle

-- Lines 74 to 79.
pub clear_sys : Sys → Sys
clear_sys s = record {
  state = s.state;
  abort = false;
  suspend = 0;
  soft_limit = false;
  step_control = 0;
  probe_succeeded = false;
  homing_axis_lock = 0;
  f_override = default_override;
  r_override = default_override;
  spindle_speed_ovr = default_override;
  spindle_stop_ovr = 0;
  report_ovr_counter = 0;
  report_wco_counter = 0;
}

-- Lines 82 to 85.
abbrev pub clear_exec : Exec
clear_exec = record { state = 0; alarm = 0; motion_override = 0; accessory_override = 0 }

-- `gc_init()`, of which the modes are kept; `read` says whether the coordinates were read.
pub gc_init : Bool → Machine → Machine
gc_init read m =
    let cleared = record m { modal_spindle = 0; modal_coolant = 0 } in
    if read then cleared else call (report_status_message status_setting_read_fail) cleared

-- Lines 73 to 102, from the state that the last run left.
pub initialize : Bool → Machine → Machine
initialize read m =
    let cleared = record m {
      sys = clear_sys m.sys;
      exec = clear_exec;
      serial = serial_reset_read_buffer m.serial;
    } in
    let stopped = coolant_stop (spindle_init (gc_init read cleared)) in
    let reset = call st_reset (st_go_idle (call plan_reset stopped)) in
    call report_init_message (call gc_sync_position (call plan_sync_position reset))

-- Lines 41 to 48 of protocol.c; `input` is the register of the limit pins.
pub check_limits : ℕ → Machine → Machine
check_limits input m =
    let alarmed = with_sys (λ s. record s { state = state_alarm }) m in
    if bit_istrue m.settings_flags bitflag_hard_limit_enable
      && not (limits_get_state m.settings_flags input == 0)
    then call (report_feedback_message message_check_limits) alarmed
    else m

module _ {ℓ} {W : Type ℓ} (floats : Floats W) (services : Services W) where
  -- Lines 52 to 64 of protocol.c.
  pub lock_or_start : Machine → Machine
  lock_or_start m =
      let locked =
        with_sys (λ s. record s { state = state_alarm })
          (call (report_feedback_message message_alarm_lock) m) in
      let idle = with_sys (λ s. record s { state = state_idle }) m in
      if bit_istrue m.sys.state (bit_or state_alarm state_sleep)
      then locked
      else system_execute_startup floats services idle

  -- A run of the main program up to its primary loop.
  pub restart : Bool → ℕ → Machine → Machine
  restart read input m = lock_or_start (check_limits input (initialize read m))
