-- ===== src/System.antt =====
-- The global variables of grbl/system.h and main.c, and the handlers at the end of grbl/system.c
-- that set and clear the realtime flags. `system_t` without spindle_speed, which is a float.
-- The output pins are kept bit by bit: the PWM enable bit of the spindle timer, the flood coolant
-- bit, the stepper disable bit and the enable bit of the stepper interrupt.
mod Masks
pub mod Travel
pub mod Reset
pub mod Corexy
pub mod Interrupts
pub mod Commands
pub use Masks.*
use tele_handwriter.Base.{ℕ, Bool, List, ◌∷◌, bit_and, bit_or}
use tele_handwriter.Base.Bits.{bit_not8}
use tele_handwriter.Serial.{Serial}

pub record Sys : Type 0 where
  pub state : ℕ
  pub abort : Bool
  pub suspend : ℕ
  pub soft_limit : Bool
  pub step_control : ℕ
  pub probe_succeeded : Bool
  pub homing_axis_lock : ℕ
  pub f_override : ℕ
  pub r_override : ℕ
  pub spindle_speed_ovr : ℕ
  pub spindle_stop_ovr : ℕ
  pub report_ovr_counter : ℕ
  pub report_wco_counter : ℕ

-- sys_rt_exec_state, _alarm, _motion_override and _accessory_override.
pub record Exec : Type 0 where
  pub state : ℕ
  pub alarm : ℕ
  pub motion_override : ℕ
  pub accessory_override : ℕ

pub record Pins : Type 0 where
  pub spindle_pwm : Bool
  -- SPINDLE_OCR_REGISTER, and the direction bit: set for counter-clockwise.
  pub spindle_level : ℕ
  pub spindle_direction : Bool
  pub coolant_flood : Bool
  pub steppers_disable : Bool
  pub step_interrupt : Bool
  pub busy : Bool

-- A call of another component: its effect on that component is modelled there, or left out.
pub data Call : Type 0 where
  report_alarm_message report_feedback_message report_status_message : ℕ → Call
  report_realtime_status : Call
  st_update_plan_block_parameters st_prep_buffer st_wake_up st_reset : Call
  plan_cycle_reinitialize plan_reset plan_sync_position plan_update_velocity_profile_parameters :
      Call
  gc_sync_position : Call
  report_grbl_help report_grbl_settings report_gcode_modes report_ngc_parameters : Call
  report_build_info report_init_message : Call
  report_startup_line report_execute_startup_message : ℕ → Call

pub record Machine : Type 0 where
  pub sys : Sys
  pub exec : Exec
  pub serial : Serial
  pub pins : Pins
  pub settings_flags : ℕ
  pub stepper_idle_lock_time : ℕ
  -- gc_state.modal.coolant and gc_state.modal.spindle
  pub modal_coolant : ℕ
  pub modal_spindle : ℕ
  -- The calls made so far, the latest first.
  pub calls : List Call

abbrev pub call : Call → Machine → Machine
call c m = record m { calls = c ∷ m.calls }

abbrev pub with_sys : (Sys → Sys) → Machine → Machine
with_sys f m = record m { sys = f m.sys }

-- Each handler runs with interrupts disabled, so it is one step.
abbrev pub system_set_exec_state_flag : ℕ → Exec → Exec
system_set_exec_state_flag mask e = record e { state = bit_or e.state mask }

abbrev pub system_clear_exec_state_flag : ℕ → Exec → Exec
system_clear_exec_state_flag mask e = record e { state = bit_and e.state (bit_not8 mask) }

abbrev pub system_set_exec_alarm : ℕ → Exec → Exec
system_set_exec_alarm code e = record e { alarm = code }

abbrev pub system_clear_exec_alarm : Exec → Exec
system_clear_exec_alarm e = record e { alarm = 0 }

abbrev pub system_set_exec_motion_override_flag : ℕ → Exec → Exec
system_set_exec_motion_override_flag mask e = record e {
  motion_override = bit_or e.motion_override mask;
}

abbrev pub system_set_exec_accessory_override_flag : ℕ → Exec → Exec
system_set_exec_accessory_override_flag mask e = record e {
  accessory_override = bit_or e.accessory_override mask;
}

abbrev pub system_clear_exec_motion_overrides : Exec → Exec
system_clear_exec_motion_overrides e = record e { motion_override = 0 }

abbrev pub system_clear_exec_accessory_overrides : Exec → Exec
system_clear_exec_accessory_overrides e = record e { accessory_override = 0 }
