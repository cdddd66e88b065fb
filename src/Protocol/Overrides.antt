-- ===== src/Protocol/Overrides.antt =====
-- The last part of `protocol_exec_rt_system` in grbl/protocol.c: the feed, rapid, spindle and
-- coolant overrides. ENABLE_M7 is not defined. `coolant_set_state` is that of coolant_control.c.
pub mod Bounds
pub mod Single
pub mod Coolant
pub mod Frame
use tele_handwriter.Base.{
  ℕ, ◌+◌, ◌%◌, Bool, true, false, not, ◌&&◌, ◌||◌, ◌==◌, if◌then◌else◌, min, max, u8, sub8, bit_and,
  bit_or,
}
use tele_handwriter.Base.Bits.{bit_istrue, bit_isfalse, bit_not8}
use tele_handwriter.System.{
  Machine, Sys, Call, plan_update_velocity_profile_parameters, plan_cycle_reinitialize, call,
  exec_feed_ovr_reset, exec_feed_ovr_coarse_plus, exec_feed_ovr_coarse_minus,
  exec_feed_ovr_fine_plus, exec_feed_ovr_fine_minus, exec_rapid_ovr_reset, exec_rapid_ovr_medium,
  exec_rapid_ovr_low, exec_spindle_ovr_reset, exec_spindle_ovr_coarse_plus,
  exec_spindle_ovr_coarse_minus, exec_spindle_ovr_fine_plus, exec_spindle_ovr_fine_minus,
  exec_spindle_ovr_stop, exec_coolant_flood_ovr_toggle, exec_coolant_mist_ovr_toggle, state_idle,
  state_cycle, state_hold, step_control_update_spindle_pwm, spindle_stop_ovr_enabled,
  spindle_stop_ovr_initiate, spindle_stop_ovr_restore, system_clear_exec_motion_overrides,
  system_clear_exec_accessory_overrides,
}
use tele_handwriter.System.Reset.{coolant_stop}

abbrev pub default_override : ℕ
default_override = 100

-- MAX_FEED_RATE_OVERRIDE and MAX_SPINDLE_SPEED_OVERRIDE; MIN_… likewise.
abbrev pub max_override : ℕ
max_override = 200

abbrev pub min_override : ℕ
min_override = 10

abbrev pub coarse_increment : ℕ
coarse_increment = 10

abbrev pub fine_increment : ℕ
fine_increment = 1

abbrev pub rapid_override_medium : ℕ
rapid_override_medium = 50

abbrev pub rapid_override_low : ℕ
rapid_override_low = 25

-- COOLANT_FLOOD_ENABLE, a condition bit of the planner.
abbrev pub coolant_flood_enable : ℕ
coolant_flood_enable = 0x40

-- `if (rt_exec & mask) { x = f(x); }`
abbrev pub on_bit : ℕ → ℕ → (ℕ → ℕ) → ℕ → ℕ
on_bit rt_exec mask f x = if bit_istrue rt_exec mask then f x else x

-- A percentage in a uint8_t moved by the five commands, in the code's order, then limited. The
-- feed and the spindle override use the same bits 0 to 4 of their flag variables.
unfoldable pub new_override : ℕ → ℕ → ℕ
new_override rt_exec value =
    let a = on_bit rt_exec exec_feed_ovr_reset (λ x. default_override) value in
    let b = on_bit rt_exec exec_feed_ovr_coarse_plus (λ x. u8 (x + coarse_increment)) a in
    let c = on_bit rt_exec exec_feed_ovr_coarse_minus (λ x. sub8 x coarse_increment) b in
    let d = on_bit rt_exec exec_feed_ovr_fine_plus (λ x. u8 (x + fine_increment)) c in
    let e = on_bit rt_exec exec_feed_ovr_fine_minus (λ x. sub8 x fine_increment) d in
    max (min e max_override) min_override

unfoldable pub new_rapid_override : ℕ → ℕ → ℕ
new_rapid_override rt_exec value =
    let a = on_bit rt_exec exec_rapid_ovr_reset (λ x. default_override) value in
    let b = on_bit rt_exec exec_rapid_ovr_medium (λ x. rapid_override_medium) a in
    on_bit rt_exec exec_rapid_ovr_low (λ x. rapid_override_low) b

-- Lines 405 to 431.
unfoldable pub exec_motion_overrides : Machine → Machine
unfolding new_override new_rapid_override
exec_motion_overrides m =
    let rt_exec = m.exec.motion_override in
    let cleared = record m { exec = system_clear_exec_motion_overrides m.exec } in
    let new_f_override = new_override rt_exec m.sys.f_override in
    let new_r_override = new_rapid_override rt_exec m.sys.r_override in
    let same = new_f_override == m.sys.f_override && new_r_override == m.sys.r_override in
    if rt_exec == 0
    then m
    else if same
    then cleared
    else call plan_cycle_reinitialize (
        call plan_update_velocity_profile_parameters (record cleared {
          sys = record m.sys {
            f_override = new_f_override;
            r_override = new_r_override;
            report_ovr_counter = 0;
          };
        }))

-- `coolant_set_state(mode)`
unfoldable pub coolant_set_state : ℕ → Machine → Machine
unfolding coolant_stop
coolant_set_state mode m =
    let switched =
      if mode == 0
      then coolant_stop m
      else if bit_istrue mode coolant_flood_enable
      then record m { pins = record m.pins { coolant_flood = true } }
      else m in
    if m.sys.abort
    then m
    else record switched { sys = record switched.sys { report_ovr_counter = 0 } }

set_spindle_ovr : ℕ → Machine → Machine
unfolding new_override
set_spindle_ovr rt_exec m =
    let last_s_override = new_override rt_exec m.sys.spindle_speed_ovr in
    if last_s_override == m.sys.spindle_speed_ovr then m else record m {
      sys = record m.sys {
        step_control = bit_or m.sys.step_control step_control_update_spindle_pwm;
        spindle_speed_ovr = last_s_override;
        report_ovr_counter = 0;
      };
    }

toggle_spindle_stop : ℕ → Machine → Machine
toggle_spindle_stop rt_exec m =
    let stop = m.sys.spindle_stop_ovr in
    let next =
      if stop == 0
      then spindle_stop_ovr_initiate
      else if bit_istrue stop spindle_stop_ovr_enabled
      then bit_or stop spindle_stop_ovr_restore
      else stop in
    if bit_istrue rt_exec exec_spindle_ovr_stop && m.sys.state == state_hold
    then record m { sys = record m.sys { spindle_stop_ovr = next } }
    else m

abbrev pub toggled_flood : ℕ → ℕ
toggled_flood coolant =
    if bit_istrue coolant coolant_flood_enable
    then bit_and coolant (bit_not8 coolant_flood_enable)
    else bit_or coolant coolant_flood_enable

-- The toggle is pending, and the machine is idle, in a cycle or held.
abbrev pub toggles : ℕ → ℕ → Bool
toggles rt_exec state =
    bit_istrue rt_exec (bit_or exec_coolant_flood_ovr_toggle exec_coolant_mist_ovr_toggle)
    && (state == state_idle || bit_istrue state (bit_or state_cycle state_hold))

toggle_coolant : ℕ → Machine → Machine
unfolding coolant_set_state
toggle_coolant rt_exec m =
    let set = coolant_set_state (toggled_flood m.modal_coolant) m in
    if toggles rt_exec m.sys.state
    then record set { modal_coolant = toggled_flood m.modal_coolant }
    else m

-- Lines 433 to 484.
unfoldable pub exec_accessory_overrides : Machine → Machine
unfolding set_spindle_ovr toggle_spindle_stop toggle_coolant
exec_accessory_overrides m =
    let rt_exec = m.exec.accessory_override in
    let cleared = record m { exec = system_clear_exec_accessory_overrides m.exec } in
    if rt_exec == 0
    then m
    else toggle_coolant rt_exec (toggle_spindle_stop rt_exec (set_spindle_ovr rt_exec cleared))
