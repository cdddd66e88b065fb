-- ===== src/Spindle.antt =====
-- grbl/spindle_control.c, built with SPINDLE_IS_SERVO and VARIABLE_SPINDLE and without
-- USE_SPINDLE_DIR_AS_ENABLE_PIN: the PWM output of the servo, its direction bit and the speed
-- conversion. sys.spindle_speed is the second part of a conversion's result.
pub mod Level
use tele_handwriter.Base.{ℕ, ◌+◌, Bool, true, false, not, ◌&&◌, ◌||◌, ◌==◌, if◌then◌else◌, u8}
use tele_handwriter.Base.Bits.{bit_istrue}
use tele_handwriter.System.{Machine, bitflag_laser_mode}
use tele_handwriter.System.Reset.{spindle_stop}

abbrev pub spindle_pwm_max_value : ℕ
spindle_pwm_max_value = 38

abbrev pub spindle_pwm_min_value : ℕ
spindle_pwm_min_value = 7

abbrev pub spindle_pwm_off_value : ℕ
spindle_pwm_off_value = 0

abbrev pub spindle_disable : ℕ
spindle_disable = 0

-- SPINDLE_ENABLE_CW and _CCW, condition bits of the planner.
abbrev pub spindle_enable_cw : ℕ
spindle_enable_cw = 0x10

abbrev pub spindle_enable_ccw : ℕ
spindle_enable_ccw = 0x20

abbrev pub spindle_state_disable : ℕ
spindle_state_disable = 0

abbrev pub spindle_state_cw : ℕ
spindle_state_cw = 0x01

abbrev pub spindle_state_ccw : ℕ
spindle_state_ccw = 0x02

-- What the code does with a speed, a `float`: the constants, the factor 0.010*sys.spindle_speed_ovr,
-- the comparisons, and floor((rpm - settings.rpm_min)*pwm_gradient).
pub record Speeds {ℓ} (W : Type ℓ) : Type ℓ where
  pub rpm_min : W
  pub rpm_max : W
  pub of_nat : ℕ → W
  pub scale : ℕ → W → W
  pub le : W → W → Bool
  pub eq : W → W → Bool
  pub above_min : W → ℕ

-- `spindle_get_state()`
unfoldable pub spindle_get_state : Machine → ℕ
spindle_get_state m =
    if m.pins.spindle_pwm
    then (if m.pins.spindle_direction then spindle_state_ccw else spindle_state_cw)
    else spindle_state_disable

-- `spindle_set_speed(pwm_value)`
unfoldable pub spindle_set_speed : ℕ → Machine → Machine
spindle_set_speed pwm_value m = record m {
  pins = record m.pins {
    spindle_level = pwm_value;
    spindle_pwm = not (pwm_value == spindle_pwm_off_value);
  };
}

-- `spindle_init()`, without the set-up of the timer and of pwm_gradient.
unfoldable pub spindle_init : Machine → Machine
unfolding spindle_stop
spindle_init m = spindle_stop m

module _ {ℓ} {W : Type ℓ} (speeds : Speeds W) where
  -- `spindle_compute_pwm_value(rpm)`: the PWM value, and sys.spindle_speed.
  unfoldable pub spindle_compute_pwm_value : ℕ → W → ℕ × W
  spindle_compute_pwm_value spindle_speed_ovr programmed =
      let rpm = speeds.scale spindle_speed_ovr programmed in
      if speeds.le speeds.rpm_max speeds.rpm_min || speeds.le speeds.rpm_max rpm
      then (spindle_pwm_max_value, speeds.rpm_max)
      else if speeds.le rpm speeds.rpm_min
      then (if speeds.eq rpm (speeds.of_nat 0)
          then (spindle_pwm_off_value, speeds.of_nat 0)
          else (spindle_pwm_min_value, speeds.rpm_min))
      else (u8 (speeds.above_min rpm + spindle_pwm_min_value), rpm)

  -- The speed that `spindle_set_state` converts: the least PWM value taken as a speed for a stop, and
  -- 0.0 for a laser in the dynamic mode.
  unfoldable pub requested_speed : ℕ → Bool → W → W
  requested_speed state laser rpm =
      if state == spindle_disable
      then speeds.of_nat spindle_pwm_min_value
      else if laser && state == spindle_enable_ccw
      then speeds.of_nat 0
      else rpm

  -- `spindle_set_state(state, rpm)`
  unfoldable pub spindle_set_state : ℕ → W → Machine → Machine
  unfolding requested_speed spindle_set_speed
  spindle_set_state state rpm m =
      let laser = bit_istrue m.settings_flags bitflag_laser_mode in
      let speed = requested_speed state laser rpm in
      let level = (spindle_compute_pwm_value m.sys.spindle_speed_ovr speed).0 in
      let direction =
        if state == spindle_disable
        then m.pins.spindle_direction
        else not (state == spindle_enable_cw) in
      let directed = record m { pins = record m.pins { spindle_direction = direction } } in
      let run = spindle_set_speed level directed in
      if m.sys.abort then m else record run { sys = record run.sys { report_ovr_counter = 0 } }
