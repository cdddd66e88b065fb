-- ===== src/Spindle/Level.antt =====
-- The PWM value of grbl/spindle_control.c and the state that it reports.
use tele_handwriter.Base.{ℕ, ◌+◌, ◌≤◌, ◌≡◌, ◌⊎◌, true, false, if◌then◌else◌, arith}
use tele_handwriter.System.{Machine}
use tele_handwriter.Spindle.{
  Speeds, spindle_compute_pwm_value, spindle_set_state, spindle_get_state, spindle_set_speed,
  requested_speed, spindle_pwm_max_value, spindle_pwm_min_value, spindle_pwm_off_value,
  spindle_disable, spindle_state_cw, spindle_state_ccw,
}

-- Multiplication by pwm_gradient maps the speeds between the limits to the PWM range: less than
-- rpm_max gives at most SPINDLE_PWM_RANGE.
abbrev pub IsGraded {ℓ} : {W : Type ℓ} → Speeds W → Type ℓ
IsGraded {W} speeds =
    (rpm : W)
    → speeds.le speeds.rpm_max rpm ≡ false
    → speeds.le rpm speeds.rpm_min ≡ false
    → speeds.above_min rpm + spindle_pwm_min_value ≤ spindle_pwm_max_value

abbrev pub InPwmRange : ℕ → Type 0
InPwmRange value = (spindle_pwm_min_value ≤ value) × (value ≤ spindle_pwm_max_value)

module _ {ℓ} {W : Type ℓ} (speeds : Speeds W) (graded : IsGraded speeds) where
  -- The PWM value is off, for the speed 0 only, or lies between its limits.
  pub spindle_compute_pwm_value-InPwmRange :
      (spindle_speed_ovr : ℕ) (rpm : W)
      → let value = (spindle_compute_pwm_value speeds spindle_speed_ovr rpm).0 in
        ((value ≡ spindle_pwm_off_value)
          × (speeds.eq (speeds.scale spindle_speed_ovr rpm) (speeds.of_nat 0) ≡ true))
        ⊎ InPwmRange value
  unfolding spindle_compute_pwm_value
  spindle_compute_pwm_value-InPwmRange spindle_speed_ovr rpm =
      ground (arith, graded (speeds.scale spindle_speed_ovr rpm))

  -- With no abort pending, and a least PWM value that is not scaled to the speed 0, stopping the
  -- spindle leaves the servo powered: the PWM is on, at a level between its limits, and the spindle
  -- is reported to run in its last direction.
  pub stopped_spindle_runs :
      (rpm : W) (m : Machine)
      → m.sys.abort ≡ false
      → speeds.eq
          (speeds.scale m.sys.spindle_speed_ovr (speeds.of_nat spindle_pwm_min_value))
          (speeds.of_nat 0)
        ≡ false
      → let n = spindle_set_state speeds spindle_disable rpm m in
        InPwmRange n.pins.spindle_level
        × (spindle_get_state n
            ≡ (if m.pins.spindle_direction then spindle_state_ccw else spindle_state_cw))
  unfolding spindle_set_state spindle_get_state spindle_set_speed requested_speed
  stopped_spindle_runs rpm m a e =
      let ranged =
        spindle_compute_pwm_value-InPwmRange m.sys.spindle_speed_ovr
          (speeds.of_nat spindle_pwm_min_value) in
      ground (arith, a, e, ranged)
