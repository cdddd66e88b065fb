-- ===== src/System/Interrupts/Pins.antt =====
-- The control pin and the limit pin interrupts.
use tele_handwriter.Base.{ℕ, zero, suc, ◌+◌, ◌≤◌, ◌≡◌, ◌≢◌, ◌⊎◌, refl, true, false, arith, bit_and}
use tele_handwriter.Base.Bits.{bit_istrue, bit_isfalse}
use tele_handwriter.Base.Bits.Laws.{bit_and-le}
use tele_handwriter.System.{Machine, exec_reset, state_alarm, exec_alarm_hard_limit}
use tele_handwriter.System.Reset.{in_motion}
use tele_handwriter.System.Reset.Laws.{mc_reset-IsReset}
use tele_handwriter.System.Interrupts.{
  system_control_get_state, add_pressed, control_mask, control_int, limit_int,
}

pressed : ℕ → ℕ
pressed pin = add_pressed pin 0x04 0x04 (add_pressed pin 0x02 0x02 (add_pressed pin 0x01 0x01 0))

pressed_lem : (pin : ℕ) → pin ≤ 7 → pressed pin + pin ≡ 7
unfolding pressed
pressed_lem zero h = refl
pressed_lem (suc zero) h = refl
pressed_lem (suc (suc zero)) h = refl
pressed_lem (suc (suc (suc zero))) h = refl
pressed_lem (suc (suc (suc (suc zero)))) h = refl
pressed_lem (suc (suc (suc (suc (suc zero))))) h = refl
pressed_lem (suc (suc (suc (suc (suc (suc zero)))))) h = refl
pressed_lem (suc (suc (suc (suc (suc (suc (suc zero))))))) h = refl
pressed_lem (suc (suc (suc (suc (suc (suc (suc (suc n)))))))) h = absurd (omega arith)

-- The control state is the complement of the three control pins, one bit for each pressed button,
-- except where all three pins are low: then it is 0, as if no button were pressed.
pub system_control_get_state_lem :
    (control_pin : ℕ)
    → let pins = bit_and control_pin control_mask in
      (pins ≢ 0 → system_control_get_state control_pin + pins ≡ 7)
      × (pins ≡ 0 → system_control_get_state control_pin ≡ 0)
unfolding system_control_get_state pressed
system_control_get_state_lem control_pin = (
  λ some_high.
      ground (
        arith,
        pressed_lem (bit_and control_pin control_mask) (bit_and-le control_pin control_mask),
      ),
  λ all_low. ground arith,
)

-- With all three control pins low the control interrupt does nothing, though the reset button is
-- among those pressed.
pub control_int_all_pressed :
    (control_pin : ℕ) (m : Machine)
    → bit_and control_pin control_mask ≡ 0
    → control_int control_pin m ≡ m
unfolding control_int
control_int_all_pressed control_pin m h =
    ground (arith, (system_control_get_state_lem control_pin).1 h)

-- A limit switch that changes while no alarm stands or is pending and no reset is pending stops the
-- machine: a reset and the hard limit alarm are raised, spindle and coolant are off, and a machine
-- in motion has its stepper interrupt off. In an alarm, or with one pending, nothing changes.
pub limit_int_stops :
    (m : Machine)
    → ((m.sys.state ≢ state_alarm)
          × (m.exec.alarm ≡ 0)
          × (bit_isfalse m.exec.state exec_reset ≡ true)
        → let m' = limit_int m in
          (m'.exec.alarm ≡ exec_alarm_hard_limit)
          × (bit_istrue m'.exec.state exec_reset ≡ true)
          × (m'.pins.spindle_pwm ≡ false)
          × (m'.pins.coolant_flood ≡ false)
          × (in_motion m ≡ true → m'.pins.step_interrupt ≡ false))
      × ((m.sys.state ≡ state_alarm) ⊎ (m.exec.alarm ≢ 0) → limit_int m ≡ m)
unfolding limit_int
limit_int_stops m = (
  λ h. (
    ground arith,
    ground (arith, (mc_reset-IsReset m h.2).flagged),
    ground (arith, (mc_reset-IsReset m h.2).spindle_off),
    ground (arith, (mc_reset-IsReset m h.2).coolant_off),
    λ moving. ground (arith, (mc_reset-IsReset m h.2).stopped moving),
  ),
  λ h. ground arith,
)
