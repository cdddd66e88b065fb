-- ===== src/System/Reset/Laws.antt =====
-- What `mc_reset` guarantees.
use tele_handwriter.Base.{ℕ, ◌≡◌, ◌≢◌, true, false, arith, bit_and}
use tele_handwriter.Base.Bits.{bit_istrue, bit_isfalse}
use tele_handwriter.Base.Bits.Laws.{test-bit_or_hit, test-bit_or_miss}
use tele_handwriter.System.{Machine, exec_reset}
use tele_handwriter.System.Reset.{mc_reset, in_motion}

-- The state after a reset from `m`: EXEC_RESET is set and every other realtime flag is kept, the
-- spindle and the coolant are off, and if the machine moved or was being halted, an alarm stands
-- and the steppers' interrupt is off; otherwise the alarm and the stepper pins are as before.
pub record IsReset (m m' : Machine) : Type 0 where
  pub flagged : bit_istrue m'.exec.state exec_reset ≡ true
  pub kept :
      (mask : ℕ)
      → bit_and exec_reset mask ≡ 0
      → bit_and m'.exec.state mask ≡ bit_and m.exec.state mask
  pub spindle_off : m'.pins.spindle_pwm ≡ false
  pub coolant_off : m'.pins.coolant_flood ≡ false
  pub alarmed : in_motion m ≡ true → m'.exec.alarm ≢ 0
  pub stopped : in_motion m ≡ true → m'.pins.step_interrupt ≡ false
  pub no_alarm : in_motion m ≡ false → m'.exec.alarm ≡ m.exec.alarm
  pub not_stopped : in_motion m ≡ false → m'.pins.step_interrupt ≡ m.pins.step_interrupt
  pub same_sys : m'.sys ≡ m.sys
  pub same_serial : m'.serial ≡ m.serial

-- A reset that is not yet pending brings the machine to a safe state: EXEC_RESET is set with the
-- other flags kept, spindle and coolant are off, and a machine in motion is stopped with an alarm.
pub mc_reset-IsReset :
    (m : Machine) → bit_isfalse m.exec.state exec_reset ≡ true → IsReset m (mc_reset m)
unfolding mc_reset
mc_reset-IsReset m h = record {
  flagged = ground (arith, test-bit_or_hit m.exec.state exec_reset exec_reset (omega arith));
  kept = λ mask p. ground (arith, test-bit_or_miss m.exec.state exec_reset mask p);
  spindle_off = ground arith;
  coolant_off = ground arith;
  alarmed = λ moving. ground arith;
  stopped = λ moving. ground arith;
  no_alarm = λ still. ground arith;
  not_stopped = λ still. ground arith;
  same_sys = ground arith;
  same_serial = ground arith;
}

mc_reset-flagged : (m : Machine) → bit_istrue (mc_reset m).exec.state exec_reset ≡ true
unfolding mc_reset
mc_reset-flagged m =
    ground (arith, test-bit_or_hit m.exec.state exec_reset exec_reset (omega arith))

mc_reset-pending : (m : Machine) → bit_istrue m.exec.state exec_reset ≡ true → mc_reset m ≡ m
unfolding mc_reset
mc_reset-pending m h = ground arith

-- A second reset before the first one is served does nothing.
pub mc_reset-mc_reset : (m : Machine) → mc_reset (mc_reset m) ≡ mc_reset m
mc_reset-mc_reset m = mc_reset-pending (mc_reset m) (mc_reset-flagged m)
