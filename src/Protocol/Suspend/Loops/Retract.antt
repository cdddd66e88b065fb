-- ===== src/Protocol/Suspend/Loops/Retract.antt =====
-- The retract of the safety door and of sleep in `protocol_exec_rt_suspend` of grbl/protocol.c.
use tele_handwriter.Base.{ℕ, ◌≡◌, refl, true, false, arith, List, some, bit_and}
use tele_handwriter.Base.Bits.{bit_istrue, bit_isfalse, bit_not8}
use tele_handwriter.Base.Bits.Laws.{test-bit_or_hit, test-bit_or_miss, test-bit_and_drop}
use tele_handwriter.System.{Machine, suspend_restart_retract, suspend_retract_complete}
use tele_handwriter.System.Reset.{coolant_stop}
use tele_handwriter.Spindle.{
  Speeds, spindle_set_state, spindle_set_speed, spindle_compute_pwm_value, spindle_pwm_min_value,
  requested_speed,
}
use tele_handwriter.Protocol.Overrides.{coolant_set_state}
use tele_handwriter.Protocol.Suspend.{Turn, de_energize, retract, spindle_stop_ovr_disabled}
use tele_handwriter.Protocol.Suspend.Loops.{is_parking, suspend_pass}

-- The state after a retract from `m`: the coolant is off, the PWM has the value of a stopped spindle,
-- no spindle stop override is left, and the retract is noted as complete and not to be repeated.
pub record IsRetracted {ℓ} {W : Type ℓ} (speeds : Speeds W) (m n : Machine) : Type 0 where
  pub coolant_off : n.pins.coolant_flood ≡ false
  pub spindle_stopped :
      n.pins.spindle_level
      ≡ (spindle_compute_pwm_value speeds m.sys.spindle_speed_ovr
          (speeds.of_nat spindle_pwm_min_value)).0
  pub no_stop_ovr : n.sys.spindle_stop_ovr ≡ spindle_stop_ovr_disabled
  pub complete : bit_istrue n.sys.suspend suspend_retract_complete ≡ true
  pub not_again : bit_istrue n.sys.suspend suspend_restart_retract ≡ false
  pub same_state : n.sys.state ≡ m.sys.state
  pub same_flags : n.exec ≡ m.exec

module _ {ℓ} {W : Type ℓ} (speeds : Speeds W) (condition : ℕ) (speed : W) where
  retract-IsRetracted :
      (m : Machine) → m.sys.abort ≡ false → IsRetracted speeds m (retract speeds condition speed m)
  unfolding retract de_energize coolant_set_state coolant_stop spindle_set_state spindle_set_speed
      requested_speed
  retract-IsRetracted m a =
      let cleared = bit_and m.sys.suspend (bit_not8 suspend_restart_retract) in
      record {
        coolant_off = ground (arith, a);
        spindle_stopped = ground (arith, a);
        no_stop_ovr = ground (arith, a);
        complete = ground (
          arith,
          a,
          test-bit_or_hit cleared suspend_retract_complete suspend_retract_complete (omega arith),
        );
        not_again = ground (
          arith,
          a,
          test-bit_or_miss cleared suspend_retract_complete suspend_restart_retract refl,
          test-bit_and_drop m.sys.suspend (bit_not8 suspend_restart_retract) suspend_restart_retract
              refl,
        );
        same_state = ground (arith, a);
        same_flags = ground (arith, a);
      }

  -- Once the motion is halted in the door or the sleep state and the retract is not yet complete, the
  -- next pass of the loop completes it without waiting: the coolant is turned off, the spindle output
  -- is set to its stop value, and the retract is noted.
  pub suspend_pass-IsRetracted :
      (turns : List Turn) (m : Machine)
      → m.sys.abort ≡ false
      → is_parking m ≡ true
      → bit_isfalse m.sys.suspend suspend_retract_complete ≡ true
      → (n : Machine) × (suspend_pass speeds condition speed turns m ≡ some (turns, n))
        × IsRetracted speeds m n
  unfolding suspend_pass
  suspend_pass-IsRetracted turns m a p r =
      (retract speeds condition speed m, simp (p, r), retract-IsRetracted m a)
