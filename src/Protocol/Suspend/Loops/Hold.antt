-- ===== src/Protocol/Suspend/Loops/Hold.antt =====
-- The feed hold manager of `protocol_exec_rt_suspend` in grbl/protocol.c and the resume from a hold.
use tele_handwriter.Base.{ℕ, ◌≡◌, Bool, not, ◌==◌, ◌&&◌, if◌then◌else◌, arith, bit_or}
use tele_handwriter.Base.Bits.{bit_istrue}
use tele_handwriter.Base.Bits.Laws.{zero-bit_and, bit_and_assoc}
use tele_handwriter.System.{
  Machine, exec_cycle_start, spindle_stop_ovr_enabled, spindle_stop_ovr_initiate,
  spindle_stop_ovr_restore, spindle_stop_ovr_restore_cycle,
}
use tele_handwriter.Spindle.{Speeds, spindle_set_state, spindle_set_speed, spindle_disable}
use tele_handwriter.Protocol.Suspend.{
  hold_manager, refresh_pwm, initiate_stop, restore_stopped, set_restored_spindle, set_cycle_start,
  update_pwm, spindle_stop_ovr_disabled,
}

abbrev restores : ℕ
restores = bit_or spindle_stop_ovr_restore spindle_stop_ovr_restore_cycle

-- The states of the spindle stop override: a stop that is asked for is carried out, if the spindle
-- runs at all; a restore ends it; otherwise it stays.
abbrev pub next_stop : Bool → ℕ → ℕ
next_stop spins stop =
    if bit_istrue stop spindle_stop_ovr_initiate
    then (if spins then spindle_stop_ovr_enabled else spindle_stop_ovr_disabled)
    else if bit_istrue stop restores
    then spindle_stop_ovr_disabled
    else stop

-- The manager restores the spindle for a cycle start that is waiting for it.
abbrev pub resumes : ℕ → Bool
resumes stop =
    not (bit_istrue stop spindle_stop_ovr_initiate)
    && bit_istrue stop spindle_stop_ovr_restore_cycle

-- What the manager makes of `m`.
pub record IsManaged (m n : Machine) : Type 0 where
  pub stop :
      n.sys.spindle_stop_ovr
      ≡ next_stop (not (m.modal_spindle == spindle_disable)) m.sys.spindle_stop_ovr
  pub flags : n.exec.state ≡ (
      if resumes m.sys.spindle_stop_ovr then bit_or m.exec.state exec_cycle_start else m.exec.state)
  pub same_state : n.sys.state ≡ m.sys.state
  pub same_suspend : n.sys.suspend ≡ m.sys.suspend
  pub same_coolant : n.pins.coolant_flood ≡ m.pins.coolant_flood

module _ {ℓ} {W : Type ℓ} (speeds : Speeds W) (condition : ℕ) (speed : W) where
  -- In a hold, the spindle stop override moves through its states, and a cycle start is raised exactly
  -- when a restore for it was pending; the state, the suspend flags and the coolant stay.
  pub hold_manager-IsManaged : (m : Machine) → IsManaged m (hold_manager speeds condition speed m)
  unfolding hold_manager refresh_pwm initiate_stop restore_stopped set_restored_spindle
      set_cycle_start update_pwm spindle_set_state spindle_set_speed
  hold_manager-IsManaged m = record {
    stop = ground (arith, zero-bit_and spindle_stop_ovr_initiate, zero-bit_and restores);
    flags = ground (
      arith,
      zero-bit_and spindle_stop_ovr_restore_cycle,
      zero-bit_and spindle_stop_ovr_initiate,
      bit_and_assoc m.sys.spindle_stop_ovr restores spindle_stop_ovr_restore_cycle,
    );
    same_state = ground arith;
    same_suspend = ground arith;
    same_coolant = ground arith;
  }
