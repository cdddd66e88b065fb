-- ===== src/Main/Restart.antt =====
-- The restart of grbl/main.c after a reset.
use tele_handwriter.Base.{
  ℕ, ◌≡◌, ◌⊎◌, inl, refl, ap, ◌∙◌, Bool, true, false, ◌==◌, arith, List, some,
}
use tele_handwriter.Base.Bits.{bit_istrue, bit_isfalse}
use tele_handwriter.Base.Bits.Laws.{test-bit_or_hit}
use tele_handwriter.System.{Machine, Sys, Pins, state_alarm, state_sleep, exec_reset}
use tele_handwriter.System.Reset.{st_go_idle, spindle_stop, coolant_stop, mc_reset, in_motion}
use tele_handwriter.System.Commands.{Services}
use tele_handwriter.Number.{Floats}
use tele_handwriter.Spindle.{spindle_init}
use tele_handwriter.Protocol.Realtime.{is_critical, protocol_exec_rt_system}
use tele_handwriter.Protocol.Realtime.Aborts.{exec_rt_system-aborts, alarm_aborted}
use tele_handwriter.Main.{
  clear_sys, clear_exec, gc_init, initialize, check_limits, lock_or_start, restart,
}

-- The machine is locked in an alarm after a restart: nothing runs or is pending, and the outputs of
-- the spindle, the coolant and the stepper interrupt are off.
pub record IsLocked (m : Machine) : Type 0 where
  pub alarmed : m.sys.state ≡ state_alarm
  pub no_abort : m.sys.abort ≡ false
  pub not_suspended : m.sys.suspend ≡ 0
  pub nothing_pending : m.exec ≡ clear_exec
  pub spindle_off : m.pins.spindle_pwm ≡ false
  pub coolant_off : m.pins.coolant_flood ≡ false
  pub steppers_off : m.pins.step_interrupt ≡ false

initialize-state : (read : Bool) (m : Machine) → (initialize read m).sys ≡ clear_sys m.sys
unfolding initialize gc_init spindle_init spindle_stop coolant_stop st_go_idle
initialize-state read m = ground arith

initialize-outputs :
    (read : Bool) (m : Machine)
    → ((initialize read m).exec ≡ clear_exec)
      × ((initialize read m).pins.spindle_pwm ≡ false)
      × ((initialize read m).pins.coolant_flood ≡ false)
      × ((initialize read m).pins.step_interrupt ≡ false)
unfolding initialize gc_init spindle_init spindle_stop coolant_stop st_go_idle
initialize-outputs read m = ground arith

check_limits-alarm :
    (input : ℕ) (m : Machine)
    → (m.sys.state ≡ state_alarm) ⊎ (m.sys.state ≡ state_sleep)
    → ((check_limits input m).sys.state ≡ state_alarm)
      ⊎ ((check_limits input m).sys.state ≡ state_sleep)
unfolding check_limits
check_limits-alarm input m h = ground (arith, h)

check_limits-same :
    (input : ℕ) (m : Machine)
    → ((check_limits input m).sys.abort ≡ m.sys.abort)
      × ((check_limits input m).sys.suspend ≡ m.sys.suspend)
      × ((check_limits input m).exec ≡ m.exec)
      × ((check_limits input m).pins ≡ m.pins)
unfolding check_limits
check_limits-same input m = ground arith

module _ {ℓ} {W : Type ℓ} (floats : Floats W) (services : Services W) where
  lock_or_start-locks :
      (m : Machine)
      → (m.sys.state ≡ state_alarm) ⊎ (m.sys.state ≡ state_sleep)
      → let n = lock_or_start floats services m in
        (n.sys.state ≡ state_alarm)
        × (n.sys.abort ≡ m.sys.abort)
        × (n.sys.suspend ≡ m.sys.suspend)
        × (n.exec ≡ m.exec)
        × (n.pins ≡ m.pins)
  unfolding lock_or_start
  lock_or_start-locks m h = ground (arith, h)

  restart-IsLocked :
      (read : Bool) (input : ℕ) (m : Machine)
      → (m.sys.state ≡ state_alarm) ⊎ (m.sys.state ≡ state_sleep)
      → IsLocked (restart floats services read input m)
  unfolding restart clear_sys
  restart-IsLocked read input m h =
      let fresh = initialize read m in
      let checked = check_limits input fresh in
      let sys = initialize-state read m in
      let state : fresh.sys.state ≡ m.sys.state = ap (λ (s : Sys). s.state) sys in
      let (exec, spindle, coolant, steppers) = initialize-outputs read m in
      let (a, b, c, d) = check_limits-same input fresh in
      let (e, f, g, i, j) =
        lock_or_start-locks checked (check_limits-alarm input fresh (ground (arith, state, h))) in
      let pins = j ∙ d in
      record {
        alarmed = e;
        no_abort = f ∙ a ∙ ap (λ (s : Sys). s.abort) sys;
        not_suspended = g ∙ b ∙ ap (λ (s : Sys). s.suspend) sys;
        nothing_pending = i ∙ c ∙ exec;
        spindle_off = ap (λ (p : Pins). p.spindle_pwm) pins ∙ spindle;
        coolant_off = ap (λ (p : Pins). p.coolant_flood) pins ∙ coolant;
        steppers_off = ap (λ (p : Pins). p.step_interrupt) pins ∙ steppers;
      }

  mc_reset-alarm :
      (m : Machine)
      → bit_isfalse m.exec.state exec_reset ≡ true
      → in_motion m ≡ true
      → m.exec.alarm ≡ 0
      → (((mc_reset m).exec.alarm == 0) ≡ false)
        × (is_critical (mc_reset m).exec.alarm ≡ false)
        × (bit_istrue (mc_reset m).exec.state exec_reset ≡ true)
  unfolding mc_reset
  mc_reset-alarm m r i a =
      ground (arith, r, i, a, test-bit_or_hit m.exec.state exec_reset exec_reset (omega arith))

  -- A reset of a machine in motion, with no alarm or reset pending before, ends the program at the
  -- next call of protocol_exec_rt_system, and after the restart the machine is locked in an alarm,
  -- whatever the limit pins, the settings and the startup lines are: no startup line has run.
  pub reset_in_motion_locks :
      (has_block read : Bool) (polls : List ℕ) (input : ℕ) (m : Machine)
      → bit_isfalse m.exec.state exec_reset ≡ true
      → in_motion m ≡ true
      → m.exec.alarm ≡ 0
      → (n : Machine) × (protocol_exec_rt_system has_block polls (mc_reset m) ≡ some n)
        × (n.sys.abort ≡ true)
        × IsLocked (restart floats services read input n)
  reset_in_motion_locks has_block read polls input m r i a =
      let reset = mc_reset m in
      let (alarm, critical, flagged) = mc_reset-alarm m r i a in
      (
        alarm_aborted reset,
        exec_rt_system-aborts has_block polls reset alarm critical flagged,
        refl,
        restart-IsLocked read input (alarm_aborted reset) (inl refl),
      )
