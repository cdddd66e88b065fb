-- ===== src/System/Commands/Homing.antt =====
-- The `$H` command of grbl/system.c with characters after it.
use tele_handwriter.Base.{ℕ, ◌≡◌, ◌≢◌, ◌⊎◌, ap, ◌∙◌, true, List, arith}
use tele_handwriter.Base.Bits.{bit_istrue}
use tele_handwriter.System.{
  Machine, with_sys, state_idle, state_alarm, state_homing, bitflag_homing_enable,
}
use tele_handwriter.Number.{Floats}
use tele_handwriter.System.Commands.{
  Services, char_at, system_execute_line, execute_idle, execute_homing, status_invalid_statement,
}
use tele_handwriter.System.Commands.Busy.{busy_unchanged}

module _ {ℓ} {W : Type ℓ} (floats : Floats W) (services : Services W) where
  homing_typo :
      (line : List ℕ) (m : Machine)
      → (m.sys.state ≡ state_idle) ⊎ (m.sys.state ≡ state_alarm)
      → bit_istrue m.settings_flags bitflag_homing_enable ≡ true
      → char_at line 1 ≡ 72
      → char_at line 2 ≢ 0
      → system_execute_line floats services line m
        ≡ (status_invalid_statement, with_sys (λ s. record s { state = state_homing }) m)
  unfolding system_execute_line execute_idle execute_homing
  homing_typo line m s h c d = ground (arith, s, h, c, d)

  -- With homing enabled, a `$H` with a character after it is refused, and yet leaves the machine in
  -- the homing state; no later `$` command, a correct `$H` and `$X` included, takes it out of it.
  pub homing_typo_sticks :
      (line later : List ℕ) (m : Machine)
      → (m.sys.state ≡ state_idle) ⊎ (m.sys.state ≡ state_alarm)
      → bit_istrue m.settings_flags bitflag_homing_enable ≡ true
      → char_at line 1 ≡ 72
      → char_at line 2 ≢ 0
      → let refused = system_execute_line floats services line m in
        (refused.0 ≡ status_invalid_statement)
        × (refused.1.sys.state ≡ state_homing)
        × ((system_execute_line floats services later refused.1).1.sys.state ≡ state_homing)
  homing_typo_sticks line later m s h c d =
      let e = homing_typo line m s h c d in
      let stuck = (system_execute_line floats services line m).1 in
      let homing : stuck.sys.state ≡ state_homing = ap (λ (r : ℕ × Machine). r.1.sys.state) e in
      let same = busy_unchanged floats services later stuck (ground (arith, homing)) in
      (ap (λ (r : ℕ × Machine). r.0) e, homing, ap (λ (n : Machine). n.sys.state) same ∙ homing)
