-- ===== src/System/Commands/Locked.antt =====
-- The `$` commands of grbl/system.c in an alarm.
use tele_handwriter.Base.{ℕ, ◌≡◌, ◌≢◌, ◌⊎◌, inl, inr, List, arith}
use tele_handwriter.System.{Machine, state_alarm}
use tele_handwriter.Number.{Floats}
use tele_handwriter.System.Commands.{
  Services, char_at, system_execute_line, execute_jog, execute_mode, execute_idle,
  execute_build_info, execute_restore, execute_store, store_setting, execute_startup_lines,
  print_startup_line, toggle_check_mode, status_ok,
}

module _ {ℓ} {W : Type ℓ} (floats : Floats W) (services : Services W) where
  -- In an alarm no `$` command but `$H` runs g-code: its status and the machine that it leaves are
  -- the same whatever the g-code parser does. A jog and the switch of the check mode are refused, and
  -- change nothing.
  pub alarm_locks :
      (line : List ℕ) (m : Machine)
      → m.sys.state ≡ state_alarm
      → char_at line 1 ≢ 72
      → ((parser : List ℕ → Machine → ℕ × Machine)
          → system_execute_line floats services line m
            ≡ system_execute_line floats (record services { gc_execute_line = parser }) line m)
        × ((char_at line 1 ≡ 74) ⊎ (char_at line 1 ≡ 67)
            → ((system_execute_line floats services line m).0 ≢ status_ok)
              × ((system_execute_line floats services line m).1 ≡ m))
  unfolding system_execute_line execute_jog execute_mode toggle_check_mode execute_idle
      execute_build_info execute_restore execute_startup_lines print_startup_line execute_store
      store_setting
  alarm_locks line m e c = (
    λ parser. ground (arith, e, c),
    elim [ inl jog ↦ ground (arith, e, jog) | inr check ↦ ground (arith, e, check) ],
  )
