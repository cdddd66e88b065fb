-- ===== src/Tests/Commands.antt =====
-- Examples for the commands of grbl/system.c, the settings and the restart.
use tele_handwriter.Base.{ℕ, ◌+◌, ◌≡◌, ◌≢◌, ◌⊎◌, refl, inl, true, false, some, List, [], ◌∷◌, arith}
use tele_handwriter.System.{Machine, state_homing}
use tele_handwriter.System.Reset.{mc_reset}
use tele_handwriter.System.Commands.{
  char_at, system_execute_line, status_invalid_statement, status_ok,
}
use tele_handwriter.System.Commands.Homing.{homing_typo_sticks}
use tele_handwriter.System.Commands.Locked.{alarm_locks}
use tele_handwriter.Settings.Global.{
  Values, Global, settings_store_global_setting, axis_settings_start_val,
}
use tele_handwriter.Settings.Global.Axes.{axis_outcome, settings_store_axis}
use tele_handwriter.Settings.Global.Limits.{IsSafe, settings_store_global_setting-IsSafe}
use tele_handwriter.Settings.Global.Outcome.{IsAtomic, settings_store_global_setting-IsAtomic}
use tele_handwriter.Protocol.Realtime.{protocol_exec_rt_system}
use tele_handwriter.Main.{restart}
use tele_handwriter.Main.Restart.{IsLocked, reset_in_motion_locks}
use tele_handwriter.Tests.{machine, hundredths, idle_services}

-- `$X`, `$HX` and `$J=X1`.
abbrev unlock_line : List ℕ
unlock_line = 36 ∷ 88 ∷ 0 ∷ []

abbrev homing_line : List ℕ
homing_line = 36 ∷ 72 ∷ 88 ∷ 0 ∷ []

abbrev alarm_jog : List ℕ
alarm_jog = 36 ∷ 74 ∷ 61 ∷ 88 ∷ 49 ∷ 0 ∷ []

-- Homing is enabled.
abbrev homing_machine : Machine
homing_machine = record (machine 0 0) { settings_flags = 16 }

homing_typo_sticks_example :
    let refused = system_execute_line hundredths idle_services homing_line homing_machine in
    (refused.0 ≡ status_invalid_statement)
    × (refused.1.sys.state ≡ state_homing)
    × ((system_execute_line hundredths idle_services unlock_line refused.1).1.sys.state
        ≡ state_homing)
homing_typo_sticks_example =
    homing_typo_sticks hundredths idle_services homing_line unlock_line homing_machine (inl refl)
      refl refl (λ e. absurd (omega (arith, e)))

alarm_locks_example :
    ((parser : List ℕ → Machine → ℕ × Machine)
      → system_execute_line hundredths idle_services alarm_jog (machine 1 0)
        ≡ system_execute_line hundredths
            (record idle_services { gc_execute_line = parser })
            alarm_jog
            (machine 1 0))
    × ((char_at alarm_jog 1 ≡ 74) ⊎ (char_at alarm_jog 1 ≡ 67)
        → ((system_execute_line hundredths idle_services alarm_jog (machine 1 0)).0 ≢ status_ok)
          × ((system_execute_line hundredths idle_services alarm_jog (machine 1 0)).1
              ≡ machine 1 0))
alarm_locks_example =
    alarm_locks hundredths idle_services alarm_jog (machine 1 0) refl
      (λ e. absurd (omega (arith, e)))

reset_in_motion_locks_example :
    (n : Machine) × (protocol_exec_rt_system true [] (mc_reset (machine 8 0)) ≡ some n)
    × (n.sys.abort ≡ true)
    × IsLocked (restart hundredths idle_services true 22 n)
reset_in_motion_locks_example =
    reset_in_motion_locks hundredths idle_services true true [] 22 (machine 8 0) refl refl refl

abbrev whole_values : Values ℕ
whole_values = record {
  is_negative = λ x. false;
  trunc = λ x. x;
  per_min = λ x. x;
  negate = λ x. x;
}

-- Homing is enabled.
abbrev settings : Global ℕ
settings = record {
  steps_per_mm = 250 ∷ 250 ∷ 250 ∷ [];
  max_rate = 500 ∷ 500 ∷ 500 ∷ [];
  acceleration = 10 ∷ 10 ∷ 10 ∷ [];
  max_travel = 200 ∷ 200 ∷ 200 ∷ [];
  pulse_microseconds = 10;
  step_invert_mask = 0;
  dir_invert_mask = 0;
  stepper_idle_lock_time = 25;
  status_report_mask = 1;
  junction_deviation = 1;
  arc_tolerance = 2;
  rpm_max = 1000;
  rpm_min = 0;
  flags = 16;
  homing_dir_mask = 0;
  homing_feed_rate = 25;
  homing_seek_rate = 500;
  homing_debounce_delay = 250;
  homing_pulloff = 1;
}

settings_store_axis_example :
    settings_store_global_setting whole_values (axis_settings_start_val + 12) 300 settings
    ≡ axis_outcome whole_values 12 300 settings
settings_store_axis_example = settings_store_axis whole_values 12 300 settings refl

settings_store_global_setting-IsSafe_example :
    IsSafe (settings_store_global_setting whole_values 22 0 settings).1.flags
settings_store_global_setting-IsSafe_example =
    settings_store_global_setting-IsSafe whole_values 22 0 settings (λ soft. refl)

settings_store_global_setting-IsAtomic_example :
    IsAtomic whole_values settings (settings_store_global_setting whole_values 20 1 settings)
settings_store_global_setting-IsAtomic_example =
    settings_store_global_setting-IsAtomic whole_values 20 1 settings
