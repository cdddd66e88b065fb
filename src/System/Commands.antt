-- ===== src/System/Commands.antt =====
-- `system_execute_line` and `system_execute_startup` of grbl/system.c: the commands that start with
-- `$`. HOMING_SINGLE_AXIS_COMMANDS and the safety door pin are not defined, the three restore
-- commands and ENABLE_BUILD_INFO_WRITE_COMMAND are. A line is its buffer, and the characters after
-- the buffer count as 0. The g-code parser, the homing cycle and the settings are an interface.
pub mod Modes
pub mod Busy
pub mod Locked
pub mod Homing
use tele_handwriter.Base.{
  ℕ, zero, suc, ◌+◌, ◌-◌, Bool, true, false, not, ◌&&◌, ◌||◌, Option, none, some, List, [], ◌∷◌,
  ◌==◌, if◌then◌else◌, get_or, set, drop, length, bit_or,
}
use tele_handwriter.Base.Bits.{bit_istrue, bit_isfalse}
use tele_handwriter.System.{
  Machine, call, with_sys, report_status_message, report_feedback_message, report_grbl_help,
  report_grbl_settings, report_gcode_modes, report_ngc_parameters, report_build_info,
  report_startup_line, report_execute_startup_message, system_set_exec_state_flag, exec_sleep,
  state_idle, state_alarm, state_check_mode, state_homing, state_cycle, state_hold, state_jog,
  bitflag_homing_enable,
}
use tele_handwriter.System.Reset.{mc_reset, st_go_idle}
pub use tele_handwriter.Settings.Global.{status_ok, status_invalid_statement}
use tele_handwriter.Number.{Floats, read_float}
unfoldable pub use tele_handwriter.System.Commands.Modes.{
  status_bad_number_format, status_setting_disabled, status_setting_read_fail, status_idle_error,
  message_alarm_unlock, message_enabled, message_disabled, message_restore_defaults, n_startup_line,
  char_at, set_state, toggle_check_mode, disable_alarm_lock, execute_mode, execute_sleep,
}

-- What the commands call. `above_byte` and `trunc` are `parameter > 255` and `trunc(parameter)`.
pub record Services {ℓ} (W : Type ℓ) : Type ℓ where
  pub gc_execute_line : List ℕ → Machine → ℕ × Machine
  pub mc_homing_cycle : Machine → Machine
  pub settings_read_startup_line : ℕ → Bool × List ℕ
  pub settings_store_startup_line : ℕ → List ℕ → Machine → Machine
  pub settings_store_build_info : List ℕ → Machine → Machine
  pub settings_store_global_setting : ℕ → W → Machine → ℕ × Machine
  pub settings_restore : ℕ → Machine → Machine
  pub above_byte : W → Bool
  pub trunc : W → ℕ

-- `do { line[char_counter-helper_var] = line[char_counter]; } while (line[char_counter++] != 0)`. A
-- buffer of `fuel` characters from char_counter on is enough.
pub shift_line : (fuel helper_var char_counter : ℕ) → List ℕ → List ℕ
shift_line zero helper_var char_counter line = line
shift_line (suc fuel) helper_var char_counter line =
    let c = char_at line char_counter in
    let moved = set line (char_counter - helper_var) c in
    let rest = shift_line fuel helper_var (char_counter + 1) moved in if c == 0 then moved else rest

-- The text from `start` on, moved to the front of the buffer.
abbrev pub text_from : ℕ → List ℕ → List ℕ
text_from start line = shift_line (length line) start start line

module _ {ℓ} {W : Type ℓ} (floats : Floats W) (services : Services W) where
  -- Lines 127 to 132, `$J=`.
  pub execute_jog : List ℕ → Machine → ℕ × Machine
  execute_jog line m =
      if not (m.sys.state == state_idle) && not (m.sys.state == state_jog)
      then (status_idle_error, m)
      else if not (char_at line 2 == 61)
      then (status_invalid_statement, m)
      else services.gc_execute_line line m

  -- One round of the loop in `system_execute_startup`.
  pub execute_startup_line : ℕ → Machine → Machine
  execute_startup_line n m =
      let read = services.settings_read_startup_line n in
      let run = services.gc_execute_line read.1 m in
      if not read.0
      then call (report_execute_startup_message status_setting_read_fail) m
      else if char_at read.1 0 == 0
      then m
      else call (report_execute_startup_message run.0) run.1

  pub system_execute_startup : Machine → Machine
  system_execute_startup m = execute_startup_line 1 (execute_startup_line 0 m)

  -- Lines 176 to 197, `$H`.
  pub execute_homing : List ℕ → Machine → ℕ × Machine
  execute_homing line m =
      let homed = services.mc_homing_cycle (set_state state_homing m) in
      let stopped = st_go_idle (set_state state_idle homed) in
      if bit_isfalse m.settings_flags bitflag_homing_enable
      then (status_setting_disabled, m)
      else if not (char_at line 2 == 0)
      then (status_invalid_statement, set_state state_homing m)
      else if homed.sys.abort
      then (status_ok, homed)
      else (status_ok, system_execute_startup stopped)

  -- Lines 202 to 216, `$I`.
  pub execute_build_info : List ℕ → Machine → ℕ × Machine
  execute_build_info line m =
      if char_at line 2 == 0
      then (status_ok, call report_build_info m)
      else if not (char_at line 2 == 61)
      then (status_invalid_statement, m)
      else (status_ok, services.settings_store_build_info (text_from 3 line) m)

  -- Lines 217 to 233, `$RST=`.
  pub execute_restore : List ℕ → Machine → ℕ × Machine
  execute_restore line m =
      let restored : ℕ → ℕ × Machine = λ flag. (
        status_ok,
        mc_reset (
            call (report_feedback_message message_restore_defaults)
              (services.settings_restore flag m)),
      ) in
      let c = char_at line 5 in
      if not (char_at line 2 == 83)
        || not (char_at line 3 == 84)
        || not (char_at line 4 == 61)
        || not (char_at line 6 == 0)
      then (status_invalid_statement, m)
      else if c == 36
      then restored 0x01
      else if c == 35
      then restored 0x02
      else if c == 42
      then restored 0xff
      else (status_invalid_statement, m)

  -- Lines 236 to 242.
  print_startup_line : ℕ → Machine → Machine
  print_startup_line n m =
      if (services.settings_read_startup_line n).0
      then call (report_startup_line n) m
      else call (report_status_message status_setting_read_fail) m

  -- Lines 252 to 264, after `$Nx=`. `start` is where the g-code block starts.
  store_startup_line : W → ℕ → List ℕ → Machine → ℕ × Machine
  store_startup_line parameter start line m =
      let block = text_from start line in
      let run = services.gc_execute_line block m in
      if run.0 == 0
      then (status_ok, services.settings_store_startup_line (services.trunc parameter) block run.1)
      else run

  -- Lines 265 to 269, after `$x=`.
  store_setting : W → ℕ → List ℕ → Machine → ℕ × Machine
  store_setting parameter start line m = elim (read_float floats start (drop start line)) [
    | none ↦ (status_bad_number_format, m)
    | some (value, char_counter) ↦
        if not (char_at line char_counter == 0) || services.above_byte parameter
        then (status_invalid_statement, m)
        else services.settings_store_global_setting (services.trunc parameter) value m
  ]

  -- Lines 249 to 269, from the number at char_counter on.
  pub execute_store : Bool → ℕ → List ℕ → Machine → ℕ × Machine
  execute_store is_startup_line start line m = elim (read_float floats start (drop start line)) [
    | none ↦ (status_bad_number_format, m)
    | some (parameter, char_counter) ↦
        if not (char_at line char_counter == 61)
        then (status_invalid_statement, m)
        else if is_startup_line
        then store_startup_line parameter (char_counter + 1) line m
        else store_setting parameter (char_counter + 1) line m
  ]

  -- Lines 234 to 248, `$N`.
  pub execute_startup_lines : List ℕ → Machine → ℕ × Machine
  execute_startup_lines line m =
      let stored = execute_store true 2 line m in
      if char_at line 2 == 0
      then (status_ok, print_startup_line 1 (print_startup_line 0 m))
      else if m.sys.state == state_idle
      then stored
      else (status_idle_error, m)

  -- Lines 168 to 270: the commands for an idle or locked machine.
  pub execute_idle : List ℕ → Machine → ℕ × Machine
  execute_idle line m =
      let c = char_at line 1 in
      let parameters =
        if char_at line 2 == 0
        then (status_ok, call report_ngc_parameters m)
        else (status_invalid_statement, m) in
      let stored = execute_store false 1 line m in
      if not (m.sys.state == state_idle || m.sys.state == state_alarm)
      then (status_idle_error, m)
      else if c == 35
      then parameters
      else if c == 72
      then execute_homing line m
      else if c == 83
      then execute_sleep line m
      else if c == 73
      then execute_build_info line m
      else if c == 82
      then execute_restore line m
      else if c == 78
      then execute_startup_lines line m
      else stored

  -- The status and the machine.
  pub system_execute_line : List ℕ → Machine → ℕ × Machine
  system_execute_line line m =
      let c = char_at line 1 in
      if c == 0
      then (status_ok, call report_grbl_help m)
      else if c == 74
      then execute_jog line m
      else if c == 36 || c == 71 || c == 67 || c == 88
      then execute_mode line m
      else execute_idle line m
