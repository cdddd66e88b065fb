-- ===== src/System/Commands/Modes.antt =====
-- The commands of one letter in `system_execute_line` of grbl/system.c, lines 133 to 167, and `$SLP`.
use tele_handwriter.Base.{ℕ, not, ◌||◌, List, ◌==◌, if◌then◌else◌, get_or, bit_or}
use tele_handwriter.Base.Bits.{bit_istrue}
use tele_handwriter.System.{
  Machine, call, with_sys, report_feedback_message, report_grbl_settings, report_gcode_modes,
  system_set_exec_state_flag, exec_sleep, state_idle, state_alarm, state_check_mode, state_cycle,
  state_hold,
}
use tele_handwriter.System.Reset.{mc_reset}
pub use tele_handwriter.Settings.Global.{status_ok, status_invalid_statement}

abbrev pub status_bad_number_format : ℕ
status_bad_number_format = 2

abbrev pub status_setting_disabled : ℕ
status_setting_disabled = 5

abbrev pub status_setting_read_fail : ℕ
status_setting_read_fail = 7

abbrev pub status_idle_error : ℕ
status_idle_error = 8

abbrev pub message_alarm_unlock : ℕ
message_alarm_unlock = 3

abbrev pub message_enabled : ℕ
message_enabled = 4

abbrev pub message_disabled : ℕ
message_disabled = 5

abbrev pub message_restore_defaults : ℕ
message_restore_defaults = 9

abbrev pub n_startup_line : ℕ
n_startup_line = 2

abbrev pub char_at : List ℕ → ℕ → ℕ
char_at line i = get_or line i 0

abbrev pub set_state : ℕ → Machine → Machine
set_state state = with_sys λ s. record s { state = state }

-- Lines 144 to 156, `$C`.
unfoldable pub toggle_check_mode : Machine → ℕ × Machine
toggle_check_mode m =
    if m.sys.state == state_check_mode
    then (status_ok, call (report_feedback_message message_disabled) (mc_reset m))
    else if not (m.sys.state == 0)
    then (status_idle_error, m)
    else (status_ok, call (report_feedback_message message_enabled) (set_state state_check_mode m))

-- Lines 157 to 164, `$X`.
unfoldable pub disable_alarm_lock : Machine → ℕ × Machine
disable_alarm_lock m =
    if m.sys.state == state_alarm
    then (status_ok, set_state state_idle (call (report_feedback_message message_alarm_unlock) m))
    else (status_ok, m)

-- Lines 133 to 167: `$$`, `$G`, `$C` and `$X`.
unfoldable pub execute_mode : List ℕ → Machine → ℕ × Machine
execute_mode line m =
    let c = char_at line 1 in
    if not (char_at line 2 == 0)
    then (status_invalid_statement, m)
    else if c == 36
    then (if bit_istrue m.sys.state (bit_or state_cycle state_hold)
        then (status_idle_error, m)
        else (status_ok, call report_grbl_settings m))
    else if c == 71
    then (status_ok, call report_gcode_modes m)
    else if c == 67
    then toggle_check_mode m
    else disable_alarm_lock m

-- Lines 198 to 201, `$SLP`.
unfoldable pub execute_sleep : List ℕ → Machine → ℕ × Machine
execute_sleep line m =
    if not (char_at line 2 == 76) || not (char_at line 3 == 80) || not (char_at line 4 == 0)
    then (status_invalid_statement, m)
    else (status_ok, record m { exec = system_set_exec_state_flag exec_sleep m.exec })
