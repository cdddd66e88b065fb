-- ===== src/System/Interrupts.antt =====
-- The interrupt handlers that raise realtime commands: SERIAL_RX of grbl/serial.c, the control pins
-- of grbl/system.c and the limit pins of grbl/limits.c, in the default build (no safety door pin,
-- no inverted pins, no software debounce, no forced check of the limit state).
pub mod Commands
pub mod Text
pub mod Pins
use tele_handwriter.Base.{ℕ, Bool, true, false, not, ◌==◌, ltb, if◌then◌else◌, bit_and, bit_or}
use tele_handwriter.Base.Bits.{bit_istrue, bit_isfalse}
use tele_handwriter.Serial.{rx_store}
use tele_handwriter.System.{
  Machine, Exec, state_jog, state_alarm, system_set_exec_state_flag, system_set_exec_alarm,
  system_set_exec_motion_override_flag, system_set_exec_accessory_override_flag, exec_reset,
  exec_status_report, exec_cycle_start, exec_feed_hold, exec_safety_door, exec_motion_cancel,
  exec_feed_ovr_reset, exec_feed_ovr_coarse_plus, exec_feed_ovr_coarse_minus,
  exec_feed_ovr_fine_plus, exec_feed_ovr_fine_minus, exec_rapid_ovr_reset, exec_rapid_ovr_medium,
  exec_rapid_ovr_low, exec_spindle_ovr_reset, exec_spindle_ovr_coarse_plus,
  exec_spindle_ovr_coarse_minus, exec_spindle_ovr_fine_plus, exec_spindle_ovr_fine_minus,
  exec_spindle_ovr_stop, exec_coolant_flood_ovr_toggle, exec_alarm_hard_limit,
  control_pin_index_reset, control_pin_index_feed_hold, control_pin_index_cycle_start,
}
use tele_handwriter.System.Reset.{mc_reset}

abbrev pub cmd_reset : ℕ
cmd_reset = 0x18

abbrev pub cmd_status_report : ℕ
cmd_status_report = b'?'

abbrev pub cmd_cycle_start : ℕ
cmd_cycle_start = b'~'

abbrev pub cmd_feed_hold : ℕ
cmd_feed_hold = b'!'

abbrev pub with_exec : (Exec → Exec) → Machine → Machine
with_exec f m = record m { exec = f m.exec }

-- The override commands, 0x90 to 0xA0: each sets one bit. Any other byte changes nothing.
unfoldable pub override_command : ℕ → Exec → Exec
override_command byte e =
    if byte == 0x90
    then system_set_exec_motion_override_flag exec_feed_ovr_reset e
    else if byte == 0x91
    then system_set_exec_motion_override_flag exec_feed_ovr_coarse_plus e
    else if byte == 0x92
    then system_set_exec_motion_override_flag exec_feed_ovr_coarse_minus e
    else if byte == 0x93
    then system_set_exec_motion_override_flag exec_feed_ovr_fine_plus e
    else if byte == 0x94
    then system_set_exec_motion_override_flag exec_feed_ovr_fine_minus e
    else if byte == 0x95
    then system_set_exec_motion_override_flag exec_rapid_ovr_reset e
    else if byte == 0x96
    then system_set_exec_motion_override_flag exec_rapid_ovr_medium e
    else if byte == 0x97
    then system_set_exec_motion_override_flag exec_rapid_ovr_low e
    else if byte == 0x99
    then system_set_exec_accessory_override_flag exec_spindle_ovr_reset e
    else if byte == 0x9a
    then system_set_exec_accessory_override_flag exec_spindle_ovr_coarse_plus e
    else if byte == 0x9b
    then system_set_exec_accessory_override_flag exec_spindle_ovr_coarse_minus e
    else if byte == 0x9c
    then system_set_exec_accessory_override_flag exec_spindle_ovr_fine_plus e
    else if byte == 0x9d
    then system_set_exec_accessory_override_flag exec_spindle_ovr_fine_minus e
    else if byte == 0x9e
    then system_set_exec_accessory_override_flag exec_spindle_ovr_stop e
    else if byte == 0xa0
    then system_set_exec_accessory_override_flag exec_coolant_flood_ovr_toggle e
    else e

-- The inner switch, for bytes above 0x7F.
extended_command : ℕ → Machine → Machine
extended_command byte m =
    if byte == 0x84
    then with_exec (system_set_exec_state_flag exec_safety_door) m
    else if byte == 0x85
    then (if bit_istrue m.sys.state state_jog
        then with_exec (system_set_exec_state_flag exec_motion_cancel) m
        else m)
    else with_exec (override_command byte) m

-- The handler of SERIAL_RX for the byte read from UDR0.
unfoldable pub serial_rx : ℕ → Machine → Machine
unfolding extended_command
serial_rx byte m =
    if byte == cmd_reset
    then mc_reset m
    else if byte == cmd_status_report
    then with_exec (system_set_exec_state_flag exec_status_report) m
    else if byte == cmd_cycle_start
    then with_exec (system_set_exec_state_flag exec_cycle_start) m
    else if byte == cmd_feed_hold
    then with_exec (system_set_exec_state_flag exec_feed_hold) m
    else if ltb 0x7f byte
    then extended_command byte m
    else record m { serial = rx_store m.serial byte }

-- CONTROL_RESET_BIT, CONTROL_FEED_HOLD_BIT and CONTROL_CYCLE_START_BIT, and their mask.
abbrev pub control_mask : ℕ
control_mask = 0x07

-- `if (bit_isfalse(pin, bit)) { control_state |= index; }`
abbrev add_pressed : ℕ → ℕ → ℕ → ℕ → ℕ
add_pressed pin bit index control_state =
    if bit_isfalse pin bit then bit_or control_state index else control_state

-- The argument is the value of CONTROL_PIN; a pin reads low when its button is pressed.
unfoldable pub system_control_get_state : ℕ → ℕ
system_control_get_state control_pin =
    let pin = bit_and control_pin control_mask in
    if pin == 0
    then 0
    else add_pressed pin 0x04 control_pin_index_cycle_start (
        add_pressed pin 0x02 control_pin_index_feed_hold
          (add_pressed pin 0x01 control_pin_index_reset 0))

unfoldable pub control_int : ℕ → Machine → Machine
unfolding system_control_get_state
control_int control_pin m =
    let pin = system_control_get_state control_pin in
    if pin == 0
    then m
    else if bit_istrue pin control_pin_index_reset
    then mc_reset m
    else if bit_istrue pin control_pin_index_cycle_start
    then with_exec (system_set_exec_state_flag exec_cycle_start) m
    else if bit_istrue pin control_pin_index_feed_hold
    then with_exec (system_set_exec_state_flag exec_feed_hold) m
    else m

-- The limit pin change interrupt.
unfoldable pub limit_int : Machine → Machine
limit_int m =
    if m.sys.state == state_alarm
    then m
    else if m.exec.alarm == 0
    then with_exec (system_set_exec_alarm exec_alarm_hard_limit) (mc_reset m)
    else m
