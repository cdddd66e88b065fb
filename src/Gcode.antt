-- ===== src/Gcode.antt =====
-- `gc_execute_line` of grbl/gcode.c, steps 1 and 2: the words of a block are read, the commands are
-- sorted into modal groups, and repeated or conflicting words are refused. ENABLE_M7,
-- ENABLE_PARKING_OVERRIDE_CONTROL and USE_LINE_NUMBERS are not defined. A value is a float; what the
-- code makes of it is an interface.
pub mod Commands
pub mod Words
pub mod State
pub mod Offsets
pub mod Arcs
pub mod Check
pub mod Events
pub mod Modes
pub mod Execute
pub mod Line
pub use tele_handwriter.Settings.Global.{status_negative_value}
use tele_handwriter.Base.{
  ℕ, ◌+◌, ◌-◌, ◌/◌, Bool, true, false, not, ◌||◌, List, [], ◌∷◌, ◌==◌, if◌then◌else◌,
}

abbrev pub status_expected_command_letter : ℕ
status_expected_command_letter = 1

abbrev pub status_gcode_unsupported_command : ℕ
status_gcode_unsupported_command = 20

abbrev pub status_gcode_modal_group_violation : ℕ
status_gcode_modal_group_violation = 21

abbrev pub status_gcode_command_value_not_integer : ℕ
status_gcode_command_value_not_integer = 23

abbrev pub status_gcode_axis_command_conflict : ℕ
status_gcode_axis_command_conflict = 24

abbrev pub status_gcode_word_repeated : ℕ
status_gcode_word_repeated = 25

abbrev pub status_gcode_max_value_exceeded : ℕ
status_gcode_max_value_exceeded = 38

abbrev pub axis_command_none : ℕ
axis_command_none = 0

abbrev pub axis_command_non_modal : ℕ
axis_command_non_modal = 1

abbrev pub axis_command_motion_mode : ℕ
axis_command_motion_mode = 2

abbrev pub axis_command_tool_length_offset : ℕ
axis_command_tool_length_offset = 3

-- `FAIL(status)` returns the status.
pub data Result {ℓ} (A : Type ℓ) : Type ℓ where
  ok : A → Result A
  fail : ℕ → Result A

-- `gc_modal_t`, without the override that parking needs.
pub record Modal : Type 0 where
  pub motion : ℕ
  pub feed_rate : ℕ
  pub units : ℕ
  pub distance : ℕ
  pub plane_select : ℕ
  pub tool_length : ℕ
  pub coord_select : ℕ
  pub program_flow : ℕ
  pub coolant : ℕ
  pub spindle : ℕ

-- `gc_values_t`
pub record Values {ℓ} (W : Type ℓ) : Type ℓ where
  pub f : W
  pub i : W
  pub j : W
  pub k : W
  pub l : ℕ
  pub n : ℕ
  pub p : W
  pub r : W
  pub s : W
  pub t : ℕ
  pub x : W
  pub y : W
  pub z : W

-- `gc_block` and the local variables of the function.
pub record Block {ℓ} (W : Type ℓ) : Type ℓ where
  pub non_modal_command : ℕ
  pub modal : Modal
  pub values : Values W
  pub axis_command : ℕ
  pub axis_words : ℕ
  pub ijk_words : ℕ
  pub command_words : ℕ
  pub value_words : ℕ

-- `int_value`, `mantissa`, `trunc(value)` for a line number, `value < 0.0`, `value > MAX_TOOL_NUMBER`
-- and the 0.0 of an empty block.
pub record Numbers {ℓ} (W : Type ℓ) : Type ℓ where
  pub int_value : W → ℕ
  pub mantissa : W → ℕ
  pub line_number : W → ℕ
  pub is_negative : W → Bool
  pub above_tools : W → Bool
  pub nought : W

abbrev pub among : ℕ → List ℕ → Bool
among n [] = false
among n (m ∷ ms) = n == m || among n ms
