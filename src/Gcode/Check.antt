-- ===== src/Gcode/Check.antt =====
-- Step 3 of `gc_execute_line` in grbl/gcode.c: the error check of a block, lines 365 to 836.
pub mod Stages
pub mod Kept
pub mod Used
pub mod Feed
pub mod Units
use tele_handwriter.Base.{
  ℕ, ◌^◌, leb, ltb, Bool, true, false, not, ◌&&◌, ◌||◌, ◌==◌, if◌then◌else◌, bit_and, bit_or,
}
use tele_handwriter.Base.Bits.{bit_istrue, bit_isfalse}
use tele_handwriter.Gcode.{Modal, Values, Block, axis_command_none, axis_command_motion_mode}
use tele_handwriter.Gcode.State.{
  Arithmetic, Parser, Coords, Checked, Check, pass, refuse, ◌>>=◌, ◌>>◌, refuse_if, put_values,
  clear_words,
}
use tele_handwriter.Gcode.Offsets.{
  inches, convert_units, check_tool_length, check_coord_system, check_non_modal,
  status_gcode_value_word_missing,
}
use tele_handwriter.Gcode.Arcs.{check_arc, check_probe}

abbrev pub status_gcode_undefined_feed_rate : ℕ
status_gcode_undefined_feed_rate = 22

abbrev pub status_gcode_invalid_line_number : ℕ
status_gcode_invalid_line_number = 27

abbrev pub status_gcode_axis_words_exist : ℕ
status_gcode_axis_words_exist = 31

abbrev pub status_gcode_unused_words : ℕ
status_gcode_unused_words = 36

abbrev pub max_line_number : ℕ
max_line_number = 10000000

abbrev pub gc_parser_jog_motion : ℕ
gc_parser_jog_motion = 1

module _ {ℓ} {W : Type ℓ} where
  abbrev pub is_jog : Checked W → Bool
  is_jog c = bit_istrue c.parser_flags gc_parser_jog_motion

  abbrev pub put_axis_command : ℕ → Checked W → Checked W
  put_axis_command axis_command c = record c {
    block = record c.block { axis_command = axis_command };
  }

  -- Lines 369 to 371.
  unfoldable pub imply_motion : Checked W → Checked W
  imply_motion c =
      if not (c.block.axis_words == 0) && c.block.axis_command == 0
      then put_axis_command axis_command_motion_mode c
      else c

  -- Lines 374 to 377.
  unfoldable pub check_line_number : Checked W → Check (Checked W)
  check_line_number c = do
    refuse_if (bit_istrue c.block.value_words (2 ^ 5) && ltb max_line_number c.block.values.n)
        status_gcode_invalid_line_number
    pass c

  -- Lines 448 to 452.
  unfoldable pub check_dwell : Checked W → Check (Checked W)
  check_dwell c = do
    let dwells = c.block.non_modal_command == 4
    refuse_if (dwells && bit_isfalse c.block.value_words (2 ^ 6)) status_gcode_value_word_missing
    pass (if dwells then clear_words 0x40 c else c)

  -- Lines 827 to 836.
  unfoldable pub check_unused : Checked W → Check (Checked W)
  check_unused c = do
    let single = if is_jog c then clear_words 0x21 c else clear_words 0x321 c
    let left = if c.block.axis_command == 0 then single else clear_words 0x1C00 single
    refuse_if (not (left.block.value_words == 0)) status_gcode_unused_words
    pass left

module _ {ℓ} {W : Type ℓ} (arithmetic : Arithmetic W) where
  -- Lines 411 to 425, the feed rate in G94.
  unfoldable pub feed_per_min : Parser W → Checked W → Checked W
  feed_per_min gc c =
      let b = c.block in
      if not (gc.modal.feed_rate == 0)
      then c
      else if bit_istrue b.value_words 1
      then put_values (λ v. record v { f = inches arithmetic b.modal b.values.f }) c
      else put_values (λ v. record v { f = gc.feed_rate }) c

  -- Lines 389 to 425.
  unfoldable pub check_feed : Parser W → Checked W → Check (Checked W)
  check_feed gc c = do
    let b = c.block
    let is_missing = bit_isfalse b.value_words 1
    let is_inverse = b.modal.feed_rate == 1
    let is_motion =
        b.axis_command == axis_command_motion_mode
        && not (b.modal.motion == 80)
        && not (b.modal.motion == 0)
    refuse_if (is_missing && (is_jog c || (is_inverse && is_motion)))
        status_gcode_undefined_feed_rate
    pass (
        if is_jog c
        then put_values (λ v. record v { f = inches arithmetic b.modal b.values.f }) c
        else if is_inverse
        then c
        else feed_per_min gc c)

  -- Lines 428 to 429.
  unfoldable pub keep_speed : Parser W → Checked W → Checked W
  keep_speed gc c =
      if bit_isfalse c.block.value_words (2 ^ 8)
      then put_values (λ v. record v { s = gc.spindle_speed }) c
      else c

  -- Lines 660 to 822, the motions that need a feed rate.
  unfoldable pub check_feed_motion : Parser W → Checked W → Check (Checked W)
  check_feed_motion gc c = do
    let mode = c.block.modal.motion
    refuse_if (arithmetic.eq c.block.values.f arithmetic.nought) status_gcode_undefined_feed_rate
    if mode == 1
        then pass (if c.block.axis_words == 0 then put_axis_command axis_command_none c else c)
        else if mode == 2 || mode == 3
        then check_arc arithmetic gc c
        else if leb 140 mode && leb mode 143
        then check_probe arithmetic gc c
        else pass c

  -- Lines 645 to 823.
  unfoldable pub check_motion : Parser W → Checked W → Check (Checked W)
  check_motion gc c = do
    let mode = c.block.modal.motion
    refuse_if (mode == 80 && not (c.block.axis_words == 0)) status_gcode_axis_words_exist
    if mode == 80 || not (c.block.axis_command == axis_command_motion_mode)
        then pass c
        else if mode == 0
        then pass (if c.block.axis_words == 0 then put_axis_command axis_command_none c else c)
        else check_feed_motion gc c

  -- Step 3 for a block of step 2.
  unfoldable pub check_block : Coords W → Parser W → Checked W → Check (Checked W)
  check_block coords gc c = do
    numbered ← check_line_number (imply_motion c)
    fed ← check_feed gc numbered
    waiting ← check_dwell (keep_speed gc fed)
    tooled ← check_tool_length arithmetic (convert_units arithmetic waiting)
    located ← check_coord_system arithmetic coords gc tooled
    aimed ← check_non_modal arithmetic coords gc located
    moving ← check_motion gc aimed
    check_unused moving
