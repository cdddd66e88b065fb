-- ===== src/Gcode/Words.antt =====
-- The words of a block in grbl/gcode.c: the loop of lines 117 to 335.
pub mod Distinct
pub mod Accepted
pub mod Fuel
use tele_handwriter.Base.{
  ℕ, zero, suc, ◌+◌, ◌-◌, ◌^◌, ltb, leb, Bool, true, false, not, ◌&&◌, ◌||◌, Option, none, some,
  List, [], ◌∷◌, ◌==◌, if◌then◌else◌, get_or, drop, length, bit_and, bit_or,
}
use tele_handwriter.Base.Bits.{bit_istrue}
use tele_handwriter.Number.{Floats, read_float}
use tele_handwriter.System.Commands.{status_bad_number_format}
use tele_handwriter.Gcode.{
  Result, ok, fail, Modal, Values, Block, Numbers, status_expected_command_letter,
  status_negative_value, status_gcode_unsupported_command, status_gcode_modal_group_violation,
  status_gcode_command_value_not_integer, status_gcode_word_repeated,
  status_gcode_max_value_exceeded,
}
use tele_handwriter.Gcode.Commands.{Command, g_command, m_command}

module _ {ℓ} {W : Type ℓ} (numbers : Numbers W) where
  -- `memset` and `memcpy` of lines 75 and 76, and lines 92 to 96 for a jog.
  unfoldable pub empty_block : Bool → Modal → Block W
  empty_block is_jog modal =
      let o = numbers.nought in
      record {
        non_modal_command = 0;
        modal = if is_jog then record modal { motion = 1; feed_rate = 0 } else modal;
        values = record {
          f = o;
          i = o;
          j = o;
          k = o;
          l = 0;
          n = 0;
          p = o;
          r = o;
          s = o;
          t = 0;
          x = o;
          y = o;
          z = o;
        };
        axis_command = 0;
        axis_words = 0;
        ijk_words = 0;
        command_words = 0;
        value_words = 0;
      }

  -- Lines 235 to 239 and 288 to 289.
  unfoldable pub take_command : Result (Command W) → Result (Block W)
  take_command (fail status) = fail status
  take_command (ok c) =
      let b = c.block in
      let word = 2 ^ c.word_bit in
      if not (c.mantissa == 0)
      then fail status_gcode_command_value_not_integer
      else if bit_istrue b.command_words word
      then fail status_gcode_modal_group_violation
      else ok (record b { command_words = bit_or b.command_words word })

  unfoldable pub g_word : W → Block W → Result (Block W)
  g_word value b = take_command (g_command (numbers.int_value value) (numbers.mantissa value) b)

  unfoldable pub m_word : W → Block W → Result (Block W)
  m_word value b =
      if not (numbers.mantissa value == 0)
      then fail status_gcode_command_value_not_integer
      else take_command (m_command (numbers.int_value value) b)

  -- Lines 298 to 323: the bit of a value word, and the block with its value.
  unfoldable pub value_word : ℕ → W → Block W → Option (ℕ × Block W)
  value_word letter value b =
      let put : (Values W → Values W) → Block W = λ g. record b { values = g b.values } in
      let ijk : ℕ → (Values W → Values W) → Block W =
        λ bit g. record (put g) { ijk_words = bit_or b.ijk_words bit } in
      let xyz : ℕ → (Values W → Values W) → Block W =
        λ bit g. record (put g) { axis_words = bit_or b.axis_words bit } in
      if letter == b'F'
      then some (0, put (λ v. record v { f = value }))
      else if letter == b'I'
      then some (1, ijk 1 (λ v. record v { i = value }))
      else if letter == b'J'
      then some (2, ijk 2 (λ v. record v { j = value }))
      else if letter == b'K'
      then some (3, ijk 4 (λ v. record v { k = value }))
      else if letter == b'L'
      then some (4, put (λ v. record v { l = numbers.int_value value }))
      else if letter == b'N'
      then some (5, put (λ v. record v { n = numbers.line_number value }))
      else if letter == b'P'
      then some (6, put (λ v. record v { p = value }))
      else if letter == b'R'
      then some (7, put (λ v. record v { r = value }))
      else if letter == b'S'
      then some (8, put (λ v. record v { s = value }))
      else if letter == b'T'
      then some (9, put (λ v. record v { t = numbers.int_value value }))
      else if letter == b'X'
      then some (10, xyz 1 (λ v. record v { x = value }))
      else if letter == b'Y'
      then some (11, xyz 2 (λ v. record v { y = value }))
      else if letter == b'Z'
      then some (12, xyz 4 (λ v. record v { z = value }))
      else none

  -- WORD_F, WORD_N, WORD_P, WORD_T and WORD_S.
  abbrev pub unsigned_words : ℕ
  unsigned_words = 0x361

  -- Lines 315 to 332.
  unfoldable pub take_value : ℕ → W → Option (ℕ × Block W) → Result (Block W)
  take_value letter value none = fail status_gcode_unsupported_command
  take_value letter value (some (word_bit, b)) =
      let word = 2 ^ word_bit in
      if letter == b'T' && numbers.above_tools value
      then fail status_gcode_max_value_exceeded
      else if bit_istrue b.value_words word
      then fail status_gcode_word_repeated
      else if bit_istrue word unsigned_words && numbers.is_negative value
      then fail status_negative_value
      else ok (record b { value_words = bit_or b.value_words word })

  -- The switch of lines 138 to 334.
  unfoldable pub parse_word : ℕ → W → Block W → Result (Block W)
  parse_word letter value b =
      if letter == b'G'
      then g_word value b
      else if letter == b'M'
      then m_word value b
      else take_value letter value (value_word letter value b)

  -- The loop, with the result `unended` where it has not ended when the fuel is used up. Every round
  -- takes a letter, so that as much fuel as characters, and one more, is enough.
  unfoldable pub parse_words :
      (floats : Floats W) (unended : Result (Block W)) (fuel char_counter : ℕ)
      → List ℕ
      → Block W
      → Result (Block W)
  parse_words floats unended zero char_counter line b = unended
  parse_words floats unended (suc fuel) char_counter line b =
      let letter = get_or line char_counter 0 in
      if letter == 0
      then ok b
      else if not (leb b'A' letter && leb letter b'Z')
      then fail status_expected_command_letter
      else elim (read_float floats (char_counter + 1) (drop (char_counter + 1) line)) [
        | none ↦ fail status_bad_number_format
        | some (value, next) ↦ elim (parse_word letter value b) [
          | fail status ↦ fail status
          | ok parsed ↦ parse_words floats unended fuel next line parsed
        ]
      ]

  -- Steps 1 and 2: the block of a line, `$J=` or g-code. The fuel is enough, so that the result for a
  -- loop that has not ended is never taken.
  unfoldable pub parse_block : Floats W → Modal → List ℕ → Result (Block W)
  parse_block floats modal line =
      let is_jog = get_or line 0 0 == b'$' in
      parse_words floats (fail status_bad_number_format) (suc (length line))
        (if is_jog then 3 else 0) line (empty_block is_jog modal)
