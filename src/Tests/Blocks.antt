-- ===== src/Tests/Blocks.antt =====
-- Examples for the numbers and the words of a block.
use tele_handwriter.Base.{
  ℕ, ◌+◌, ◌/◌, ◌%◌, ◌≤◌, ◌≡◌, refl, inl, false, some, List, [], ◌∷◌, arith, ltb,
}
use tele_handwriter.Base.Int.{◌+ℤ◌, ◌-ℤ◌}
use tele_handwriter.Number.{
  read_float, read_decimal, read_sign, scan, add_digit, to_float, apply_exp, repeat,
}
use tele_handwriter.Number.Range.{InRange, read_decimal-InRange}
use tele_handwriter.Number.Digits.{Ends, decimal, read_decimal_lem}
use tele_handwriter.Gcode.{ok, Modal, Block, Numbers}
use tele_handwriter.Gcode.Commands.{g_command, axis_motion, motion}
use tele_handwriter.Gcode.Words.{
  parse_block, parse_words, parse_word, g_word, take_command, take_value, value_word, empty_block,
}
use tele_handwriter.Gcode.Words.Accepted.{words, AllDistinct, parse_block-AllDistinct}
use tele_handwriter.Gcode.Words.Fuel.{parse_block-enough}
use tele_handwriter.Tests.{hundredths}

-- `1.5`
abbrev number_text : List ℕ
number_text = 49 ∷ 46 ∷ 53 ∷ 0 ∷ []

zero-Ends : Ends 0
zero-Ends = (omega arith, (inl (omega arith)), λ e. absurd (omega (arith, e)))

read_decimal_lem_example : read_decimal 0 number_text ≡ some (false, decimal (49 ∷ []) (53 ∷ []), 3)
read_decimal_lem_example =
    read_decimal_lem 0 49 [] (53 ∷ []) [] 0 ((omega arith, omega arith), tt)
      ((omega arith, omega arith), tt) (omega arith) zero-Ends

read_decimal-InRange_example : InRange (decimal (49 ∷ []) (53 ∷ [])) × (0 ≤ 3) × (3 ≤ 0 + 4)
read_decimal-InRange_example =
    read_decimal-InRange 0 number_text false (decimal (49 ∷ []) (53 ∷ [])) 3 (omega arith)
      read_decimal_lem_example

abbrev pub numbers : Numbers ℕ
numbers = record {
  int_value = λ x. x / 100;
  mantissa = λ x. x % 100;
  line_number = λ x. x / 100;
  is_negative = λ x. false;
  above_tools = λ x. ltb 25500 x;
  nought = 0;
}

abbrev pub modal : Modal
modal = record {
  motion = 0;
  feed_rate = 0;
  units = 0;
  distance = 0;
  plane_select = 0;
  tool_length = 0;
  coord_select = 0;
  program_flow = 0;
  coolant = 0;
  spindle = 0;
}

-- `G1X2`
abbrev pub block_text : List ℕ
block_text = 71 ∷ 49 ∷ 88 ∷ 50 ∷ 0 ∷ []

-- The block of `G1X2`.
abbrev pub block : Block ℕ
block = record {
  non_modal_command = 0;
  modal = record modal { motion = 1 };
  values = record {
    f = 0;
    i = 0;
    j = 0;
    k = 0;
    l = 0;
    n = 0;
    p = 0;
    r = 0;
    s = 0;
    t = 0;
    x = 200;
    y = 0;
    z = 0;
  };
  axis_command = 2;
  axis_words = 1;
  ijk_words = 0;
  command_words = 2;
  value_words = 1024;
}

parsed : parse_block numbers hundredths modal block_text ≡ ok block
unfolding parse_block parse_words parse_word g_word take_command g_command axis_motion motion
    take_value value_word empty_block read_float read_decimal read_sign scan add_digit to_float
    apply_exp repeat ◌+ℤ◌ ◌-ℤ◌
parsed = refl

parse_block-AllDistinct_example :
    (ws : List (ℕ × ℕ)) × (words numbers hundredths 6 0 block_text ≡ some ws)
    × AllDistinct numbers ws
parse_block-AllDistinct_example =
    parse_block-AllDistinct numbers hundredths modal block_text block parsed

parse_block-enough_example :
    parse_words numbers hundredths (ok block) 9 0 block_text (empty_block numbers false modal)
    ≡ parse_block numbers hundredths modal block_text
parse_block-enough_example =
    parse_block-enough numbers hundredths block_text (ok block) modal 9 (omega arith)
