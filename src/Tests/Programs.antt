-- ===== src/Tests/Programs.antt =====
-- Examples for whole lines of g-code.
use tele_handwriter.Base.{
  ℕ, ◌+◌, ◌-◌, ◌*◌, ◌/◌, ◌≡◌, ◌≢◌, ◌⊎◌, inr, refl, true, false, not, ◌&&◌, some, List, [], ◌∷◌,
  ◌==◌, if◌then◌else◌, arith, ltb,
}
use tele_handwriter.Base.Int.{ℤ, pos, ◌+ℤ◌, ◌-ℤ◌, abs, ltb_ℤ, int_laws}
use tele_handwriter.Number.{
  read_float, read_decimal, read_sign, scan, add_digit, to_float, apply_exp, repeat,
}
use tele_handwriter.Gcode.Commands.{g_command, m_command, axis_motion, motion}
use tele_handwriter.Gcode.Words.{
  parse_block, parse_words, parse_word, g_word, m_word, take_command, take_value, value_word,
  empty_block,
}
use tele_handwriter.Gcode.State.{Vector, xyz, Arithmetic, Parser, Coords, Checked, pass}
use tele_handwriter.Gcode.Offsets.{
  convert_units, check_tool_length, check_coord_system, set_coordinate_offset, offset_data,
  set_target, target_on, check_target, check_non_modal,
}
use tele_handwriter.Gcode.Check.{
  imply_motion, check_line_number, check_feed, feed_per_min, keep_speed, check_dwell, check_motion,
  check_feed_motion, check_unused, check_block,
}
use tele_handwriter.Gcode.{Block, ok}
use tele_handwriter.Settings.Global.{status_ok}
use tele_handwriter.Gcode.Events.{Surroundings, mc_line, start_jog, status_travel_exceeded}
use tele_handwriter.Gcode.Execute.{execute_block, run_program_flow}
use tele_handwriter.Gcode.Execute.Jog.{IsWithin, jog_plan, jog_moves}
use tele_handwriter.Gcode.Check.Used.{HasCommands, check_block-HasCommands}
use tele_handwriter.Gcode.Check.Feed.{IsReady, check_block-IsReady}
use tele_handwriter.Gcode.Check.Units.{feed_taken, check_block-feed}
use tele_handwriter.Gcode.Line.Spindle.{spindle_after, gc_execute_line-Follows}
use tele_handwriter.Gcode.Line.Position.{position_after, gc_execute_line-position}
use tele_handwriter.Gcode.Line.Work.{IsExact, work_position}
use tele_handwriter.Gcode.Line.Work.Offsets.{offset_programmed}
use tele_handwriter.Gcode.Line.Work.Targets.{target_programmed}
use tele_handwriter.Gcode.Line.{parsed, gc_execute_line, after_words, after_check}
use tele_handwriter.Gcode.Line.Atomic.{IsDropped, EndsUnread, executed, gc_execute_line-IsDropped}
use tele_handwriter.Tests.{hundredths}
use tele_handwriter.Tests.Blocks.{numbers, modal, block_text}

abbrev pub vector {ℓ} : {W : Type ℓ} → W → W → W → Vector W
vector x y z = record { on_x = x; on_y = y; on_z = z }

-- Hundredths.
abbrev pub arithmetic : Arithmetic ℕ
arithmetic = record {
  nought = 0;
  plus = λ x y. x + y;
  minus = λ x y. x - y;
  times = λ x y. x * y / 100;
  divide = λ x y. x * 100 / y;
  negate = λ x. x;
  sqrt = λ x. x;
  hypot_f = λ x y. x + y;
  fabs = λ x. x;
  eq = λ x y. x == y;
  same = λ x y. x == y;
  lt = λ x y. ltb x y;
  byte = λ x. x / 100;
  mm_per_inch = 2540;
  four = 400;
  half = 50;
  least_error = 1;
  most_error = 50;
  relative_error = 1;
}

abbrev parser : Parser ℕ
parser = record {
  modal = modal;
  spindle_speed = 0;
  feed_rate = 0;
  tool = 0;
  line_number = 0;
  position = vector 0 0 0;
  coord_system = vector 0 0 0;
  coord_offset = vector 0 0 0;
  tool_length_offset = 0;
}

abbrev coords : Coords ℕ
coords i = some (vector 0 0 0)

abbrev surroundings {ℓ} : {W : Type ℓ} → W → Surroundings W
surroundings o = record {
  laser_mode = false;
  soft_limit_enable = false;
  check_mode = false;
  is_idle = true;
  has_block = true;
  max_travel = vector o o o;
  update_pos = 0;
  sys_position = vector o o o;
}

-- `G1X2` without a feed rate.
refused_line :
    (gc_execute_line numbers hundredths arithmetic (surroundings 0) coords parser block_text).status
    ≡ 22
unfolding gc_execute_line after_words after_check parse_block parse_words parse_word g_word
    take_command g_command axis_motion motion take_value value_word empty_block read_float
    read_decimal read_sign scan add_digit to_float apply_exp repeat ◌+ℤ◌ ◌-ℤ◌ check_block
    imply_motion check_line_number check_feed feed_per_min keep_speed check_dwell convert_units
    check_tool_length check_coord_system check_non_modal check_target set_target target_on
    check_motion check_feed_motion
refused_line = refl

gc_execute_line-IsDropped_example :
    let o =
      gc_execute_line numbers hundredths arithmetic (surroundings 0) coords parser block_text in
    IsDropped arithmetic coords parser o
    ⊎ ((b : Block ℕ) × (d : Checked ℕ) × (parse_block numbers hundredths parser.modal block_text
          ≡ ok b)
        × (check_block arithmetic coords parser (parsed parser block_text b) ≡ pass d)
        × EndsUnread arithmetic
            (surroundings 0)
            (executed arithmetic (surroundings 0) coords parser d)
            d
            o)
gc_execute_line-IsDropped_example =
    gc_execute_line-IsDropped numbers hundredths arithmetic (surroundings 0) coords parser
      block_text (λ e. absurd (omega (arith, refused_line, e)))

-- `M3`
abbrev spindle_text : List ℕ
spindle_text = 77 ∷ 51 ∷ 0 ∷ []

spindle_line :
    (gc_execute_line numbers hundredths arithmetic
      (surroundings 0)
      coords
      parser
      spindle_text).status
    ≡ 0
unfolding gc_execute_line after_words after_check parse_block parse_words parse_word m_word
    take_command m_command empty_block read_float read_decimal read_sign scan add_digit to_float
    apply_exp repeat ◌+ℤ◌ ◌-ℤ◌ check_block imply_motion check_line_number check_feed feed_per_min
    keep_speed check_dwell convert_units check_tool_length check_coord_system check_non_modal
    check_target set_target check_motion check_unused execute_block run_program_flow
spindle_line = refl

gc_execute_line-Follows_example :
    let o =
      gc_execute_line numbers hundredths arithmetic (surroundings 0) coords parser spindle_text in
    spindle_after parser.modal.spindle o.events ≡ o.gc.modal.spindle
gc_execute_line-Follows_example =
    gc_execute_line-Follows numbers hundredths arithmetic (surroundings 0) coords parser
      spindle_text refl spindle_line

-- A block of step 2, with the words that it has.
abbrev words_block {ℓ} : {W : Type ℓ} → W → (value : W) → ℕ → ℕ → ℕ → Checked W
words_block o value non_modal_command axis_command value_words = record {
  block = record {
    non_modal_command = non_modal_command;
    modal = record modal { motion = 1 };
    values = record {
      f = value;
      i = o;
      j = o;
      k = o;
      l = 0;
      n = 0;
      p = value;
      r = o;
      s = o;
      t = 0;
      x = value;
      y = o;
      z = o;
    };
    axis_command = axis_command;
    axis_words = if axis_command == 0 then 0 else 1;
    ijk_words = 0;
    command_words = 0;
    value_words = value_words;
  };
  parser_flags = 0;
  coord_select = 0;
  block_coord_system = vector o o o;
}

-- `G4P2`, before and after the check.
abbrev dwell_block : Checked ℕ
dwell_block = words_block 0 200 4 0 0x40

abbrev dwell_checked : Checked ℕ
dwell_checked =
    let c = words_block 0 200 4 0 0 in
    record c { block = record c.block { values = record c.block.values { f = 0 } } }

dwell_passes : check_block arithmetic coords parser dwell_block ≡ pass dwell_checked
unfolding check_block imply_motion check_line_number check_feed feed_per_min keep_speed check_dwell
    convert_units check_tool_length check_coord_system check_non_modal check_target set_target
    check_motion check_unused
dwell_passes = refl

check_block-HasCommands_example : HasCommands dwell_block dwell_checked
check_block-HasCommands_example =
    check_block-HasCommands arithmetic coords parser dwell_block dwell_checked dwell_passes

-- `G1F2X2`, before and after the check.
abbrev cut_block : Checked ℕ
cut_block = words_block 0 200 0 2 0x401

abbrev cut_checked : Checked ℕ
cut_checked = words_block 0 200 0 2 0

cut_passes : check_block arithmetic coords parser cut_block ≡ pass cut_checked
unfolding check_block imply_motion check_line_number check_feed feed_per_min keep_speed check_dwell
    convert_units check_tool_length check_coord_system check_non_modal check_target set_target
    target_on check_motion check_feed_motion check_unused
cut_passes = refl

check_block-IsReady_example : IsReady arithmetic cut_checked
check_block-IsReady_example =
    check_block-IsReady arithmetic coords parser cut_block cut_checked cut_passes refl
      (λ e. absurd (omega (arith, e)))

check_block-feed_example : cut_checked.block.values.f ≡ feed_taken arithmetic parser cut_block
check_block-feed_example =
    check_block-feed arithmetic coords parser cut_block cut_checked refl refl refl cut_passes

-- A jog to the origin.
abbrev jog_block : Checked ℕ
jog_block =
    let block = cut_checked.block in
    let origin = record block { values = record block.values { x = 0 } } in
    record cut_checked { parser_flags = 1; block = origin }

-- The soft limits are on.
abbrev guarded : Surroundings ℕ
guarded = record (surroundings 0) { soft_limit_enable = true }

jog_moves_example :
    let (status, run) = execute_block arithmetic guarded coords parser jog_block in
    let target = xyz jog_block.block.values in
    (status ≡ status_ok
      → (true ≡ true → IsWithin arithmetic (vector 0 0 0) target)
        × (run.gc ≡ record parser { position = target })
        × (run.coords ≡ coords)
        × ((run.events ≡ mc_line target (jog_plan arithmetic parser jog_block) ∷ [])
            ⊎ (run.events
                ≡ start_jog ∷ mc_line target (jog_plan arithmetic parser jog_block) ∷ [])))
    × (status ≢ status_ok → (run.gc ≡ parser) × (run.coords ≡ coords) × (run.events ≡ []))
    × (IsWithin arithmetic (vector 0 0 0) target → status ≢ status_travel_exceeded)
jog_moves_example = jog_moves arithmetic guarded coords parser jog_block refl

-- Exact arithmetic on the integers.
abbrev integers : Arithmetic ℤ
integers = record {
  nought = pos 0;
  plus = λ x y. x +ℤ y;
  minus = λ x y. x -ℤ y;
  times = λ x y. pos (abs x * abs y);
  divide = λ x y. pos (abs x / abs y);
  negate = λ x. pos 0 -ℤ x;
  sqrt = λ x. x;
  hypot_f = λ x y. pos (abs x + abs y);
  fabs = λ x. pos (abs x);
  eq = λ x y. not (ltb_ℤ x y) && not (ltb_ℤ y x);
  same = λ x y. not (ltb_ℤ x y) && not (ltb_ℤ y x);
  lt = λ x y. ltb_ℤ x y;
  byte = λ x. abs x;
  mm_per_inch = pos 25;
  four = pos 4;
  half = pos 1;
  least_error = pos 0;
  most_error = pos 1;
  relative_error = pos 0;
}

integers-IsExact : IsExact integers
integers-IsExact = record {
  plus_assoc = λ x y z. omega int_laws;
  plus_comm = λ x y. omega int_laws;
  minus-plus = λ x y. omega int_laws;
  plus-minus = λ x y. omega int_laws;
}

-- A parser at (7, 0, 0), in a coordinate system and with an offset on the x axis.
abbrev moved_parser : Parser ℤ
moved_parser = record {
  modal = modal;
  spindle_speed = pos 0;
  feed_rate = pos 3;
  tool = 0;
  line_number = 0;
  position = vector (pos 7) (pos 0) (pos 0);
  coord_system = vector (pos 1) (pos 0) (pos 0);
  coord_offset = vector (pos 2) (pos 0) (pos 0);
  tool_length_offset = pos 0;
}

abbrev moved_coords : Coords ℤ
moved_coords i = some (vector (pos 1) (pos 0) (pos 0))

-- `G92X5` and `G1X5`, before the check.
abbrev offset_block : Checked ℤ
offset_block = words_block (pos 0) (pos 5) 92 1 0x400

abbrev target_block : Checked ℤ
target_block = words_block (pos 0) (pos 5) 0 2 0x400

-- The same after it, with the values on the x axis and the feed rate that the check gives.
abbrev at_system : ℤ → Checked ℤ → Checked ℤ
at_system x c = record c {
  block = record c.block { values = record c.block.values { f = pos 3; x = x }; value_words = 0 };
  block_coord_system = vector (pos 1) (pos 0) (pos 0);
}

offset_passes :
    check_block integers moved_coords moved_parser offset_block
    ≡ pass (at_system (pos 1) offset_block)
unfolding check_block imply_motion check_line_number check_feed feed_per_min keep_speed check_dwell
    convert_units check_tool_length check_coord_system check_non_modal set_coordinate_offset
    offset_data check_motion check_unused ◌+ℤ◌ ◌-ℤ◌
offset_passes = refl

offset_programmed_example :
    work_position integers
      (execute_block integers
        (surroundings (pos 0))
        moved_coords
        moved_parser
        (at_system (pos 1) offset_block)).1.gc
      0
    ≡ pos 5
offset_programmed_example =
    offset_programmed integers integers-IsExact (surroundings (pos 0)) moved_coords moved_parser
      offset_block (at_system (pos 1) offset_block) 0 refl refl refl refl refl (omega arith)
      offset_passes

target_passes :
    check_block integers moved_coords moved_parser target_block
    ≡ pass (at_system (pos 8) target_block)
unfolding check_block imply_motion check_line_number check_feed feed_per_min keep_speed check_dwell
    convert_units check_tool_length check_coord_system check_non_modal check_target set_target
    target_on check_motion check_feed_motion check_unused ◌+ℤ◌ ◌-ℤ◌
target_passes = refl

target_programmed_example :
    work_position integers
      (execute_block integers
        (surroundings (pos 0))
        moved_coords
        moved_parser
        (at_system (pos 8) target_block)).1.gc
      0
    ≡ pos 5
target_programmed_example =
    target_programmed integers integers-IsExact (surroundings (pos 0)) moved_coords moved_parser
      target_block (at_system (pos 8) target_block) 0 refl refl (inr refl) refl refl refl refl
      (omega arith) target_passes

-- `G0X2`
abbrev travel_text : List ℕ
travel_text = 71 ∷ 48 ∷ 88 ∷ 50 ∷ 0 ∷ []

gc_execute_line-position_example :
    let o =
      gc_execute_line numbers hundredths arithmetic (surroundings 0) coords parser travel_text in
    position_after (surroundings 0) (vector 0 0 0) o.events ≡ o.gc.position
gc_execute_line-position_example =
    gc_execute_line-position numbers hundredths arithmetic (surroundings 0) coords parser
      travel_text
