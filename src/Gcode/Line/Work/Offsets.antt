-- ===== src/Gcode/Line/Work/Offsets.antt =====
-- The work offsets that G92 sets in grbl/gcode.c.
use tele_handwriter.Base.{
  ℕ, ◌^◌, ◌<◌, ◌≡◌, sym, ◌∙◌, ap, Bool, true, false, ◌==◌, if◌then◌else◌, arith,
}
use tele_handwriter.Base.Bits.{bit_istrue}
use tele_handwriter.Gcode.State.{at, axes, xyz, Arithmetic, Parser, Coords, Checked, pass}
use tele_handwriter.Gcode.Offsets.{
  inches, offset_data, set_coordinate_offset, check_non_modal, tool_length_offset_axis,
}
use tele_handwriter.Gcode.Check.Stages.{check_block-Stages}
use tele_handwriter.Gcode.Check.{
  gc_parser_jog_motion, is_jog, check_motion, check_unused, check_block,
}
use tele_handwriter.Gcode.Events.{Surroundings, Run}
use tele_handwriter.Gcode.Execute.{
  first_run, execute_block, run_non_modal, run_motion, run_program_flow,
}
use tele_handwriter.Gcode.Line.Work.{at-axes}
use tele_handwriter.Gcode.Line.Work.{IsExact, if_true, less_offset, work_position, work_position_of}
use tele_handwriter.Gcode.Line.Work.Convert.{located-IsConverted}
use tele_handwriter.Gcode.Line.Work.Frame.{located_run, located_run-IsLocated, execute_block-runs}

module _ {ℓ} {W : Type ℓ} (arithmetic : Arithmetic W) (exact : IsExact arithmetic) where
  minus_of : (x y p : W) → arithmetic.plus y x ≡ p → arithmetic.minus p x ≡ y
  minus_of x y p e = ap (λ z. arithmetic.minus z x) (sym e) ∙ exact.minus-plus y x

  -- With the offset `(p - system) - value` the position `p` is at `value`.
  offset_position :
      (p system value : W)
      → arithmetic.minus p
          (arithmetic.plus system (arithmetic.minus (arithmetic.minus p system) value))
        ≡ value
  offset_position p system value =
      let free = arithmetic.minus p system in
      let rest = arithmetic.minus free value in
      minus_of (arithmetic.plus system rest) value p (
        exact.plus_comm value (arithmetic.plus system rest)
        ∙ exact.plus_assoc system rest value
        ∙ ap (λ z. arithmetic.plus system z) (exact.plus-minus free value)
        ∙ exact.plus_comm system free
        ∙ exact.plus-minus p system)

  -- The same with a tool length that is taken off and added again.
  tool_offset_position :
      (p system value tool : W)
      → let rest = arithmetic.minus (arithmetic.minus p system) value in
        arithmetic.minus p
          (arithmetic.plus (arithmetic.plus system (arithmetic.minus rest tool)) tool)
        ≡ value
  tool_offset_position p system value tool =
      let rest = arithmetic.minus (arithmetic.minus p system) value in
      ap (λ z. arithmetic.minus p z)
        (exact.plus_assoc system (arithmetic.minus rest tool) tool
          ∙ ap (λ z. arithmetic.plus system z) (exact.plus-minus rest tool))
      ∙ offset_position p system value

  either_position :
      (has_tool : Bool) (p system value tool : W)
      → let rest = arithmetic.minus (arithmetic.minus p system) value in
        less_offset arithmetic has_tool p system
          (if has_tool then arithmetic.minus rest tool else rest)
          tool
        ≡ value
  either_position true p system value tool = tool_offset_position p system value tool
  either_position false p system value tool = offset_position p system value

  -- A parser whose offset on an axis is the one that G92 computes has the value as its work position.
  offset_data-position :
      (gc g : Parser W) (d : Checked W) (idx : ℕ)
      → bit_istrue d.block.axis_words (2 ^ idx) ≡ true
      → g.position ≡ gc.position
      → g.coord_system ≡ d.block_coord_system
      → g.tool_length_offset ≡ gc.tool_length_offset
      → at g.coord_offset idx ≡ offset_data arithmetic gc d idx
      → work_position arithmetic g idx ≡ at (xyz d.block.values) idx
  unfolding offset_data
  offset_data-position gc g d idx given position system tool offset =
      let p = at gc.position idx in
      let value = at (xyz d.block.values) idx in
      work_position_of arithmetic g idx p (at d.block_coord_system idx) _ gc.tool_length_offset
        (ap (λ v. at v idx) position) (ap (λ v. at v idx) system)
        (offset ∙ if_true (bit_istrue d.block.axis_words (2 ^ idx)) _ _ given) tool
      ∙ either_position (idx == tool_length_offset_axis) p (at d.block_coord_system idx) value
          gc.tool_length_offset

  -- G92 in step 3, and what is left of it after the motion modes.
  set_offset-kept :
      (coords : Coords W) (gc : Parser W) (c aimed moving d : Checked W)
      → c.block.non_modal_command ≡ 92
      → c.block.axis_command ≡ 1
      → check_non_modal arithmetic coords gc c ≡ pass aimed
      → check_motion arithmetic gc aimed ≡ pass moving
      → check_unused moving ≡ pass d
      → (xyz d.block.values ≡ axes (offset_data arithmetic gc c))
        × (d.block_coord_system ≡ c.block_coord_system)
        × (d.block.non_modal_command ≡ 92)
        × (d.block.axis_command ≡ 1)
        × (d.block.modal ≡ c.block.modal)
        × (d.parser_flags ≡ c.parser_flags)
  unfolding check_non_modal set_coordinate_offset check_motion check_unused
  set_offset-kept coords gc c aimed moving d n a e f g = ground (arith, n, a, e, f, g)

  -- G92 in step 4, where no motion follows it.
  run_offset-kept :
      (s : Surroundings W) (d : Checked W) (run : Run W)
      → d.block.non_modal_command ≡ 92
      → d.block.axis_command ≡ 1
      → d.block.modal.program_flow ≡ 0
      → let g =
          (run_program_flow arithmetic s d
            (run_motion s d (run_non_modal arithmetic d run))).1.gc in
        (g.position ≡ run.gc.position)
        × (g.coord_system ≡ run.gc.coord_system)
        × (g.tool_length_offset ≡ run.gc.tool_length_offset)
        × (g.coord_offset ≡ xyz d.block.values)
  unfolding run_program_flow run_motion run_non_modal
  run_offset-kept s d run n a f = ground (arith, n, a, f)

  -- Exact arithmetic given, a G92 that passes the error check and is executed without a stop of the
  -- program makes the value of each of its axis words, in millimeters, the work position of the axis.
  pub offset_programmed :
      (s : Surroundings W) (coords : Coords W) (gc : Parser W) (c d : Checked W) (idx : ℕ)
      → c.block.non_modal_command ≡ 92
      → c.block.axis_command ≡ 1
      → is_jog c ≡ false
      → c.block.modal.program_flow ≡ 0
      → bit_istrue c.block.axis_words (2 ^ idx) ≡ true
      → idx < 3
      → check_block arithmetic coords gc c ≡ pass d
      → work_position arithmetic (execute_block arithmetic s coords gc d).1.gc idx
        ≡ inches arithmetic c.block.modal (at (xyz c.block.values) idx)
  offset_programmed s coords gc c d idx n a jog flow given l e =
      let t = check_block-Stages arithmetic coords gc c d e in
      let located = t.located in
      let (same, kept) = located-IsConverted arithmetic coords gc c d t (ground (arith, a)) in
      let (values, system, non_modal, command, modal, flags) =
        set_offset-kept coords gc located t.aimed t.moving d (same.same_non_modal ∙ n)
          (same.same_command ∙ a) t.aims t.moves t.ends in
      let run = first_run arithmetic coords gc d in
      let ready = located_run arithmetic s d run in
      let frame =
        located_run-IsLocated arithmetic s d run (ground (arith, command))
          (λ h. system ∙ kept (ap (λ m. m.coord_select) (sym modal) ∙ h)) in
      let (position, in_use, length, offset) =
        run_offset-kept s d ready non_modal command
          (ap (λ m. m.program_flow) (modal ∙ same.same_modal) ∙ flow) in
      let no_jog : is_jog d ≡ false =
        ap (λ f. bit_istrue f gc_parser_jog_motion) (flags ∙ same.same_flags) ∙ jog in
      let g =
        (run_program_flow arithmetic s d
          (run_motion s d (run_non_modal arithmetic d ready))).1.gc in
      ap (λ (r : ℕ × Run W). work_position arithmetic r.1.gc idx)
        (execute_block-runs arithmetic s coords gc d no_jog)
      ∙ offset_data-position gc g located idx
          (ap (λ w. bit_istrue w (2 ^ idx)) same.same_words ∙ given) (position ∙ frame.position)
          (in_use ∙ frame.system ∙ system) (length ∙ frame.length)
          (ap (λ v. at v idx) (offset ∙ values) ∙ at-axes (offset_data arithmetic gc located) idx l)
      ∙ same.converted idx given l
