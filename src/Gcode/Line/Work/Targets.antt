-- ===== src/Gcode/Line/Work/Targets.antt =====
-- The targets of G0 and G1 in grbl/gcode.c.
use tele_handwriter.Base.{
  ℕ, ◌^◌, ◌<◌, ◌≡◌, ◌≢◌, ◌⊎◌, sym, ◌∙◌, ap, Bool, true, false, ◌==◌, if◌then◌else◌, arith,
}
use tele_handwriter.Base.Bits.{bit_istrue, bit_isfalse}
use tele_handwriter.Gcode.State.{at, axes, xyz, Arithmetic, Parser, Coords, Checked, pass}
use tele_handwriter.Gcode.Offsets.{
  inches, target_on, set_target, check_target, check_non_modal, tool_length_offset_axis,
}
use tele_handwriter.Gcode.Check.Stages.{check_block-Stages}
use tele_handwriter.Gcode.Check.{
  gc_parser_jog_motion, is_jog, check_motion, check_feed_motion, check_unused, check_block,
}
use tele_handwriter.Gcode.Events.{Surroundings, Run}
use tele_handwriter.Gcode.Execute.{
  first_run, execute_block, run_non_modal, run_motion, move, run_program_flow,
}
use tele_handwriter.Gcode.Line.Work.{at-axes}
use tele_handwriter.Gcode.Line.Work.{IsExact, less_offset, work_position, work_position_of}
use tele_handwriter.Gcode.Line.Work.Convert.{located-IsConverted}
use tele_handwriter.Gcode.Line.Work.Frame.{located_run, located_run-IsLocated, execute_block-runs}
use tele_handwriter.Base.Bits.Laws.{zero-bit_and}
use tele_handwriter.Gcode.Offsets.{target_on}

some_word : (n words : ℕ) → bit_istrue words n ≡ true → words ≢ 0
some_word n words given =
    let nothing = zero-bit_and n in λ absent. ground (arith, nothing, given, absent)

module _ {ℓ} {W : Type ℓ} (arithmetic : Arithmetic W) (exact : IsExact arithmetic) where
  -- A position that is the value and the offsets has the value as its work position.
  target_position :
      (has_tool : Bool) (value system offset tool : W)
      → let absolute = arithmetic.plus value (arithmetic.plus system offset) in
        less_offset arithmetic has_tool
          (if has_tool then arithmetic.plus absolute tool else absolute)
          system
          offset
          tool
        ≡ value
  target_position true value system offset tool =
      let sum = arithmetic.plus system offset in
      ap (λ z. arithmetic.minus z (arithmetic.plus sum tool)) (exact.plus_assoc value sum tool)
      ∙ exact.minus-plus value (arithmetic.plus sum tool)
  target_position false value system offset tool =
      exact.minus-plus value (arithmetic.plus system offset)

  absolute_target :
      (gc : Parser W) (c : Checked W) (idx : ℕ)
      → bit_istrue c.block.axis_words (2 ^ idx) ≡ true
      → c.block.non_modal_command ≡ 0
      → c.block.modal.distance ≡ 0
      → let value = at (xyz c.block.values) idx in
        let absolute =
          arithmetic.plus value
            (arithmetic.plus (at c.block_coord_system idx) (at gc.coord_offset idx)) in
        target_on arithmetic gc c idx ≡ (
          if idx == tool_length_offset_axis
          then arithmetic.plus absolute gc.tool_length_offset
          else absolute)
  unfolding target_on
  absolute_target gc c idx given n distance =
      let sees : bit_isfalse c.block.axis_words (2 ^ idx) ≡ false = ground (arith, given) in
      simp (sees, n, distance)

  -- A parser at that target has the value as its work position.
  target_on-position :
      (gc g : Parser W) (c : Checked W) (idx : ℕ)
      → bit_istrue c.block.axis_words (2 ^ idx) ≡ true
      → c.block.non_modal_command ≡ 0
      → c.block.modal.distance ≡ 0
      → at g.position idx ≡ target_on arithmetic gc c idx
      → g.coord_system ≡ c.block_coord_system
      → g.coord_offset ≡ gc.coord_offset
      → g.tool_length_offset ≡ gc.tool_length_offset
      → work_position arithmetic g idx ≡ at (xyz c.block.values) idx
  target_on-position gc g c idx given n distance position system offset tool =
      work_position_of arithmetic g idx _ (at c.block_coord_system idx) (at gc.coord_offset idx)
        gc.tool_length_offset (position ∙ absolute_target gc c idx given n distance)
        (ap (λ v. at v idx) system) (ap (λ v. at v idx) offset) tool
      ∙ target_position (idx == tool_length_offset_axis) (at (xyz c.block.values) idx)
          (at c.block_coord_system idx) (at gc.coord_offset idx) gc.tool_length_offset

  -- G0 and G1 in step 3.
  set_target-kept :
      (coords : Coords W) (gc : Parser W) (c aimed moving d : Checked W)
      → c.block.non_modal_command ≡ 0
      → c.block.axis_command ≡ 2
      → (c.block.modal.motion ≡ 0) ⊎ (c.block.modal.motion ≡ 1)
      → c.block.axis_words ≢ 0
      → check_non_modal arithmetic coords gc c ≡ pass aimed
      → check_motion arithmetic gc aimed ≡ pass moving
      → check_unused moving ≡ pass d
      → (xyz d.block.values ≡ axes (target_on arithmetic gc c))
        × (d.block_coord_system ≡ c.block_coord_system)
        × (d.block.non_modal_command ≡ 0)
        × (d.block.axis_command ≡ 2)
        × (d.block.modal ≡ c.block.modal)
        × (d.parser_flags ≡ c.parser_flags)
  unfolding check_non_modal check_target set_target check_motion check_feed_motion check_unused
  set_target-kept coords gc c aimed moving d n a m w e f g = ground (arith, n, a, m, w, e, f, g)

  -- G0 and G1 in step 4.
  run_target-kept :
      (s : Surroundings W) (d : Checked W) (run : Run W)
      → d.block.non_modal_command ≡ 0
      → d.block.axis_command ≡ 2
      → (d.block.modal.motion ≡ 0) ⊎ (d.block.modal.motion ≡ 1)
      → d.block.modal.program_flow ≡ 0
      → let g =
          (run_program_flow arithmetic s d
            (run_motion s d (run_non_modal arithmetic d run))).1.gc in
        (g.position ≡ xyz d.block.values)
        × (g.coord_system ≡ run.gc.coord_system)
        × (g.tool_length_offset ≡ run.gc.tool_length_offset)
        × (g.coord_offset ≡ run.gc.coord_offset)
  unfolding run_program_flow run_motion move run_non_modal
  run_target-kept s d run n a m f = ground (arith, n, a, m, f)

  -- Exact arithmetic given: a block with a G0 or G1 word and with no non-modal command, so not with
  -- G53, G28 or G30, which is not a jog, is in the absolute mode, passes the error check, and has no
  -- stop of the program, leaves the parser with the value of each of its axis words, in
  -- millimeters, as the work position of the axis.
  pub target_programmed :
      (s : Surroundings W) (coords : Coords W) (gc : Parser W) (c d : Checked W) (idx : ℕ)
      → c.block.non_modal_command ≡ 0
      → c.block.axis_command ≡ 2
      → (c.block.modal.motion ≡ 0) ⊎ (c.block.modal.motion ≡ 1)
      → c.block.modal.distance ≡ 0
      → is_jog c ≡ false
      → c.block.modal.program_flow ≡ 0
      → bit_istrue c.block.axis_words (2 ^ idx) ≡ true
      → idx < 3
      → check_block arithmetic coords gc c ≡ pass d
      → work_position arithmetic (execute_block arithmetic s coords gc d).1.gc idx
        ≡ inches arithmetic c.block.modal (at (xyz c.block.values) idx)
  target_programmed s coords gc c d idx n a motion distance jog flow given l e =
      let t = check_block-Stages arithmetic coords gc c d e in
      let located = t.located in
      let (same, kept) = located-IsConverted arithmetic coords gc c d t (ground (arith, a)) in
      let modes = same.same_modal in
      let words : located.block.axis_words ≢ 0 =
        some_word (2 ^ idx) located.block.axis_words
          (ap (λ w. bit_istrue w (2 ^ idx)) same.same_words ∙ given) in
      let mode = ap (λ m. m.motion) modes in
      let moves : (located.block.modal.motion ≡ 0) ⊎ (located.block.modal.motion ≡ 1) =
        ground (arith, motion, mode) in
      let (values, system, non_modal, command, modal, flags) =
        set_target-kept coords gc located t.aimed t.moving d (same.same_non_modal ∙ n)
          (same.same_command ∙ a) moves words t.aims t.moves t.ends in
      let run = first_run arithmetic coords gc d in
      let ready = located_run arithmetic s d run in
      let frame =
        located_run-IsLocated arithmetic s d run (ground (arith, command))
          (λ h. system ∙ kept (ap (λ m. m.coord_select) (sym modal) ∙ h)) in
      let last = ap (λ m. m.motion) modal in
      let cuts : (d.block.modal.motion ≡ 0) ⊎ (d.block.modal.motion ≡ 1) =
        ground (arith, moves, last) in
      let (position, in_use, length, offset) =
        run_target-kept s d ready non_modal command cuts
          (ap (λ m. m.program_flow) (modal ∙ modes) ∙ flow) in
      let no_jog : is_jog d ≡ false =
        ap (λ f. bit_istrue f gc_parser_jog_motion) (flags ∙ same.same_flags) ∙ jog in
      let g =
        (run_program_flow arithmetic s d
          (run_motion s d (run_non_modal arithmetic d ready))).1.gc in
      ap (λ (r : ℕ × Run W). work_position arithmetic r.1.gc idx)
        (execute_block-runs arithmetic s coords gc d no_jog)
      ∙ target_on-position gc g located idx
          (ap (λ w. bit_istrue w (2 ^ idx)) same.same_words ∙ given) (same.same_non_modal ∙ n)
          (ap (λ m. m.distance) modes ∙ distance)
          (ap (λ v. at v idx) (position ∙ values) ∙ at-axes (target_on arithmetic gc located) idx l)
          (in_use ∙ frame.system ∙ system) (offset ∙ frame.offset) (length ∙ frame.length)
      ∙ same.converted idx given l
