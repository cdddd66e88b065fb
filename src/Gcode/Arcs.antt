-- ===== src/Gcode/Arcs.antt =====
-- The error check of `gc_execute_line` in grbl/gcode.c for the motions that need a target: the arcs of
-- lines 672 to 808 and the probes of lines 809 to 821.
use tele_handwriter.Base.{ℕ, ◌^◌, Bool, ◌&&◌, ◌||◌, ◌==◌, if◌then◌else◌, bit_or}
use tele_handwriter.Base.Bits.{bit_istrue, bit_isfalse}
use tele_handwriter.Gcode.State.{
  at, put_at, axes, xyz, ijk, put_ijk, Arithmetic, Parser, Checked, Check, pass, ◌>>◌, refuse_if,
  put_values, clear_words,
}
use tele_handwriter.Gcode.Offsets.{inches, status_gcode_no_axis_words}

abbrev pub status_gcode_no_axis_words_in_plane : ℕ
status_gcode_no_axis_words_in_plane = 32

abbrev pub status_gcode_invalid_target : ℕ
status_gcode_invalid_target = 33

abbrev pub status_gcode_arc_radius_error : ℕ
status_gcode_arc_radius_error = 35

abbrev pub status_gcode_no_offsets_in_plane : ℕ
status_gcode_no_offsets_in_plane = 34

abbrev pub gc_parser_arc_is_clockwise : ℕ
gc_parser_arc_is_clockwise = 4

abbrev pub gc_parser_probe_is_away : ℕ
gc_parser_probe_is_away = 8

abbrev pub gc_parser_probe_is_no_error : ℕ
gc_parser_probe_is_no_error = 16

-- Lines 455 to 470: the axes of a plane.
abbrev pub axis_0 : ℕ → ℕ
axis_0 plane_select = if plane_select == 0 then 0 else if plane_select == 1 then 2 else 1

abbrev pub axis_1 : ℕ → ℕ
axis_1 plane_select = if plane_select == 0 then 1 else if plane_select == 1 then 0 else 2

abbrev pub axis_linear : ℕ → ℕ
axis_linear plane_select = if plane_select == 0 then 2 else if plane_select == 1 then 1 else 0

-- `bit(axis_0)|bit(axis_1)`
abbrev pub plane_mask : ℕ → ℕ
plane_mask plane_select = bit_or (2 ^ axis_0 plane_select) (2 ^ axis_1 plane_select)

module _ {ℓ} {W : Type ℓ} (arithmetic : Arithmetic W) where
  -- `isequal_position_vector(gc_state.position, gc_block.values.xyz)`
  abbrev pub is_here : Parser W → Checked W → Bool
  is_here gc c =
      let target = xyz c.block.values in
      arithmetic.same gc.position.on_x target.on_x
      && arithmetic.same gc.position.on_y target.on_y
      && arithmetic.same gc.position.on_z target.on_z

  -- Lines 687 to 688: the way to the target along an axis.
  abbrev way : Parser W → Checked W → ℕ → W
  way gc c idx = arithmetic.minus (at (xyz c.block.values) idx) (at gc.position idx)

  -- Lines 685 to 780, an arc given by its radius.
  unfoldable pub radius_arc : Parser W → Checked W → Check (Checked W)
  radius_arc gc c = do
    let first = axis_0 c.block.modal.plane_select
    let second = axis_1 c.block.modal.plane_select
    let x = way gc c first
    let y = way gc c second
    refuse_if (is_here gc c) status_gcode_invalid_target
    let r = inches arithmetic c.block.modal c.block.values.r
    let four_r_r = arithmetic.times (arithmetic.times arithmetic.four r) r
    let h =
        arithmetic.minus (arithmetic.minus four_r_r (arithmetic.times x x)) (arithmetic.times y y)
    refuse_if (arithmetic.lt h arithmetic.nought) status_gcode_arc_radius_error
    let side = arithmetic.divide (arithmetic.negate (arithmetic.sqrt h)) (arithmetic.hypot_f x y)
    let turned = if c.block.modal.motion == 3 then arithmetic.negate side else side
    let is_long = arithmetic.lt r arithmetic.nought
    let h_x2_div_d = if is_long then arithmetic.negate turned else turned
    let i = arithmetic.times arithmetic.half (arithmetic.minus x (arithmetic.times y h_x2_div_d))
    let j = arithmetic.times arithmetic.half (arithmetic.plus y (arithmetic.times x h_x2_div_d))
    let centre = put_at second j (put_at first i (ijk c.block.values))
    pass (
        put_values
          (λ v. put_ijk centre (record v { r = if is_long then arithmetic.negate r else r }))
          (clear_words 0x80 c))

  -- Lines 783 to 807, an arc given by the offset of its centre.
  unfoldable pub offset_arc : Parser W → Checked W → Check (Checked W)
  offset_arc gc c = do
    let first = axis_0 c.block.modal.plane_select
    let second = axis_1 c.block.modal.plane_select
    refuse_if (bit_isfalse c.block.ijk_words (plane_mask c.block.modal.plane_select))
        status_gcode_no_offsets_in_plane
    let offset = axes λ idx.
        if bit_istrue c.block.ijk_words (2 ^ idx)
        then inches arithmetic c.block.modal (at (ijk c.block.values) idx)
        else at (ijk c.block.values) idx
    let x = arithmetic.minus (way gc c first) (at offset first)
    let y = arithmetic.minus (way gc c second) (at offset second)
    let target_r = arithmetic.hypot_f x y
    let r = arithmetic.hypot_f (at offset first) (at offset second)
    let delta_r = arithmetic.fabs (arithmetic.minus target_r r)
    refuse_if
        (arithmetic.lt arithmetic.least_error delta_r
          && (arithmetic.lt arithmetic.most_error delta_r
              || arithmetic.lt (arithmetic.times arithmetic.relative_error r) delta_r))
        status_gcode_invalid_target
    pass (put_values (λ v. put_ijk offset (record v { r = r })) (clear_words 0xE c))

  -- Lines 672 to 808.
  unfoldable pub check_arc : Parser W → Checked W → Check (Checked W)
  check_arc gc c = do
    refuse_if (c.block.axis_words == 0) status_gcode_no_axis_words
    refuse_if (bit_isfalse c.block.axis_words (plane_mask c.block.modal.plane_select))
        status_gcode_no_axis_words_in_plane
    let turning =
        if c.block.modal.motion == 2
        then record c { parser_flags = bit_or c.parser_flags gc_parser_arc_is_clockwise }
        else c
    if bit_istrue c.block.value_words 0x80 then radius_arc gc turning else offset_arc gc turning

  -- Lines 809 to 820, by the mode 140 to 143.
  unfoldable pub check_probe : Parser W → Checked W → Check (Checked W)
  check_probe gc c = do
    let mode = c.block.modal.motion
    let calm = if mode == 141 || mode == 143 then gc_parser_probe_is_no_error else 0
    let away = if mode == 142 || mode == 143 then gc_parser_probe_is_away else 0
    refuse_if (c.block.axis_words == 0) status_gcode_no_axis_words
    refuse_if (is_here gc c) status_gcode_invalid_target
    pass (record c { parser_flags = bit_or (bit_or c.parser_flags calm) away })
