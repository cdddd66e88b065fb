-- ===== src/Gcode/Offsets.antt =====
-- The error check of `gc_execute_line` in grbl/gcode.c, lines 474 to 643: units, tool
-- length, coordinate systems and the non-modal commands. TOOL_LENGTH_OFFSET_AXIS is the z axis. The
-- argument `coords` is what the EEPROM holds.
use tele_handwriter.Base.{ℕ, ◌-◌, ◌^◌, ltb, not, ◌&&◌, ◌||◌, ◌==◌, if◌then◌else◌, bit_xor}
use tele_handwriter.Base.Bits.{bit_istrue, bit_isfalse}
use tele_handwriter.Gcode.{
  Modal, Block, status_gcode_unsupported_command, axis_command_none,
  axis_command_tool_length_offset,
}
use tele_handwriter.Gcode.State.{
  Vector, at, axes, xyz, put_xyz, put_ijk, Arithmetic, Parser, Coords, Checked, Check, pass, refuse,
  ◌>>=◌, ◌>>◌, refuse_if, put_values, clear_words, read_coord,
}

abbrev pub status_gcode_no_axis_words : ℕ
status_gcode_no_axis_words = 26

abbrev pub status_gcode_value_word_missing : ℕ
status_gcode_value_word_missing = 28

abbrev pub status_gcode_unsupported_coord_sys : ℕ
status_gcode_unsupported_coord_sys = 29

abbrev pub status_gcode_g53_invalid_motion_mode : ℕ
status_gcode_g53_invalid_motion_mode = 30

abbrev pub status_gcode_g43_dynamic_axis_error : ℕ
status_gcode_g43_dynamic_axis_error = 37

abbrev pub n_coordinate_system : ℕ
n_coordinate_system = 6

abbrev pub setting_index_g28 : ℕ
setting_index_g28 = 6

abbrev pub setting_index_g30 : ℕ
setting_index_g30 = 7

abbrev pub tool_length_offset_axis : ℕ
tool_length_offset_axis = 2

module _ {ℓ} {W : Type ℓ} (arithmetic : Arithmetic W) where
  abbrev pub inches : Modal → W → W
  inches modal value =
      if modal.units == 1 then arithmetic.times value arithmetic.mm_per_inch else value

  -- Lines 475 to 482.
  unfoldable pub convert_units : Checked W → Checked W
  convert_units c =
      let b = c.block in
      let target = axes λ idx.
        if bit_istrue b.axis_words (2 ^ idx)
        then inches b.modal (at (xyz b.values) idx)
        else at (xyz b.values) idx in
      put_values (put_xyz target) c

  -- Lines 493 to 497.
  unfoldable pub check_tool_length : Checked W → Check (Checked W)
  check_tool_length c = do
    refuse_if
        (c.block.axis_command == axis_command_tool_length_offset
          && c.block.modal.tool_length == 1
          && not (bit_xor c.block.axis_words 4 == 0))
        status_gcode_g43_dynamic_axis_error
    pass c

  -- Lines 504 to 511.
  unfoldable pub check_coord_system : Coords W → Parser W → Checked W → Check (Checked W)
  check_coord_system coords gc c =
      let select = c.block.modal.coord_select in
      let kept = record c { block_coord_system = gc.coord_system } in
      if bit_isfalse c.block.command_words (2 ^ 9)
      then pass kept
      else if ltb n_coordinate_system select
      then refuse status_gcode_unsupported_coord_sys
      else if gc.modal.coord_select == select
      then pass kept
      else (read_coord coords select >>= λ system. pass (record c { block_coord_system = system }))

  -- `value -= gc_state.tool_length_offset` on the tool length axis.
  abbrev pub less_tool : Parser W → ℕ → W → W
  less_tool gc idx value =
      if idx == tool_length_offset_axis then arithmetic.minus value gc.tool_length_offset else value

  -- Lines 546 to 559, the new coordinate data of one axis for G10.
  unfoldable pub coord_data : Parser W → Block W → Vector W → ℕ → W
  coord_data gc b stored idx =
      let free = arithmetic.minus (at gc.position idx) (at gc.coord_offset idx) in
      if bit_isfalse b.axis_words (2 ^ idx)
      then at stored idx
      else if b.values.l == 20
      then less_tool gc idx (arithmetic.minus free (at (xyz b.values) idx))
      else at (xyz b.values) idx

  -- Lines 542 to 559.
  unfoldable pub change_data : Coords W → Parser W → ℕ → Checked W → Check (Checked W)
  change_data coords gc coord_select c = do
    stored ← read_coord coords coord_select
    let changed = put_values (put_ijk (axes (coord_data gc c.block stored))) (clear_words 0x50 c)
    pass (record changed { coord_select = coord_select })

  -- Lines 523 to 560, G10.
  unfoldable pub set_coordinate_data : Coords W → Parser W → Checked W → Check (Checked W)
  set_coordinate_data coords gc c = do
    let b = c.block
    let number = arithmetic.byte b.values.p
    let coord_select = if ltb 0 number then number - 1 else b.modal.coord_select
    refuse_if (b.axis_words == 0) status_gcode_no_axis_words
    refuse_if (bit_isfalse b.value_words 0x50) status_gcode_value_word_missing
    refuse_if (ltb n_coordinate_system number) status_gcode_unsupported_coord_sys
    refuse_if
        (not (b.values.l == 20) && (not (b.values.l == 2) || bit_istrue b.value_words (2 ^ 7)))
        status_gcode_unsupported_command
    change_data coords gc coord_select c

  -- Lines 567 to 575, the new offset of one axis for G92.
  unfoldable pub offset_data : Parser W → Checked W → ℕ → W
  offset_data gc c idx =
      let b = c.block in
      let free = arithmetic.minus (at gc.position idx) (at c.block_coord_system idx) in
      if bit_istrue b.axis_words (2 ^ idx)
      then less_tool gc idx (arithmetic.minus free (at (xyz b.values) idx))
      else at gc.coord_offset idx

  -- Lines 561 to 576, G92.
  unfoldable pub set_coordinate_offset : Parser W → Checked W → Check (Checked W)
  set_coordinate_offset gc c = do
    refuse_if (c.block.axis_words == 0) status_gcode_no_axis_words
    pass (put_values (put_xyz (axes (offset_data gc c))) c)

  -- Lines 586 to 601, the target on one axis.
  unfoldable pub target_on : Parser W → Checked W → ℕ → W
  target_on gc c idx =
      let b = c.block in
      let value = at (xyz b.values) idx in
      let offset = arithmetic.plus (at c.block_coord_system idx) (at gc.coord_offset idx) in
      let absolute = arithmetic.plus value offset in
      if bit_isfalse b.axis_words (2 ^ idx)
      then at gc.position idx
      else if b.non_modal_command == 53
      then value
      else if b.modal.distance == 0
      then (if idx == tool_length_offset_axis
          then arithmetic.plus absolute gc.tool_length_offset
          else absolute)
      else arithmetic.plus value (at gc.position idx)

  -- Lines 584 to 604.
  unfoldable pub set_target : Parser W → Checked W → Checked W
  set_target gc c =
      let b = c.block in
      if b.axis_command == axis_command_tool_length_offset || b.axis_words == 0
      then c
      else put_values (put_xyz (axes (target_on gc c))) c

  -- Lines 608 to 625, G28 and G30 with the index of their position.
  unfoldable pub go_home : Coords W → Parser W → ℕ → Checked W → Check (Checked W)
  go_home coords gc index c = do
    stored ← read_coord coords index
    let b = c.block
    let secondary =
        axes λ idx. if bit_isfalse b.axis_words (2 ^ idx) then at gc.position idx else at stored idx
    let still = put_values (put_ijk stored) c
    pass (
        if b.axis_words == 0
        then record still { block = record still.block { axis_command = axis_command_none } }
        else put_values (put_ijk secondary) c)

  -- Lines 578 to 642, the other commands.
  unfoldable pub check_target : Coords W → Parser W → Checked W → Check (Checked W)
  check_target coords gc c =
      let b = c.block in
      let aimed = set_target gc c in
      if b.non_modal_command == 28
      then go_home coords gc setting_index_g28 aimed
      else if b.non_modal_command == 30
      then go_home coords gc setting_index_g30 aimed
      else if b.non_modal_command == 53 && not (b.modal.motion == 0 || b.modal.motion == 1)
      then refuse status_gcode_g53_invalid_motion_mode
      else pass aimed

  -- Lines 522 to 643.
  unfoldable pub check_non_modal : Coords W → Parser W → Checked W → Check (Checked W)
  check_non_modal coords gc c =
      if c.block.non_modal_command == 10
      then set_coordinate_data coords gc c
      else if c.block.non_modal_command == 92
      then set_coordinate_offset gc c
      else check_target coords gc c
