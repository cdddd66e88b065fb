-- ===== src/Gcode/Commands.antt =====
-- The command words of grbl/gcode.c: `G` in lines 143 to 234 and `M` in lines 242 to 284.
pub mod Groups
use tele_handwriter.Base.{
  ℕ, ◌+◌, ◌-◌, ◌/◌, ltb, leb, Bool, true, false, not, ◌&&◌, ◌||◌, List, [], ◌∷◌, ◌==◌,
  if◌then◌else◌,
}
use tele_handwriter.Spindle.{spindle_disable, spindle_enable_cw, spindle_enable_ccw}
use tele_handwriter.Protocol.Overrides.{coolant_flood_enable}
use tele_handwriter.Gcode.{
  Result, ok, fail, Modal, Block, among, axis_command_none, axis_command_non_modal,
  axis_command_motion_mode, axis_command_tool_length_offset, status_gcode_axis_command_conflict,
  status_gcode_unsupported_command, status_gcode_command_value_not_integer,
}

-- What a command word gives: its modal group, the block, and what is left of the mantissa.
pub record Command {ℓ} (W : Type ℓ) : Type ℓ where
  pub word_bit : ℕ
  pub block : Block W
  pub mantissa : ℕ

module _ {ℓ} {W : Type ℓ} where
  abbrev command : ℕ → Block W → ℕ → Result (Command W)
  command word_bit block mantissa =
      ok (record { word_bit = word_bit; block = block; mantissa = mantissa })

  abbrev put_modal : (Modal → Modal) → Block W → Block W
  put_modal f b = record b { modal = f b.modal }

  -- Lines 154 to 162: G4, G53 and, after the check for axis commands, G10, G28, G30 and G92.
  unfoldable pub non_modal : ℕ → ℕ → Block W → Result (Command W)
  non_modal int_value mantissa b =
      let pure = record b { non_modal_command = int_value } in
      let offset = record b { non_modal_command = int_value + mantissa } in
      if among int_value (28 ∷ 30 ∷ 92 ∷ [])
      then (if mantissa == 0 || mantissa == 10
          then command 0 offset 0
          else fail status_gcode_unsupported_command)
      else command 0 pure mantissa

  -- Lines 146 to 153.
  unfoldable pub axis_non_modal : ℕ → ℕ → Block W → Result (Command W)
  axis_non_modal int_value mantissa b =
      if not (mantissa == 0)
      then non_modal int_value mantissa b
      else if not (b.axis_command == 0)
      then fail status_gcode_axis_command_conflict
      else non_modal int_value mantissa (record b { axis_command = axis_command_non_modal })

  -- Lines 169 to 179: G80 and, after the check for axis commands, the motions.
  unfoldable pub motion : ℕ → ℕ → Block W → Result (Command W)
  motion int_value mantissa b =
      let moved = put_modal (λ g. record g { motion = int_value }) b in
      let probed = put_modal (λ g. record g { motion = int_value + (mantissa / 10 + 100) }) b in
      if int_value == 38
      then (if among mantissa (20 ∷ 30 ∷ 40 ∷ 50 ∷ [])
          then command 1 probed 0
          else fail status_gcode_unsupported_command)
      else command 1 moved mantissa

  -- Lines 163 to 168.
  unfoldable pub axis_motion : ℕ → ℕ → Block W → Result (Command W)
  axis_motion int_value mantissa b =
      if not (b.axis_command == 0)
      then fail status_gcode_axis_command_conflict
      else motion int_value mantissa (record b { axis_command = axis_command_motion_mode })

  -- Lines 184 to 194.
  unfoldable pub distance : ℕ → ℕ → Block W → Result (Command W)
  distance int_value mantissa b =
      if mantissa == 0
      then command 3 (put_modal (λ g. record g { distance = int_value - 90 }) b) mantissa
      else if not (mantissa == 10) || int_value == 90
      then fail status_gcode_unsupported_command
      else command 4 b 0

  -- Lines 209 to 222.
  unfoldable pub tool_length : ℕ → ℕ → Block W → Result (Command W)
  tool_length int_value mantissa b =
      let taken = record b { axis_command = axis_command_tool_length_offset } in
      if not (b.axis_command == 0)
      then fail status_gcode_axis_command_conflict
      else if int_value == 49
      then command 8 (put_modal (λ g. record g { tool_length = 0 }) taken) 0
      else if mantissa == 10
      then command 8 (put_modal (λ g. record g { tool_length = 1 }) taken) 0
      else fail status_gcode_unsupported_command

  -- Lines 145 to 234.
  unfoldable pub g_command : ℕ → ℕ → Block W → Result (Command W)
  g_command int_value mantissa b =
      if among int_value (10 ∷ 28 ∷ 30 ∷ 92 ∷ [])
      then axis_non_modal int_value mantissa b
      else if among int_value (4 ∷ 53 ∷ [])
      then non_modal int_value mantissa b
      else if among int_value (0 ∷ 1 ∷ 2 ∷ 3 ∷ 38 ∷ [])
      then axis_motion int_value mantissa b
      else if int_value == 80
      then motion int_value mantissa b
      else if among int_value (17 ∷ 18 ∷ 19 ∷ [])
      then command 2 (put_modal (λ g. record g { plane_select = int_value - 17 }) b) mantissa
      else if among int_value (90 ∷ 91 ∷ [])
      then distance int_value mantissa b
      else if among int_value (93 ∷ 94 ∷ [])
      then command 5 (put_modal (λ g. record g { feed_rate = 94 - int_value }) b) mantissa
      else if among int_value (20 ∷ 21 ∷ [])
      then command 6 (put_modal (λ g. record g { units = 21 - int_value }) b) mantissa
      else if int_value == 40
      then command 7 b mantissa
      else if among int_value (43 ∷ 49 ∷ [])
      then tool_length int_value mantissa b
      else if leb 54 int_value && leb int_value 59
      then command 9 (put_modal (λ g. record g { coord_select = int_value - 54 }) b) mantissa
      else if int_value == 61
      then (if mantissa == 0 then command 10 b mantissa else fail status_gcode_unsupported_command)
      else fail status_gcode_unsupported_command

  -- Lines 246 to 284.
  unfoldable pub m_command : ℕ → Block W → Result (Command W)
  m_command int_value b =
      let flow = λ (n : ℕ). put_modal (λ g. record g { program_flow = n }) b in
      let spindle = λ (n : ℕ). put_modal (λ g. record g { spindle = n }) b in
      let coolant = λ (n : ℕ). put_modal (λ g. record g { coolant = n }) b in
      if int_value == 0
      then command 11 (flow 3) 0
      else if int_value == 1
      then command 11 b 0
      else if int_value == 2 || int_value == 30
      then command 11 (flow int_value) 0
      else if int_value == 3
      then command 12 (spindle spindle_enable_cw) 0
      else if int_value == 4
      then command 12 (spindle spindle_enable_ccw) 0
      else if int_value == 5
      then command 12 (spindle spindle_disable) 0
      else if int_value == 8
      then command 13 (coolant coolant_flood_enable) 0
      else if int_value == 9
      then command 13 (coolant 0) 0
      else fail status_gcode_unsupported_command
