-- ===== src/Gcode/Line/Work.antt =====
-- The work position that a block of grbl/gcode.c asks for, as `report_realtime_status` of
-- grbl/report.c, lines 507 to 514, makes it of the position and the offsets.
pub mod Convert
pub mod Frame
pub mod Offsets
pub mod Targets
use tele_handwriter.Base.{
  ℕ, zero, suc, ◌-◌, ◌^◌, ◌<◌, ltb, leb, ◌≡◌, ◌≢◌, ◌⊎◌, inl, inr, refl, sym, ◌∙◌, ap, Bool, true,
  false, not, ◌&&◌, ◌||◌, Bool-cases, Option-cases, Option, none, some, List, [], ◌∷◌, ◌==◌,
  if◌then◌else◌, arith, bit_or,
}
use tele_handwriter.Base.Bits.{bit_istrue, bit_isfalse}
use tele_handwriter.Gcode.{Modal, Block, axis_command_tool_length_offset}
use tele_handwriter.Gcode.State.{
  Vector, at, axes, xyz, Arithmetic, Parser, Coords, Checked, Check, pass, refuse, unread, ◌>>=◌,
  ◌>>◌, >>=-eq-pass, refuse_if, read_coord,
}
use tele_handwriter.Gcode.Offsets.{
  inches, convert_units, check_tool_length, check_coord_system, less_tool, offset_data,
  set_coordinate_offset, target_on, set_target, check_target, check_non_modal,
  tool_length_offset_axis,
}
use tele_handwriter.Gcode.Check.{
  is_jog, imply_motion, check_line_number, check_feed, feed_per_min, keep_speed, check_dwell,
  check_motion, check_feed_motion, check_unused, check_block,
}
use tele_handwriter.Gcode.Events.{Surroundings, Run}
use tele_handwriter.Gcode.Execute.{
  first_run, execute_block, run_non_modal, run_motion, move, run_commands, run_program_flow,
}
use tele_handwriter.Gcode.Modes.{
  laser_flags, set_feed, set_spindle_speed, set_spindle_mode, set_coolant_mode, set_modes,
  set_tool_length, set_coord_system, spindle_sync, coolant_sync,
}

pub if_true {ℓ} : {A : Type ℓ} (b : Bool) (x y : A) → b ≡ true → (if b then x else y) ≡ x
if_true true x y h = refl
if_true false x y h = cc

-- Exact arithmetic: addition is associative and commutative, and subtraction undoes it.
pub record IsExact {ℓ} {W : Type ℓ} (arithmetic : Arithmetic W) : Type ℓ where
  pub plus_assoc :
      (x y z : W)
      → arithmetic.plus (arithmetic.plus x y) z ≡ arithmetic.plus x (arithmetic.plus y z)
  pub plus_comm : (x y : W) → arithmetic.plus x y ≡ arithmetic.plus y x
  pub minus-plus : (x y : W) → arithmetic.minus (arithmetic.plus x y) y ≡ x
  pub plus-minus : (x y : W) → arithmetic.plus (arithmetic.minus x y) y ≡ x

module _ {ℓ} {W : Type ℓ} (arithmetic : Arithmetic W) where
  -- A position less the offset of its axis.
  abbrev pub less_offset : Bool → (position system offset tool : W) → W
  less_offset has_tool position system offset tool =
      let sum = arithmetic.plus system offset in
      arithmetic.minus position (if has_tool then arithmetic.plus sum tool else sum)

  -- `wco[idx]` and the position less it.
  abbrev pub work_position : Parser W → ℕ → W
  work_position g idx =
      less_offset (idx == tool_length_offset_axis) (at g.position idx) (at g.coord_system idx)
        (at g.coord_offset idx) g.tool_length_offset

  -- Equal parts have equal work positions.
  pub work_position_of :
      (g : Parser W) (idx : ℕ) (p system offset tool : W)
      → at g.position idx ≡ p
      → at g.coord_system idx ≡ system
      → at g.coord_offset idx ≡ offset
      → g.tool_length_offset ≡ tool
      → work_position g idx ≡ less_offset (idx == tool_length_offset_axis) p system offset tool
  work_position_of g idx p system offset tool e f h i =
      let b = idx == tool_length_offset_axis in
      ap (λ x. less_offset b x (at g.coord_system idx) (at g.coord_offset idx) g.tool_length_offset)
        e
      ∙ ap (λ x. less_offset b p x (at g.coord_offset idx) g.tool_length_offset) f
      ∙ ap (λ x. less_offset b p system x g.tool_length_offset) h
      ∙ ap (λ x. less_offset b p system offset x) i

module _ {ℓ} {W : Type ℓ} where
  pub at-axes : (f : ℕ → W) (idx : ℕ) → idx < 3 → at (axes f) idx ≡ f idx
  at-axes f zero l = refl
  at-axes f (suc zero) l = refl
  at-axes f (suc (suc zero)) l = refl
  at-axes f (suc (suc (suc idx))) l = absurd (omega (arith, l))

  -- The system of the block is the one in use, unless another is selected.
  abbrev pub SystemKept : Parser W → Checked W → Type ℓ
  SystemKept gc d =
      d.block.modal.coord_select ≡ gc.modal.coord_select → d.block_coord_system ≡ gc.coord_system
