-- ===== src/Planner/Motion.antt =====
-- The steps of a block, its direction bits and the axes that it moves.
use tele_handwriter.Base.{
  ◌≤◌, ◌≡◌, refl, ap, ap₂, ◌∙◌, Bool, true, false, if◌then◌else◌, bit_or, arith,
}
use tele_handwriter.Base.Bits.{bit_istrue}
use tele_handwriter.Base.Int.{ℤ, pos, ◌+ℤ◌, ◌-ℤ◌, abs, ltb_ℤ}
use tele_handwriter.System.Corexy.{
  Motors, motor_steps, system_convert_corexy_to_x_axis_steps, system_convert_corexy_to_y_axis_steps,
  corexy_round_trip,
}
use tele_handwriter.Stepper.{x_direction_mask, y_direction_mask, z_direction_mask}
use tele_handwriter.Stepper.Bresenham.{moves}
use tele_handwriter.Planner.{PlanBlock, Position, block_steps}

-- The move of the three motors that a block stands for.
abbrev pub motor_moves : PlanBlock → Position
motor_moves block = record {
  x = moves (bit_istrue block.direction_bits x_direction_mask) block.steps_x;
  y = moves (bit_istrue block.direction_bits y_direction_mask) block.steps_y;
  z = moves (bit_istrue block.direction_bits z_direction_mask) block.steps_z;
}

moves-abs : (a : ℤ) → moves (ltb_ℤ a (pos 0)) (abs a) ≡ a
unfolding moves
moves-abs a = ground arith

bits_lem :
    (x y z : Bool)
    → let bits =
        bit_or (bit_or (if x then 32 else 0) (if y then 64 else 0)) (if z then 128 else 0) in
      (bit_istrue bits x_direction_mask ≡ x)
      × (bit_istrue bits y_direction_mask ≡ y)
      × (bit_istrue bits z_direction_mask ≡ z)
bits_lem true true true = (refl, refl, refl)
bits_lem true true false = (refl, refl, refl)
bits_lem true false true = (refl, refl, refl)
bits_lem true false false = (refl, refl, refl)
bits_lem false true true = (refl, refl, refl)
bits_lem false true false = (refl, refl, refl)
bits_lem false false true = (refl, refl, refl)
bits_lem false false false = (refl, refl, refl)

motor_moves-block_steps :
    (target position : Position)
    → let move = motor_moves (block_steps target position) in
      let dx = target.x -ℤ position.x in
      let dy = target.y -ℤ position.y in
      (move.x ≡ dx +ℤ dy) × (move.y ≡ dx -ℤ dy) × (move.z ≡ target.z -ℤ position.z)
unfolding block_steps
motor_moves-block_steps target position =
    let dx = target.x -ℤ position.x in
    let dy = target.y -ℤ position.y in
    let dz = target.z -ℤ position.z in
    let a = dx +ℤ dy in
    let b = dx -ℤ dy in
    let bits = bits_lem (ltb_ℤ a (pos 0)) (ltb_ℤ b (pos 0)) (ltb_ℤ dz (pos 0)) in
    (
      ap (λ t. moves t (abs a)) bits.0 ∙ moves-abs a,
      ap (λ t. moves t (abs b)) bits.1 ∙ moves-abs b,
      ap (λ t. moves t (abs dz)) bits.2 ∙ moves-abs dz,
    )

block_steps-dominated :
    (target position : Position)
    → let block = block_steps target position in
      (block.steps_x ≤ block.step_event_count)
      × (block.steps_y ≤ block.step_event_count)
      × (block.steps_z ≤ block.step_event_count)
unfolding block_steps
block_steps-dominated target position = (omega arith, omega arith, omega arith)

-- The motors make the moves of a block: the axes then go from the position to the target, and no
-- motor makes more steps than the block has step events.
pub block_steps_reaches :
    (target position : Position)
    → let block = block_steps target position in
      let move = motor_moves block in
      let motors : Motors = record { a = move.x; b = move.y } in
      (system_convert_corexy_to_x_axis_steps motors ≡ target.x -ℤ position.x)
      × (system_convert_corexy_to_y_axis_steps motors ≡ target.y -ℤ position.y)
      × (move.z ≡ target.z -ℤ position.z)
      × (block.steps_x ≤ block.step_event_count)
      × (block.steps_y ≤ block.step_event_count)
      × (block.steps_z ≤ block.step_event_count)
unfolding motor_steps
block_steps_reaches target position =
    let dx = target.x -ℤ position.x in
    let dy = target.y -ℤ position.y in
    let moved = motor_moves-block_steps target position in
    let bounds = block_steps-dominated target position in
    let x_of : ℤ → ℤ → ℤ = λ a b. system_convert_corexy_to_x_axis_steps (record { a = a; b = b }) in
    let y_of : ℤ → ℤ → ℤ = λ a b. system_convert_corexy_to_y_axis_steps (record { a = a; b = b }) in
    (
      ap₂ x_of moved.0 moved.1 ∙ (corexy_round_trip dx dy).0,
      ap₂ y_of moved.0 moved.1 ∙ (corexy_round_trip dx dy).1,
      moved.2,
      bounds.0,
      bounds.1,
      bounds.2,
    )
