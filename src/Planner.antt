-- ===== src/Planner.antt =====
-- grbl/planner.c: the ring of planned blocks and the steps of a block. Speeds and accelerations are
-- floats and are left out: `planner_recalculate` shows only in the planned index that it leaves.
pub mod Blocks
pub mod Motion
pub mod Target
use tele_handwriter.Base.{
  ℕ, ◌+◌, ◌-◌, Bool, true, false, not, List, [], ◌∷◌, Option, none, some, ◌==◌, leb, if◌then◌else◌,
  max, set, get_or, bit_or,
}
use tele_handwriter.Base.Int.{ℤ, pos, ◌+ℤ◌, ◌-ℤ◌, abs, ltb_ℤ}
use tele_handwriter.System.Corexy.{
  Motors, system_convert_corexy_to_x_axis_steps, system_convert_corexy_to_y_axis_steps,
}

abbrev pub block_buffer_size : ℕ
block_buffer_size = 16

-- The integer part of `plan_block_t`.
pub record PlanBlock : Type 0 where
  pub steps_x : ℕ
  pub steps_y : ℕ
  pub steps_z : ℕ
  pub step_event_count : ℕ
  pub direction_bits : ℕ

abbrev pub no_plan_block : PlanBlock
no_plan_block = record {
  steps_x = 0;
  steps_y = 0;
  steps_z = 0;
  step_event_count = 0;
  direction_bits = 0;
}

-- A position in steps, of the axes or of the motors.
pub record Position : Type 0 where
  pub x : ℤ
  pub y : ℤ
  pub z : ℤ

pub record Planner : Type 0 where
  pub block_buffer : List PlanBlock
  pub block_buffer_tail : ℕ
  pub block_buffer_head : ℕ
  pub next_buffer_head : ℕ
  pub block_buffer_planned : ℕ
  pub position : Position

pub plan_next_block_index : ℕ → ℕ
plan_next_block_index block_index =
    if block_index + 1 == block_buffer_size then 0 else block_index + 1

pub plan_prev_block_index : ℕ → ℕ
plan_prev_block_index block_index =
    if block_index == 0 then block_buffer_size - 1 else block_index - 1

pub plan_reset_buffer : Planner → Planner
plan_reset_buffer pl = record pl {
  block_buffer_tail = 0;
  block_buffer_head = 0;
  next_buffer_head = 1;
  block_buffer_planned = 0;
}

pub plan_reset : Planner → Planner
plan_reset pl =
    plan_reset_buffer (record pl { position = record { x = pos 0; y = pos 0; z = pos 0 } })

pub plan_discard_current_block : Planner → Planner
plan_discard_current_block pl =
    let block_index = plan_next_block_index pl.block_buffer_tail in
    let planned =
      if pl.block_buffer_tail == pl.block_buffer_planned
      then block_index
      else pl.block_buffer_planned in
    if not (pl.block_buffer_head == pl.block_buffer_tail)
    then record pl { block_buffer_planned = planned; block_buffer_tail = block_index }
    else pl

pub plan_get_current_block : Planner → Option PlanBlock
plan_get_current_block pl =
    if pl.block_buffer_head == pl.block_buffer_tail
    then none
    else some (get_or pl.block_buffer pl.block_buffer_tail no_plan_block)

unfoldable pub plan_check_full_buffer : Planner → Bool
plan_check_full_buffer pl = pl.block_buffer_tail == pl.next_buffer_head

pub plan_get_block_buffer_available : Planner → ℕ
plan_get_block_buffer_available pl =
    let head = pl.block_buffer_head in
    let tail = pl.block_buffer_tail in
    if leb tail head then block_buffer_size - 1 - (head - tail) else tail - head - 1

pub plan_get_block_buffer_count : Planner → ℕ
plan_get_block_buffer_count pl =
    let head = pl.block_buffer_head in
    let tail = pl.block_buffer_tail in
    if leb tail head then head - tail else block_buffer_size - (tail - head)

-- Lines 328 to 379 of `plan_buffer_line`: the motor steps and direction bits of a move. A direction
-- bit is set where the difference is negative; settings.steps_per_mm is positive.
pub block_steps : Position → Position → PlanBlock
block_steps target position =
    let dx = target.x -ℤ position.x in
    let dy = target.y -ℤ position.y in
    let dz = target.z -ℤ position.z in
    let a = dx +ℤ dy in
    let b = dx -ℤ dy in
    let x_bit = if ltb_ℤ a (pos 0) then 32 else 0 in
    let y_bit = if ltb_ℤ b (pos 0) then 64 else 0 in
    let z_bit = if ltb_ℤ dz (pos 0) then 128 else 0 in
    record {
      steps_x = abs a;
      steps_y = abs b;
      steps_z = abs dz;
      step_event_count = max (max (abs a) (abs b)) (abs dz);
      direction_bits = bit_or (bit_or x_bit y_bit) z_bit;
    }

-- `plan_buffer_line` on a buffer that is not full, for a motion that is not a system motion: the
-- target is in steps, `planned` is the planned index after the recalculation.
pub plan_buffer_line : Position → ℕ → Planner → Bool × Planner
plan_buffer_line target planned pl =
    let block = block_steps target pl.position in
    let appended = record pl {
      block_buffer = set pl.block_buffer pl.block_buffer_head block;
      position = target;
      block_buffer_head = pl.next_buffer_head;
      next_buffer_head = plan_next_block_index pl.next_buffer_head;
      block_buffer_planned = planned;
    } in
    if block.step_event_count == 0
    then (false, record pl { block_buffer = set pl.block_buffer pl.block_buffer_head block })
    else (true, appended)

-- The planner takes over the position of the machine: the motors A and B stand in x and y.
pub plan_sync_position : Position → Planner → Planner
plan_sync_position sys_position pl =
    let motors : Motors = record { a = sys_position.x; b = sys_position.y } in
    record pl {
      position = record {
        x = system_convert_corexy_to_x_axis_steps motors;
        y = system_convert_corexy_to_y_axis_steps motors;
        z = sys_position.z;
      };
    }
