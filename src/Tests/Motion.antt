-- ===== src/Tests/Motion.antt =====
-- Examples for the planner, the kinematics and the stepper interrupt.
use tele_handwriter.Base.{
  ◌≤◌, ◌≡◌, refl, true, false, [], ◌∷◌, ◌++◌, ◌==◌, replicate, if◌then◌else◌, arith,
}
use tele_handwriter.Base.Int.{pos, negsuc, ◌+ℤ◌, ◌-ℤ◌}
use tele_handwriter.System.Corexy.{
  system_convert_corexy_to_x_axis_steps, system_convert_corexy_to_y_axis_steps,
}
use tele_handwriter.Planner.{
  Planner, Position, block_steps, no_plan_block, plan_buffer_line, plan_check_full_buffer,
  block_buffer_size,
}
use tele_handwriter.Planner.Blocks.{IsValid, planned_blocks, plan_buffer_line_refines}
use tele_handwriter.Planner.Motion.{motor_moves, block_steps_reaches}
use tele_handwriter.Stepper.{Axis, Stepper, StBlock, Segment, load_segment}
use tele_handwriter.Stepper.Bresenham.{run_block, moves, run_block-exact}
use tele_handwriter.Stepper.Segments.{interrupts, IsDone, segment_executes}
use tele_handwriter.Tests.{machine}

abbrev pub origin : Position
origin = record { x = pos 0; y = pos 0; z = pos 0 }

abbrev pub goal : Position
goal = record { x = pos 3; y = negsuc 4; z = pos 1 }

block_steps_reaches_example :
    (system_convert_corexy_to_x_axis_steps (record {
      a = (motor_moves (block_steps goal origin)).x;
      b = (motor_moves (block_steps goal origin)).y;
    })
      ≡ pos 3 -ℤ pos 0)
    × (system_convert_corexy_to_y_axis_steps (record {
      a = (motor_moves (block_steps goal origin)).x;
      b = (motor_moves (block_steps goal origin)).y;
    })
        ≡ negsuc 4 -ℤ pos 0)
    × ((motor_moves (block_steps goal origin)).z ≡ pos 1 -ℤ pos 0)
    × ((block_steps goal origin).steps_x ≤ (block_steps goal origin).step_event_count)
    × ((block_steps goal origin).steps_y ≤ (block_steps goal origin).step_event_count)
    × ((block_steps goal origin).steps_z ≤ (block_steps goal origin).step_event_count)
block_steps_reaches_example = block_steps_reaches goal origin

-- A ring about to wrap round.
abbrev pub planner : Planner
planner = record {
  block_buffer = replicate block_buffer_size no_plan_block;
  block_buffer_tail = 14;
  block_buffer_head = 15;
  next_buffer_head = 0;
  block_buffer_planned = 14;
  position = origin;
}

pub planner-IsValid : IsValid planner
planner-IsValid = record {
  slots = refl;
  head_in = omega arith;
  tail_in = omega arith;
  next_head = refl;
}

planner-room : plan_check_full_buffer planner ≡ false
unfolding plan_check_full_buffer
planner-room = refl

plan_buffer_line_refines_example :
    (planned_blocks (plan_buffer_line goal 14 planner).1 ≡ (
      if (block_steps goal origin).step_event_count == 0
      then planned_blocks planner
      else planned_blocks planner ++ block_steps goal origin ∷ []))
    × IsValid (plan_buffer_line goal 14 planner).1
plan_buffer_line_refines_example =
    plan_buffer_line_refines goal 14 planner planner-IsValid planner-room

-- A block of 3 step events of which the axis makes 2, backwards: 8 ticks at level 2, 1 at level 0.
abbrev axis : Axis
axis = record { counter = 12; steps = 0; position = pos 10 }

run_block-exact_example :
    ((run_block true 24 16 ((8, 2) ∷ (1, 0) ∷ []) axis).position ≡ pos 10 +ℤ moves true 2)
    × ((run_block true 24 16 ((8, 2) ∷ (1, 0) ∷ []) axis).counter ≡ 12)
run_block-exact_example =
    run_block-exact true 3 2 ((8, 2) ∷ (1, 0) ∷ []) axis (omega arith) (omega arith) (omega arith)
      (omega arith, (omega arith, tt)) refl refl

abbrev st_block : StBlock
st_block = record {
  steps_x = 16;
  steps_y = 24;
  steps_z = 0;
  step_event_count = 24;
  direction_bits = 32;
  is_pwm_rate_adjusted = false;
}

abbrev segment : Segment
segment = record { n_step = 3; st_block_index = 1; amass_level = 0; spindle_pwm = 7 }

abbrev stepper : Stepper
stepper = record {
  x = axis;
  y = axis;
  z = axis;
  step_outbits = 0;
  dir_outbits = 0;
  step_count = 0;
  exec_block_index = 0;
  is_loaded = false;
  segment_buffer = replicate 6 segment;
  segment_buffer_tail = 5;
  segment_buffer_head = 1;
  st_block_buffer = replicate 5 st_block;
  step_port_invert_mask = 0;
  dir_port_invert_mask = 0;
  step_port = 0;
  direction_port = 0;
  busy = false;
  effects = [];
}

segment_executes_example : IsDone 3 (load_segment stepper) (interrupts (machine 8 0).sys 3 stepper)
segment_executes_example =
    segment_executes (machine 8 0).sys stepper 2 refl refl (λ e. absurd (omega (arith, e))) refl
      (omega arith)
