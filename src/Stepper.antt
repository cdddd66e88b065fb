-- ===== src/Stepper.antt =====
-- The stepper interrupt of grbl/stepper.c, with adaptive step smoothing and a variable spindle. The
-- pointers exec_segment and exec_block are the tail of the segment buffer, while one is loaded, and
-- the block at exec_block_index. A call of another component is an effect. Timer registers are left
-- out. A position does not wrap, since overflow of an int32_t is undefined.
pub mod Bresenham
pub mod Segments
pub mod Setup
use tele_handwriter.Base.{
  ℕ, ◌+◌, ◌-◌, ◌*◌, ◌/◌, ◌^◌, Bool, true, false, not, List, [], ◌∷◌, ◌==◌, ltb, if◌then◌else◌,
  get_or, bit_and, bit_or, bit_xor, u16, u32,
}
use tele_handwriter.Base.Bits.{bit_istrue, bit_not8}
use tele_handwriter.Base.Ring.{next}
use tele_handwriter.Base.Int.{ℤ, pos, negsuc, ◌+ℤ◌}
use tele_handwriter.System.{Sys, state_homing}

abbrev pub segment_buffer_size : ℕ
segment_buffer_size = 6

abbrev pub x_step_mask : ℕ
x_step_mask = 4

abbrev pub y_step_mask : ℕ
y_step_mask = 8

abbrev pub z_step_mask : ℕ
z_step_mask = 16

abbrev pub x_direction_mask : ℕ
x_direction_mask = 32

abbrev pub y_direction_mask : ℕ
y_direction_mask = 64

abbrev pub z_direction_mask : ℕ
z_direction_mask = 128

abbrev pub step_mask : ℕ
step_mask = 28

abbrev pub direction_mask : ℕ
direction_mask = 224

-- `st_block_t`
pub record StBlock : Type 0 where
  pub steps_x : ℕ
  pub steps_y : ℕ
  pub steps_z : ℕ
  pub step_event_count : ℕ
  pub direction_bits : ℕ
  pub is_pwm_rate_adjusted : Bool

-- `segment_t` without the timer period.
pub record Segment : Type 0 where
  pub n_step : ℕ
  pub st_block_index : ℕ
  pub amass_level : ℕ
  pub spindle_pwm : ℕ

pub data Effect : Type 0 where
  st_go_idle set_cycle_stop probe_state_monitor : Effect
  spindle_set_speed : ℕ → Effect

-- One axis of `stepper_t`: its counter, its increment and its part of sys_position.
pub record Axis : Type 0 where
  pub counter : ℕ
  pub steps : ℕ
  pub position : ℤ

-- `stepper_t`, the segment and block buffers and the ports.
pub record Stepper : Type 0 where
  pub x : Axis
  pub y : Axis
  pub z : Axis
  pub step_outbits : ℕ
  pub dir_outbits : ℕ
  pub step_count : ℕ
  pub exec_block_index : ℕ
  pub is_loaded : Bool
  pub segment_buffer : List Segment
  pub segment_buffer_tail : ℕ
  pub segment_buffer_head : ℕ
  pub st_block_buffer : List StBlock
  pub step_port_invert_mask : ℕ
  pub dir_port_invert_mask : ℕ
  pub step_port : ℕ
  pub direction_port : ℕ
  pub busy : Bool
  pub effects : List Effect

abbrev no_block : StBlock
no_block = record {
  steps_x = 0;
  steps_y = 0;
  steps_z = 0;
  step_event_count = 0;
  direction_bits = 0;
  is_pwm_rate_adjusted = false;
}

abbrev no_segment : Segment
no_segment = record { n_step = 0; st_block_index = 0; amass_level = 0; spindle_pwm = 0 }

abbrev pub exec_block : Stepper → StBlock
exec_block st = get_or st.st_block_buffer st.exec_block_index no_block

abbrev pub exec_segment : Stepper → Segment
exec_segment st = get_or st.segment_buffer st.segment_buffer_tail no_segment

abbrev effect : Effect → Stepper → Stepper
effect e st = record st { effects = e ∷ st.effects }

-- Lines 312 to 327: the ports take the bits of the last tick.
set_ports : Stepper → Stepper
set_ports st = record st {
  direction_port =
      bit_or (bit_and st.direction_port (bit_not8 direction_mask))
        (bit_and st.dir_outbits direction_mask);
  step_port = bit_or (bit_and st.step_port (bit_not8 step_mask)) st.step_outbits;
  busy = true;
}

-- A counter starts at half the event count when the block changes.
start_axis : Bool → ℕ → Axis → Axis
start_axis is_new events a = if is_new then record a { counter = events / 2 } else a

-- `steps >> amass_level`
shift_axis : ℕ → ℕ → Axis → Axis
shift_axis steps level a = record a { steps = steps / 2 ^ level }

-- Lines 334 to 367: a segment is loaded.
pub load_segment : Stepper → Stepper
load_segment st =
    let segment = exec_segment st in
    let is_new = not (st.exec_block_index == segment.st_block_index) in
    let block = get_or st.st_block_buffer segment.st_block_index no_block in
    let level = segment.amass_level in
    effect (spindle_set_speed segment.spindle_pwm) (record st {
      is_loaded = true;
      step_count = segment.n_step;
      exec_block_index = segment.st_block_index;
      dir_outbits = bit_xor block.direction_bits st.dir_port_invert_mask;
      x = shift_axis block.steps_x level (start_axis is_new block.step_event_count st.x);
      y = shift_axis block.steps_y level (start_axis is_new block.step_event_count st.y);
      z = shift_axis block.steps_z level (start_axis is_new block.step_event_count st.z);
    })

-- Lines 369 to 378: nothing is left to execute.
shut_down : Stepper → Stepper
shut_down st =
    let idle = record (effect st_go_idle st) { busy = false } in
    effect set_cycle_stop
      (if (exec_block st).is_pwm_rate_adjusted then effect (spindle_set_speed 0) idle else idle)

-- A tick of one axis pulses when the counter passes the event count.
pub pulses : ℕ → Axis → Bool
pulses events a = ltb events (u32 (a.counter + a.steps))

pub axis_step : Bool → ℕ → Axis → Axis
axis_step is_negative events a =
    let counter = u32 (a.counter + a.steps) in
    let moved = if is_negative then a.position +ℤ negsuc 0 else a.position +ℤ pos 1 in
    if pulses events a
    then record a { counter = counter - events; position = moved }
    else record a { counter = counter }

-- Lines 385 to 421.
pub step_axes : Stepper → Stepper
step_axes st =
    let block = exec_block st in
    let events = block.step_event_count in
    let bits = block.direction_bits in
    let x_bit = if pulses events st.x then x_step_mask else 0 in
    let y_bit = if pulses events st.y then y_step_mask else 0 in
    let z_bit = if pulses events st.z then z_step_mask else 0 in
    record st {
      step_outbits = bit_or (bit_or x_bit y_bit) z_bit;
      x = axis_step (bit_istrue bits x_direction_mask) events st.x;
      y = axis_step (bit_istrue bits y_direction_mask) events st.y;
      z = axis_step (bit_istrue bits z_direction_mask) events st.z;
    }

-- Lines 423 to 435: the homing lock, the end of a segment and the inverted pins.
pub end_tick : Sys → Stepper → Stepper
end_tick s st =
    let locked =
      if s.state == state_homing
      then bit_and st.step_outbits s.homing_axis_lock
      else st.step_outbits in
    let count = u16 (st.step_count + 65535) in
    let done = record st {
      is_loaded = false;
      segment_buffer_tail = next segment_buffer_size st.segment_buffer_tail;
    } in
    record (if count == 0 then done else st) {
      step_count = count;
      step_outbits = bit_xor locked st.step_port_invert_mask;
      busy = false;
    }

-- The part of a tick that steps, once a segment is loaded.
pub tick : Sys → Bool → Stepper → Stepper
tick s probe_active st =
    end_tick s (step_axes (if probe_active then effect probe_state_monitor st else st))

-- `ISR(TIMER1_COMPA_vect)`
pub timer1_compa : Sys → Bool → Stepper → Stepper
timer1_compa s probe_active st =
    let ready = set_ports st in
    if st.busy
    then st
    else if st.is_loaded
    then tick s probe_active ready
    else if not (st.segment_buffer_head == st.segment_buffer_tail)
    then tick s probe_active (load_segment ready)
    else shut_down ready

-- `ISR(TIMER0_OVF_vect)`: the falling edge of the pulse.
pub timer0_ovf : Stepper → Stepper
timer0_ovf st = record st {
  step_port =
      bit_or (bit_and st.step_port (bit_not8 step_mask))
        (bit_and st.step_port_invert_mask step_mask);
}
