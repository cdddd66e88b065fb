-- ===== src/Stepper/Setup.antt =====
-- The set-up of grbl/stepper.c, with the pin masks of grbl/settings.c: the inverted pins and st_reset.
use tele_handwriter.Base.{ℕ, ◌==◌, if◌then◌else◌, false, bit_and, bit_or}
use tele_handwriter.Base.Bits.{bit_istrue, bit_not8}
use tele_handwriter.Stepper.{
  Stepper, Axis, st_go_idle, effect, x_step_mask, y_step_mask, z_step_mask, x_direction_mask,
  y_direction_mask, z_direction_mask, step_mask, direction_mask,
}

pub get_step_pin_mask : ℕ → ℕ
get_step_pin_mask axis_idx =
    if axis_idx == 0 then x_step_mask else if axis_idx == 1 then y_step_mask else z_step_mask

pub get_direction_pin_mask : ℕ → ℕ
get_direction_pin_mask axis_idx =
    if axis_idx == 0
    then x_direction_mask
    else if axis_idx == 1
    then y_direction_mask
    else z_direction_mask

-- The pin masks of the axes whose bit is set in a setting, for the axes 0, 1 and 2.
invert_mask : (ℕ → ℕ) → ℕ → ℕ
invert_mask pin_mask setting =
    let mask_of : ℕ → ℕ → ℕ =
      λ axis_bit idx. if bit_istrue setting axis_bit then pin_mask idx else 0 in
    bit_or (bit_or (mask_of 1 0) (mask_of 2 1)) (mask_of 4 2)

pub st_generate_step_dir_invert_masks : ℕ → ℕ → Stepper → Stepper
st_generate_step_dir_invert_masks step_invert_mask dir_invert_mask st = record st {
  step_port_invert_mask = invert_mask get_step_pin_mask step_invert_mask;
  dir_port_invert_mask = invert_mask get_direction_pin_mask dir_invert_mask;
}

cleared_axis : Axis → Axis
cleared_axis a = record a { counter = 0; steps = 0 }

-- The two masks are the settings step_invert_mask and dir_invert_mask. The head of the segment buffer
-- is reset with its tail, the positions stay.
pub st_reset : ℕ → ℕ → Stepper → Stepper
st_reset step_invert_mask dir_invert_mask st =
    let idle = effect st_go_idle st in
    let empty = record idle {
      x = cleared_axis st.x;
      y = cleared_axis st.y;
      z = cleared_axis st.z;
      step_outbits = 0;
      step_count = 0;
      exec_block_index = 0;
      is_loaded = false;
      segment_buffer_tail = 0;
      segment_buffer_head = 0;
      busy = false;
    } in
    let masked = st_generate_step_dir_invert_masks step_invert_mask dir_invert_mask empty in
    record masked {
      dir_outbits = masked.dir_port_invert_mask;
      step_port = bit_or (bit_and st.step_port (bit_not8 step_mask)) masked.step_port_invert_mask;
      direction_port =
          bit_or (bit_and st.direction_port (bit_not8 direction_mask)) masked.dir_port_invert_mask;
    }
