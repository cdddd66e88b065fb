-- ===== src/System/Corexy.antt =====
-- The kinematics of the CoreXY plotter: grbl/system.c turns motor steps into axis steps, and
-- `plan_buffer_line` of grbl/planner.c counts the motor steps of a move. Positions are exact integers.
use tele_handwriter.Base.{◌≡◌, arith}
use tele_handwriter.Base.Int.{ℤ, ◌+ℤ◌, ◌-ℤ◌, half}

-- The steps of the motors A and B.
pub record Motors : Type 0 where
  pub a : ℤ
  pub b : ℤ

pub system_convert_corexy_to_x_axis_steps : Motors → ℤ
system_convert_corexy_to_x_axis_steps steps = half (steps.a +ℤ steps.b)

pub system_convert_corexy_to_y_axis_steps : Motors → ℤ
system_convert_corexy_to_y_axis_steps steps = half (steps.a -ℤ steps.b)

-- The signed motor steps of a move by dx and dy.
unfoldable pub motor_steps : ℤ → ℤ → Motors
motor_steps dx dy = record { a = dx +ℤ dy; b = dx -ℤ dy }

-- Moving the motors by the steps of a move changes the axis position by that move.
pub corexy_round_trip :
    (dx dy : ℤ)
    → (system_convert_corexy_to_x_axis_steps (motor_steps dx dy) ≡ dx)
      × (system_convert_corexy_to_y_axis_steps (motor_steps dx dy) ≡ dy)
unfolding system_convert_corexy_to_x_axis_steps system_convert_corexy_to_y_axis_steps motor_steps
    ◌+ℤ◌ ◌-ℤ◌ half
corexy_round_trip dx dy = (ground arith, ground arith)
