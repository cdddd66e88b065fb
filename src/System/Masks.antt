-- ===== src/System/Masks.antt =====
-- The bit masks and codes of grbl/system.h, and the bits of settings.flags that are tested here.
use Prim.Native.Nat.{ℕ}

-- The bits of sys_rt_exec_state.
abbrev pub exec_status_report : ℕ
exec_status_report = 0x01

abbrev pub exec_cycle_start : ℕ
exec_cycle_start = 0x02

abbrev pub exec_cycle_stop : ℕ
exec_cycle_stop = 0x04

abbrev pub exec_feed_hold : ℕ
exec_feed_hold = 0x08

abbrev pub exec_reset : ℕ
exec_reset = 0x10

abbrev pub exec_safety_door : ℕ
exec_safety_door = 0x20

abbrev pub exec_motion_cancel : ℕ
exec_motion_cancel = 0x40

abbrev pub exec_sleep : ℕ
exec_sleep = 0x80

-- The codes of sys_rt_exec_alarm.
abbrev pub exec_alarm_hard_limit : ℕ
exec_alarm_hard_limit = 1

abbrev pub exec_alarm_soft_limit : ℕ
exec_alarm_soft_limit = 2

abbrev pub exec_alarm_abort_cycle : ℕ
exec_alarm_abort_cycle = 3

abbrev pub exec_alarm_homing_fail_reset : ℕ
exec_alarm_homing_fail_reset = 6

-- The bits of sys_rt_exec_motion_override.
abbrev pub exec_feed_ovr_reset : ℕ
exec_feed_ovr_reset = 0x01

abbrev pub exec_feed_ovr_coarse_plus : ℕ
exec_feed_ovr_coarse_plus = 0x02

abbrev pub exec_feed_ovr_coarse_minus : ℕ
exec_feed_ovr_coarse_minus = 0x04

abbrev pub exec_feed_ovr_fine_plus : ℕ
exec_feed_ovr_fine_plus = 0x08

abbrev pub exec_feed_ovr_fine_minus : ℕ
exec_feed_ovr_fine_minus = 0x10

abbrev pub exec_rapid_ovr_reset : ℕ
exec_rapid_ovr_reset = 0x20

abbrev pub exec_rapid_ovr_medium : ℕ
exec_rapid_ovr_medium = 0x40

abbrev pub exec_rapid_ovr_low : ℕ
exec_rapid_ovr_low = 0x80

-- The bits of sys_rt_exec_accessory_override.
abbrev pub exec_spindle_ovr_reset : ℕ
exec_spindle_ovr_reset = 0x01

abbrev pub exec_spindle_ovr_coarse_plus : ℕ
exec_spindle_ovr_coarse_plus = 0x02

abbrev pub exec_spindle_ovr_coarse_minus : ℕ
exec_spindle_ovr_coarse_minus = 0x04

abbrev pub exec_spindle_ovr_fine_plus : ℕ
exec_spindle_ovr_fine_plus = 0x08

abbrev pub exec_spindle_ovr_fine_minus : ℕ
exec_spindle_ovr_fine_minus = 0x10

abbrev pub exec_spindle_ovr_stop : ℕ
exec_spindle_ovr_stop = 0x20

abbrev pub exec_coolant_flood_ovr_toggle : ℕ
exec_coolant_flood_ovr_toggle = 0x40

abbrev pub exec_coolant_mist_ovr_toggle : ℕ
exec_coolant_mist_ovr_toggle = 0x80

-- The values of sys.state.
abbrev pub state_idle : ℕ
state_idle = 0

abbrev pub state_alarm : ℕ
state_alarm = 0x01

abbrev pub state_check_mode : ℕ
state_check_mode = 0x02

abbrev pub state_homing : ℕ
state_homing = 0x04

abbrev pub state_cycle : ℕ
state_cycle = 0x08

abbrev pub state_hold : ℕ
state_hold = 0x10

abbrev pub state_jog : ℕ
state_jog = 0x20

abbrev pub state_safety_door : ℕ
state_safety_door = 0x40

abbrev pub state_sleep : ℕ
state_sleep = 0x80

-- The bits of sys.suspend.
abbrev pub suspend_disable : ℕ
suspend_disable = 0

abbrev pub suspend_hold_complete : ℕ
suspend_hold_complete = 0x01

abbrev pub suspend_restart_retract : ℕ
suspend_restart_retract = 0x02

abbrev pub suspend_retract_complete : ℕ
suspend_retract_complete = 0x04

abbrev pub suspend_initiate_restore : ℕ
suspend_initiate_restore = 0x08

abbrev pub suspend_restore_complete : ℕ
suspend_restore_complete = 0x10

abbrev pub suspend_safety_door_ajar : ℕ
suspend_safety_door_ajar = 0x20

abbrev pub suspend_motion_cancel : ℕ
suspend_motion_cancel = 0x40

abbrev pub suspend_jog_cancel : ℕ
suspend_jog_cancel = 0x80

-- The bits of sys.step_control.
abbrev pub step_control_normal_op : ℕ
step_control_normal_op = 0

abbrev pub step_control_end_motion : ℕ
step_control_end_motion = 0x01

abbrev pub step_control_execute_hold : ℕ
step_control_execute_hold = 0x02

abbrev pub step_control_execute_sys_motion : ℕ
step_control_execute_sys_motion = 0x04

abbrev pub step_control_update_spindle_pwm : ℕ
step_control_update_spindle_pwm = 0x08

-- The bits of sys.spindle_stop_ovr.
abbrev pub spindle_stop_ovr_enabled : ℕ
spindle_stop_ovr_enabled = 0x01

abbrev pub spindle_stop_ovr_initiate : ℕ
spindle_stop_ovr_initiate = 0x02

abbrev pub spindle_stop_ovr_restore : ℕ
spindle_stop_ovr_restore = 0x04

abbrev pub spindle_stop_ovr_restore_cycle : ℕ
spindle_stop_ovr_restore_cycle = 0x08

-- The control pins, without a safety door pin.
abbrev pub control_pin_index_reset : ℕ
control_pin_index_reset = 0x01

abbrev pub control_pin_index_feed_hold : ℕ
control_pin_index_feed_hold = 0x02

abbrev pub control_pin_index_cycle_start : ℕ
control_pin_index_cycle_start = 0x04

-- Bits of settings.flags.
abbrev pub bitflag_laser_mode : ℕ
bitflag_laser_mode = 0x02

abbrev pub bitflag_invert_st_enable : ℕ
bitflag_invert_st_enable = 0x04

abbrev pub bitflag_hard_limit_enable : ℕ
bitflag_hard_limit_enable = 0x08

abbrev pub bitflag_homing_enable : ℕ
bitflag_homing_enable = 0x10

abbrev pub bitflag_soft_limit_enable : ℕ
bitflag_soft_limit_enable = 0x20
