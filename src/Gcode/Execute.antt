-- ===== src/Gcode/Execute.antt =====
-- Step 4 of `gc_execute_line` in grbl/gcode.c: a checked block is executed, lines 838 to 1134, with
-- jog_execute of grbl/jog.c.
pub mod Jog
use tele_handwriter.Base.{
  ℕ, ◌-◌, ◌^◌, Bool, true, false, not, ◌&&◌, ◌||◌, Option, none, some, List, [], ◌∷◌, ◌==◌,
  if◌then◌else◌, bit_or, bit_and,
}
use tele_handwriter.Base.Bits.{bit_istrue, bit_isfalse}
use tele_handwriter.Spindle.{spindle_disable, spindle_enable_cw}
use tele_handwriter.Protocol.Suspend.{coolant_disable}
use tele_handwriter.Settings.Global.{status_ok}
use tele_handwriter.System.Commands.{status_setting_read_fail}
use tele_handwriter.Gcode.{
  Modal, Values, Block, axis_command_none, axis_command_motion_mode,
  axis_command_tool_length_offset,
}
use tele_handwriter.Gcode.State.{Vector, at, axes, xyz, ijk, Arithmetic, Parser, Coords, Checked}
use tele_handwriter.Gcode.Offsets.{setting_index_g28, setting_index_g30}
use tele_handwriter.Gcode.Arcs.{axis_0, axis_1, axis_linear, gc_parser_arc_is_clockwise}
use tele_handwriter.Gcode.Check.{is_jog}
use tele_handwriter.System.Travel.{system_check_travel_limits}
use tele_handwriter.Gcode.Events.{
  status_travel_exceeded, status_invalid_jog_command, message_program_end,
  pl_cond_flag_rapid_motion, pl_cond_flag_no_feed_override, pl_cond_flag_inverse_time,
  gc_parser_laser_force_sync, gc_parser_laser_disable, gc_parser_laser_ismotion, PlanData, Event,
  Surroundings, Run, is_cut, emit, on_gc, on_modal, add_condition, write_coord, wco_change,
  synchronize, feed_hold, realtime, restore_overrides, start_jog, set_spindle, set_coolant,
  report_message, mc_dwell, mc_line, mc_arc, mc_probe_cycle,
}
use tele_handwriter.Gcode.Modes.{
  laser_flags, set_feed, spindle_sync, coolant_sync, set_spindle_mode, set_coolant_mode, set_modes,
  set_coord_system, set_spindle_speed, set_tool_length,
}

module _ {ℓ} {W : Type ℓ} where
  -- `jog_execute(pl_data, gc_block)`
  unfoldable pub jog_execute : Arithmetic W → Surroundings W → Checked W → Run W → ℕ × Run W
  jog_execute arithmetic s c run =
      let target = xyz c.block.values in
      let plan = record run.plan {
        feed_rate = c.block.values.f;
        condition = bit_or run.plan.condition pl_cond_flag_no_feed_override;
      } in
      let moved = emit (mc_line target plan) (record run { plan = plan }) in
      if s.soft_limit_enable && system_check_travel_limits arithmetic s.max_travel target
      then (status_travel_exceeded, record run { plan = plan })
      else (status_ok, if s.is_idle && s.has_block then emit start_jog moved else moved)

  -- Lines 853 to 866. The mask of line 856 is that of the groups 0, 3 and 6, as `bit(n)` puts no
  -- brackets around its argument.
  unfoldable pub execute_jog_block : Arithmetic W → Surroundings W → Checked W → Run W → ℕ × Run W
  execute_jog_block arithmetic s c run =
      let b = c.block in
      let plan = record run.plan {
        spindle_speed = run.gc.spindle_speed;
        condition = bit_or run.gc.modal.spindle run.gc.modal.coolant;
      } in
      let jogged = jog_execute arithmetic s c (record run { plan = plan }) in
      let at_target = on_gc (λ g. record g { position = xyz b.values }) jogged.1 in
      if not (bit_and b.command_words (65535 - 0x49) == 0)
        || not (b.non_modal_command == 53 || b.non_modal_command == 0)
      then (status_invalid_jog_command, run)
      else (jogged.0, if jogged.0 == status_ok then at_target else jogged.1)

  -- Lines 1011 to 1043; `arithmetic` gives the zeros of clear_vector. A write of coordinate data
  -- calls protocol_buffer_synchronize first.
  unfoldable pub run_non_modal : Arithmetic W → Checked W → Run W → Run W
  run_non_modal arithmetic c run =
      let b = c.block in
      let store = λ (i : ℕ) (v : Vector W).
        emit synchronize (record run { coords = write_coord i v run.coords }) in
      let stored = store c.coord_select (ijk b.values) in
      let rapid = add_condition pl_cond_flag_rapid_motion run in
      let passed =
        if b.axis_command == axis_command_none
        then rapid
        else emit (mc_line (xyz b.values) rapid.plan) rapid in
      let homed =
        on_gc (λ g. record g { position = ijk b.values })
          (emit (mc_line (ijk b.values) rapid.plan) passed) in
      if b.non_modal_command == 10
      then (if run.gc.modal.coord_select == c.coord_select
          then emit wco_change (on_gc (λ g. record g { coord_system = ijk b.values }) stored)
          else stored)
      else if b.non_modal_command == 28 || b.non_modal_command == 30
      then homed
      else if b.non_modal_command == 38
      then store setting_index_g28 run.gc.position
      else if b.non_modal_command == 40
      then store setting_index_g30 run.gc.position
      else if b.non_modal_command == 92
      then emit wco_change (on_gc (λ g. record g { coord_offset = xyz b.values }) run)
      else if b.non_modal_command == 102
      then emit wco_change
          (on_gc (λ g. record g { coord_offset = axes (λ idx. arithmetic.nought) }) run)
      else run

  -- Lines 1052 to 1067: the motion, and how the position is updated after it.
  unfoldable pub move : Surroundings W → Checked W → Run W → ℕ × Run W
  move s c run =
      let b = c.block in
      let mode = b.modal.motion in
      let target = xyz b.values in
      let rapid = add_condition pl_cond_flag_rapid_motion run in
      let probing = add_condition pl_cond_flag_no_feed_override run in
      let clockwise = bit_istrue run.parser_flags gc_parser_arc_is_clockwise in
      let plane = b.modal.plane_select in
      if mode == 1
      then (0, emit (mc_line target run.plan) run)
      else if mode == 0
      then (0, emit (mc_line target rapid.plan) rapid)
      else if mode == 2 || mode == 3
      then (
        0,
        emit
            (mc_arc target run.gc.position (ijk b.values) run.plan b.values.r (axis_0 plane)
              (axis_1 plane) (axis_linear plane) clockwise)
            run,
      )
      else (s.update_pos, emit (mc_probe_cycle target probing.plan run.parser_flags) probing)

  -- Lines 1046 to 1079.
  unfoldable pub run_motion : Surroundings W → Checked W → Run W → Run W
  run_motion s c run =
      let taken = on_modal (λ g. record g { motion = c.block.modal.motion }) run in
      let moved = move s c taken in
      let put = λ (v : Vector W). on_gc (λ g. record g { position = v }) moved.1 in
      if c.block.modal.motion == 80 || not (c.block.axis_command == axis_command_motion_mode)
      then taken
      else if moved.0 == 0
      then put (xyz c.block.values)
      else if moved.0 == 1
      then put s.sys_position
      else moved.1

-- Lines 1092 to 1109: the modes that the end of a program resets.
abbrev pub reset_modes : Modal → Modal
reset_modes g = record g {
  motion = 1;
  plane_select = 0;
  distance = 0;
  feed_rate = 0;
  coord_select = 0;
  spindle = spindle_disable;
  coolant = coolant_disable;
}

module _ {ℓ} {W : Type ℓ} (arithmetic : Arithmetic W) where
  -- Lines 1092 to 1128. Coordinate data that cannot be read is overwritten with zeros, after
  -- protocol_buffer_synchronize.
  unfoldable pub end_program : Surroundings W → Run W → ℕ × Run W
  end_program s run =
      let zeros = axes λ idx. arithmetic.nought in
      let reset = emit restore_overrides (on_modal reset_modes run) in
      let running = on_modal (λ g. record g { program_flow = 0 }) in
      let stop = λ (r : Run W).
        emit (set_coolant coolant_disable)
          (emit (set_spindle spindle_disable arithmetic.nought) (emit wco_change r)) in
      if s.check_mode
      then (status_ok, running (emit (report_message message_program_end) reset))
      else elim (reset.coords 0) [
        | none ↦ (
          status_setting_read_fail,
          on_gc (λ g. record g { coord_system = zeros })
              (emit synchronize (record reset { coords = write_coord 0 zeros reset.coords })),
        )
        | some system ↦ (
          status_ok,
          running (
              emit (report_message message_program_end)
                (stop (on_gc (λ g. record g { coord_system = system }) reset))),
        )
      ]

  -- Lines 1081 to 1132.
  unfoldable pub run_program_flow : Surroundings W → Checked W → Run W → ℕ × Run W
  run_program_flow s c run =
      let flow = c.block.modal.program_flow in
      let taken = on_modal (λ g. record g { program_flow = flow }) run in
      let synced = emit synchronize taken in
      let paused = if s.check_mode then synced else emit realtime (emit feed_hold synced) in
      if flow == 0
      then (status_ok, taken)
      else if flow == 3
      then (status_ok, on_modal (λ g. record g { program_flow = 0 }) paused)
      else end_program s synced

  -- Lines 899 to 1079, up to the program flow.
  unfoldable pub run_commands : Surroundings W → Checked W → Run W → Run W
  run_commands s c run =
      let fed = set_feed c (laser_flags s c run) in
      let spun = set_spindle_mode s c (set_spindle_speed arithmetic s c fed) in
      let cooled = set_modes c (set_coolant_mode s c spun) in
      let located = set_coord_system c (set_tool_length arithmetic c cooled) in
      run_motion s c (run_non_modal arithmetic c located)

  -- The run that step 4 starts with.
  abbrev pub first_run : Coords W → Parser W → Checked W → Run W
  first_run coords gc c = record {
    gc = gc;
    coords = coords;
    plan = record {
      spindle_speed = arithmetic.nought;
      feed_rate = arithmetic.nought;
      condition = 0;
    };
    parser_flags = c.parser_flags;
    events = [];
  }

  -- Step 4.
  unfoldable pub execute_block : Surroundings W → Coords W → Parser W → Checked W → ℕ × Run W
  execute_block s coords gc c =
      let run = first_run coords gc c in
      if is_jog c
      then execute_jog_block arithmetic s c run
      else run_program_flow s c (run_commands s c run)
