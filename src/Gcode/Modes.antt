-- ===== src/Gcode/Modes.antt =====
-- Step 4 of `gc_execute_line` in grbl/gcode.c: the flags of the laser mode, the feed rate, the spindle,
-- the coolant, the modes and the offsets, lines 868 to 1007.
use tele_handwriter.Base.{ℕ, not, ◌&&◌, ◌||◌, ◌==◌, if◌then◌else◌, bit_or}
use tele_handwriter.Base.Bits.{bit_istrue}
use tele_handwriter.Spindle.{spindle_disable, spindle_enable_cw}
use tele_handwriter.Protocol.Suspend.{coolant_disable}
use tele_handwriter.Gcode.{axis_command_motion_mode, axis_command_tool_length_offset}
use tele_handwriter.Gcode.State.{Arithmetic, Checked}
use tele_handwriter.Gcode.Events.{
  pl_cond_flag_inverse_time, gc_parser_laser_force_sync, gc_parser_laser_disable,
  gc_parser_laser_ismotion, Surroundings, Run, is_cut, emit, on_gc, on_modal, add_condition,
  wco_change, synchronize, set_spindle, set_coolant, mc_dwell,
}

module _ {ℓ} {W : Type ℓ} where
  -- Lines 870 to 897, the flags of the laser mode.
  unfoldable pub laser_flags : Surroundings W → Checked W → Run W → Run W
  laser_flags s c run =
      let b = c.block in
      let disabled =
        if is_cut b.modal.motion
        then run.parser_flags
        else bit_or run.parser_flags gc_parser_laser_disable in
      let is_motion = not (b.axis_words == 0) && b.axis_command == axis_command_motion_mode in
      let off = bit_istrue disabled gc_parser_laser_disable in
      let forced =
        if run.gc.modal.spindle == spindle_enable_cw
          && (if is_cut run.gc.modal.motion then off else not off)
        then bit_or disabled gc_parser_laser_force_sync
        else disabled in
      let flags = if is_motion then bit_or disabled gc_parser_laser_ismotion else forced in
      if s.laser_mode then record run { parser_flags = flags } else run

  -- Lines 901 to 914.
  unfoldable pub set_feed : Checked W → Run W → Run W
  set_feed c run =
      let b = c.block in
      let timed =
        on_gc
          (λ g. record g {
            line_number = b.values.n;
            feed_rate = b.values.f;
            modal = record g.modal { feed_rate = b.modal.feed_rate };
          })
          (record run { plan = record run.plan { feed_rate = b.values.f } }) in
      if b.modal.feed_rate == 0 then timed else add_condition pl_cond_flag_inverse_time timed

  -- `spindle_sync(state, rpm)`
  unfoldable pub spindle_sync : Surroundings W → ℕ → W → Run W → Run W
  spindle_sync s state rpm run =
      if s.check_mode then run else emit (set_spindle state rpm) (emit synchronize run)

  -- `coolant_sync(mode)`
  unfoldable pub coolant_sync : Surroundings W → ℕ → Run W → Run W
  coolant_sync s mode run =
      if s.check_mode then run else emit (set_coolant mode) (emit synchronize run)

  -- Lines 941 to 949, and the tool of line 937.
  unfoldable pub set_spindle_mode : Surroundings W → Checked W → Run W → Run W
  set_spindle_mode s c run =
      let mode = c.block.modal.spindle in
      let tooled = on_gc (λ g. record g { tool = c.block.values.t }) run in
      let synced =
        on_modal (λ g. record g { spindle = mode })
          (spindle_sync s mode tooled.plan.spindle_speed tooled) in
      let next = if run.gc.modal.spindle == mode then tooled else synced in
      add_condition next.gc.modal.spindle next

  -- Lines 951 to 959.
  unfoldable pub set_coolant_mode : Surroundings W → Checked W → Run W → Run W
  set_coolant_mode s c run =
      let mode = c.block.modal.coolant in
      let taken =
        if mode == coolant_disable then coolant_disable else bit_or run.gc.modal.coolant mode in
      let synced = on_modal (λ g. record g { coolant = taken }) (coolant_sync s mode run) in
      let next = if run.gc.modal.coolant == mode then run else synced in
      add_condition next.gc.modal.coolant next

  -- Lines 969 to 976 and 1007.
  unfoldable pub set_modes : Checked W → Run W → Run W
  set_modes c run =
      let waited =
        if c.block.non_modal_command == 4 then emit (mc_dwell c.block.values.p) run else run in
      on_modal
        (λ g. record g {
          plane_select = c.block.modal.plane_select;
          units = c.block.modal.units;
          distance = c.block.modal.distance;
        })
        waited

  -- Lines 996 to 1001.
  unfoldable pub set_coord_system : Checked W → Run W → Run W
  set_coord_system c run =
      let select = c.block.modal.coord_select in
      if run.gc.modal.coord_select == select
      then run
      else emit wco_change (
          on_gc
            (λ g. record g {
              modal = record g.modal { coord_select = select };
              coord_system = c.block_coord_system;
            })
            run)

module _ {ℓ} {W : Type ℓ} (arithmetic : Arithmetic W) where
  -- Lines 901 to 934.
  unfoldable pub set_spindle_speed : Surroundings W → Checked W → Run W → Run W
  set_spindle_speed s c run =
      let speed = c.block.values.s in
      let off = bit_istrue run.parser_flags gc_parser_laser_disable in
      let is_motion = bit_istrue run.parser_flags gc_parser_laser_ismotion in
      let is_forced = bit_istrue run.parser_flags gc_parser_laser_force_sync in
      let synced =
        if run.gc.modal.spindle == spindle_disable || is_motion
        then run
        else spindle_sync s run.gc.modal.spindle (if off then arithmetic.nought else speed) run in
      let changed =
        if not (arithmetic.eq run.gc.spindle_speed speed) || is_forced
        then on_gc (λ g. record g { spindle_speed = speed }) synced
        else run in
      if off then changed else record changed {
        plan = record changed.plan { spindle_speed = changed.gc.spindle_speed };
      }

  -- Lines 981 to 994.
  unfoldable pub set_tool_length : Checked W → Run W → Run W
  set_tool_length c run =
      let mode = c.block.modal.tool_length in
      let length = if mode == 0 then arithmetic.nought else c.block.values.z in
      let taken = on_modal (λ g. record g { tool_length = mode }) run in
      if not (c.block.axis_command == axis_command_tool_length_offset)
      then run
      else if arithmetic.eq run.gc.tool_length_offset length
      then taken
      else emit wco_change (on_gc (λ g. record g { tool_length_offset = length }) taken)
