-- ===== src/Gcode/Line/Work/Frame.antt =====
-- What the execution of a block in grbl/gcode.c keeps of the parser, lines 870 to 1001.
use tele_handwriter.Base.{◌≡◌, ◌≢◌, ◌∙◌, false, arith}
use tele_handwriter.Gcode.{axis_command_tool_length_offset}
use tele_handwriter.Gcode.State.{Arithmetic, Parser, Coords, Checked}
use tele_handwriter.Gcode.Check.{is_jog}
use tele_handwriter.Gcode.Events.{Surroundings, Run}
use tele_handwriter.Gcode.Execute.{
  first_run, execute_block, run_non_modal, run_motion, run_commands, run_program_flow,
}
use tele_handwriter.Gcode.Modes.{
  laser_flags, set_feed, set_spindle_speed, set_spindle_mode, set_coolant_mode, set_modes,
  set_tool_length, set_coord_system, spindle_sync, coolant_sync,
}
use tele_handwriter.Gcode.Line.Work.{SystemKept}

module _ {ℓ} {W : Type ℓ} (arithmetic : Arithmetic W) where
  -- What the execution keeps of the parser up to the tool length.
  record SameFrame (g h : Parser W) : Type ℓ where
    pub same_position : h.position ≡ g.position
    pub same_system : h.coord_system ≡ g.coord_system
    pub same_offset : h.coord_offset ≡ g.coord_offset
    pub same_length : h.tool_length_offset ≡ g.tool_length_offset
    pub same_select : h.modal.coord_select ≡ g.modal.coord_select

  settings-SameFrame :
      (s : Surroundings W) (d : Checked W) (run : Run W)
      → SameFrame run.gc (set_feed d (laser_flags s d run)).gc
  unfolding set_feed laser_flags
  settings-SameFrame s d run = ground arith

  spindle-SameFrame :
      (s : Surroundings W) (d : Checked W) (run : Run W)
      → SameFrame run.gc (set_spindle_mode s d (set_spindle_speed arithmetic s d run)).gc
  unfolding set_spindle_mode set_spindle_speed spindle_sync
  spindle-SameFrame s d run = ground arith

  modes-SameFrame :
      (s : Surroundings W) (d : Checked W) (run : Run W)
      → SameFrame run.gc (set_modes d (set_coolant_mode s d run)).gc
  unfolding set_modes set_coolant_mode coolant_sync
  modes-SameFrame s d run = ground arith

  SameFrame-trans : (f g h : Parser W) → SameFrame f g → SameFrame g h → SameFrame f h
  SameFrame-trans f g h a b = record {
    same_position = b.same_position ∙ a.same_position;
    same_system = b.same_system ∙ a.same_system;
    same_offset = b.same_offset ∙ a.same_offset;
    same_length = b.same_length ∙ a.same_length;
    same_select = b.same_select ∙ a.same_select;
  }

  -- The parser once the coordinate system of the block is in use.
  pub record IsLocated (gc : Parser W) (d : Checked W) (g : Parser W) : Type ℓ where
    pub position : g.position ≡ gc.position
    pub system : g.coord_system ≡ d.block_coord_system
    pub offset : g.coord_offset ≡ gc.coord_offset
    pub length : g.tool_length_offset ≡ gc.tool_length_offset

  set_coord_system-IsLocated :
      (d : Checked W) (gc : Parser W) (run : Run W)
      → d.block.axis_command ≢ axis_command_tool_length_offset
      → SystemKept gc d
      → SameFrame gc run.gc
      → IsLocated gc d (set_coord_system d (set_tool_length arithmetic d run)).gc
  unfolding set_coord_system set_tool_length
  set_coord_system-IsLocated d gc run a k f = ground (arith, a, k, f)

  pub located_run : Surroundings W → Checked W → Run W → Run W
  located_run s d run =
      let spun =
        set_spindle_mode s d
          (set_spindle_speed arithmetic s d (set_feed d (laser_flags s d run))) in
      set_coord_system d (set_tool_length arithmetic d (set_modes d (set_coolant_mode s d spun)))

  pub located_run-IsLocated :
      (s : Surroundings W) (d : Checked W) (run : Run W)
      → d.block.axis_command ≢ axis_command_tool_length_offset
      → SystemKept run.gc d
      → IsLocated run.gc d (located_run s d run).gc
  unfolding located_run
  located_run-IsLocated s d run a k =
      let fed = set_feed d (laser_flags s d run) in
      let spun = set_spindle_mode s d (set_spindle_speed arithmetic s d fed) in
      let ready = set_modes d (set_coolant_mode s d spun) in
      set_coord_system-IsLocated d run.gc ready a k (
        SameFrame-trans run.gc spun.gc ready.gc
          (SameFrame-trans run.gc fed.gc spun.gc (settings-SameFrame s d run)
            (spindle-SameFrame s d fed))
          (modes-SameFrame s d spun))

  -- The execution of a block that is no jog, from the coordinate system on.
  pub execute_block-runs :
      (s : Surroundings W) (coords : Coords W) (gc : Parser W) (d : Checked W)
      → is_jog d ≡ false
      → let run = first_run arithmetic coords gc d in
        execute_block arithmetic s coords gc d
        ≡ run_program_flow arithmetic s d
            (run_motion s d (run_non_modal arithmetic d (located_run s d run)))
  unfolding execute_block run_commands located_run
  execute_block-runs s coords gc d h = simp h
