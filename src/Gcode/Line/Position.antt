-- ===== src/Gcode/Line/Position.antt =====
-- The position of the g-code parser of grbl/gcode.c and the targets of the motions that it asks for.
use tele_handwriter.Base.{
  ℕ, ◌≡◌, inl, inr, refl, ◌==◌, if◌then◌else◌, Bool-cases, Option-cases, Option, none, some, List,
  [], ◌∷◌, arith,
}
use tele_handwriter.Number.{Floats}
use tele_handwriter.Gcode.{Result, ok, fail, Block, Numbers}
use tele_handwriter.Gcode.Words.{parse_block}
use tele_handwriter.Gcode.State.{
  Vector, Arithmetic, Parser, Coords, Checked, Check, pass, refuse, unread,
}
use tele_handwriter.Gcode.Check.{is_jog, check_block}
use tele_handwriter.Gcode.Events.{
  Surroundings, Run, Event, wco_change, synchronize, feed_hold, realtime, restore_overrides,
  start_jog, set_spindle, set_coolant, report_message, mc_dwell, mc_line, mc_arc, mc_probe_cycle,
}
use tele_handwriter.Gcode.Execute.{
  first_run, execute_block, execute_jog_block, jog_execute, run_non_modal, run_motion, move,
  run_commands, run_program_flow, end_program,
}
use tele_handwriter.Gcode.Modes.{
  laser_flags, set_feed, set_spindle_speed, set_spindle_mode, set_coolant_mode, set_modes,
  set_tool_length, set_coord_system, spindle_sync, coolant_sync,
}
use tele_handwriter.Gcode.Line.{Outcome, after_check, after_words, gc_execute_line, parsed}

module _ {ℓ} {W : Type ℓ} (s : Surroundings W) where
  -- Where a call leaves the parser: a line or an arc at its target, a probing cycle as it answers.
  abbrev moves_to : Event W → Option (Vector W)
  moves_to wco_change = none
  moves_to synchronize = none
  moves_to feed_hold = none
  moves_to realtime = none
  moves_to restore_overrides = none
  moves_to start_jog = none
  moves_to (set_spindle state rpm) = none
  moves_to (set_coolant mode) = none
  moves_to (report_message code) = none
  moves_to (mc_dwell seconds) = none
  moves_to (mc_line target plan) = some target
  moves_to (mc_arc target position offset plan radius first second linear clockwise) = some target
  moves_to (mc_probe_cycle target plan flags) =
      if s.update_pos == 0
      then some target
      else if s.update_pos == 1
      then some s.sys_position
      else none

  -- The position after the calls, which was `start` before them.
  abbrev pub position_after : Vector W → List (Event W) → Vector W
  position_after start [] = start
  position_after start (e ∷ events) = elim (moves_to e) [
    | none ↦ position_after start events
    | some v ↦ v
  ]

module _ {ℓ} {W : Type ℓ} (arithmetic : Arithmetic W) (s : Surroundings W) (start : Vector W) where
  -- The motions of the run lead to the position that the parser has.
  abbrev Tracks : Run W → Type ℓ
  Tracks run = position_after s start run.events ≡ run.gc.position

  laser_flags-Tracks : (c : Checked W) (run : Run W) → Tracks run → Tracks (laser_flags s c run)
  unfolding laser_flags
  laser_flags-Tracks c run h = ground (arith, h)

  set_feed-Tracks : (c : Checked W) (run : Run W) → Tracks run → Tracks (set_feed c run)
  unfolding set_feed
  set_feed-Tracks c run h = ground (arith, h)

  set_spindle_speed-Tracks :
      (c : Checked W) (run : Run W) → Tracks run → Tracks (set_spindle_speed arithmetic s c run)
  unfolding set_spindle_speed spindle_sync
  set_spindle_speed-Tracks c run h = ground (arith, h)

  set_spindle_mode-Tracks :
      (c : Checked W) (run : Run W) → Tracks run → Tracks (set_spindle_mode s c run)
  unfolding set_spindle_mode spindle_sync
  set_spindle_mode-Tracks c run h = ground (arith, h)

  set_coolant_mode-Tracks :
      (c : Checked W) (run : Run W) → Tracks run → Tracks (set_coolant_mode s c run)
  unfolding set_coolant_mode coolant_sync
  set_coolant_mode-Tracks c run h = ground (arith, h)

  settings-Tracks :
      (c : Checked W) (run : Run W)
      → Tracks run
      → Tracks (set_coord_system c (set_tool_length arithmetic c (set_modes c run)))
  unfolding set_modes set_tool_length set_coord_system
  settings-Tracks c run h = ground (arith, h)

  run_non_modal-Tracks :
      (c : Checked W) (run : Run W) → Tracks run → Tracks (run_non_modal arithmetic c run)
  unfolding run_non_modal
  run_non_modal-Tracks c run h = ground (arith, h)

  run_motion-Tracks : (c : Checked W) (run : Run W) → Tracks run → Tracks (run_motion s c run)
  unfolding run_motion move
  run_motion-Tracks c run h = ground (arith, h)

  run_commands-Tracks :
      (c : Checked W) (run : Run W) → Tracks run → Tracks (run_commands arithmetic s c run)
  unfolding run_commands
  run_commands-Tracks c run h = run_motion-Tracks c _ (
      run_non_modal-Tracks c _ (
        settings-Tracks c _ (
          set_coolant_mode-Tracks c _ (
            set_spindle_mode-Tracks c _
              (set_spindle_speed-Tracks c _ (set_feed-Tracks c _ (laser_flags-Tracks c run h)))))))

  run_program_flow-Tracks :
      (c : Checked W) (run : Run W) → Tracks run → Tracks (run_program_flow arithmetic s c run).1
  unfolding run_program_flow end_program
  run_program_flow-Tracks c run h = elim (Option-cases (run.coords 0)) [
    | inl unreadable ↦ ground (arith, h, unreadable)
    | inr (system, found) ↦ ground (arith, h, found)
  ]

  execute_jog_block-Tracks :
      (c : Checked W) (run : Run W) → Tracks run → Tracks (execute_jog_block arithmetic s c run).1
  unfolding execute_jog_block jog_execute
  execute_jog_block-Tracks c run h = ground (arith, h)

module _ {ℓ} {W : Type ℓ} (arithmetic : Arithmetic W) (s : Surroundings W) where
  -- The same for a whole line.
  abbrev Follows : Parser W → Outcome W → Type ℓ
  Follows gc o = position_after s gc.position o.events ≡ o.gc.position

  execute_block-Follows :
      (coords : Coords W) (gc : Parser W) (c : Checked W)
      → let (status, run) = execute_block arithmetic s coords gc c in
        position_after s gc.position run.events ≡ run.gc.position
  unfolding execute_block
  execute_block-Follows coords gc c =
      let first = first_run arithmetic coords gc c in
      let jogged = execute_jog_block-Tracks arithmetic s gc.position c first refl in
      let ready = run_commands-Tracks arithmetic s gc.position c first refl in
      let ends =
        run_program_flow-Tracks arithmetic s gc.position c (run_commands arithmetic s c first)
          ready in
      elim (Bool-cases (is_jog c)) [
        | inl jogs ↦ ground (arith, jogs, jogged)
        | inr runs ↦ ground (arith, runs, ends)
      ]

  checked-Follows :
      (coords : Coords W) (gc : Parser W) (m : Check (Checked W))
      → Follows gc (after_check arithmetic s coords gc m)
  unfolding after_check
  checked-Follows coords gc (pass c) = execute_block-Follows coords gc c
  checked-Follows coords gc (refuse status) = refl
  checked-Follows coords gc (unread i) = refl

  words-Follows :
      (coords : Coords W) (gc : Parser W) (line : List ℕ) (r : Result (Block W))
      → Follows gc (after_words arithmetic s coords gc line r)
  unfolding after_words
  words-Follows coords gc line (fail status) = refl
  words-Follows coords gc line (ok b) =
      checked-Follows coords gc (check_block arithmetic coords gc (parsed gc line b))

-- Whatever a line of g-code combines, and also where it returns an error or is a jog, the position
-- that the parser keeps is where the last motion that the line has asked for ends: the target of a
-- line or an arc, or what a probing cycle has answered. With no motion it stays.
pub gc_execute_line-position {ℓ} :
    {W : Type ℓ} (numbers : Numbers W) (floats : Floats W) (arithmetic : Arithmetic W)
    (s : Surroundings W) (coords : Coords W) (gc : Parser W) (line : List ℕ)
    → let o = gc_execute_line numbers floats arithmetic s coords gc line in
      position_after s gc.position o.events ≡ o.gc.position
unfolding gc_execute_line
gc_execute_line-position numbers floats arithmetic s coords gc line =
    words-Follows arithmetic s coords gc line (parse_block numbers floats gc.modal line)
