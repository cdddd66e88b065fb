-- ===== src/Gcode/Line/Spindle.antt =====
-- The spindle state of the g-code parser of grbl/gcode.c and the one that its calls have set.
use tele_handwriter.Base.{
  ℕ, ◌≡◌, inl, inr, refl, false, Bool-cases, Option-cases, Option, none, some, List, [], ◌∷◌, arith,
}
use tele_handwriter.Number.{Floats}
use tele_handwriter.Gcode.{Result, ok, fail, Block, Numbers}
use tele_handwriter.Gcode.Words.{parse_block}
use tele_handwriter.Gcode.State.{Arithmetic, Parser, Coords, Checked, Check, pass, refuse, unread}
use tele_handwriter.Gcode.Check.{is_jog, check_block}
use tele_handwriter.Gcode.Events.{
  Surroundings, Run, Event, wco_change, synchronize, feed_hold, realtime, restore_overrides,
  start_jog, set_spindle, set_coolant, report_message, mc_dwell, mc_line, mc_arc, mc_probe_cycle,
}
use tele_handwriter.Gcode.Execute.{
  first_run, execute_block, execute_jog_block, jog_execute, run_non_modal, run_motion, move,
  run_commands, run_program_flow, end_program,
}
use tele_handwriter.Gcode.Modes.{
  laser_flags, set_feed, set_spindle_speed, set_spindle_mode, set_coolant_mode, set_modes,
  set_tool_length, set_coord_system, spindle_sync, coolant_sync,
}
use tele_handwriter.Gcode.Line.{Outcome, after_check, after_words, gc_execute_line, parsed}

module _ {ℓ} {W : Type ℓ} where
  -- The spindle state that a call sets.
  abbrev sets_spindle : Event W → Option ℕ
  sets_spindle wco_change = none
  sets_spindle synchronize = none
  sets_spindle feed_hold = none
  sets_spindle realtime = none
  sets_spindle restore_overrides = none
  sets_spindle start_jog = none
  sets_spindle (set_spindle state rpm) = some state
  sets_spindle (set_coolant mode) = none
  sets_spindle (report_message code) = none
  sets_spindle (mc_dwell seconds) = none
  sets_spindle (mc_line target plan) = none
  sets_spindle (mc_arc target position offset plan radius first second linear clockwise) = none
  sets_spindle (mc_probe_cycle target plan flags) = none

  -- The spindle state after the calls, which was `start` before them.
  abbrev pub spindle_after : ℕ → List (Event W) → ℕ
  spindle_after start [] = start
  spindle_after start (e ∷ events) = elim (sets_spindle e) [
    | none ↦ spindle_after start events
    | some state ↦ state
  ]

module _ {ℓ} {W : Type ℓ} (arithmetic : Arithmetic W) (s : Surroundings W) (start : ℕ) where
  -- The calls of the run have left the spindle in the state that the parser has for it.
  abbrev Tracks : Run W → Type 0
  Tracks run = spindle_after start run.events ≡ run.gc.modal.spindle

  laser_flags-Tracks : (c : Checked W) (run : Run W) → Tracks run → Tracks (laser_flags s c run)
  unfolding laser_flags
  laser_flags-Tracks c run h = ground (arith, h)

  set_feed-Tracks : (c : Checked W) (run : Run W) → Tracks run → Tracks (set_feed c run)
  unfolding set_feed
  set_feed-Tracks c run h = ground (arith, h)

  set_spindle_speed-Tracks :
      (c : Checked W) (run : Run W) → Tracks run → Tracks (set_spindle_speed arithmetic s c run)
  unfolding set_spindle_speed spindle_sync
  set_spindle_speed-Tracks c run h = ground (arith, h)

  set_spindle_mode-Tracks :
      (c : Checked W) (run : Run W)
      → s.check_mode ≡ false
      → Tracks run
      → Tracks (set_spindle_mode s c run)
  unfolding set_spindle_mode spindle_sync
  set_spindle_mode-Tracks c run m h = ground (arith, m, h)

  set_coolant_mode-Tracks :
      (c : Checked W) (run : Run W) → Tracks run → Tracks (set_coolant_mode s c run)
  unfolding set_coolant_mode coolant_sync
  set_coolant_mode-Tracks c run h = ground (arith, h)

  settings-Tracks :
      (c : Checked W) (run : Run W)
      → Tracks run
      → Tracks (set_coord_system c (set_tool_length arithmetic c (set_modes c run)))
  unfolding set_modes set_tool_length set_coord_system
  settings-Tracks c run h = ground (arith, h)

  run_non_modal-Tracks :
      (c : Checked W) (run : Run W) → Tracks run → Tracks (run_non_modal arithmetic c run)
  unfolding run_non_modal
  run_non_modal-Tracks c run h = ground (arith, h)

  run_motion-Tracks : (c : Checked W) (run : Run W) → Tracks run → Tracks (run_motion s c run)
  unfolding run_motion move
  run_motion-Tracks c run h = ground (arith, h)

  run_commands-Tracks :
      (c : Checked W) (run : Run W)
      → s.check_mode ≡ false
      → Tracks run
      → Tracks (run_commands arithmetic s c run)
  unfolding run_commands
  run_commands-Tracks c run m h = run_motion-Tracks c _ (
      run_non_modal-Tracks c _ (
        settings-Tracks c _ (
          set_coolant_mode-Tracks c _ (
            set_spindle_mode-Tracks c _ m
              (set_spindle_speed-Tracks c _ (set_feed-Tracks c _ (laser_flags-Tracks c run h)))))))

  run_program_flow-Tracks :
      (c : Checked W) (run : Run W)
      → s.check_mode ≡ false
      → Tracks run
      → (run_program_flow arithmetic s c run).0 ≡ 0
      → Tracks (run_program_flow arithmetic s c run).1
  unfolding run_program_flow end_program
  run_program_flow-Tracks c run m h e = elim (Option-cases (run.coords 0)) [
    | inl unreadable ↦ ground (arith, m, h, e, unreadable)
    | inr (system, found) ↦ ground (arith, m, h, e, found)
  ]

  execute_jog_block-Tracks :
      (c : Checked W) (run : Run W) → Tracks run → Tracks (execute_jog_block arithmetic s c run).1
  unfolding execute_jog_block jog_execute
  execute_jog_block-Tracks c run h = ground (arith, h)

module _ {ℓ} {W : Type ℓ} (arithmetic : Arithmetic W) (s : Surroundings W) where
  -- The same for a whole line.
  abbrev Follows : Parser W → Outcome W → Type 0
  Follows gc o = spindle_after gc.modal.spindle o.events ≡ o.gc.modal.spindle

  execute_block-Follows :
      (coords : Coords W) (gc : Parser W) (c : Checked W)
      → s.check_mode ≡ false
      → (after_check arithmetic s coords gc (pass c)).status ≡ 0
      → Follows gc (after_check arithmetic s coords gc (pass c))
  unfolding after_check execute_block
  execute_block-Follows coords gc c m e =
      let first = first_run arithmetic coords gc c in
      let start = gc.modal.spindle in
      let jogged = execute_jog_block-Tracks arithmetic s start c first refl in
      let ready = run_commands-Tracks arithmetic s start c first m refl in
      let ends =
        run_program_flow-Tracks arithmetic s start c (run_commands arithmetic s c first) m ready in
      elim (Bool-cases (is_jog c)) [
        | inl jogs ↦ ground (arith, jogs, jogged)
        | inr runs ↦ let done = ends (ground (arith, runs, e)) in ground (arith, runs, done)
      ]

  checked-Follows :
      (coords : Coords W) (gc : Parser W) (m : Check (Checked W))
      → s.check_mode ≡ false
      → (after_check arithmetic s coords gc m).status ≡ 0
      → Follows gc (after_check arithmetic s coords gc m)
  unfolding after_check
  checked-Follows coords gc (pass c) m e = execute_block-Follows coords gc c m e
  checked-Follows coords gc (refuse status) m e = refl
  checked-Follows coords gc (unread i) m e = absurd (omega (arith, e))

  words-Follows :
      (coords : Coords W) (gc : Parser W) (line : List ℕ) (r : Result (Block W))
      → s.check_mode ≡ false
      → (after_words arithmetic s coords gc line r).status ≡ 0
      → Follows gc (after_words arithmetic s coords gc line r)
  unfolding after_words
  words-Follows coords gc line (fail status) m e = refl
  words-Follows coords gc line (ok b) m e =
      checked-Follows coords gc (check_block arithmetic coords gc (parsed gc line b)) m e

-- Outside the check mode, after a line of g-code that succeeds, the last state that its calls have
-- given the spindle is the state that the parser keeps for it, whatever commands the line combines.
pub gc_execute_line-Follows {ℓ} :
    {W : Type ℓ} (numbers : Numbers W) (floats : Floats W) (arithmetic : Arithmetic W)
    (s : Surroundings W) (coords : Coords W) (gc : Parser W) (line : List ℕ)
    → s.check_mode ≡ false
    → let o = gc_execute_line numbers floats arithmetic s coords gc line in
      o.status ≡ 0 → spindle_after gc.modal.spindle o.events ≡ o.gc.modal.spindle
unfolding gc_execute_line
gc_execute_line-Follows numbers floats arithmetic s coords gc line m e =
    words-Follows arithmetic s coords gc line (parse_block numbers floats gc.modal line) m e
