-- ===== src/Gcode/Line/Atomic.antt =====
-- What a line of g-code leaves behind that `gc_execute_line` of grbl/gcode.c refuses.
use tele_handwriter.Base.{
  ℕ, ◌-◌, ltb, ◌≡◌, ◌≢◌, ◌⊎◌, inl, inr, refl, Bool-cases, Option-cases, Option, none, some, List,
  [], ◌∷◌, subst, if◌then◌else◌, arith,
}
use tele_handwriter.Number.{Floats}
use tele_handwriter.System.Commands.{status_setting_read_fail}
use tele_handwriter.Gcode.{Result, ok, fail, Block, Numbers}
use tele_handwriter.Gcode.Words.{parse_block}
use tele_handwriter.Gcode.State.{
  Vector, axes, Arithmetic, Parser, Coords, Checked, Check, pass, refuse, unread, ◌>>=◌, read_coord,
}
use tele_handwriter.Gcode.Offsets.{
  check_tool_length, check_coord_system, set_coordinate_data, change_data, set_coordinate_offset,
  set_target, go_home, convert_units, check_target, check_non_modal, setting_index_g28,
  setting_index_g30,
}
use tele_handwriter.Gcode.Arcs.{radius_arc, offset_arc, check_arc, check_probe}
use tele_handwriter.Gcode.Check.{
  check_line_number, check_feed, check_dwell, check_motion, check_feed_motion, check_unused,
  check_block, imply_motion, keep_speed, is_jog,
}
use tele_handwriter.Gcode.Events.{Surroundings, Run, synchronize, restore_overrides}
use tele_handwriter.Gcode.Execute.{
  execute_block, execute_jog_block, jog_execute, run_program_flow, end_program, first_run,
  run_commands, reset_modes,
}
use tele_handwriter.Gcode.Line.{Outcome, zeroed, after_check, after_words, gc_execute_line, parsed}

module _ {ℓ} {W : Type ℓ} (arithmetic : Arithmetic W) (coords : Coords W) where
  -- The check did not read coordinate data, or data that cannot be read.
  abbrev IsHonest {κ} : {A : Type κ} → Check A → Type ℓ
  IsHonest (pass a) = Unit
  IsHonest (refuse status) = Unit
  IsHonest (unread i) = coords i ≡ none

  bind-IsHonest {κ μ} :
      {A : Type κ} {B : Type μ} (m : Check A) (f : A → Check B)
      → IsHonest m
      → ((a : A) → IsHonest (f a))
      → IsHonest (m >>= f)
  bind-IsHonest (pass a) f h i = i a
  bind-IsHonest (refuse status) f h i = tt
  bind-IsHonest (unread j) f h i = h

  read_coord-IsHonest : (i : ℕ) → IsHonest (read_coord coords i)
  read_coord-IsHonest i = found (coords i) refl
    where
      found :
          (o : Option (Vector W))
          → coords i ≡ o
          → IsHonest (elim o as (λ o. Check (Vector W)) [ none ↦ unread i | some v ↦ pass v ])
      found none h = h
      found (some v) h = tt

  check_coord_system-IsHonest :
      (gc : Parser W) (c : Checked W) → IsHonest (check_coord_system arithmetic coords gc c)
  unfolding check_coord_system
  check_coord_system-IsHonest gc c =
      let read =
        bind-IsHonest (read_coord coords c.block.modal.coord_select)
          (λ system. pass (record c { block_coord_system = system }))
          (read_coord-IsHonest c.block.modal.coord_select) (λ system. tt) in
      ground (arith, read)

  change_data-IsHonest :
      (gc : Parser W) (i : ℕ) (c : Checked W) → IsHonest (change_data arithmetic coords gc i c)
  unfolding change_data
  change_data-IsHonest gc i c =
      bind-IsHonest (read_coord coords i) _ (read_coord-IsHonest i) (λ v. tt)

  go_home-IsHonest :
      (gc : Parser W) (i : ℕ) (c : Checked W) → IsHonest (go_home arithmetic coords gc i c)
  unfolding go_home
  go_home-IsHonest gc i c = bind-IsHonest (read_coord coords i) _ (read_coord-IsHonest i) (λ v. tt)

  check_non_modal-IsHonest :
      (gc : Parser W) (c : Checked W) → IsHonest (check_non_modal arithmetic coords gc c)
  unfolding check_non_modal set_coordinate_data set_coordinate_offset check_target
  check_non_modal-IsHonest gc c =
      let number = arithmetic.byte c.block.values.p in
      let select = if ltb 0 number then number - 1 else c.block.modal.coord_select in
      let changed = change_data-IsHonest gc select c in
      let aimed = set_target arithmetic gc c in
      let first = go_home-IsHonest gc setting_index_g28 aimed in
      let second = go_home-IsHonest gc setting_index_g30 aimed in
      ground (arith, changed, first, second)

  check_motion-IsHonest : (gc : Parser W) (c : Checked W) → IsHonest (check_motion arithmetic gc c)
  unfolding check_motion check_feed_motion check_arc radius_arc offset_arc check_probe
  check_motion-IsHonest gc c = ground arith

  check_values-IsHonest :
      (gc : Parser W) (c : Checked W)
      → IsHonest (check_line_number c)
        × IsHonest (check_feed arithmetic gc c)
        × IsHonest (check_dwell c)
        × IsHonest (check_tool_length arithmetic c)
        × IsHonest (check_unused c)
  unfolding check_line_number check_feed check_dwell check_tool_length check_unused
  check_values-IsHonest gc c =
      (ground arith, ground arith, ground arith, ground arith, ground arith)

  check_block-IsHonest :
      (gc : Parser W) (c : Checked W) → IsHonest (check_block arithmetic coords gc c)
  unfolding check_block
  check_block-IsHonest gc c =
      bind-IsHonest (check_line_number (imply_motion c)) _ (check_values-IsHonest gc _).0
        λ numbered.
          bind-IsHonest (check_feed arithmetic gc numbered) _ (check_values-IsHonest gc _).1 λ fed.
            bind-IsHonest (check_dwell (keep_speed arithmetic gc fed)) _
              (check_values-IsHonest gc _).2
              λ waiting.
                bind-IsHonest (check_tool_length arithmetic (convert_units arithmetic waiting)) _
                  (check_values-IsHonest gc _).3
                  λ tooled.
                    bind-IsHonest (check_coord_system arithmetic coords gc tooled) _
                      (check_coord_system-IsHonest gc tooled)
                      λ located.
                        bind-IsHonest (check_non_modal arithmetic coords gc located) _
                          (check_non_modal-IsHonest gc located)
                          λ aimed.
                            bind-IsHonest (check_motion arithmetic gc aimed) _
                              (check_motion-IsHonest gc aimed)
                              λ moving. (check_values-IsHonest gc moving).4

-- The line left the parser as it was. Either it made no call and the coordinate data is the same, or
-- coordinate data could not be read: it is now zero, and the line's one call waited for the buffer
-- before that write.
pub record IsDropped {ℓ} {W : Type ℓ} (arithmetic : Arithmetic W) (coords : Coords W)
    (gc : Parser W) (o : Outcome W) : Type ℓ where
  pub same_parser : o.gc ≡ gc
  pub effect :
      ((o.events ≡ []) × (o.coords ≡ coords))
      ⊎ ((i : ℕ) × (coords i ≡ none)
          × (o.coords ≡ zeroed arithmetic i coords)
          × (o.events ≡ synchronize ∷ []))

-- The end of a program could not read the first coordinate system. The checked block `d` was executed
-- and the modes were reset; the first coordinate system is now zero, in the coordinate data and in the
-- parser. The program flow is still pending, and the calls after those of the block do not stop the
-- spindle and the coolant.
pub record EndsUnread {ℓ} {W : Type ℓ} (arithmetic : Arithmetic W) (s : Surroundings W)
    (run : Run W) (d : Checked W) (o : Outcome W) : Type ℓ where
  pub read_failed : o.status ≡ status_setting_read_fail
  pub unreadable : run.coords 0 ≡ none
  pub ends : (d.block.modal.program_flow ≢ 0) × (d.block.modal.program_flow ≢ 3)
  pub modes :
      o.gc.modal ≡ reset_modes (record run.gc.modal { program_flow = d.block.modal.program_flow })
  pub same_position : o.gc.position ≡ run.gc.position
  pub no_system : o.gc.coord_system ≡ axes λ idx. arithmetic.nought
  pub overwritten : o.coords ≡ zeroed arithmetic 0 run.coords
  pub calls : o.events ≡ synchronize ∷ restore_overrides ∷ synchronize ∷ run.events

module _ {ℓ} {W : Type ℓ} (arithmetic : Arithmetic W) where
  -- What an executed block has run before its program flow.
  abbrev pub executed : Surroundings W → Coords W → Parser W → Checked W → Run W
  executed s coords gc d = run_commands arithmetic s d (first_run arithmetic coords gc d)

  -- The line was dropped, or a block that passed the check ends a program.
  abbrev Fails : Surroundings W → Coords W → Parser W → Check (Checked W) → Outcome W → Type ℓ
  Fails s coords gc m o =
      IsDropped arithmetic coords gc o
      ⊎ ((d : Checked W) × (m ≡ pass d) × EndsUnread arithmetic s (executed s coords gc d) d o)

  execute_jog_block-IsDropped :
      (s : Surroundings W) (coords : Coords W) (gc : Parser W) (c : Checked W)
      → let done = execute_jog_block arithmetic s c (first_run arithmetic coords gc c) in
        done.0 ≢ 0 → (done.1.gc ≡ gc) × (done.1.events ≡ []) × (done.1.coords ≡ coords)
  unfolding execute_jog_block jog_execute
  execute_jog_block-IsDropped s coords gc c h = ground (arith, h)

  abbrev outcome : ℕ × Run W → Outcome W
  outcome (status, run) = record {
    status = status;
    gc = run.gc;
    coords = run.coords;
    events = run.events;
  }

  run_program_flow-ends :
      (s : Surroundings W) (c : Checked W) (run : Run W)
      → (run_program_flow arithmetic s c run).0 ≢ 0
      → EndsUnread arithmetic s run c (outcome (run_program_flow arithmetic s c run))
  unfolding run_program_flow end_program
  run_program_flow-ends s c run h = elim (Option-cases (run.coords 0)) [
    | inl unreadable ↦ record {
      read_failed = ground (arith, h, unreadable);
      unreadable = unreadable;
      ends = ground (arith, h, unreadable);
      modes = ground (arith, h, unreadable);
      same_position = ground (arith, h, unreadable);
      no_system = ground (arith, h, unreadable);
      overwritten = ground (arith, h, unreadable);
      calls = ground (arith, h, unreadable);
    }
    | inr (system, found) ↦ absurd (ground (arith, h, found))
  ]

  execute_block-outcome :
      (s : Surroundings W) (coords : Coords W) (gc : Parser W) (c : Checked W)
      → let o = after_check arithmetic s coords gc (pass c) in
        o.status ≢ 0 → Fails s coords gc (pass c) o
  unfolding after_check execute_block
  execute_block-outcome s coords gc c h = elim (Bool-cases (is_jog c)) [
    | inl jogs ↦
        let (gc_kept, silent, kept) =
          execute_jog_block-IsDropped s coords gc c (ground (arith, h, jogs)) in
        inl (record {
          same_parser = ground (arith, gc_kept, jogs);
          effect = inl (ground (arith, silent, kept, jogs));
        })
    | inr runs ↦
        let run = executed s coords gc c in
        let ends = run_program_flow-ends s c run (ground (arith, h, runs)) in
        let same : outcome (run_program_flow arithmetic s c run)
            ≡ after_check arithmetic s coords gc (pass c) =
          ground (arith, runs) in
        inr (c, refl, subst (λ o. EndsUnread arithmetic s run c o) same ends)
  ]

  checked-outcome :
      (s : Surroundings W) (coords : Coords W) (gc : Parser W) (m : Check (Checked W))
      → IsHonest arithmetic coords m
      → let o = after_check arithmetic s coords gc m in o.status ≢ 0 → Fails s coords gc m o
  unfolding after_check
  checked-outcome s coords gc (pass c) honest h = execute_block-outcome s coords gc c h
  checked-outcome s coords gc (refuse status) honest h =
      inl (record { same_parser = refl; effect = inl (refl, refl) })
  checked-outcome s coords gc (unread i) honest h =
      inl (record { same_parser = refl; effect = inr (i, honest, refl, refl) })

  -- The same for a line whose words are known.
  abbrev LineFails :
      Surroundings W → Coords W → Parser W → List ℕ → Result (Block W) → Outcome W → Type ℓ
  LineFails s coords gc line r o =
      IsDropped arithmetic coords gc o
      ⊎ ((b : Block W) × (d : Checked W) × (r ≡ ok b)
          × (check_block arithmetic coords gc (parsed gc line b) ≡ pass d)
          × EndsUnread arithmetic s (executed s coords gc d) d o)

  words-outcome :
      (s : Surroundings W) (coords : Coords W) (gc : Parser W) (line : List ℕ)
      (r : Result (Block W))
      → let o = after_words arithmetic s coords gc line r in
        o.status ≢ 0 → LineFails s coords gc line r o
  unfolding after_words
  words-outcome s coords gc line (fail status) h =
      inl (record { same_parser = refl; effect = inl (refl, refl) })
  words-outcome s coords gc line (ok b) h =
      let first = parsed gc line b in
      elim (checked-outcome s coords gc (check_block arithmetic coords gc first)
        (check_block-IsHonest arithmetic coords gc first) h) [
          | inl dropped ↦ inl dropped
          | inr (d, passes, ends) ↦ inr (b, d, refl, passes, ends)
        ]

-- A line of g-code that returns an error has left the parser as it was. It has made no call and
-- changed no coordinate data, or has overwritten with zeros coordinate data that could not be read,
-- after its one call, a wait for the buffer. The one exception is the end of a program that cannot
-- read the first coordinate system: its block, which the line parses to and the check passes, has been
-- executed and the modes were reset, but the program flow is still pending, and after the block's
-- calls only the overrides were restored and the buffer waited for.
pub gc_execute_line-IsDropped {ℓ} :
    {W : Type ℓ} (numbers : Numbers W) (floats : Floats W) (arithmetic : Arithmetic W)
    (s : Surroundings W) (coords : Coords W) (gc : Parser W) (line : List ℕ)
    → let o = gc_execute_line numbers floats arithmetic s coords gc line in
      o.status ≢ 0
      → IsDropped arithmetic coords gc o
        ⊎ ((b : Block W) × (d : Checked W) × (parse_block numbers floats gc.modal line ≡ ok b)
            × (check_block arithmetic coords gc (parsed gc line b) ≡ pass d)
            × EndsUnread arithmetic s (executed arithmetic s coords gc d) d o)
unfolding gc_execute_line
gc_execute_line-IsDropped numbers floats arithmetic s coords gc line h =
    words-outcome arithmetic s coords gc line (parse_block numbers floats gc.modal line) h
