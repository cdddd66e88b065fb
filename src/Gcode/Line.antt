-- ===== src/Gcode/Line.antt =====
-- `gc_execute_line` of grbl/gcode.c as a whole.
pub mod Atomic
pub mod Spindle
pub mod Position
pub mod Work
use tele_handwriter.Base.{ℕ, Bool, true, false, List, [], ◌∷◌, ◌==◌, if◌then◌else◌, get_or, some}
use tele_handwriter.Number.{Floats}
use tele_handwriter.System.Commands.{status_setting_read_fail}
use tele_handwriter.Gcode.{Result, ok, fail, Block, Numbers}
use tele_handwriter.Gcode.Words.{parse_block}
use tele_handwriter.Gcode.State.{
  axes, Arithmetic, Parser, Coords, Checked, Check, pass, refuse, unread,
}
use tele_handwriter.Gcode.Check.{check_block, gc_parser_jog_motion}
use tele_handwriter.Gcode.Events.{Surroundings, Event, synchronize, write_coord}
use tele_handwriter.Gcode.Execute.{execute_block}

module _ {ℓ} {W : Type ℓ} where
  -- The block that step 2 gives to step 3.
  abbrev pub parsed : Parser W → List ℕ → Block W → Checked W
  parsed gc line b = record {
    block = b;
    parser_flags = if get_or line 0 0 == b'$' then gc_parser_jog_motion else 0;
    coord_select = 0;
    block_coord_system = gc.coord_system;
  }

-- What a line gives back: its status, the parser and the coordinate data, and the calls it made.
pub record Outcome {ℓ} (W : Type ℓ) : Type ℓ where
  pub status : ℕ
  pub gc : Parser W
  pub coords : Coords W
  pub events : List (Event W)

abbrev pub refused {ℓ} : {W : Type ℓ} → ℕ → Coords W → Parser W → Outcome W
refused status coords gc = record { status = status; gc = gc; coords = coords; events = [] }

module _ {ℓ} {W : Type ℓ} (arithmetic : Arithmetic W) where
  abbrev pub zeroed : ℕ → Coords W → Coords W
  zeroed i coords = write_coord i (axes λ idx. arithmetic.nought) coords

  -- Step 4 after a check that passed. Coordinate data that cannot be read is overwritten with zeros,
  -- after protocol_buffer_synchronize.
  unfoldable pub after_check : Surroundings W → Coords W → Parser W → Check (Checked W) → Outcome W
  after_check s coords gc (refuse status) = refused status coords gc
  after_check s coords gc (unread i) =
      record (refused status_setting_read_fail (zeroed i coords) gc) { events = synchronize ∷ [] }
  after_check s coords gc (pass c) =
      let done = execute_block arithmetic s coords gc c in
      record { status = done.0; gc = done.1.gc; coords = done.1.coords; events = done.1.events }

  unfoldable pub after_words :
      Surroundings W → Coords W → Parser W → List ℕ → Result (Block W) → Outcome W
  after_words s coords gc line (fail status) = refused status coords gc
  after_words s coords gc line (ok b) =
      after_check s coords gc (check_block arithmetic coords gc (parsed gc line b))

module _ {ℓ} {W : Type ℓ} (numbers : Numbers W) (floats : Floats W)
    (arithmetic : Arithmetic W) where
  -- `gc_execute_line(line)`
  unfoldable pub gc_execute_line : Surroundings W → Coords W → Parser W → List ℕ → Outcome W
  gc_execute_line s coords gc line =
      after_words arithmetic s coords gc line (parse_block numbers floats gc.modal line)
