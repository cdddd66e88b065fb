-- ===== src/Gcode/Events.antt =====
-- The run of a block by step 4 of `gc_execute_line` in grbl/gcode.c: its data, the calls of other
-- components as a list of events, the first at its end, and small changes of both.
use tele_handwriter.Base.{ℕ, Bool, ◌||◌, some, List, ◌∷◌, ◌==◌, if◌then◌else◌, bit_or}
use tele_handwriter.Gcode.{Modal}
use tele_handwriter.Gcode.State.{Vector, Parser, Coords}

abbrev pub status_travel_exceeded : ℕ
status_travel_exceeded = 15

abbrev pub status_invalid_jog_command : ℕ
status_invalid_jog_command = 16

abbrev pub message_program_end : ℕ
message_program_end = 8

abbrev pub pl_cond_flag_rapid_motion : ℕ
pl_cond_flag_rapid_motion = 1

abbrev pub pl_cond_flag_no_feed_override : ℕ
pl_cond_flag_no_feed_override = 4

abbrev pub pl_cond_flag_inverse_time : ℕ
pl_cond_flag_inverse_time = 8

abbrev pub gc_parser_laser_force_sync : ℕ
gc_parser_laser_force_sync = 32

abbrev pub gc_parser_laser_disable : ℕ
gc_parser_laser_disable = 64

abbrev pub gc_parser_laser_ismotion : ℕ
gc_parser_laser_ismotion = 128

-- `plan_line_data_t`
pub record PlanData {ℓ} (W : Type ℓ) : Type ℓ where
  pub spindle_speed : W
  pub feed_rate : W
  pub condition : ℕ

pub data Event {ℓ} (W : Type ℓ) : Type ℓ where
  wco_change synchronize feed_hold realtime restore_overrides start_jog : Event W
  set_spindle : ℕ → W → Event W
  set_coolant report_message : ℕ → Event W
  mc_dwell : W → Event W
  mc_line : Vector W → PlanData W → Event W
  mc_arc : (target position offset : Vector W) → PlanData W → W → ℕ → ℕ → ℕ → Bool → Event W
  mc_probe_cycle : Vector W → PlanData W → ℕ → Event W

-- What the block finds outside the parser: three settings, the state of the system, and the answers of
-- mc_probe_cycle, plan_get_current_block and gc_sync_position.
pub record Surroundings {ℓ} (W : Type ℓ) : Type ℓ where
  pub laser_mode : Bool
  pub soft_limit_enable : Bool
  pub check_mode : Bool
  pub is_idle : Bool
  pub has_block : Bool
  pub max_travel : Vector W
  pub update_pos : ℕ
  pub sys_position : Vector W

-- `gc_state`, the coordinate data, pl_data, the values of the block that change, and the events.
pub record Run {ℓ} (W : Type ℓ) : Type ℓ where
  pub gc : Parser W
  pub coords : Coords W
  pub plan : PlanData W
  pub parser_flags : ℕ
  pub events : List (Event W)

-- MOTION_MODE_LINEAR, MOTION_MODE_CW_ARC or MOTION_MODE_CCW_ARC.
abbrev pub is_cut : ℕ → Bool
is_cut mode = mode == 1 || mode == 2 || mode == 3

module _ {ℓ} {W : Type ℓ} where
  abbrev pub emit : Event W → Run W → Run W
  emit e run = record run { events = e ∷ run.events }

  abbrev pub on_gc : (Parser W → Parser W) → Run W → Run W
  on_gc f run = record run { gc = f run.gc }

  abbrev pub on_modal : (Modal → Modal) → Run W → Run W
  on_modal f run = on_gc (λ g. record g { modal = f g.modal }) run

  abbrev pub add_condition : ℕ → Run W → Run W
  add_condition flag run = record run {
    plan = record run.plan { condition = bit_or run.plan.condition flag };
  }

  abbrev pub write_coord : ℕ → Vector W → Coords W → Coords W
  write_coord coord_select v coords i = if i == coord_select then some v else coords i
