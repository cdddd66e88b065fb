-- ===== src/Motion.antt =====
-- Lines and dwells of grbl/motion_control.c, limits_soft_check of grbl/limits.c, and the waits of
-- grbl/protocol.c for room in the planner and for the end of all motion. A `Moment` is what happens at
-- one call of protocol_execute_realtime. A routine takes the moments to come and returns those left;
-- `none` means that it is still waiting when they are used up.
pub mod Queue
pub mod Synchronize
pub mod SoftLimits
use tele_handwriter.Base.{
  ℕ, zero, suc, Bool, true, false, not, ◌&&◌, ◌||◌, Option, none, some, List, [], ◌∷◌, ◌==◌,
  if◌then◌else◌,
}
use tele_handwriter.Base.Bits.{bit_istrue}
use tele_handwriter.System.{
  Machine, with_sys, system_set_exec_state_flag, system_set_exec_alarm, exec_feed_hold,
  exec_alarm_soft_limit, state_idle, state_cycle, state_jog, state_check_mode,
  bitflag_soft_limit_enable, bitflag_laser_mode,
}
use tele_handwriter.System.Reset.{mc_reset}
use tele_handwriter.System.Travel.{system_check_travel_limits}
use tele_handwriter.Spindle.{Speeds, spindle_set_state}
use tele_handwriter.Protocol.Suspend.{Turn, set_cycle_start}
use tele_handwriter.Protocol.Suspend.Loops.{Block, protocol_execute_realtime}
use tele_handwriter.Planner.{
  Planner, Position, plan_get_current_block, plan_check_full_buffer, plan_buffer_line,
}
use tele_handwriter.Gcode.State.{Vector, Arithmetic}
use tele_handwriter.Gcode.Events.{PlanData}

abbrev pub pl_cond_flag_spindle_cw : ℕ
pl_cond_flag_spindle_cw = 16

-- The turns of protocol_exec_rt_system within the call, the block that runs, and what interrupts and
-- realtime commands do to the blocks of the planner.
pub record Moment {ℓ} (W : Type ℓ) : Type ℓ where
  pub turns : List Turn
  pub block : Block W
  pub settle : Planner → Planner

pub record Station : Type 0 where
  pub machine : Machine
  pub planner : Planner

abbrev pub Rest {ℓ} : Type ℓ → Type ℓ
Rest W = Option (List (Moment W) × Station)

abbrev pub and_then {ℓ} : {W : Type ℓ} → Rest W → (List (Moment W) → Station → Rest W) → Rest W
and_then none next = none
and_then (some (moments, s)) next = next moments s

abbrev pub has_current : Planner → Bool
has_current pl = elim (plan_get_current_block pl) [ none ↦ false | some block ↦ true ]

-- `protocol_auto_cycle_start()`
abbrev pub protocol_auto_cycle_start : Station → Station
protocol_auto_cycle_start s =
    if has_current s.planner then record s { machine = set_cycle_start s.machine } else s

-- What plan_buffer_line does with floats, and settings.max_travel: the steps of a target and the
-- planned index after the recalculation.
pub record Planning {ℓ} (W : Type ℓ) : Type ℓ where
  pub to_steps : Vector W → Position
  pub planned : Planner → ℕ
  pub max_travel : Vector W

-- `spindle_speed` is gc_state.spindle_speed.
module _ {ℓ} {W : Type ℓ} (speeds : Speeds W) (spindle_speed : W) where
  -- A call of protocol_execute_realtime.
  pub checkpoint : Moment W → Station → Option Station
  checkpoint moment s =
      elim (protocol_execute_realtime speeds moment.block spindle_speed moment.turns s.machine) [
        | none ↦ none
        | some (turns, m) ↦ some (record { machine = m; planner = moment.settle s.planner })
      ]

  -- Lines 60 to 65 of motion_control.c.
  pub await_room : List (Moment W) → Station → Rest W
  await_room [] s = none
  await_room (moment ∷ moments) s = elim (checkpoint moment s) [
    | none ↦ none
    | some t ↦
        if t.machine.sys.abort
        then some (moments, t)
        else if plan_check_full_buffer t.planner
        then await_room moments (protocol_auto_cycle_start t)
        else some (moments, t)
  ]

  -- Lines 173 to 176 of protocol.c.
  pub await_end : List (Moment W) → Station → Rest W
  await_end [] s = none
  await_end (moment ∷ moments) s = elim (checkpoint moment s) [
    | none ↦ none
    | some t ↦
        if t.machine.sys.abort
        then some (moments, t)
        else if has_current t.planner || t.machine.sys.state == state_cycle
        then await_end moments t
        else some (moments, t)
  ]

  -- `protocol_buffer_synchronize()`
  pub protocol_buffer_synchronize : List (Moment W) → Station → Rest W
  protocol_buffer_synchronize moments s = await_end moments (protocol_auto_cycle_start s)

  -- `spindle_sync(state, rpm)`
  pub spindle_sync : ℕ → W → List (Moment W) → Station → Rest W
  spindle_sync state rpm moments s =
      if s.machine.sys.state == state_check_mode
      then some (moments, s)
      else and_then (protocol_buffer_synchronize moments s)
          λ left t. some (left, record t { machine = spindle_set_state speeds state rpm t.machine })

  -- Lines 350 to 353 of limits.c.
  pub await_stop : List (Moment W) → Station → Rest W
  await_stop [] s = none
  await_stop (moment ∷ moments) s = elim (checkpoint moment s) [
    | none ↦ none
    | some t ↦
        if t.machine.sys.abort || t.machine.sys.state == state_idle
        then some (moments, t)
        else await_stop moments t
  ]

  -- Lines 355 to 357 of limits.c.
  pub raise_soft_limit : List (Moment W) → Station → Rest W
  raise_soft_limit [] s = none
  raise_soft_limit (moment ∷ moments) s =
      let reset = mc_reset s.machine in
      let alarmed = record reset {
        exec = system_set_exec_alarm exec_alarm_soft_limit reset.exec;
      } in
      elim (checkpoint moment (record s { machine = alarmed })) [
        | none ↦ none
        | some t ↦ some (moments, t)
      ]

  -- Lines 344 to 354 of limits.c: a cycle is halted.
  abbrev pub stop_cycle : List (Moment W) → Station → Rest W
  stop_cycle moments s =
      let limited = record s {
        machine = with_sys (λ y. record y { soft_limit = true }) s.machine;
      } in
      let held = record limited {
        machine = record limited.machine {
          exec = system_set_exec_state_flag exec_feed_hold limited.machine.exec;
        };
      } in
      if s.machine.sys.state == state_cycle
      then await_stop moments held
      else some (moments, limited)

  -- `limits_soft_check(target)`
  pub limits_soft_check : Arithmetic W → Vector W → Vector W → List (Moment W) → Station → Rest W
  limits_soft_check arithmetic max_travel target moments s =
      if not (system_check_travel_limits arithmetic max_travel target)
      then some (moments, s)
      else and_then (stop_cycle moments s) λ left t.
        if s.machine.sys.state == state_cycle && t.machine.sys.abort
        then some (left, t)
        else raise_soft_limit left t

  -- Lines 68 to 76 of motion_control.c.
  pub queue_line : Planning W → Vector W → PlanData W → List (Moment W) → Station → Rest W
  queue_line planning target pl_data moments s =
      let result =
        plan_buffer_line (planning.to_steps target) (planning.planned s.planner) s.planner in
      let queued = record s { planner = result.1 } in
      if not result.0
        && bit_istrue s.machine.settings_flags bitflag_laser_mode
        && bit_istrue pl_data.condition pl_cond_flag_spindle_cw
      then spindle_sync pl_cond_flag_spindle_cw pl_data.spindle_speed moments queued
      else some (moments, queued)

  -- `mc_line(target, pl_data)`
  pub mc_line :
      Arithmetic W → Planning W → Vector W → PlanData W → List (Moment W) → Station → Rest W
  mc_line arithmetic planning target pl_data moments s =
      let enabled = bit_istrue s.machine.settings_flags bitflag_soft_limit_enable in
      let checked =
        if enabled && not (s.machine.sys.state == state_jog)
        then limits_soft_check arithmetic planning.max_travel target moments s
        else some (moments, s) in
      and_then checked λ first t.
        if t.machine.sys.state == state_check_mode
        then some (first, t)
        else and_then (await_room first t) λ left u.
          if u.machine.sys.abort then some (left, u) else queue_line planning target pl_data left u

  -- `delay_sec(seconds, DELAY_MODE_DWELL)`, with the seconds in steps.
  pub dwell_sec : ℕ → List (Moment W) → Station → Rest W
  dwell_sec zero moments s = some (moments, s)
  dwell_sec (suc i) [] s = if s.machine.sys.abort then some ([], s) else none
  dwell_sec (suc i) (moment ∷ moments) s =
      if s.machine.sys.abort
      then some (moment ∷ moments, s)
      else elim (checkpoint moment s) [ none ↦ none | some t ↦ dwell_sec i moments t ]

  -- `mc_dwell(seconds)`
  pub mc_dwell : ℕ → List (Moment W) → Station → Rest W
  mc_dwell steps moments s =
      if s.machine.sys.state == state_check_mode
      then some (moments, s)
      else and_then (protocol_buffer_synchronize moments s) (dwell_sec steps)
