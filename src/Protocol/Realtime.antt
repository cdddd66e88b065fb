-- ===== src/Protocol/Realtime.antt =====
-- `protocol_exec_rt_system` of grbl/protocol.c, the state machine that serves the realtime flags.
-- PARKING_ENABLE is not defined. `has_block` says whether the planner holds a block. A call of
-- another component is recorded in `calls`.
pub mod Suspending
pub mod Alarm
pub mod Holds
pub mod Resume
pub mod Drain
pub mod States
pub mod Frame
pub mod Calm
pub mod Aborts
use tele_handwriter.Base.{
  ℕ, Bool, true, false, not, ◌&&◌, ◌||◌, Option, none, some, List, [], ◌∷◌, ◌==◌, if◌then◌else◌,
  bit_and, bit_or,
}
use tele_handwriter.Base.Bits.{bit_istrue, bit_isfalse, bit_not8}
use tele_handwriter.System.{
  Machine, Sys, Call, call, with_sys, report_alarm_message, report_feedback_message,
  report_realtime_status, st_update_plan_block_parameters, st_prep_buffer, st_wake_up, st_reset,
  plan_cycle_reinitialize, plan_reset, plan_sync_position, gc_sync_position, exec_status_report,
  exec_cycle_start, exec_cycle_stop, exec_feed_hold, exec_reset, exec_safety_door,
  exec_motion_cancel, exec_sleep, exec_alarm_hard_limit, exec_alarm_soft_limit, state_idle,
  state_alarm, state_check_mode, state_homing, state_cycle, state_hold, state_jog,
  state_safety_door, state_sleep, suspend_disable, suspend_hold_complete, suspend_restart_retract,
  suspend_retract_complete, suspend_initiate_restore, suspend_restore_complete,
  suspend_safety_door_ajar, suspend_motion_cancel, suspend_jog_cancel, step_control_normal_op,
  step_control_execute_hold, step_control_execute_sys_motion, spindle_stop_ovr_restore_cycle,
  system_clear_exec_state_flag, system_clear_exec_alarm,
}
unfoldable pub use tele_handwriter.Protocol.Realtime.Suspending.{
  message_safety_door_ajar, clear_flag, start_hold, flag_hold, restart_retract, open_door,
  go_to_sleep, hold_flags, hold_sys, hold_calls, exec_holds,
}
use tele_handwriter.Protocol.Overrides.{exec_motion_overrides, exec_accessory_overrides}

abbrev pub message_critical_event : ℕ
message_critical_event = 1

-- Lines 216 to 237: a critical alarm blocks until a reset. Each poll of the wait reads the next of
-- the values that the interrupts give to sys_rt_exec_state; the result is the one with a reset.
pub await_reset : List ℕ → Option ℕ
await_reset [] = none
await_reset (flags ∷ polls) =
    let later = await_reset polls in if bit_istrue flags exec_reset then some flags else later

abbrev pub is_critical : ℕ → Bool
is_critical alarm = alarm == exec_alarm_hard_limit || alarm == exec_alarm_soft_limit

-- The alarm part; `none` means that the wait has not ended within the polls given.
pub exec_alarm : List ℕ → Machine → Option Machine
exec_alarm polls m =
    let alarm = m.exec.alarm in
    let alarmed =
      call (report_alarm_message alarm) (with_sys (λ s. record s { state = state_alarm }) m) in
    let cleared = λ (n : Machine). record n { exec = system_clear_exec_alarm n.exec } in
    let critical = call (report_feedback_message message_critical_event) alarmed in
    if alarm == 0
    then some m
    else if is_critical alarm
    then elim (await_reset polls) [
      | none ↦ none
      | some flags ↦
          some (cleared (record critical { exec = record critical.exec { state = flags } }))
    ]
    else some (cleared alarmed)

-- Lines 336 to 347.
resume_door : Sys → Sys
resume_door s =
    if s.state == state_safety_door && bit_isfalse s.suspend suspend_safety_door_ajar
    then (if bit_istrue s.suspend suspend_restore_complete
        then record s { state = state_idle }
        else if bit_istrue s.suspend suspend_retract_complete
        then record s { suspend = bit_or s.suspend suspend_initiate_restore }
        else s)
    else s

-- Lines 354 to 363.
begin_cycle : Bool → Machine → Machine
begin_cycle has_block m =
    let normal = with_sys (λ s. record s { step_control = step_control_normal_op }) m in
    let freed = with_sys (λ s. record s { suspend = suspend_disable }) normal in
    if has_block && bit_isfalse m.sys.suspend suspend_motion_cancel
    then call st_wake_up
        (call st_prep_buffer (with_sys (λ s. record s { state = state_cycle }) freed))
    else with_sys (λ s. record s { state = state_idle }) freed

-- The machine may start a cycle: it is idle, or a hold is complete.
abbrev pub can_start : Sys → Bool
can_start s =
    s.state == state_idle
    || bit_istrue s.state state_hold && bit_istrue s.suspend suspend_hold_complete

-- Lines 349 to 365.
start_cycle : Bool → Machine → Machine
start_cycle has_block m =
    let s = m.sys in
    let restoring =
      with_sys
        (λ s. record s {
          spindle_stop_ovr = bit_or s.spindle_stop_ovr spindle_stop_ovr_restore_cycle;
        })
        m in
    if can_start s
    then (if s.state == state_hold && not (s.spindle_stop_ovr == 0)
        then restoring
        else begin_cycle has_block m)
    else m

abbrev pub blocking_flags : ℕ
blocking_flags = bit_or (bit_or exec_feed_hold exec_motion_cancel) exec_safety_door

-- Lines 331 to 368.
pub exec_start : Bool → ℕ → Machine → Machine
exec_start has_block rt_exec m =
    let started = start_cycle has_block (with_sys resume_door m) in
    if bit_istrue rt_exec exec_cycle_start
    then clear_flag exec_cycle_start (if bit_isfalse rt_exec blocking_flags then started else m)
    else m

-- Lines 379 to 381.
complete_hold : Sys → Sys
complete_hold s =
    let bits = bit_or step_control_execute_hold step_control_execute_sys_motion in
    let suspended =
      if bit_istrue s.step_control step_control_execute_hold
      then record s { suspend = bit_or s.suspend suspend_hold_complete }
      else s in
    record suspended { step_control = bit_and s.step_control (bit_not8 bits) }

-- Lines 385 to 391.
flush_jog : Machine → Machine
flush_jog m =
    if bit_istrue m.sys.suspend suspend_jog_cancel
    then call plan_sync_position (
        call gc_sync_position (
          call st_reset (
            call plan_reset
              (with_sys (λ s. record s { step_control = step_control_normal_op }) m))))
    else m

-- Lines 392 to 399.
complete_motion : Sys → Sys
complete_motion s =
    if bit_istrue s.suspend suspend_safety_door_ajar
    then record s {
      suspend = bit_or (bit_and s.suspend (bit_not8 suspend_jog_cancel)) suspend_hold_complete;
      state = state_safety_door;
    }
    else record s { suspend = suspend_disable; state = state_idle }

-- Lines 370 to 402.
pub exec_stop : ℕ → Machine → Machine
exec_stop rt_exec m =
    let s = m.sys in
    let held =
      bit_istrue s.state (bit_or (bit_or state_hold state_safety_door) state_sleep)
      && not s.soft_limit
      && bit_isfalse s.suspend suspend_jog_cancel in
    if bit_istrue rt_exec exec_cycle_stop
    then clear_flag exec_cycle_stop (
        if held
        then with_sys complete_hold (call plan_cycle_reinitialize m)
        else with_sys complete_motion (flush_jog m))
    else m

-- Lines 250 to 253.
exec_report : ℕ → Machine → Machine
exec_report rt_exec m =
    if bit_istrue rt_exec exec_status_report
    then clear_flag exec_status_report (call report_realtime_status m)
    else m

-- Lines 239 to 403, where no reset is pending. The flags are read once, at the start.
pub exec_state_flags : Bool → Machine → Machine
exec_state_flags has_block m =
    let rt_exec = m.exec.state in
    exec_stop rt_exec (exec_start has_block rt_exec (exec_holds rt_exec (exec_report rt_exec m)))

abbrev pub moving_states : ℕ
moving_states =
    bit_or
      (bit_or (bit_or (bit_or (bit_or state_cycle state_hold) state_safety_door) state_homing)
        state_sleep)
      state_jog

-- Lines 493 to 496.
unfoldable pub refill : Machine → Machine
refill m = if bit_istrue m.sys.state moving_states then call st_prep_buffer m else m

-- All of it after the alarm part.
pub exec_flags : Bool → Machine → Machine
exec_flags has_block m =
    let aborted = with_sys (λ s. record s { abort = true }) m in
    if bit_istrue m.exec.state exec_reset
    then aborted
    else refill (exec_accessory_overrides (exec_motion_overrides (exec_state_flags has_block m)))

pub protocol_exec_rt_system : Bool → List ℕ → Machine → Option Machine
protocol_exec_rt_system has_block polls m = elim (exec_alarm polls m) [
  | none ↦ none
  | some alarmed ↦ some (exec_flags has_block alarmed)
]
