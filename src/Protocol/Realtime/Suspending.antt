-- ===== src/Protocol/Realtime/Suspending.antt =====
-- The hold, door and sleep flags in `protocol_exec_rt_system` of grbl/protocol.c, lines 255 to 328.
-- PARKING_ENABLE is not defined.
use tele_handwriter.Base.{ℕ, ◌&&◌, ◌==◌, if◌then◌else◌, bit_and, bit_or}
use tele_handwriter.Base.Bits.{bit_istrue, bit_isfalse, bit_not8}
use tele_handwriter.System.{
  Machine, Sys, call, with_sys, report_feedback_message, st_update_plan_block_parameters,
  exec_feed_hold, exec_safety_door, exec_motion_cancel, exec_sleep, state_idle, state_alarm,
  state_check_mode, state_cycle, state_hold, state_jog, state_safety_door, state_sleep,
  suspend_hold_complete, suspend_restart_retract, suspend_retract_complete,
  suspend_initiate_restore, suspend_restore_complete, suspend_safety_door_ajar,
  suspend_motion_cancel, suspend_jog_cancel, step_control_execute_hold,
  system_clear_exec_state_flag,
}

abbrev pub message_safety_door_ajar : ℕ
message_safety_door_ajar = 6

-- `system_clear_exec_state_flag(mask)`
abbrev pub clear_flag : ℕ → Machine → Machine
clear_flag mask m = record m { exec = system_clear_exec_state_flag mask m.exec }

-- Lines 262 to 271.
unfoldable pub start_hold : ℕ → Sys → Sys
start_hold rt_exec s =
    let held = record s { step_control = step_control_execute_hold } in
    if bit_istrue s.state (bit_or state_cycle state_jog)
      && bit_isfalse s.suspend (bit_or suspend_motion_cancel suspend_jog_cancel)
    then (if s.state == state_jog && bit_isfalse rt_exec exec_sleep
        then record held { suspend = bit_or s.suspend suspend_jog_cancel }
        else held)
    else s

-- Lines 273 to 288: an idle machine is held at once, a motion cancel is noted, a feed hold entered.
unfoldable pub flag_hold : ℕ → Sys → Sys
flag_hold rt_exec s =
    let a = if s.state == state_idle then record s { suspend = suspend_hold_complete } else s in
    let b =
      if bit_istrue rt_exec exec_motion_cancel && bit_isfalse a.state state_jog
      then record a { suspend = bit_or a.suspend suspend_motion_cancel }
      else a in
    if bit_istrue rt_exec exec_feed_hold
      && bit_isfalse b.state (bit_or (bit_or state_safety_door state_jog) state_sleep)
    then record b { state = state_hold }
    else b

-- Lines 299 to 313.
unfoldable pub restart_retract : Sys → Sys
restart_retract s =
    let done =
      bit_or (bit_or suspend_retract_complete suspend_initiate_restore) suspend_restore_complete in
    if s.state == state_safety_door && bit_istrue s.suspend suspend_initiate_restore
    then record s { suspend = bit_or (bit_and s.suspend (bit_not8 done)) suspend_restart_retract }
    else s

-- Lines 293 to 318.
unfoldable pub open_door : ℕ → Sys → Sys
open_door rt_exec s =
    let retracting = restart_retract s in
    let entered =
      if s.state == state_sleep
      then retracting
      else record retracting { state = state_safety_door } in
    let opened = if bit_istrue s.suspend suspend_jog_cancel then s else entered in
    if bit_istrue rt_exec exec_safety_door
    then record opened { suspend = bit_or opened.suspend suspend_safety_door_ajar }
    else s

-- Lines 322 to 325.
unfoldable pub go_to_sleep : ℕ → Sys → Sys
go_to_sleep rt_exec s =
    let parked = bit_or suspend_retract_complete suspend_hold_complete in
    let suspended =
      if s.state == state_alarm then record s { suspend = bit_or s.suspend parked } else s in
    if bit_istrue rt_exec exec_sleep then record suspended { state = state_sleep } else s

abbrev pub hold_flags : ℕ
hold_flags = bit_or (bit_or (bit_or exec_motion_cancel exec_feed_hold) exec_safety_door) exec_sleep

-- The system variables after lines 257 to 326.
unfoldable pub hold_sys : ℕ → Sys → Sys
hold_sys rt_exec s =
    let held = open_door rt_exec (flag_hold rt_exec (start_hold rt_exec s)) in
    go_to_sleep rt_exec
      (if bit_istrue s.state (bit_or state_alarm state_check_mode) then s else held)

-- The calls that the same lines make.
unfoldable pub hold_calls : ℕ → Machine → Machine
hold_calls rt_exec m =
    let s = m.sys in
    let a =
      if bit_istrue s.state (bit_or state_cycle state_jog)
        && bit_isfalse s.suspend (bit_or suspend_motion_cancel suspend_jog_cancel)
      then call st_update_plan_block_parameters m
      else m in
    let b =
      if bit_istrue rt_exec exec_safety_door
      then call (report_feedback_message message_safety_door_ajar) a
      else a in
    if bit_istrue s.state (bit_or state_alarm state_check_mode) then m else b

unfoldable pub exec_holds : ℕ → Machine → Machine
exec_holds rt_exec m =
    if bit_istrue rt_exec hold_flags
    then clear_flag hold_flags (with_sys (hold_sys rt_exec) (hold_calls rt_exec m))
    else m
