-- ===== src/Protocol/Realtime/Resume.antt =====
-- The cycle start and the cycle stop of the executor in grbl/protocol.c.
use tele_handwriter.Base.{
  ℕ, ◌≡◌, ◌≢◌, ◌↔◌, ◌⊎◌, refl, Bool, true, false, ◌==◌, ◌||◌, if◌then◌else◌, arith, bit_or,
}
use tele_handwriter.Base.Bits.{bit_istrue, bit_not8}
use tele_handwriter.Base.Bits.Laws.{test-bit_or_hit, test-bit_and_drop}
use tele_handwriter.System.{
  Machine, Sys, exec_cycle_start, exec_cycle_stop, state_sleep, suspend_jog_cancel,
  step_control_execute_hold, step_control_execute_sys_motion, state_idle, state_cycle, state_hold,
  state_safety_door, suspend_hold_complete, suspend_motion_cancel, suspend_safety_door_ajar,
  suspend_restore_complete,
}
use tele_handwriter.Protocol.Realtime.States.{IsState}
use tele_handwriter.Protocol.Realtime.{
  resume_door, begin_cycle, start_cycle, exec_start, blocking_flags, exec_stop, complete_hold,
  complete_motion, flush_jog,
}

-- The machine is idle, or holds with its hold complete and no spindle stop override to undo, or
-- its door is closed again and the restore is complete.
abbrev pub IsReady : Sys → Type 0
IsReady s =
    (s.state ≡ state_idle)
    ⊎ ((s.state ≡ state_hold)
        × (bit_istrue s.suspend suspend_hold_complete ≡ true)
        × (s.spindle_stop_ovr ≡ 0))
    ⊎ ((s.state ≡ state_safety_door)
        × (bit_istrue s.suspend suspend_safety_door_ajar ≡ false)
        × (bit_istrue s.suspend suspend_restore_complete ≡ true))

-- The pending flags ask for a start, the planner has a block and no motion is being cancelled.
abbrev pub IsAsked : Bool → ℕ → Sys → Type 0
IsAsked has_block flags s =
    (bit_istrue flags exec_cycle_start ≡ true)
    × (bit_istrue flags blocking_flags ≡ false)
    × (has_block ≡ true)
    × (bit_istrue s.suspend suspend_motion_cancel ≡ false)

exec_start-state :
    (has_block : Bool) (flags : ℕ) (m : Machine)
    → IsState m.sys.state
    → m.sys.state ≢ state_cycle
    → (exec_start has_block flags m).sys.state ≡ state_cycle
    → IsAsked has_block flags m.sys × IsReady m.sys
unfolding exec_start start_cycle begin_cycle resume_door
exec_start-state has_block flags m h n e = ground arith

exec_start-starts :
    (has_block : Bool) (flags : ℕ) (m : Machine)
    → IsAsked has_block flags m.sys × IsReady m.sys
    → (exec_start has_block flags m).sys.state ≡ state_cycle
unfolding exec_start start_cycle begin_cycle resume_door
exec_start-starts has_block flags m h = ground arith

-- A cycle is entered exactly when a start is asked for, with a block to run and no hold pending in
-- the same flags, and the machine is ready for it.
pub exec_start_iff :
    (has_block : Bool) (flags : ℕ) (m : Machine)
    → IsState m.sys.state
    → m.sys.state ≢ state_cycle
    → ((exec_start has_block flags m).sys.state ≡ state_cycle)
      ↔ (IsAsked has_block flags m.sys × IsReady m.sys)
exec_start_iff has_block flags m h n =
    (exec_start-state has_block flags m h n, exec_start-starts has_block flags m)

-- When the steppers report the end of a hold, the hold is complete and the state stays; when they
-- report the end of a motion the machine is idle again, or at the door if it was opened meanwhile.
pub exec_stop_lem :
    (flags : ℕ) (m : Machine)
    → IsState m.sys.state
    → m.sys.soft_limit ≡ false
    → bit_istrue m.sys.suspend suspend_jog_cancel ≡ false
    → bit_istrue flags exec_cycle_stop ≡ true
    → bit_istrue m.sys.step_control step_control_execute_hold ≡ true
    → let n = exec_stop flags m in
      let holding =
        m.sys.state == state_hold
        || m.sys.state == state_safety_door
        || m.sys.state == state_sleep in
      (n.sys.state ≡ (
        if holding
        then m.sys.state
        else if bit_istrue m.sys.suspend suspend_safety_door_ajar
        then state_safety_door
        else state_idle))
      × (holding ≡ true → bit_istrue n.sys.suspend suspend_hold_complete ≡ true)
      × (holding ≡ true → bit_istrue n.sys.step_control step_control_execute_hold ≡ false)
unfolding exec_stop complete_hold complete_motion flush_jog
exec_stop_lem flags m h l j c x =
    let bits = bit_or step_control_execute_hold step_control_execute_sys_motion in
    ground (
      arith,
      test-bit_or_hit m.sys.suspend suspend_hold_complete suspend_hold_complete (omega arith),
      test-bit_and_drop m.sys.step_control (bit_not8 bits) step_control_execute_hold refl,
    )
