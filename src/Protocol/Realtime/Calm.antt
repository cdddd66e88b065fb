-- ===== src/Protocol/Realtime/Calm.antt =====
-- A call of protocol_exec_rt_system in grbl/protocol.c where only a cycle start is pending.
use tele_handwriter.Base.{ℕ, ◌≡◌, ap, ◌∙◌, true, arith, List, some, bit_or}
use tele_handwriter.System.{
  Machine, Exec, exec_cycle_start, state_cycle, state_hold, state_safety_door,
  suspend_hold_complete, suspend_retract_complete, suspend_initiate_restore,
  suspend_restore_complete,
}
use tele_handwriter.Protocol.Overrides.Frame.{overrides-none}
use tele_handwriter.Protocol.Realtime.{
  exec_report, exec_holds, exec_start, exec_stop, start_cycle, begin_cycle, resume_door,
  exec_state_flags, refill, exec_flags, protocol_exec_rt_system,
}
use tele_handwriter.Protocol.Realtime.Frame.{exec_rt_system-no_alarm}

-- Only a cycle start is pending.
pub record IsStarting (m : Machine) : Type 0 where
  pub flags : m.exec.state ≡ exec_cycle_start
  pub no_alarm : m.exec.alarm ≡ 0
  pub no_motion : m.exec.motion_override ≡ 0
  pub no_accessory : m.exec.accessory_override ≡ 0

exec_state_flags-start :
    (m : Machine)
    → m.exec.state ≡ exec_cycle_start
    → exec_state_flags true m ≡ exec_start true exec_cycle_start m
unfolding exec_state_flags exec_report exec_holds exec_stop
exec_state_flags-start m e = simp e

exec_start-exec :
    (m : Machine)
    → (exec_start true exec_cycle_start m).exec
      ≡ record m.exec { state = (exec_start true exec_cycle_start m).exec.state }
unfolding exec_start start_cycle begin_cycle resume_door
exec_start-exec m = ground arith

exec_flags-start :
    (m : Machine) → IsStarting m → exec_flags true m ≡ refill (exec_start true exec_cycle_start m)
unfolding exec_flags
exec_flags-start m s =
    let started = exec_start true exec_cycle_start m in
    let same = exec_start-exec m in
    let no_motion : started.exec.motion_override ≡ 0 =
      ap (λ (e : Exec). e.motion_override) same ∙ s.no_motion in
    let no_accessory : started.exec.accessory_override ≡ 0 =
      ap (λ (e : Exec). e.accessory_override) same ∙ s.no_accessory in
    simp (s.flags, exec_state_flags-start m s.flags, overrides-none started no_motion no_accessory)

-- The system variables, the flags and the pins after such a call are those of `exec_start`.
pub exec_rt_system-starts :
    (polls : List ℕ) (m : Machine)
    → IsStarting m
    → protocol_exec_rt_system true polls m ≡ some (refill (exec_start true exec_cycle_start m))
exec_rt_system-starts polls m s =
    exec_rt_system-no_alarm true polls m s.no_alarm ∙ ap some (exec_flags-start m s)

abbrev pub restored_door : ℕ
restored_door =
    bit_or (bit_or (bit_or suspend_hold_complete suspend_retract_complete) suspend_initiate_restore)
      suspend_restore_complete

-- A cycle was entered and nothing is suspended or pending, with the same pins.
pub record IsResumed (m n : Machine) : Type 0 where
  pub in_cycle : n.sys.state ≡ state_cycle
  pub not_suspended : n.sys.suspend ≡ 0
  pub no_flags : n.exec.state ≡ 0
  pub same_pins : n.pins ≡ m.pins

pub exec_start-door :
    (m : Machine)
    → IsStarting m
    → m.sys.state ≡ state_safety_door
    → m.sys.suspend ≡ restored_door
    → IsResumed m (refill (exec_start true exec_cycle_start m))
unfolding exec_start start_cycle begin_cycle resume_door refill
exec_start-door m s e f = record {
  in_cycle = ground (arith, e, f);
  not_suspended = ground (arith, e, f);
  no_flags = ground (arith, e, f, s.flags);
  same_pins = ground (arith, e, f);
}

pub exec_start-hold :
    (m : Machine)
    → IsStarting m
    → m.sys.state ≡ state_hold
    → m.sys.suspend ≡ suspend_hold_complete
    → m.sys.spindle_stop_ovr ≡ 0
    → IsResumed m (refill (exec_start true exec_cycle_start m))
unfolding exec_start start_cycle begin_cycle resume_door refill
exec_start-hold m s e f g = record {
  in_cycle = ground (arith, e, f, g);
  not_suspended = ground (arith, e, f, g);
  no_flags = ground (arith, e, f, g, s.flags);
  same_pins = ground (arith, e, f, g);
}
