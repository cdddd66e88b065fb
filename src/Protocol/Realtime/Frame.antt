-- ===== src/Protocol/Realtime/Frame.antt =====
-- What a call of protocol_exec_rt_system in grbl/protocol.c leaves alone, and a call with nothing
-- pending.
use tele_handwriter.Base.{ℕ, ◌≡◌, ap, ◌∙◌, Bool, true, false, arith, List, none, some, bit_and}
use tele_handwriter.Base.Bits.{bit_istrue}
use tele_handwriter.System.{Machine, Sys, with_sys, exec_reset}
use tele_handwriter.Protocol.Overrides.{exec_motion_overrides, exec_accessory_overrides}
use tele_handwriter.Protocol.Overrides.Frame.{overrides-none, overrides-SameCore}
use tele_handwriter.Protocol.Realtime.{
  hold_sys, hold_calls, start_hold, flag_hold, open_door, restart_retract, go_to_sleep, exec_report,
  exec_holds, exec_start, exec_stop, start_cycle, begin_cycle, resume_door, complete_hold,
  complete_motion, flush_jog, exec_state_flags, refill, exec_flags, exec_alarm,
  protocol_exec_rt_system,
}
use tele_handwriter.Protocol.Realtime.Drain.{exec_state_flags-drains}

-- Nothing is pending.
pub record IsQuiet (m : Machine) : Type 0 where
  pub no_flags : m.exec.state ≡ 0
  pub no_alarm : m.exec.alarm ≡ 0
  pub no_motion : m.exec.motion_override ≡ 0
  pub no_accessory : m.exec.accessory_override ≡ 0

exec_state_flags-none :
    (has_block : Bool) (m : Machine) → m.exec.state ≡ 0 → exec_state_flags has_block m ≡ m
unfolding exec_state_flags exec_report exec_holds exec_start exec_stop
exec_state_flags-none has_block m e = simp e

exec_alarm-none : (polls : List ℕ) (m : Machine) → m.exec.alarm ≡ 0 → exec_alarm polls m ≡ some m
unfolding exec_alarm
exec_alarm-none polls m e = simp e

pub exec_rt_system-no_alarm :
    (has_block : Bool) (polls : List ℕ) (m : Machine)
    → m.exec.alarm ≡ 0
    → protocol_exec_rt_system has_block polls m ≡ some (exec_flags has_block m)
unfolding protocol_exec_rt_system
exec_rt_system-no_alarm has_block polls m e =
    ap (λ o. elim o [ none ↦ none | some n ↦ some (exec_flags has_block n) ])
      (exec_alarm-none polls m e)

exec_flags-quiet : (has_block : Bool) (m : Machine) → IsQuiet m → exec_flags has_block m ≡ refill m
unfolding exec_flags
exec_flags-quiet has_block m q = simp (
  q.no_flags,
  exec_state_flags-none has_block m q.no_flags,
  overrides-none m q.no_motion q.no_accessory,
)

-- A call with nothing pending only refills the segment buffer.
pub exec_rt_system-quiet :
    (has_block : Bool) (polls : List ℕ) (m : Machine)
    → IsQuiet m
    → protocol_exec_rt_system has_block polls m ≡ some (refill m)
exec_rt_system-quiet has_block polls m q =
    exec_rt_system-no_alarm has_block polls m q.no_alarm ∙ ap some (exec_flags-quiet has_block m q)

hold_sys-abort : (rt_exec : ℕ) (s : Sys) → (hold_sys rt_exec s).abort ≡ s.abort
unfolding hold_sys start_hold flag_hold open_door restart_retract go_to_sleep
hold_sys-abort rt_exec s = ground arith

exec_holds-abort :
    (rt_exec : ℕ) (m : Machine)
    → ((exec_holds rt_exec m).sys.abort ≡ m.sys.abort)
      × ((exec_holds rt_exec m).exec.alarm ≡ m.exec.alarm)
unfolding exec_holds hold_calls
exec_holds-abort rt_exec m = ground (arith, hold_sys-abort rt_exec m.sys)

exec_start-abort :
    (has_block : Bool) (rt_exec : ℕ) (m : Machine)
    → ((exec_start has_block rt_exec m).sys.abort ≡ m.sys.abort)
      × ((exec_start has_block rt_exec m).exec.alarm ≡ m.exec.alarm)
unfolding exec_start start_cycle begin_cycle resume_door
exec_start-abort has_block rt_exec m = ground arith

exec_stop-abort :
    (rt_exec : ℕ) (m : Machine)
    → ((exec_stop rt_exec m).sys.abort ≡ m.sys.abort)
      × ((exec_stop rt_exec m).exec.alarm ≡ m.exec.alarm)
unfolding exec_stop complete_hold complete_motion flush_jog
exec_stop-abort rt_exec m = ground arith

exec_report-abort :
    (rt_exec : ℕ) (m : Machine)
    → ((exec_report rt_exec m).sys.abort ≡ m.sys.abort)
      × ((exec_report rt_exec m).exec.alarm ≡ m.exec.alarm)
unfolding exec_report
exec_report-abort rt_exec m = ground arith

exec_state_flags-abort :
    (has_block : Bool) (m : Machine)
    → ((exec_state_flags has_block m).sys.abort ≡ m.sys.abort)
      × ((exec_state_flags has_block m).exec.alarm ≡ m.exec.alarm)
unfolding exec_state_flags
exec_state_flags-abort has_block m =
    let rt_exec = m.exec.state in
    let reported = exec_report rt_exec m in
    let held = exec_holds rt_exec reported in
    let started = exec_start has_block rt_exec held in
    let (a, b) = exec_report-abort rt_exec m in
    let (c, d) = exec_holds-abort rt_exec reported in
    let (e, f) = exec_start-abort has_block rt_exec held in
    let (g, h) = exec_stop-abort rt_exec started in (g ∙ e ∙ c ∙ a, h ∙ f ∙ d ∙ b)

-- The program goes on: no abort, no alarm and no reset is pending.
pub record GoesOn (m : Machine) : Type 0 where
  pub no_abort : m.sys.abort ≡ false
  pub no_alarm : m.exec.alarm ≡ 0
  pub no_reset : bit_and m.exec.state exec_reset ≡ 0

pub refill-core :
    (m : Machine)
    → ((refill m).sys ≡ m.sys)
      × ((refill m).exec ≡ m.exec)
      × ((refill m).pins ≡ m.pins)
      × ((refill m).modal_spindle ≡ m.modal_spindle)
      × ((refill m).modal_coolant ≡ m.modal_coolant)
      × ((refill m).settings_flags ≡ m.settings_flags)
unfolding refill
refill-core m = ground arith

exec_flags-GoesOn : (has_block : Bool) (m : Machine) → GoesOn m → GoesOn (exec_flags has_block m)
unfolding exec_flags
exec_flags-GoesOn has_block m g =
    let served = exec_state_flags has_block m in
    let done = exec_accessory_overrides (exec_motion_overrides served) in
    let drained = exec_state_flags-drains has_block m in
    let kept = exec_state_flags-abort has_block m in
    let same = overrides-SameCore served in
    let core = refill-core done in
    let no_reset = g.no_reset in
    record {
      no_abort = ground (arith, kept, same, core, no_reset, g.no_abort);
      no_alarm = ground (arith, kept, same, core, no_reset, g.no_alarm);
      no_reset = ground (arith, drained, same, core, no_reset);
    }

pub exec_rt_system-GoesOn :
    (has_block : Bool) (polls : List ℕ) (m : Machine)
    → GoesOn m
    → (n : Machine) × (protocol_exec_rt_system has_block polls m ≡ some n) × GoesOn n
exec_rt_system-GoesOn has_block polls m g = (
  exec_flags has_block m,
  exec_rt_system-no_alarm has_block polls m g.no_alarm,
  exec_flags-GoesOn has_block m g,
)

exec_flags-reset :
    (has_block : Bool) (m : Machine)
    → bit_istrue m.exec.state exec_reset ≡ true
    → exec_flags has_block m ≡ with_sys (λ s. record s { abort = true }) m
unfolding exec_flags
exec_flags-reset has_block m e = simp e

pub exec_rt_system-reset :
    (has_block : Bool) (polls : List ℕ) (m : Machine)
    → m.exec.alarm ≡ 0
    → bit_istrue m.exec.state exec_reset ≡ true
    → protocol_exec_rt_system has_block polls m ≡ some (with_sys (λ s. record s { abort = true }) m)
exec_rt_system-reset has_block polls m e f =
    exec_rt_system-no_alarm has_block polls m e ∙ ap some (exec_flags-reset has_block m f)
