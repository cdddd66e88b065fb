-- ===== src/Protocol/Realtime/Alarm.antt =====
-- The alarm part of the executor, the lock of an alarm state, and a pending reset.
use tele_handwriter.Base.{
  ℕ, ◌≡◌, ap, sym, ◌∙◌, refl, All, ◌++◌, Bool, true, false, ◌==◌, if◌then◌else◌, arith, bit_and,
  List, [], ◌∷◌, Option, none, some, ◌⊎◌,
}
use tele_handwriter.Base.Bits.{bit_istrue}
use tele_handwriter.Base.Bits.Laws.{bit_and_assoc, zero-bit_and}
use tele_handwriter.System.{
  Machine, Sys, call, with_sys, report_feedback_message, report_alarm_message,
  system_clear_exec_alarm, state_alarm, state_sleep, exec_sleep, exec_reset, exec_cycle_stop,
}
use tele_handwriter.Protocol.Realtime.{
  message_critical_event, hold_flags, protocol_exec_rt_system, await_reset, exec_alarm, is_critical,
  go_to_sleep, hold_sys, hold_calls, exec_holds, start_cycle, exec_start, exec_stop, exec_report,
  exec_state_flags, exec_flags, resume_door, begin_cycle,
}

-- A machine in alarm with no cycle stop pending.
hold_sys-alarm :
    (rt_exec : ℕ) (s : Sys)
    → s.state ≡ state_alarm
    → (hold_sys rt_exec s).state
      ≡ (if bit_istrue rt_exec exec_sleep then state_sleep else state_alarm)
unfolding hold_sys go_to_sleep
hold_sys-alarm rt_exec s e = ground arith

exec_report-sys : (rt_exec : ℕ) (m : Machine) → (exec_report rt_exec m).sys ≡ m.sys
unfolding exec_report
exec_report-sys rt_exec m = ground arith

-- EXEC_SLEEP is one of the hold flags.
sleep_is_hold : (rt_exec : ℕ) → bit_and rt_exec hold_flags ≡ 0 → bit_and rt_exec exec_sleep ≡ 0
sleep_is_hold rt_exec e =
    sym (bit_and_assoc rt_exec hold_flags exec_sleep)
    ∙ ap (λ x. bit_and x exec_sleep) e
    ∙ zero-bit_and exec_sleep

exec_holds-alarm :
    (rt_exec : ℕ) (m : Machine)
    → m.sys.state ≡ state_alarm
    → (exec_holds rt_exec m).sys.state
      ≡ (if bit_istrue rt_exec exec_sleep then state_sleep else state_alarm)
unfolding exec_holds hold_calls
exec_holds-alarm rt_exec m e = ground (arith, hold_sys-alarm rt_exec m.sys e, sleep_is_hold rt_exec)

exec_start-locked :
    (has_block : Bool) (rt_exec : ℕ) (m : Machine)
    → (m.sys.state ≡ state_alarm) ⊎ (m.sys.state ≡ state_sleep)
    → (exec_start has_block rt_exec m).sys.state ≡ m.sys.state
unfolding exec_start start_cycle resume_door begin_cycle
exec_start-locked has_block rt_exec m e = ground arith

exec_stop-absent :
    (rt_exec : ℕ) (m : Machine) → bit_and rt_exec exec_cycle_stop ≡ 0 → (exec_stop rt_exec m) ≡ m
unfolding exec_stop
exec_stop-absent rt_exec m e = ground arith

-- In alarm, with no end of a cycle pending, the machine stays locked whatever else is pending: a
-- cycle start, a hold or a door does nothing, and only a sleep command changes the state.
pub exec_state_flags-alarm :
    (has_block : Bool) (m : Machine)
    → m.sys.state ≡ state_alarm
    → bit_and m.exec.state exec_cycle_stop ≡ 0
    → (exec_state_flags has_block m).sys.state
      ≡ (if bit_istrue m.exec.state exec_sleep then state_sleep else state_alarm)
unfolding exec_state_flags
exec_state_flags-alarm has_block m e c =
    let flags = m.exec.state in
    let reported = exec_report flags m in
    let held = exec_holds flags reported in
    let start = exec_start has_block flags held in
    let h =
      exec_holds-alarm flags reported (ap (λ (s : Sys). s.state) (exec_report-sys flags m) ∙ e) in
    let locked : (held.sys.state ≡ state_alarm) ⊎ (held.sys.state ≡ state_sleep) =
      ground (arith, h) in
    ap (λ (n : Machine). n.sys.state) (exec_stop-absent flags start c)
    ∙ exec_start-locked has_block flags held locked
    ∙ h

await_reset-append :
    (before after : List ℕ) (flags : ℕ)
    → All (λ f. bit_istrue f exec_reset ≡ false) before
    → bit_istrue flags exec_reset ≡ true
    → await_reset (before ++ flags ∷ after) ≡ some flags
unfolding await_reset
await_reset-append [] after flags h e = simp e
await_reset-append (f ∷ before) after flags (g, h) e =
    simp (g, await_reset-append before after flags h e)

await_reset-none :
    (polls : List ℕ) → All (λ f. bit_istrue f exec_reset ≡ false) polls → await_reset polls ≡ none
unfolding await_reset
await_reset-none [] h = refl
await_reset-none (f ∷ polls) (g, h) = simp (g, await_reset-none polls h)

-- After the wait: an alarm was shown, and the reset that ended it aborts the program.
exec_flags-aborts :
    (has_block : Bool) (m : Machine)
    → bit_istrue m.exec.state exec_reset ≡ true
    → exec_flags has_block m ≡ with_sys (λ s. record s { abort = true }) m
unfolding exec_flags
exec_flags-aborts has_block m e = simp e

-- What is seen of a machine after the alarm part.
abbrev pub outcome : Option Machine → Option (Bool × ℕ × ℕ)
outcome none = none
outcome (some m) = some (m.sys.abort, m.sys.state, m.exec.alarm)

-- The machine that the reset `flags` releases from a critical alarm.
abbrev pub released : ℕ → Machine → Machine
released flags m =
    let alarmed = call (report_feedback_message message_critical_event) (
      call (report_alarm_message m.exec.alarm)
        (with_sys (λ s. record s { state = state_alarm }) m)) in
    record alarmed { exec = system_clear_exec_alarm (record m.exec { state = flags }) }

exec_alarm-critical :
    (polls : List ℕ) (m : Machine)
    → is_critical m.exec.alarm ≡ true
    → exec_alarm polls m
      ≡ (elim (await_reset polls) [ none ↦ none | some flags ↦ some (released flags m) ])
unfolding exec_alarm
exec_alarm-critical polls m c =
    let raised : (m.exec.alarm == 0) ≡ false = ground arith in simp (raised, c)

exec_rt-some :
    (has_block : Bool) (polls : List ℕ) (m n : Machine)
    → exec_alarm polls m ≡ some n
    → protocol_exec_rt_system has_block polls m ≡ some (exec_flags has_block n)
unfolding protocol_exec_rt_system
exec_rt-some has_block polls m n e =
    ap (λ r. elim r [ none ↦ none | some alarmed ↦ some (exec_flags has_block alarmed) ]) e

exec_rt-none :
    (has_block : Bool) (polls : List ℕ) (m : Machine)
    → exec_alarm polls m ≡ none
    → protocol_exec_rt_system has_block polls m ≡ none
unfolding protocol_exec_rt_system
exec_rt-none has_block polls m e =
    ap (λ r. elim r [ none ↦ none | some alarmed ↦ some (exec_flags has_block alarmed) ]) e

exec_alarm-after :
    (polls : List ℕ) (m : Machine) (polled : Option ℕ)
    → is_critical m.exec.alarm ≡ true
    → await_reset polls ≡ polled
    → exec_alarm polls m ≡ elim polled [ none ↦ none | some flags ↦ some (released flags m) ]
exec_alarm-after polls m polled c e =
    exec_alarm-critical polls m c
    ∙ ap (λ r. elim r [ none ↦ none | some flags ↦ some (released flags m) ]) e

-- The first poll that shows a reset ends the wait, and the program is aborted.
pub critical_alarm_released :
    (before after : List ℕ) (flags : ℕ) (has_block : Bool) (m : Machine)
    → is_critical m.exec.alarm ≡ true
    → All (λ f. bit_istrue f exec_reset ≡ false) before
    → bit_istrue flags exec_reset ≡ true
    → protocol_exec_rt_system has_block (before ++ flags ∷ after) m
      ≡ some (with_sys (λ s. record s { abort = true }) (released flags m))
critical_alarm_released before after flags has_block m c h r =
    let polls = before ++ flags ∷ after in
    exec_rt-some has_block polls m (released flags m)
      (exec_alarm-after polls m (some flags) c (await_reset-append before after flags h r))
    ∙ ap some (exec_flags-aborts has_block (released flags m) r)

-- A critical alarm (a hard or a soft limit) blocks the program as long as no poll of the realtime
-- flags shows a reset; the first that does ends the wait, and then the program is aborted, in the
-- alarm state, with the alarm code cleared.
pub critical_alarm_awaits_reset :
    (before after : List ℕ) (flags : ℕ) (has_block : Bool) (m : Machine)
    → is_critical m.exec.alarm ≡ true
    → All (λ f. bit_istrue f exec_reset ≡ false) before
    → bit_istrue flags exec_reset ≡ true
    → (outcome (protocol_exec_rt_system has_block before m) ≡ none)
      × (outcome (protocol_exec_rt_system has_block (before ++ flags ∷ after) m)
          ≡ some (true, state_alarm, 0))
critical_alarm_awaits_reset before after flags has_block m c h r = (
  ap outcome (
      exec_rt-none has_block before m
        (exec_alarm-after before m none c (await_reset-none before h))),
  ap outcome (critical_alarm_released before after flags has_block m c h r),
)

exec_alarm-clear : (polls : List ℕ) (m : Machine) → m.exec.alarm ≡ 0 → exec_alarm polls m ≡ some m
unfolding exec_alarm
exec_alarm-clear polls m e = ground arith

-- With no alarm, a pending reset is served before every other realtime flag: it only asks for the
-- abort, and nothing else changes.
pub reset_first :
    (has_block : Bool) (polls : List ℕ) (m : Machine)
    → m.exec.alarm ≡ 0
    → bit_istrue m.exec.state exec_reset ≡ true
    → protocol_exec_rt_system has_block polls m ≡ some (with_sys (λ s. record s { abort = true }) m)
reset_first has_block polls m e r =
    exec_rt-some has_block polls m m (exec_alarm-clear polls m e)
    ∙ ap some (exec_flags-aborts has_block m r)
