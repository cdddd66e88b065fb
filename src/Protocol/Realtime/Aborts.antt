-- ===== src/Protocol/Realtime/Aborts.antt =====
-- A call of protocol_exec_rt_system in grbl/protocol.c with an alarm that is not critical and a reset.
use tele_handwriter.Base.{ℕ, ◌≡◌, ◌∙◌, ap, Bool, true, false, ◌==◌, List, none, some}
use tele_handwriter.Base.Bits.{bit_istrue}
use tele_handwriter.System.{
  Machine, call, with_sys, report_alarm_message, system_clear_exec_alarm, exec_reset, state_alarm,
}
use tele_handwriter.Protocol.Realtime.{exec_alarm, is_critical, exec_flags, protocol_exec_rt_system}

-- The machine with the alarm served and the program aborted.
abbrev pub alarm_aborted : Machine → Machine
alarm_aborted m =
    let alarmed =
      call (report_alarm_message m.exec.alarm)
        (with_sys (λ s. record s { state = state_alarm }) m) in
    with_sys (λ s. record s { abort = true })
      (record alarmed { exec = system_clear_exec_alarm alarmed.exec })

exec_alarm-served :
    (polls : List ℕ) (m : Machine)
    → (m.exec.alarm == 0) ≡ false
    → is_critical m.exec.alarm ≡ false
    → exec_alarm polls m ≡ (
        let alarmed =
          call
            (report_alarm_message m.exec.alarm)
            (with_sys (λ s. record s { state = state_alarm }) m) in
        some (record alarmed { exec = system_clear_exec_alarm alarmed.exec }))
unfolding exec_alarm
exec_alarm-served polls m a c = simp (a, c)

exec_flags-reset :
    (has_block : Bool) (m : Machine)
    → bit_istrue m.exec.state exec_reset ≡ true
    → exec_flags has_block m ≡ with_sys (λ s. record s { abort = true }) m
unfolding exec_flags
exec_flags-reset has_block m e = simp e

pub exec_rt_system-aborts :
    (has_block : Bool) (polls : List ℕ) (m : Machine)
    → (m.exec.alarm == 0) ≡ false
    → is_critical m.exec.alarm ≡ false
    → bit_istrue m.exec.state exec_reset ≡ true
    → protocol_exec_rt_system has_block polls m ≡ some (alarm_aborted m)
unfolding protocol_exec_rt_system
exec_rt_system-aborts has_block polls m a c r =
    let alarmed =
      call (report_alarm_message m.exec.alarm)
        (with_sys (λ s. record s { state = state_alarm }) m) in
    ap (λ o. elim o [ none ↦ none | some n ↦ some (exec_flags has_block n) ])
      (exec_alarm-served polls m a c)
    ∙ ap some (
        exec_flags-reset has_block (record alarmed { exec = system_clear_exec_alarm alarmed.exec })
          r)
