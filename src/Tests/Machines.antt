-- ===== src/Tests/Machines.antt =====
-- Examples for the state machine of grbl/protocol.c, the resets and the interrupts.
use tele_handwriter.Base.{
  ◌≡◌, ◌↔◌, inl, inr, refl, true, false, [], ◌∷◌, if◌then◌else◌, ◌==◌, arith, some, none,
}
use tele_handwriter.System.{Machine, state_alarm, state_cycle}
use tele_handwriter.System.Interrupts.{serial_rx}
use tele_handwriter.System.Interrupts.Text.{IsText, serial_rx-IsText}
use tele_handwriter.Serial.Rings.{IsValid, received}
use tele_handwriter.Protocol.Realtime.{protocol_exec_rt_system, exec_state_flags, exec_start}
use tele_handwriter.Protocol.Realtime.Alarm.{outcome, critical_alarm_awaits_reset}
use tele_handwriter.Protocol.Realtime.Drain.{IsDrained, exec_state_flags-drains}
use tele_handwriter.Protocol.Realtime.States.{IsState}
use tele_handwriter.Protocol.Realtime.Resume.{IsAsked, IsReady, exec_start_iff}
use tele_handwriter.Protocol.Overrides.{
  exec_motion_overrides, exec_accessory_overrides, coolant_flood_enable,
}
use tele_handwriter.Protocol.Overrides.Bounds.{InRange, exec_overrides-InRange}
use tele_handwriter.Protocol.Overrides.Coolant.{
  IsCoherent, asks_toggle, exec_accessory_overrides-IsCoherent,
}
use tele_handwriter.Tests.Rings.{serial_busy-IsValid}
use tele_handwriter.Tests.{machine, alarmed}

critical_alarm_awaits_reset_example :
    (outcome (protocol_exec_rt_system false (1 ∷ []) (alarmed 1)) ≡ none)
    × (outcome (protocol_exec_rt_system false (1 ∷ 16 ∷ []) (alarmed 1))
        ≡ some (true, state_alarm, 0))
critical_alarm_awaits_reset_example =
    critical_alarm_awaits_reset (1 ∷ []) [] 16 false (alarmed 1) refl (refl, tt) refl

exec_state_flags-drains_example : IsDrained 31 (exec_state_flags true (machine 8 31)).exec.state
exec_state_flags-drains_example = exec_state_flags-drains true (machine 8 31)

exec_start_iff_example :
    ((exec_start true 2 (machine 0 2)).sys.state ≡ state_cycle)
    ↔ (IsAsked true 2 (machine 0 2).sys × IsReady (machine 0 2).sys)
exec_start_iff_example =
    exec_start_iff true 2 (machine 0 2) (inl refl) (λ e. absurd (omega (arith, e)))

in_cycle : IsState state_cycle
in_cycle = inr (inr (inr (inr (inl refl))))

serial_rx-IsText_example :
    IsText (received (serial_rx 71 (machine 0 0)).serial)
    × IsValid (serial_rx 71 (machine 0 0)).serial
serial_rx-IsText_example = serial_rx-IsText 71 (machine 0 0) serial_busy-IsValid (refl, tt)

-- A machine with every override pending.
abbrev overridden : Machine
overridden =
    let m = machine 8 0 in
    record m { exec = record m.exec { motion_override = 22; accessory_override = 84 } }

overridden-InRange : InRange overridden.sys
overridden-InRange = record {
  f_min = omega arith;
  f_max = omega arith;
  s_min = omega arith;
  s_max = omega arith;
  rapid = inl refl;
}

exec_overrides-InRange_example :
    InRange (exec_motion_overrides overridden).sys
    × InRange (exec_accessory_overrides overridden).sys
exec_overrides-InRange_example = exec_overrides-InRange overridden overridden-InRange

exec_accessory_overrides-IsCoherent_example :
    IsCoherent (exec_accessory_overrides overridden)
    × ((exec_accessory_overrides overridden).modal_coolant ≡ (
        if asks_toggle 84 state_cycle
        then (if (overridden.modal_coolant == 0) then coolant_flood_enable else 0)
        else overridden.modal_coolant))
exec_accessory_overrides-IsCoherent_example =
    exec_accessory_overrides-IsCoherent overridden refl (record { modes = inl refl; shown = refl })
