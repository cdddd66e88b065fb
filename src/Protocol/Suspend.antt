-- ===== src/Protocol/Suspend.antt =====
-- `protocol_exec_rt_suspend` of grbl/protocol.c and `delay_sec` of grbl/nuts_bolts.c in the mode of
-- the suspend loop. PARKING_ENABLE is not defined. A `Turn` is what happens at one call of
-- protocol_exec_rt_system: the interrupts that ran since the last one, whether the planner holds a
-- block, and the polls of its wait for a reset. A routine takes the turns to come and returns those
-- left; `none` means that it is still running when the turns are used up.
pub mod Loops
use tele_handwriter.Base.{
  ℕ, zero, suc, Bool, true, false, not, ◌&&◌, ◌||◌, Option, none, some, List, [], ◌∷◌, ◌==◌,
  if◌then◌else◌, length, bit_and, bit_or,
}
use tele_handwriter.Base.Bits.{bit_istrue, bit_isfalse, bit_not8}
use tele_handwriter.System.{
  Machine, Sys, call, with_sys, report_feedback_message, system_set_exec_state_flag,
  system_set_exec_accessory_override_flag, exec_cycle_start, exec_spindle_ovr_stop,
  state_safety_door, state_sleep, suspend_hold_complete, suspend_restart_retract,
  suspend_retract_complete, suspend_initiate_restore, suspend_restore_complete,
  suspend_safety_door_ajar, step_control_update_spindle_pwm, spindle_stop_ovr_enabled,
  spindle_stop_ovr_initiate, spindle_stop_ovr_restore, spindle_stop_ovr_restore_cycle,
  bitflag_laser_mode,
}
use tele_handwriter.System.Reset.{st_go_idle}
use tele_handwriter.Spindle.{
  Speeds, spindle_disable, spindle_enable_cw, spindle_enable_ccw, spindle_set_state,
}
use tele_handwriter.Protocol.Overrides.{coolant_flood_enable, coolant_set_state}
use tele_handwriter.Protocol.Realtime.{protocol_exec_rt_system}

abbrev pub message_spindle_restore : ℕ
message_spindle_restore = 10

abbrev pub message_sleep_mode : ℕ
message_sleep_mode = 11

abbrev pub spindle_stop_ovr_disabled : ℕ
spindle_stop_ovr_disabled = 0

abbrev pub coolant_disable : ℕ
coolant_disable = 0

-- SAFETY_DOOR_SPINDLE_DELAY and SAFETY_DOOR_COOLANT_DELAY in steps of DWELL_TIME_STEP: 4 s and 1 s in
-- steps of 50 ms.
abbrev pub spindle_delay_steps : ℕ
spindle_delay_steps = 80

abbrev pub coolant_delay_steps : ℕ
coolant_delay_steps = 20

pub record Turn : Type 0 where
  pub interrupts : Machine → Machine
  pub has_block : Bool
  pub polls : List ℕ

-- Where a routine stopped: the turns left and the machine.
abbrev pub Stop : Type 0
Stop = Option (List Turn × Machine)

abbrev pub after : Stop → (List Turn → Machine → Stop) → Stop
after none next = none
after (some (turns, m)) next = next turns m

abbrev pub exec_turn : Turn → Machine → Option Machine
exec_turn turn m = protocol_exec_rt_system turn.has_block turn.polls (turn.interrupts m)

-- `system_check_safety_door_ajar()`, without a door pin.
unfoldable pub system_check_safety_door_ajar : Machine → Bool
system_check_safety_door_ajar m = false

-- `delay_sec(seconds, DELAY_MODE_SYS_SUSPEND)`, with the seconds in steps.
pub delay_sec : ℕ → List Turn → Machine → Stop
delay_sec zero turns m = some (turns, m)
delay_sec (suc i) [] m = if m.sys.abort then some ([], m) else none
delay_sec (suc i) (turn ∷ turns) m =
    if m.sys.abort then some (turn ∷ turns, m) else elim (exec_turn turn m) [
      | none ↦ none
      | some n ↦
          if bit_istrue n.sys.suspend suspend_restart_retract
          then some (turns, n)
          else delay_sec i turns n
    ]

-- `while (!(sys.abort)) { protocol_exec_rt_system(); }`
pub sleep_loop : List Turn → Machine → Stop
sleep_loop [] m = if m.sys.abort then some ([], m) else none
sleep_loop (turn ∷ turns) m =
    if m.sys.abort
    then some (turn ∷ turns, m)
    else elim (exec_turn turn m) [ none ↦ none | some n ↦ sleep_loop turns n ]

pub set_cycle_start : Machine → Machine
set_cycle_start m = record m { exec = system_set_exec_state_flag exec_cycle_start m.exec }

-- Lines 534 to 536, before the loop: the laser is stopped during a hold.
pub stop_laser : Machine → Machine
stop_laser m =
    if bit_istrue m.settings_flags bitflag_laser_mode
    then record m { exec = system_set_exec_accessory_override_flag exec_spindle_ovr_stop m.exec }
    else m

-- Lines 639 to 643.
pub check_door : Machine → Machine
unfolding system_check_safety_door_ajar
check_door m =
    let closed =
      with_sys (λ s. record s { suspend = bit_and s.suspend (bit_not8 suspend_safety_door_ajar) })
        m in
    if m.sys.state == state_safety_door && not (system_check_safety_door_ajar m) then closed else m

-- Lines 709 to 712.
pub complete_restore : Machine → Machine
complete_restore m =
    let restored =
      with_sys (λ s. record s { suspend = bit_or s.suspend suspend_restore_complete }) m in
    if bit_isfalse m.sys.suspend suspend_restart_retract then set_cycle_start restored else m

update_pwm : Machine → Machine
update_pwm =
    with_sys λ s. record s { step_control = bit_or s.step_control step_control_update_spindle_pwm }

-- The spindle and the coolant that the interrupted block, or else the parser, asks for.
module _ {ℓ} {W : Type ℓ} (speeds : Speeds W) (restore_condition : ℕ) (restore_speed : W) where
  de_energize : Machine → Machine
  de_energize m =
      coolant_set_state coolant_disable
        (spindle_set_state speeds spindle_disable (speeds.of_nat 0) m)

  pub set_restored_spindle : Machine → Machine
  set_restored_spindle =
      spindle_set_state speeds
        (bit_and restore_condition (bit_or spindle_enable_cw spindle_enable_ccw)) restore_speed

  -- Lines 557 to 623.
  pub retract : Machine → Machine
  retract m =
      let stopped =
        de_energize (with_sys (λ s. record s { spindle_stop_ovr = spindle_stop_ovr_disabled }) m) in
      let restarted = λ (s : Sys). bit_and s.suspend (bit_not8 suspend_restart_retract) in
      with_sys (λ s. record s { suspend = bit_or (restarted s) suspend_retract_complete }) stopped

  -- Lines 629 to 633.
  pub enter_sleep : Machine → Machine
  enter_sleep m = st_go_idle (de_energize (call (report_feedback_message message_sleep_mode) m))

  -- Lines 667 to 678.
  pub restore_spindle : List Turn → Machine → Stop
  restore_spindle turns m =
      let powered = delay_sec spindle_delay_steps turns (set_restored_spindle m) in
      if not (m.modal_spindle == spindle_disable)
        && bit_isfalse m.sys.suspend suspend_restart_retract
      then (if bit_istrue m.settings_flags bitflag_laser_mode
          then some (turns, update_pwm m)
          else powered)
      else some (turns, m)

  -- Lines 679 to 686.
  pub restore_coolant : List Turn → Machine → Stop
  restore_coolant turns m =
      let flood = bit_and restore_condition (bit_or coolant_flood_enable coolant_flood_enable) in
      let powered = delay_sec coolant_delay_steps turns (coolant_set_state flood m) in
      if not (m.modal_coolant == coolant_disable)
        && bit_isfalse m.sys.suspend suspend_restart_retract
      then powered
      else some (turns, m)

  -- Lines 646 to 713.
  pub restore : List Turn → Machine → Stop
  restore turns m =
      let restored =
        after (after (restore_spindle turns m) restore_coolant)
          λ left n. some (left, complete_restore n) in
      if bit_istrue m.sys.suspend suspend_initiate_restore then restored else some (turns, m)

  -- Lines 725 to 730.
  initiate_stop : Machine → Machine
  initiate_stop m =
      let stopped = spindle_set_state speeds spindle_disable (speeds.of_nat 0) m in
      if m.modal_spindle == spindle_disable
      then with_sys (λ s. record s { spindle_stop_ovr = spindle_stop_ovr_disabled }) m
      else with_sys (λ s. record s { spindle_stop_ovr = spindle_stop_ovr_enabled }) stopped

  -- Lines 733 to 745.
  restore_stopped : Machine → Machine
  restore_stopped m =
      let shown = call (report_feedback_message message_spindle_restore) m in
      let spun =
        if m.modal_spindle == spindle_disable
        then m
        else if bit_istrue m.settings_flags bitflag_laser_mode
        then update_pwm shown
        else set_restored_spindle shown in
      let resumed =
        if bit_istrue m.sys.spindle_stop_ovr spindle_stop_ovr_restore_cycle
        then set_cycle_start spun
        else spun in
      with_sys (λ s. record s { spindle_stop_ovr = spindle_stop_ovr_disabled }) resumed

  -- Lines 750 to 753.
  refresh_pwm : Machine → Machine
  refresh_pwm m =
      let kept = bit_not8 step_control_update_spindle_pwm in
      if bit_istrue m.sys.step_control step_control_update_spindle_pwm
      then with_sys (λ s. record s { step_control = bit_and s.step_control kept })
          (set_restored_spindle m)
      else m

  -- Lines 722 to 754, the feed hold manager.
  pub hold_manager : Machine → Machine
  hold_manager m =
      let stop = m.sys.spindle_stop_ovr in
      if stop == 0
      then refresh_pwm m
      else if bit_istrue stop spindle_stop_ovr_initiate
      then initiate_stop m
      else if bit_istrue stop (bit_or spindle_stop_ovr_restore spindle_stop_ovr_restore_cycle)
      then restore_stopped m
      else m
