-- ===== src/Protocol/Realtime/Holds.antt =====
-- What a feed hold, a motion cancel, an opened safety door and a sleep command do.
use tele_handwriter.Base.{
  ℕ, ◌≡◌, refl, sym, ap, subst, ◌∙◌, true, false, ◌==◌, ◌&&◌, ◌||◌, not, if◌then◌else◌, arith,
  bit_and, bit_or,
}
use tele_handwriter.Base.Bits.{bit_istrue}
use tele_handwriter.Base.Bits.Laws.{
  bit_and_assoc, zero-bit_and, test-bit_or_hit, test-bit_or_miss, test-bit_and_keep,
}
use tele_handwriter.System.{
  Machine, Sys, with_sys, exec_feed_hold, exec_safety_door, exec_sleep, state_alarm,
  state_check_mode, state_idle, state_cycle, state_hold, state_jog, state_safety_door, state_sleep,
  suspend_jog_cancel, suspend_motion_cancel, suspend_disable, step_control_execute_hold,
}
use tele_handwriter.Protocol.Realtime.States.{IsState}
use tele_handwriter.Protocol.Realtime.{
  start_hold, flag_hold, restart_retract, open_door, go_to_sleep, hold_sys, hold_flags, clear_flag,
  exec_holds, hold_calls,
}

hold_sys-cycle :
    (flags : ℕ) (s : Sys)
    → s.state ≡ state_cycle
    → s.suspend ≡ suspend_disable
    → (hold_sys flags s).step_control ≡ step_control_execute_hold
unfolding hold_sys start_hold flag_hold restart_retract open_door go_to_sleep
hold_sys-cycle flags s e d = ground arith

-- The state that the pending hold flags ask for: the locked states give way to sleep only, sleep
-- goes before the door, the door before a feed hold, and a jog is cancelled first.
abbrev pub held_state : ℕ → ℕ → ℕ
held_state flags state =
    if bit_istrue flags exec_sleep
    then state_sleep
    else if state == state_alarm || state == state_check_mode
    then state
    else if state == state_sleep || state == state_safety_door || state == state_jog
    then state
    else if bit_istrue flags exec_safety_door
    then state_safety_door
    else if bit_istrue flags exec_feed_hold
    then state_hold
    else state

abbrev cancels : ℕ
cancels = bit_or suspend_motion_cancel suspend_jog_cancel

start_hold-state : (flags : ℕ) (s : Sys) → (start_hold flags s).state ≡ s.state
unfolding start_hold
start_hold-state flags s = ground arith

start_hold-jog_cancel :
    (flags : ℕ) (s : Sys)
    → bit_and s.suspend cancels ≡ 0
    → bit_istrue (start_hold flags s).suspend suspend_jog_cancel
      ≡ (s.state == state_jog && not (bit_istrue flags exec_sleep))
unfolding start_hold
start_hold-jog_cancel flags s e =
    let clear : bit_and s.suspend suspend_jog_cancel ≡ 0 =
      sym (bit_and_assoc s.suspend cancels suspend_jog_cancel)
      ∙ ap (λ x. bit_and x suspend_jog_cancel) e
      ∙ zero-bit_and suspend_jog_cancel in
    ground
      (arith, clear, test-bit_or_hit s.suspend suspend_jog_cancel suspend_jog_cancel (omega arith))

flag_hold-jog_cancel :
    (flags : ℕ) (s : Sys)
    → bit_istrue (flag_hold flags s).suspend suspend_jog_cancel
      ≡ (not (s.state == state_idle) && bit_istrue s.suspend suspend_jog_cancel)
unfolding flag_hold
flag_hold-jog_cancel flags s =
    ground (arith, test-bit_or_miss s.suspend suspend_motion_cancel suspend_jog_cancel refl)

flag_hold-state :
    (flags : ℕ) (s : Sys)
    → IsState s.state
    → (flag_hold flags s).state ≡ (
        if bit_istrue flags exec_feed_hold
          && not (s.state == state_safety_door || s.state == state_jog || s.state == state_sleep)
        then state_hold
        else s.state)
unfolding flag_hold
flag_hold-state flags s h = ground arith

open_door-state :
    (flags : ℕ) (s : Sys)
    → (open_door flags s).state ≡ (
        if bit_istrue flags exec_safety_door
          && not (bit_istrue s.suspend suspend_jog_cancel)
          && not (s.state == state_sleep)
        then state_safety_door
        else s.state)
unfolding open_door restart_retract
open_door-state flags s = ground arith

entered_state :
    (flags : ℕ) (s : Sys)
    → IsState s.state
    → bit_and s.suspend cancels ≡ 0
    → bit_istrue flags exec_sleep ≡ false
    → (open_door flags (flag_hold flags (start_hold flags s))).state ≡ (
        if s.state == state_sleep || s.state == state_safety_door || s.state == state_jog
        then s.state
        else if bit_istrue flags exec_safety_door
        then state_safety_door
        else if bit_istrue flags exec_feed_hold
        then state_hold
        else s.state)
entered_state flags s h e awake =
    let held = start_hold flags s in
    let same = start_hold-state flags s in
    ground (
      arith,
      same,
      start_hold-jog_cancel flags s e,
      flag_hold-jog_cancel flags held,
      flag_hold-state flags held (subst IsState (sym same) h),
      open_door-state flags (flag_hold flags held),
    )

go_to_sleep-state :
    (flags : ℕ) (s : Sys)
    → (go_to_sleep flags s).state ≡ (if bit_istrue flags exec_sleep then state_sleep else s.state)
unfolding go_to_sleep
go_to_sleep-state flags s = ground arith

hold_sys-state :
    (flags : ℕ) (s : Sys)
    → IsState s.state
    → bit_and s.suspend cancels ≡ 0
    → (hold_sys flags s).state ≡ held_state flags s.state
unfolding hold_sys
hold_sys-state flags s h e =
    let held = open_door flags (flag_hold flags (start_hold flags s)) in
    let locked = bit_istrue s.state (bit_or state_alarm state_check_mode) in
    ground (arith, go_to_sleep-state flags (if locked then s else held), entered_state flags s h e)

-- A flag that is one of the hold flags is not set when none of them is.
unset :
    (flags mask : ℕ)
    → bit_and hold_flags mask ≡ mask
    → bit_and flags hold_flags ≡ 0
    → bit_and flags mask ≡ 0
unset flags mask h e =
    sym (test-bit_and_keep flags hold_flags mask h) ∙ ap (λ x. bit_and x mask) e ∙ zero-bit_and mask

hold_calls-sys : (rt_exec : ℕ) (m : Machine) → (hold_calls rt_exec m).sys ≡ m.sys
unfolding hold_calls
hold_calls-sys rt_exec m = ground arith

exec_holds-split :
    (flags : ℕ) (m : Machine)
    → (exec_holds flags m).sys
      ≡ (if bit_istrue flags hold_flags then hold_sys flags m.sys else m.sys)
unfolding exec_holds
exec_holds-split flags m =
    elim (bit_istrue flags hold_flags)
      as (λ b.
        (if b
          then clear_flag hold_flags (with_sys (hold_sys flags) (hold_calls flags m))
          else m).sys
        ≡ (if b then hold_sys flags m.sys else m.sys)) [
          | true ↦ ap (hold_sys flags) (hold_calls-sys flags m)
          | false ↦ refl
        ]

-- With no cancel in progress, the pending feed hold, motion cancel, door and sleep flags change the
-- state as `held_state` says, which is read off their priorities.
pub exec_holds-held_state :
    (flags : ℕ) (m : Machine)
    → IsState m.sys.state
    → bit_and m.sys.suspend cancels ≡ 0
    → (exec_holds flags m).sys.state ≡ held_state flags m.sys.state
exec_holds-held_state flags m h e = ground (
  arith,
  ap (λ (s : Sys). s.state) (exec_holds-split flags m),
  hold_sys-state flags m.sys h e,
  unset flags exec_sleep refl,
  unset flags exec_feed_hold refl,
  unset flags exec_safety_door refl,
)

-- A running cycle with no suspension decelerates as soon as any hold flag is pending.
pub exec_holds-decelerates :
    (flags : ℕ) (m : Machine)
    → m.sys.state ≡ state_cycle
    → m.sys.suspend ≡ suspend_disable
    → bit_istrue flags hold_flags ≡ true
    → (exec_holds flags m).sys.step_control ≡ step_control_execute_hold
exec_holds-decelerates flags m e d p = ground (
  arith,
  ap (λ (s : Sys). s.step_control) (exec_holds-split flags m),
  hold_sys-cycle flags m.sys e d,
)
