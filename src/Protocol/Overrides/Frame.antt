-- ===== src/Protocol/Overrides/Frame.antt =====
-- What the overrides of grbl/protocol.c leave alone, and a call with none of them pending.
use tele_handwriter.Base.{ℕ, ◌≡◌, ◌∙◌, arith}
use tele_handwriter.System.{Machine}
use tele_handwriter.System.Reset.{coolant_stop}
use tele_handwriter.Protocol.Overrides.{
  exec_motion_overrides, exec_accessory_overrides, set_spindle_ovr, toggle_spindle_stop,
  toggle_coolant, coolant_set_state,
}

pub overrides-none :
    (m : Machine)
    → m.exec.motion_override ≡ 0
    → m.exec.accessory_override ≡ 0
    → exec_accessory_overrides (exec_motion_overrides m) ≡ m
unfolding exec_accessory_overrides exec_motion_overrides
overrides-none m e f = simp (e, f)

-- The parts of the machine that an override does not change.
abbrev pub SameCore : Machine → Machine → Type 0
SameCore m n =
    (n.sys.abort ≡ m.sys.abort)
    × (n.exec.state ≡ m.exec.state)
    × (n.exec.alarm ≡ m.exec.alarm)
    × (n.sys.state ≡ m.sys.state)
    × (n.sys.suspend ≡ m.sys.suspend)

set_spindle_ovr-SameCore : (rt_exec : ℕ) (m : Machine) → SameCore m (set_spindle_ovr rt_exec m)
unfolding set_spindle_ovr
set_spindle_ovr-SameCore rt_exec m = ground arith

toggle_spindle_stop-SameCore :
    (rt_exec : ℕ) (m : Machine) → SameCore m (toggle_spindle_stop rt_exec m)
unfolding toggle_spindle_stop
toggle_spindle_stop-SameCore rt_exec m = ground arith

toggle_coolant-SameCore : (rt_exec : ℕ) (m : Machine) → SameCore m (toggle_coolant rt_exec m)
unfolding toggle_coolant coolant_set_state coolant_stop
toggle_coolant-SameCore rt_exec m = ground arith

SameCore-trans : (a b c : Machine) → SameCore a b → SameCore b c → SameCore a c
SameCore-trans a b c p q = (q.0 ∙ p.0, q.1 ∙ p.1, q.2 ∙ p.2, q.3 ∙ p.3, q.4 ∙ p.4)

exec_motion_overrides-SameCore : (m : Machine) → SameCore m (exec_motion_overrides m)
unfolding exec_motion_overrides
exec_motion_overrides-SameCore m = ground arith

exec_accessory_overrides-SameCore : (m : Machine) → SameCore m (exec_accessory_overrides m)
unfolding exec_accessory_overrides
exec_accessory_overrides-SameCore m =
    let rt_exec = m.exec.accessory_override in
    let cleared : Machine = record m { exec = record m.exec { accessory_override = 0 } } in
    let spun = set_spindle_ovr rt_exec cleared in
    let stopped = toggle_spindle_stop rt_exec spun in
    ground (
      arith,
      set_spindle_ovr-SameCore rt_exec cleared,
      toggle_spindle_stop-SameCore rt_exec spun,
      toggle_coolant-SameCore rt_exec stopped,
    )

pub overrides-SameCore :
    (m : Machine) → SameCore m (exec_accessory_overrides (exec_motion_overrides m))
overrides-SameCore m =
    SameCore-trans m (exec_motion_overrides m) (exec_accessory_overrides (exec_motion_overrides m))
      (exec_motion_overrides-SameCore m)
      (exec_accessory_overrides-SameCore (exec_motion_overrides m))
