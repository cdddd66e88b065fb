-- ===== src/Protocol/Overrides/Coolant.antt =====
-- The coolant override of grbl/protocol.c and `coolant_set_state` of grbl/coolant_control.c.
use tele_handwriter.Base.{ℕ, ◌≡◌, ◌⊎◌, Bool, false, if◌then◌else◌, arith, ◌||◌, ◌&&◌, ◌==◌, bit_or}
use tele_handwriter.Base.Bits.{bit_istrue}
use tele_handwriter.Base.Bits.Laws.{test-either}
use tele_handwriter.System.{
  Machine, system_clear_exec_accessory_overrides, exec_coolant_flood_ovr_toggle,
  exec_coolant_mist_ovr_toggle, state_idle, state_cycle, state_hold,
}
use tele_handwriter.Protocol.Overrides.{
  exec_accessory_overrides, set_spindle_ovr, toggle_spindle_stop, toggle_coolant, toggled_flood,
  coolant_set_state, coolant_flood_enable, toggles,
}

-- Without mist coolant the modal state is off or flood, and the pin shows which.
pub record IsCoherent (m : Machine) : Type 0 where
  pub modes : (m.modal_coolant ≡ 0) ⊎ (m.modal_coolant ≡ coolant_flood_enable)
  pub shown : m.pins.coolant_flood ≡ bit_istrue m.modal_coolant coolant_flood_enable

set_spindle_ovr-coolant :
    (rt_exec : ℕ) (m : Machine)
    → ((set_spindle_ovr rt_exec m).pins ≡ m.pins)
      × ((set_spindle_ovr rt_exec m).modal_coolant ≡ m.modal_coolant)
      × ((set_spindle_ovr rt_exec m).sys.abort ≡ m.sys.abort)
      × ((set_spindle_ovr rt_exec m).sys.state ≡ m.sys.state)
unfolding set_spindle_ovr
set_spindle_ovr-coolant rt_exec m = ground arith

toggle_spindle_stop-coolant :
    (rt_exec : ℕ) (m : Machine)
    → ((toggle_spindle_stop rt_exec m).pins ≡ m.pins)
      × ((toggle_spindle_stop rt_exec m).modal_coolant ≡ m.modal_coolant)
      × ((toggle_spindle_stop rt_exec m).sys.abort ≡ m.sys.abort)
      × ((toggle_spindle_stop rt_exec m).sys.state ≡ m.sys.state)
unfolding toggle_spindle_stop
toggle_spindle_stop-coolant rt_exec m = ground arith

toggle_coolant_lem :
    (rt_exec : ℕ) (m : Machine)
    → m.sys.abort ≡ false
    → IsCoherent m
    → IsCoherent (toggle_coolant rt_exec m)
      × ((toggle_coolant rt_exec m).modal_coolant ≡ (
          if toggles rt_exec m.sys.state then toggled_flood m.modal_coolant else m.modal_coolant))
unfolding toggle_coolant coolant_set_state
toggle_coolant_lem rt_exec m live c = ground arith

-- A toggle of the flood or the mist coolant is pending, and the machine is idle, in a cycle or held.
abbrev pub asks_toggle : ℕ → ℕ → Bool
asks_toggle rt_exec state =
    (bit_istrue rt_exec exec_coolant_flood_ovr_toggle
      || bit_istrue rt_exec exec_coolant_mist_ovr_toggle)
    && (state == state_idle || bit_istrue state state_cycle || bit_istrue state state_hold)

either_bit : (x a b : ℕ) → bit_istrue x (bit_or a b) ≡ (bit_istrue x a || bit_istrue x b)
either_bit x a b = let (p, q, r) = test-either x a b in ground (arith, p, q, r)

toggles-asks_toggle : (rt_exec state : ℕ) → toggles rt_exec state ≡ asks_toggle rt_exec state
toggles-asks_toggle rt_exec state =
    let first = either_bit rt_exec exec_coolant_flood_ovr_toggle exec_coolant_mist_ovr_toggle in
    let second = either_bit state state_cycle state_hold in ground (arith, first, second)

-- Outside an abort, executing the accessory overrides keeps the flood pin equal to the parser's
-- modal state, and switches that state, from off to flood or from flood to off, exactly when a toggle
-- of the flood or the mist coolant is pending and the machine is idle, in a cycle or held.
pub exec_accessory_overrides-IsCoherent :
    (m : Machine)
    → m.sys.abort ≡ false
    → IsCoherent m
    → IsCoherent (exec_accessory_overrides m)
      × ((exec_accessory_overrides m).modal_coolant ≡ (
          if asks_toggle m.exec.accessory_override m.sys.state
          then (if m.modal_coolant == 0 then coolant_flood_enable else 0)
          else m.modal_coolant))
unfolding exec_accessory_overrides
exec_accessory_overrides-IsCoherent m live c =
    let rt_exec = m.exec.accessory_override in
    let cleared = record m { exec = system_clear_exec_accessory_overrides m.exec } in
    let spun = set_spindle_ovr rt_exec cleared in
    let stopped = toggle_spindle_stop rt_exec spun in
    let modes = c.modes in
    ground (
      arith,
      modes,
      toggles-asks_toggle rt_exec m.sys.state,
      set_spindle_ovr-coolant rt_exec cleared,
      toggle_spindle_stop-coolant rt_exec spun,
      toggle_coolant_lem rt_exec stopped,
    )
