-- ===== src/Protocol/Overrides/Bounds.antt =====
-- The ranges of the overrides of grbl/protocol.c.
use tele_handwriter.Base.{ℕ, ◌≤◌, ◌≡◌, ◌⊎◌, ◌==◌, arith, if_ind}
use tele_handwriter.System.{Machine, Sys, system_clear_exec_accessory_overrides}
use tele_handwriter.Protocol.Overrides.{
  new_override, new_rapid_override, exec_motion_overrides, exec_accessory_overrides,
  set_spindle_ovr, toggle_spindle_stop, toggle_coolant, max_override, min_override,
  rapid_override_medium, rapid_override_low, default_override, coolant_set_state, toggled_flood,
  toggles,
}

pub record InRange (s : Sys) : Type 0 where
  pub f_min : min_override ≤ s.f_override
  pub f_max : s.f_override ≤ max_override
  pub s_min : min_override ≤ s.spindle_speed_ovr
  pub s_max : s.spindle_speed_ovr ≤ max_override
  pub rapid :
      (s.r_override ≡ default_override)
      ⊎ (s.r_override ≡ rapid_override_medium)
      ⊎ (s.r_override ≡ rapid_override_low)

new_override_bounds :
    (rt_exec value : ℕ)
    → (min_override ≤ new_override rt_exec value) × (new_override rt_exec value ≤ max_override)
unfolding new_override
new_override_bounds rt_exec value = omega arith

new_rapid_override_values :
    (rt_exec value : ℕ)
    → (value ≡ default_override) ⊎ (value ≡ rapid_override_medium) ⊎ (value ≡ rapid_override_low)
    → (new_rapid_override rt_exec value ≡ default_override)
      ⊎ (new_rapid_override rt_exec value ≡ rapid_override_medium)
      ⊎ (new_rapid_override rt_exec value ≡ rapid_override_low)
unfolding new_rapid_override
new_rapid_override_values rt_exec value h = ground arith

set_spindle_ovr-InRange :
    (rt_exec : ℕ) (m : Machine) → InRange m.sys → InRange (set_spindle_ovr rt_exec m).sys
unfolding set_spindle_ovr
set_spindle_ovr-InRange rt_exec m r =
    ground (arith, new_override_bounds rt_exec m.sys.spindle_speed_ovr)

toggle_spindle_stop-InRange :
    (rt_exec : ℕ) (m : Machine) → InRange m.sys → InRange (toggle_spindle_stop rt_exec m).sys
unfolding toggle_spindle_stop
toggle_spindle_stop-InRange rt_exec m r = ground arith

coolant_set_state-InRange :
    (mode : ℕ) (m : Machine) → InRange m.sys → InRange (coolant_set_state mode m).sys
unfolding coolant_set_state
coolant_set_state-InRange mode m r = ground arith

toggle_coolant-InRange :
    (rt_exec : ℕ) (m : Machine) → InRange m.sys → InRange (toggle_coolant rt_exec m).sys
unfolding toggle_coolant
toggle_coolant-InRange rt_exec m r =
    if_ind (λ n. InRange n.sys) (toggles rt_exec m.sys.state) _ m
      (λ on. coolant_set_state-InRange (toggled_flood m.modal_coolant) m r) (λ off. r)

exec_motion_overrides-InRange :
    (m : Machine) → InRange m.sys → InRange (exec_motion_overrides m).sys
unfolding exec_motion_overrides
exec_motion_overrides-InRange m r = ground (
  arith,
  new_override_bounds m.exec.motion_override m.sys.f_override,
  new_rapid_override_values m.exec.motion_override m.sys.r_override,
)

exec_accessory_overrides-InRange :
    (m : Machine) → InRange m.sys → InRange (exec_accessory_overrides m).sys
unfolding exec_accessory_overrides
exec_accessory_overrides-InRange m r =
    let rt_exec = m.exec.accessory_override in
    let cleared = record m { exec = system_clear_exec_accessory_overrides m.exec } in
    let spun = set_spindle_ovr rt_exec cleared in
    let stopped = toggle_spindle_stop rt_exec spun in
    if_ind (λ n. InRange n.sys) (rt_exec == 0) m (toggle_coolant rt_exec stopped) (λ _. r)
      (λ _.
        toggle_coolant-InRange rt_exec stopped
          (toggle_spindle_stop-InRange rt_exec spun (set_spindle_ovr-InRange rt_exec cleared r)))

-- Whatever override commands are pending, executing them keeps the feed and the spindle override
-- within 10 and 200 percent, and the rapid override at 100, 50 or 25 percent.
pub exec_overrides-InRange :
    (m : Machine)
    → InRange m.sys
    → InRange (exec_motion_overrides m).sys × InRange (exec_accessory_overrides m).sys
exec_overrides-InRange m r =
    (exec_motion_overrides-InRange m r, exec_accessory_overrides-InRange m r)
