-- ===== src/System/Travel.antt =====
-- `system_check_travel_limits` of grbl/system.c. HOMING_FORCE_SET_ORIGIN is not defined.
use tele_handwriter.Base.{ℕ, Bool, ◌||◌}
use tele_handwriter.Gcode.State.{Vector, at, Arithmetic}

module _ {ℓ} {W : Type ℓ} (arithmetic : Arithmetic W) where
  -- `target[idx] > 0 || target[idx] < settings.max_travel[idx]`; the travel is stored as negative.
  abbrev pub is_outside : Vector W → Vector W → ℕ → Bool
  is_outside max_travel target idx =
      arithmetic.lt arithmetic.nought (at target idx)
      || arithmetic.lt (at target idx) (at max_travel idx)

  abbrev pub system_check_travel_limits : Vector W → Vector W → Bool
  system_check_travel_limits max_travel target =
      is_outside max_travel target 0
      || is_outside max_travel target 1
      || is_outside max_travel target 2
