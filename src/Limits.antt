-- ===== src/Limits.antt =====
-- `limits_get_state` of grbl/limits.c and `get_limit_pin_mask` of grbl/settings.c, with the pins of
-- grbl/cpu_map.h for VARIABLE_SPINDLE. INVERT_LIMIT_PIN_MASK is not defined. The argument `input` is
-- the register LIMIT_PIN.
use tele_handwriter.Base.{ℕ, zero, suc, ◌^◌, ◌==◌, if◌then◌else◌, bit_and, bit_or, bit_xor}
use tele_handwriter.Base.Bits.{bit_istrue, bit_isfalse}
use tele_handwriter.Settings.Global.{bitflag_invert_limit_pins, n_axis}

-- (1<<X_LIMIT_BIT)|(1<<Y_LIMIT_BIT)|(1<<Z_LIMIT_BIT)
abbrev pub limit_mask : ℕ
limit_mask = 0x16

pub get_limit_pin_mask : ℕ → ℕ
get_limit_pin_mask axis_idx =
    if axis_idx == 0 then 2 ^ 1 else if axis_idx == 1 then 2 ^ 2 else 2 ^ 4

-- The axes of the loop in lines 78 to 81, the first `n`.
pub triggered : ℕ → ℕ → ℕ
triggered zero pin = 0
triggered (suc n) pin =
    let before = triggered n pin in
    if bit_istrue pin (get_limit_pin_mask n) then bit_or before (2 ^ n) else before

pub limits_get_state : ℕ → ℕ → ℕ
limits_get_state settings_flags input =
    let masked = bit_and input limit_mask in
    let pin =
      if bit_isfalse settings_flags bitflag_invert_limit_pins
      then bit_xor masked limit_mask
      else masked in
    if pin == 0 then 0 else triggered n_axis pin
