-- ===== src/Settings/Global/Limits.antt =====
-- The limit settings and the outcome of a setting command of grbl/settings.c.
use tele_handwriter.Base.{
  ℕ, ◌-◌, ltb, ◌≡◌, ◌<◌, refl, sym, subst, true, not, ◌==◌, if_ind, Option, none, some, List, [],
  ◌∷◌, ◌++◌, arith, bit_and,
}
use tele_handwriter.Base.Bits.{bit_istrue, bit_not8}
use tele_handwriter.Base.Bits.Laws.{
  test-bit_or_hit, test-bit_or_miss, test-bit_and_keep, test-bit_and_drop,
}
use tele_handwriter.System.{
  bitflag_laser_mode, bitflag_invert_st_enable, bitflag_hard_limit_enable, bitflag_homing_enable,
  bitflag_soft_limit_enable,
}
use tele_handwriter.Settings.Global.{
  Values, Global, Change, refused, changed, Routine, write_global_settings, find_axis, store_axis,
  change_flags, change_value, change_setting, settings_store_global_setting, put_flag, status_ok,
  status_invalid_statement, status_negative_value, axis_n_settings, axis_settings_start_val,
  bitflag_report_inches, bitflag_invert_limit_pins, bitflag_invert_probe_pin,
}

-- Soft limits are enabled only with homing.
abbrev pub IsSafe : ℕ → Type 0
IsSafe flags =
    bit_istrue flags bitflag_soft_limit_enable ≡ true
    → bit_istrue flags bitflag_homing_enable ≡ true

-- A flag that is neither of the two keeps them both.
put_flag-other :
    (mask n int_value flags : ℕ)
    → bit_and mask n ≡ 0
    → bit_and (bit_not8 mask) n ≡ n
    → bit_and (put_flag mask int_value flags) n ≡ bit_and flags n
put_flag-other mask n int_value flags e f =
    ground (arith, test-bit_or_miss flags mask n e, test-bit_and_keep flags (bit_not8 mask) n f)

-- The flag `mask` is put as the number asks.
put_flag_self :
    (mask int_value flags : ℕ)
    → 0 < bit_and mask mask
    → bit_and (bit_not8 mask) mask ≡ 0
    → bit_istrue (put_flag mask int_value flags) mask ≡ not (int_value == 0)
put_flag_self mask int_value flags e f =
    ground
      (arith, test-bit_or_hit flags mask mask e, test-bit_and_drop flags (bit_not8 mask) mask f)

-- A flag that is neither of the two keeps them both.
abbrev KeepsBoth : ℕ → ℕ → ℕ → Type 0
KeepsBoth mask int_value flags =
    (bit_and (put_flag mask int_value flags) bitflag_soft_limit_enable
      ≡ bit_and flags bitflag_soft_limit_enable)
    × (bit_and (put_flag mask int_value flags) bitflag_homing_enable
        ≡ bit_and flags bitflag_homing_enable)

put_flag-KeepsBoth :
    (mask int_value flags : ℕ)
    → bit_and mask bitflag_soft_limit_enable ≡ 0
    → bit_and (bit_not8 mask) bitflag_soft_limit_enable ≡ bitflag_soft_limit_enable
    → bit_and mask bitflag_homing_enable ≡ 0
    → bit_and (bit_not8 mask) bitflag_homing_enable ≡ bitflag_homing_enable
    → KeepsBoth mask int_value flags
put_flag-KeepsBoth mask int_value flags a b c d = (
  put_flag-other mask bitflag_soft_limit_enable int_value flags a b,
  put_flag-other mask bitflag_homing_enable int_value flags c d,
)

-- The flags of a change, or those before.
abbrev new_flags {ℓ} : {W : Type ℓ} → ℕ → Change W → ℕ
new_flags flags (refused status s routines) = s.flags
new_flags flags (changed s routines) = s.flags

abbrev changed_flags {ℓ} : {W : Type ℓ} → ℕ → Option (Change W) → ℕ
changed_flags flags none = flags
changed_flags flags (some change) = new_flags flags change

module _ {ℓ} {W : Type ℓ} (values : Values W) where
  change_flags-IsSafe :
      (parameter int_value : ℕ) (s : Global W)
      → IsSafe s.flags
      → IsSafe (changed_flags s.flags (change_flags values parameter int_value s))
  unfolding change_flags
  change_flags-IsSafe parameter int_value s safe soft =
      let f = s.flags in
      let keeps = λ (mask : ℕ). put_flag-KeepsBoth mask int_value f in
      let off = bit_and f (bit_not8 bitflag_homing_enable) in
      ground (
        arith,
        soft,
        safe,
        keeps bitflag_invert_st_enable refl refl refl refl,
        keeps bitflag_invert_limit_pins refl refl refl refl,
        keeps bitflag_invert_probe_pin refl refl refl refl,
        keeps bitflag_report_inches refl refl refl refl,
        keeps bitflag_hard_limit_enable refl refl refl refl,
        keeps bitflag_laser_mode refl refl refl refl,
        put_flag-other bitflag_soft_limit_enable bitflag_homing_enable int_value f refl refl,
        test-bit_and_drop f (bit_not8 bitflag_soft_limit_enable) bitflag_soft_limit_enable refl,
        test-bit_and_drop off (bit_not8 bitflag_soft_limit_enable) bitflag_soft_limit_enable refl,
        test-bit_or_hit f bitflag_homing_enable bitflag_homing_enable (omega arith),
      )

  change_value-IsSafe :
      (parameter : ℕ) (value : W) (s : Global W)
      → new_flags s.flags (change_value values parameter value s) ≡ s.flags
  unfolding change_value
  change_value-IsSafe parameter value s = ground arith

  store_axis-flags :
      (set_idx axis : ℕ) (value : W) (s : Global W)
      → (store_axis values set_idx axis value s).flags ≡ s.flags
  unfolding store_axis
  store_axis-flags set_idx axis value s = ground arith

  -- The parts of `change_setting`.
  abbrev other_change : ℕ → W → Global W → Option (Change W) → Change W
  other_change parameter value s o = elim o [
    | none ↦ change_value values parameter value s
    | some change ↦ change
  ]

  abbrev axis_change : W → Global W → Option (ℕ × ℕ) → Change W
  axis_change value s o = elim o [
    | none ↦ refused status_invalid_statement s []
    | some (set_idx, index) ↦ changed (store_axis values set_idx index value s) []
  ]

  other_change-flags :
      (parameter : ℕ) (value : W) (s : Global W) (o : Option (Change W))
      → new_flags s.flags (other_change parameter value s o) ≡ changed_flags s.flags o
  other_change-flags parameter value s none = change_value-IsSafe parameter value s
  other_change-flags parameter value s (some change) = refl

  axis_change-flags :
      (value : W) (s : Global W) (o : Option (ℕ × ℕ))
      → new_flags s.flags (axis_change value s o) ≡ s.flags
  axis_change-flags value s none = refl
  axis_change-flags value s (some (set_idx, index)) = store_axis-flags set_idx index value s

  change_setting-IsSafe :
      (parameter : ℕ) (value : W) (s : Global W)
      → IsSafe s.flags
      → IsSafe (new_flags s.flags (change_setting values parameter value s))
  unfolding change_setting
  change_setting-IsSafe parameter value s safe =
      let safe_after = λ (c : Change W). IsSafe (new_flags s.flags c) in
      let flags = change_flags values parameter (values.trunc value) s in
      let axis = find_axis axis_n_settings 0 (parameter - axis_settings_start_val) in
      if_ind safe_after (values.is_negative value) (refused status_negative_value s []) _
        (λ negative. safe)
        λ positive.
          if_ind safe_after (ltb parameter axis_settings_start_val)
            (other_change parameter value s flags) (axis_change value s axis)
            (λ low.
              subst IsSafe (sym (other_change-flags parameter value s flags))
                (change_flags-IsSafe parameter (values.trunc value) s safe))
            (λ high. subst IsSafe (sym (axis_change-flags value s axis)) safe)

  -- A setting command never leaves the soft limits enabled without homing, if they were not.
  pub settings_store_global_setting-IsSafe :
      (parameter : ℕ) (value : W) (s : Global W)
      → IsSafe s.flags
      → IsSafe (settings_store_global_setting values parameter value s).1.flags
  unfolding settings_store_global_setting
  settings_store_global_setting-IsSafe parameter value s safe =
      stored (change_setting values parameter value s)
        (change_setting-IsSafe parameter value s safe)
    where
      stored :
          (c : Change W)
          → IsSafe (new_flags s.flags c)
          → IsSafe
              (elim c as (λ c. ℕ × Global W × List Routine) [
                | refused status left routines ↦ (status, left, routines)
                | changed new routines ↦ (status_ok, new, routines ++ (write_global_settings ∷ []))
              ]).1.flags
      stored (refused status left routines) h = h
      stored (changed new routines) h = h
