-- ===== src/Settings/Global/Axes.antt =====
-- The axis settings of grbl/settings.c: the numbers from 100.
use tele_handwriter.Base.{
  ℕ, ◌+◌, ◌-◌, ◌/◌, ◌%◌, ◌≡◌, refl, ap, ◌∙◌, false, ◌&&◌, ◌==◌, set, ltb, if◌then◌else◌, Option,
  none, some, List, [], ◌∷◌, ◌++◌, arith,
}
use tele_handwriter.Settings.Global.{
  Values, Global, Change, refused, changed, Routine, write_global_settings, find_axis, store_axis,
  change_setting, settings_store_global_setting, status_ok, status_invalid_statement,
  axis_settings_start_val, axis_n_settings, n_axis, axis_settings_increment,
}

-- The set is the tens digit and the axis the last digit of the number.
abbrev pub decode : ℕ → Option (ℕ × ℕ)
decode p =
    if ltb (p % axis_settings_increment) n_axis && ltb (p / axis_settings_increment) axis_n_settings
    then some (p / axis_settings_increment, p % axis_settings_increment)
    else none

find_axis-decode : (p : ℕ) → find_axis axis_n_settings 0 p ≡ decode p
unfolding find_axis
find_axis-decode p = ground arith

-- The settings with `value` as the axis setting of the set `set_idx`: 0 for steps per mm, 1 for the
-- maximum rate, 2 for the acceleration in mm/min^2, 3 for the maximum travel, kept negative.
abbrev pub with_axis {ℓ} : {W : Type ℓ} → Values W → (set_idx axis : ℕ) → W → Global W → Global W
with_axis values set_idx axis value s = record s {
  steps_per_mm = if set_idx == 0 then set s.steps_per_mm axis value else s.steps_per_mm;
  max_rate = if set_idx == 1 then set s.max_rate axis value else s.max_rate;
  acceleration =
      if set_idx == 2 then set s.acceleration axis (values.per_min value) else s.acceleration;
  max_travel = if set_idx == 3 then set s.max_travel axis (values.negate value) else s.max_travel;
}

store_axis-with_axis {ℓ} :
    {W : Type ℓ} (values : Values W) (set_idx axis : ℕ) (value : W) (s : Global W)
    → store_axis values set_idx axis value s ≡ with_axis values set_idx axis value s
unfolding store_axis
store_axis-with_axis values set_idx axis value s = ground arith

-- The status and the settings that the axis setting `p` is documented to give.
abbrev pub axis_outcome {ℓ} :
    {W : Type ℓ} → Values W → ℕ → W → Global W → ℕ × Global W × List Routine
axis_outcome values p value s = elim (decode p) [
  | none ↦ (status_invalid_statement, s, [])
  | some (set_idx, axis) ↦
      (status_ok, with_axis values set_idx axis value s, write_global_settings ∷ [])
]

abbrev axis_change {ℓ} : {W : Type ℓ} → Values W → W → Global W → Option (ℕ × ℕ) → Change W
axis_change values value s o = elim o [
  | none ↦ refused status_invalid_statement s []
  | some (set_idx, index) ↦ changed (store_axis values set_idx index value s) []
]

abbrev outcome {ℓ} : {W : Type ℓ} → Global W → Change W → ℕ × Global W × List Routine
outcome s change = elim change [
  | refused status left routines ↦ (status, left, routines)
  | changed new routines ↦ (status_ok, new, routines ++ (write_global_settings ∷ []))
]

change_setting-axis {ℓ} :
    {W : Type ℓ} (values : Values W) (p : ℕ) (value : W) (s : Global W)
    → values.is_negative value ≡ false
    → change_setting values (axis_settings_start_val + p) value s
      ≡ axis_change values value s (decode p)
unfolding change_setting
change_setting-axis values p value s h =
    let axis : ltb (axis_settings_start_val + p) axis_settings_start_val ≡ false = ground arith in
    let offset : axis_settings_start_val + p - axis_settings_start_val ≡ p = omega arith in
    (simp (h, axis))
    ∙ ap (axis_change values value s) (ap (find_axis axis_n_settings 0) offset ∙ find_axis-decode p)

outcome-axis_change {ℓ} :
    {W : Type ℓ} (values : Values W) (value : W) (s : Global W) (o : Option (ℕ × ℕ))
    → outcome s (axis_change values value s o) ≡ (elim o [
      | none ↦ (status_invalid_statement, s, [])
      | some (set_idx, axis) ↦
          (status_ok, with_axis values set_idx axis value s, write_global_settings ∷ [])
    ])
outcome-axis_change values value s none = refl
outcome-axis_change {W = W} values value s (some (set_idx, axis)) =
    ap (λ (n : Global W). (status_ok, n, write_global_settings ∷ []))
      (store_axis-with_axis values set_idx axis value s)

-- For a value that is not negative, the setting 100 + 10 n + a with a < 3 stores, as the value of the
-- axis a: for n = 0 the steps per mm, for n = 1 the maximum rate, for n = 2 the acceleration, in units
-- per minute, and for n = 3 the maximum travel, negated; nothing else changes and the settings are
-- written. Every other number from 100 is refused with nothing changed and nothing written.
pub settings_store_axis {ℓ} :
    {W : Type ℓ} (values : Values W) (p : ℕ) (value : W) (s : Global W)
    → values.is_negative value ≡ false
    → settings_store_global_setting values (axis_settings_start_val + p) value s
      ≡ axis_outcome values p value s
unfolding settings_store_global_setting
settings_store_axis values p value s h =
    ap (outcome s) (change_setting-axis values p value s h)
    ∙ outcome-axis_change values value s (decode p)
