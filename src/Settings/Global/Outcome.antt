-- ===== src/Settings/Global/Outcome.antt =====
-- How a setting command of grbl/settings.c ends.
use tele_handwriter.Base.{
  ℕ, ◌-◌, ltb, ◌≡◌, ◌≢◌, ◌⊎◌, inl, inr, refl, if_ind, Option, none, some, List, [], ◌∷◌, ◌++◌,
  arith,
}
use tele_handwriter.Settings.Global.{
  Values, Global, Change, refused, changed, Routine, write_global_settings, find_axis, store_axis,
  change_flags, change_value, change_setting, settings_store_global_setting, status_ok,
  status_invalid_statement, status_negative_value, axis_n_settings, axis_settings_start_val,
}

-- A refusal has an error status, the settings as they were, and no routine called.
abbrev error_of {ℓ} : {W : Type ℓ} → Change W → ℕ
error_of (refused status left routines) = status
error_of (changed new routines) = 1

abbrev left_of {ℓ} : {W : Type ℓ} → Global W → Change W → Global W
left_of s (refused status left routines) = left
left_of s (changed new routines) = s

abbrev called_by {ℓ} : {W : Type ℓ} → Change W → List Routine
called_by (refused status left routines) = routines
called_by (changed new routines) = []

abbrev IsRefusal {ℓ} : {W : Type ℓ} → Global W → Change W → Type ℓ
IsRefusal s c = (error_of c ≢ 0) × (left_of s c ≡ s) × (called_by c ≡ [])

abbrev or_value {ℓ} : {W : Type ℓ} → Change W → Option (Change W) → Change W
or_value value none = value
or_value value (some change) = change

module _ {ℓ} {W : Type ℓ} (values : Values W) where
  change_flags-IsRefusal :
      (parameter int_value : ℕ) (s : Global W) (change : Change W)
      → IsRefusal s change
      → IsRefusal s (or_value change (change_flags values parameter int_value s))
  unfolding change_flags
  change_flags-IsRefusal parameter int_value s change (e, l, c) =
      (λ z. ground (arith, e, z), ground (arith, l), ground (arith, c))

  change_value-IsRefusal :
      (parameter : ℕ) (value : W) (s : Global W)
      → IsRefusal s (change_value values parameter value s)
  unfolding change_value
  change_value-IsRefusal parameter value s = (λ z. ground (arith, z), ground arith, ground arith)

  other_change-IsRefusal :
      (parameter : ℕ) (value : W) (s : Global W) (o : Option (Change W))
      → IsRefusal s (or_value (change_value values parameter value s) o)
      → IsRefusal s (elim o as (λ o. Change W) [
        | none ↦ change_value values parameter value s
        | some change ↦ change
      ])
  other_change-IsRefusal parameter value s none h = h
  other_change-IsRefusal parameter value s (some change) h = h

  axis_change-IsRefusal :
      (value : W) (s : Global W) (o : Option (ℕ × ℕ))
      → IsRefusal s (elim o as (λ o. Change W) [
        | none ↦ refused status_invalid_statement s []
        | some (set_idx, index) ↦ changed (store_axis values set_idx index value s) []
      ])
  axis_change-IsRefusal value s none = (λ z. omega (arith, z), refl, refl)
  axis_change-IsRefusal value s (some axis) = (λ z. omega (arith, z), refl, refl)

  change_setting-IsRefusal :
      (parameter : ℕ) (value : W) (s : Global W)
      → IsRefusal s (change_setting values parameter value s)
  unfolding change_setting
  change_setting-IsRefusal parameter value s =
      let fails = λ (c : Change W). IsRefusal s c in
      let flags = change_flags values parameter (values.trunc value) s in
      let axis = find_axis axis_n_settings 0 (parameter - axis_settings_start_val) in
      if_ind fails (values.is_negative value) (refused status_negative_value s []) _
        (λ negative. (λ z. omega (arith, z), refl, refl))
        λ positive.
          if_ind fails (ltb parameter axis_settings_start_val) _ _
            (λ low. other_change-IsRefusal parameter value s flags (
              change_flags-IsRefusal parameter (values.trunc value) s _
                (change_value-IsRefusal parameter value s)))
            (λ high. axis_change-IsRefusal value s axis)

  -- The command was carried out and the settings written last, or it was refused with an error and
  -- nothing changed.
  abbrev pub IsAtomic : Global W → ℕ × Global W × List Routine → Type ℓ
  IsAtomic s result =
      ((result.0 ≡ status_ok)
        × ((before : List Routine) × (result.2 ≡ before ++ (write_global_settings ∷ []))))
      ⊎ ((result.0 ≢ status_ok) × (result.1 ≡ s) × (result.2 ≡ []))

  -- Every setting command either succeeds and writes the settings to the EEPROM as its last step, or
  -- returns an error with the settings as they were and no routine called.
  pub settings_store_global_setting-IsAtomic :
      (parameter : ℕ) (value : W) (s : Global W)
      → IsAtomic s (settings_store_global_setting values parameter value s)
  unfolding settings_store_global_setting
  settings_store_global_setting-IsAtomic parameter value s =
      ends (change_setting values parameter value s) (change_setting-IsRefusal parameter value s)
    where
      ends :
          (c : Change W)
          → IsRefusal s c
          → IsAtomic s (elim c as (λ c. ℕ × Global W × List Routine) [
            | refused status left routines ↦ (status, left, routines)
            | changed new routines ↦ (status_ok, new, routines ++ (write_global_settings ∷ []))
          ])
      ends (refused status left routines) h = inr h
      ends (changed new routines) h = inl (refl, (routines, refl))
