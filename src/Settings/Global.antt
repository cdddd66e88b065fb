-- ===== src/Settings/Global.antt =====
-- `settings_store_global_setting` of grbl/settings.c: a `$x=value` command. VARIABLE_SPINDLE is
-- defined and MAX_STEP_RATE_HZ is not. The value is a float, taken as an interface; `trunc` is the
-- byte that the code makes of it. The routines that the code calls are listed in the order of the
-- calls.
pub mod Axes
pub mod Limits
pub mod Outcome
use tele_handwriter.Base.{
  ℕ, zero, suc, ◌+◌, ◌-◌, Bool, true, false, ◌||◌, Option, none, some, List, [], ◌∷◌, ◌++◌, ◌==◌,
  ltb, if◌then◌else◌, set, bit_and, bit_or,
}
use tele_handwriter.Base.Bits.{bit_isfalse, bit_not8}
use tele_handwriter.System.{
  bitflag_laser_mode, bitflag_invert_st_enable, bitflag_hard_limit_enable, bitflag_homing_enable,
  bitflag_soft_limit_enable,
}

abbrev pub status_ok : ℕ
status_ok = 0

abbrev pub status_invalid_statement : ℕ
status_invalid_statement = 3

abbrev pub status_negative_value : ℕ
status_negative_value = 4

abbrev pub status_setting_step_pulse_min : ℕ
status_setting_step_pulse_min = 6

abbrev pub status_soft_limit_error : ℕ
status_soft_limit_error = 10

abbrev pub bitflag_report_inches : ℕ
bitflag_report_inches = 0x01

abbrev pub bitflag_invert_limit_pins : ℕ
bitflag_invert_limit_pins = 0x40

abbrev pub bitflag_invert_probe_pin : ℕ
bitflag_invert_probe_pin = 0x80

abbrev pub axis_n_settings : ℕ
axis_n_settings = 4

abbrev pub axis_settings_start_val : ℕ
axis_settings_start_val = 100

abbrev pub axis_settings_increment : ℕ
axis_settings_increment = 10

abbrev pub n_axis : ℕ
n_axis = 3

-- What the code does with a value: `value < 0.0`, `trunc`, `value*60*60` and `-value`.
pub record Values {ℓ} (W : Type ℓ) : Type ℓ where
  pub is_negative : W → Bool
  pub trunc : W → ℕ
  pub per_min : W → W
  pub negate : W → W

-- `settings_t`
pub record Global {ℓ} (W : Type ℓ) : Type ℓ where
  pub steps_per_mm : List W
  pub max_rate : List W
  pub acceleration : List W
  pub max_travel : List W
  pub pulse_microseconds : ℕ
  pub step_invert_mask : ℕ
  pub dir_invert_mask : ℕ
  pub stepper_idle_lock_time : ℕ
  pub status_report_mask : ℕ
  pub junction_deviation : W
  pub arc_tolerance : W
  pub rpm_max : W
  pub rpm_min : W
  pub flags : ℕ
  pub homing_dir_mask : ℕ
  pub homing_feed_rate : W
  pub homing_seek_rate : W
  pub homing_debounce_delay : ℕ
  pub homing_pulloff : W

pub data Routine : Type 0 where
  st_generate_step_dir_invert_masks probe_configure_invert_mask system_flag_wco_change : Routine
  limits_init spindle_init write_global_settings : Routine

-- How the switch ends, by a return or a break: the settings at that point, and the routines called
-- before it. Only the settings after a break go on to `write_global_settings`.
pub data Change {ℓ} (W : Type ℓ) : Type ℓ where
  refused : ℕ → Global W → List Routine → Change W
  changed : Global W → List Routine → Change W

-- `if (int_value) { flags |= mask; } else { flags &= ~mask; }`
abbrev pub put_flag : ℕ → ℕ → ℕ → ℕ
put_flag mask int_value flags =
    if int_value == 0 then bit_and flags (bit_not8 mask) else bit_or flags mask

-- The loop of lines 203 to 229 with `fuel` sets left: the set and the axis of a parameter.
pub find_axis : (fuel set_idx parameter : ℕ) → Option (ℕ × ℕ)
find_axis zero set_idx parameter = none
find_axis (suc fuel) set_idx parameter =
    let rest = find_axis fuel (set_idx + 1) (parameter - axis_settings_increment) in
    if ltb parameter n_axis
    then some (set_idx, parameter)
    else if ltb parameter axis_settings_increment || set_idx + 1 == axis_n_settings
    then none
    else rest

module _ {ℓ} {W : Type ℓ} (values : Values W) where
  -- Lines 206 to 221.
  pub store_axis : ℕ → ℕ → W → Global W → Global W
  store_axis set_idx axis value s =
      if set_idx == 0
      then record s { steps_per_mm = set s.steps_per_mm axis value }
      else if set_idx == 1
      then record s { max_rate = set s.max_rate axis value }
      else if set_idx == 2
      then record s { acceleration = set s.acceleration axis (values.per_min value) }
      else if set_idx == 3
      then record s { max_travel = set s.max_travel axis (values.negate value) }
      else s

  -- Lines 247 to 299, the settings from 4 that are kept in `flags`; `none` for the others.
  pub change_flags : ℕ → ℕ → Global W → Option (Change W)
  change_flags parameter int_value s =
      let put : ℕ → Global W = λ mask. record s { flags = put_flag mask int_value s.flags } in
      let off = bit_and s.flags (bit_not8 bitflag_homing_enable) in
      let unhomed = record s { flags = bit_and off (bit_not8 bitflag_soft_limit_enable) } in
      if parameter == 4
      then some (changed (put bitflag_invert_st_enable) [])
      else if parameter == 5
      then some (changed (put bitflag_invert_limit_pins) [])
      else if parameter == 6
      then some (changed (put bitflag_invert_probe_pin) (probe_configure_invert_mask ∷ []))
      else if parameter == 13
      then some (changed (put bitflag_report_inches) (system_flag_wco_change ∷ []))
      else if parameter == 20
      then (if int_value == 0
          then some (changed (put bitflag_soft_limit_enable) [])
          else if bit_isfalse s.flags bitflag_homing_enable
          then some (refused status_soft_limit_error s [])
          else some (changed (put bitflag_soft_limit_enable) []))
      else if parameter == 21
      then some (changed (put bitflag_hard_limit_enable) (limits_init ∷ []))
      else if parameter == 22
      then (if int_value == 0
          then some (changed unhomed [])
          else some (changed (put bitflag_homing_enable) []))
      else if parameter == 32
      then some (changed (put bitflag_laser_mode) [])
      else none

  -- The other settings of the switch in lines 233 to 302.
  pub change_value : ℕ → W → Global W → Change W
  change_value parameter value s =
      let int_value = values.trunc value in
      let masks = st_generate_step_dir_invert_masks ∷ [] in
      if parameter == 0
      then (if ltb int_value 3
          then refused status_setting_step_pulse_min s []
          else changed (record s { pulse_microseconds = int_value }) [])
      else if parameter == 1
      then changed (record s { stepper_idle_lock_time = int_value }) []
      else if parameter == 2
      then changed (record s { step_invert_mask = int_value }) masks
      else if parameter == 3
      then changed (record s { dir_invert_mask = int_value }) masks
      else if parameter == 10
      then changed (record s { status_report_mask = int_value }) []
      else if parameter == 11
      then changed (record s { junction_deviation = value }) []
      else if parameter == 12
      then changed (record s { arc_tolerance = value }) []
      else if parameter == 23
      then changed (record s { homing_dir_mask = int_value }) []
      else if parameter == 24
      then changed (record s { homing_feed_rate = value }) []
      else if parameter == 25
      then changed (record s { homing_seek_rate = value }) []
      else if parameter == 26
      then changed (record s { homing_debounce_delay = int_value }) []
      else if parameter == 27
      then changed (record s { homing_pulloff = value }) []
      else if parameter == 30
      then changed (record s { rpm_max = value }) (spindle_init ∷ [])
      else if parameter == 31
      then changed (record s { rpm_min = value }) (spindle_init ∷ [])
      else refused status_invalid_statement s []

  -- Lines 197 to 303.
  pub change_setting : ℕ → W → Global W → Change W
  change_setting parameter value s =
      let axis : Change W =
        elim (find_axis axis_n_settings 0 (parameter - axis_settings_start_val)) [
          | none ↦ refused status_invalid_statement s []
          | some (set_idx, index) ↦ changed (store_axis set_idx index value s) []
        ] in
      let other : Change W = elim (change_flags parameter (values.trunc value) s) [
        | none ↦ change_value parameter value s
        | some change ↦ change
      ] in
      if values.is_negative value
      then refused status_negative_value s []
      else if ltb parameter axis_settings_start_val
      then other
      else axis

  -- The status, the settings and the routines that were called.
  pub settings_store_global_setting : ℕ → W → Global W → ℕ × Global W × List Routine
  settings_store_global_setting parameter value s = elim (change_setting parameter value s) [
    | refused status left routines ↦ (status, left, routines)
    | changed new routines ↦ (status_ok, new, routines ++ (write_global_settings ∷ []))
  ]
