-- ===== src/Protocol/Suspend/Loops/Restore.antt =====
-- The restore of the spindle and the coolant in `protocol_exec_rt_suspend` of grbl/protocol.c.
use tele_handwriter.Base.{
  ℕ, ◌+◌, ◌%◌, ◌≡◌, ◌≢◌, ap, refl, sym, subst, ◌∙◌, Bool, true, false, not, ◌==◌, ◌&&◌, ◌||◌,
  if◌then◌else◌, arith, List, ◌++◌, some, replicate, bit_and, bit_or, Bool-cases, inl, inr,
}
use tele_handwriter.Base.Bits.{bit_istrue, bit_isfalse}
use tele_handwriter.Base.Bits.Laws.{bit_and_assoc}
use tele_handwriter.System.{Machine, Pins, suspend_restart_retract, bitflag_laser_mode}
use tele_handwriter.System.Reset.{coolant_stop}
use tele_handwriter.Spindle.{
  Speeds, spindle_set_state, spindle_set_speed, spindle_disable, spindle_enable_cw,
  spindle_enable_ccw, requested_speed, spindle_compute_pwm_value,
}
use tele_handwriter.Protocol.Overrides.{coolant_set_state, coolant_flood_enable}
use tele_handwriter.Protocol.Suspend.{
  Turn, delay_sec, spindle_delay_steps, coolant_delay_steps, update_pwm, set_restored_spindle,
  restore_spindle, restore_coolant, coolant_disable,
}
use tele_handwriter.Protocol.Suspend.Loops.Door.{calm, AtDoor, AtDoor-keep, delay_sec-AtDoor}

module _ {ℓ} {W : Type ℓ} (speeds : Speeds W) (condition : ℕ) (speed : W) where
  abbrev pub spins : Machine → Bool
  spins m = not (m.modal_spindle == spindle_disable)

  abbrev pub lasers : Machine → Bool
  lasers m = bit_istrue m.settings_flags bitflag_laser_mode

  abbrev pub cools : Machine → Bool
  cools m = not (m.modal_coolant == coolant_disable)

  -- The turns that the restore waits for.
  abbrev pub spindle_turns : Machine → ℕ
  spindle_turns m = if spins m && not (lasers m) then spindle_delay_steps else 0

  abbrev pub coolant_turns : Machine → ℕ
  coolant_turns m = if cools m then coolant_delay_steps else 0

  -- The spindle bits of the block's condition.
  abbrev pub asked : ℕ
  asked = bit_and condition (bit_or spindle_enable_cw spindle_enable_ccw)

  -- The speed with the override of the machine.
  abbrev pub scaled : Machine → W
  scaled m = speeds.scale m.sys.spindle_speed_ovr speed

  -- The pins of a spindle that turns as the block asks: the direction by the condition, and the PWM,
  -- which is on unless its value is 0, by the scaled speed, when a direction is asked for. A speed from
  -- rpm_max on, or an empty range of speeds, has the greatest value, a speed up to rpm_min the least,
  -- or 0 for no speed, and any other speed its own value.
  pub record IsSpinning (m : Machine) (pins : Pins) : Type 0 where
    pub clockwise : asked ≡ spindle_enable_cw → pins.spindle_direction ≡ false
    pub counter : asked ≡ spindle_enable_ccw → pins.spindle_direction ≡ true
    pub on : pins.spindle_pwm ≡ not (pins.spindle_level == 0)
    pub full :
        asked ≢ 0
        → (speeds.le speeds.rpm_max speeds.rpm_min || speeds.le speeds.rpm_max (scaled m)) ≡ true
        → pins.spindle_level ≡ 38
    pub own :
        asked ≢ 0
        → (speeds.le speeds.rpm_max speeds.rpm_min || speeds.le speeds.rpm_max (scaled m)) ≡ false
        → speeds.le (scaled m) speeds.rpm_min ≡ false
        → pins.spindle_level ≡ (speeds.above_min (scaled m) + 7) % 256
    pub least :
        asked ≢ 0
        → (speeds.le speeds.rpm_max speeds.rpm_min || speeds.le speeds.rpm_max (scaled m)) ≡ false
        → speeds.le (scaled m) speeds.rpm_min ≡ true
        → pins.spindle_level ≡ (if speeds.eq (scaled m) (speeds.of_nat 0) then 0 else 7)

  pub restored-IsSpinning :
      (m : Machine)
      → m.sys.abort ≡ false
      → lasers m ≡ false
      → IsSpinning m (set_restored_spindle speeds condition speed m).pins
  unfolding set_restored_spindle spindle_set_state spindle_set_speed requested_speed
      spindle_compute_pwm_value
  restored-IsSpinning m a l = record {
    clockwise = λ e. ground (arith, a, l, e);
    counter = λ e. ground (arith, a, l, e);
    on = ground (arith, a, l);
    full = λ e f. ground (arith, a, l, e, f);
    own = λ e f g. ground (arith, a, l, e, f, g);
    least = λ e f g. ground (arith, a, l, e, f, g);
  }

  -- The pins of the spindle are the same.
  pub record SameSpindle (p q : Pins) : Type 0 where
    pub direction : p.spindle_direction ≡ q.spindle_direction
    pub pwm : p.spindle_pwm ≡ q.spindle_pwm
    pub level : p.spindle_level ≡ q.spindle_level

  pub IsSpinning-same :
      (m : Machine) (p q : Pins) → SameSpindle p q → IsSpinning m q → IsSpinning m p
  IsSpinning-same m p q e s = record {
    clockwise = λ a. e.direction ∙ s.clockwise a;
    counter = λ a. e.direction ∙ s.counter a;
    on = e.pwm ∙ s.on ∙ ap (λ l. not (l == 0)) (sym e.level);
    full = λ a b. e.level ∙ s.full a b;
    own = λ a b c. e.level ∙ s.own a b c;
    least = λ a b c. e.level ∙ s.least a b c;
  }

  set_spindle-AtDoor :
      (m₀ m : Machine) → AtDoor m₀ m → AtDoor m₀ (set_restored_spindle speeds condition speed m)
  unfolding set_restored_spindle spindle_set_state spindle_set_speed
  set_spindle-AtDoor m₀ m d =
      AtDoor-keep m₀ m (set_restored_spindle speeds condition speed m) d (ground arith)
        (ground arith) (ground arith) (ground arith) (ground arith) (ground arith) (ground arith)
        (ground arith)

  set_coolant-AtDoor :
      (m₀ m : Machine)
      → AtDoor m₀ m
      → let n = coolant_set_state (bit_and condition coolant_flood_enable) m in
        AtDoor m₀ n
        × SameSpindle n.pins m.pins
        × (n.pins.coolant_flood ≡ bit_istrue condition coolant_flood_enable)
  unfolding coolant_set_state coolant_stop
  set_coolant-AtDoor m₀ m d =
      let running = d.no_abort in
      let mode = bit_and condition coolant_flood_enable in
      let twice : bit_and mode coolant_flood_enable ≡ mode =
        bit_and_assoc condition coolant_flood_enable coolant_flood_enable in
      (
        AtDoor-keep m₀ m (coolant_set_state mode m) d (ground arith) (ground arith) (ground arith)
            (ground arith) (ground arith) (ground arith) (ground arith) (ground arith),
        record { direction = ground arith; pwm = ground arith; level = ground arith },
        ground (arith, running, twice),
      )

  no_restart :
      (m₀ m : Machine) → AtDoor m₀ m → bit_isfalse m.sys.suspend suspend_restart_retract ≡ true
  no_restart m₀ m d = ap (λ s. bit_isfalse s suspend_restart_retract) d.suspend

  -- `restore_spindle` with and without a wait.
  restore_spindle-waits :
      (turns : List Turn) (m : Machine)
      → bit_isfalse m.sys.suspend suspend_restart_retract ≡ true
      → spins m ≡ true
      → lasers m ≡ false
      → restore_spindle speeds condition speed turns m
        ≡ delay_sec spindle_delay_steps turns (set_restored_spindle speeds condition speed m)
  unfolding restore_spindle
  restore_spindle-waits turns m r e f = simp (r, e, f)

  restore_spindle-goes_on :
      (turns : List Turn) (m : Machine)
      → (spins m && not (lasers m)) ≡ false
      → AtDoor m m
      → (n : Machine) × (restore_spindle speeds condition speed turns m ≡ some (turns, n))
        × AtDoor m n
  unfolding restore_spindle update_pwm
  restore_spindle-goes_on turns m e d = elim (Bool-cases (spins m)) [
    | inl f ↦ (
      update_pwm m,
      simp (no_restart m m d, f, laser f),
      AtDoor-keep m m (update_pwm m) d refl refl refl refl refl refl refl refl,
    )
    | inr f ↦ (m, simp f, d)
  ]
    where
      laser : spins m ≡ true → lasers m ≡ true
      laser f = ground (arith, e, f)

  pub restore_spindle-AtDoor :
      (rest : List Turn) (m : Machine)
      → AtDoor m m
      → (n : Machine) × (restore_spindle speeds condition speed
            (replicate (spindle_turns m) calm ++ rest)
            m
          ≡ some (rest, n))
        × AtDoor m n
        × (spins m ≡ true → lasers m ≡ false → IsSpinning m n.pins)
  restore_spindle-AtDoor rest m d = elim (Bool-cases (spins m && not (lasers m))) [
    | inl e ↦
        let spun = set_restored_spindle speeds condition speed m in
        let (n, f, g, h) =
          delay_sec-AtDoor spindle_delay_steps rest m spun (set_spindle-AtDoor m m d) in
        let tests : (spins m ≡ true) × (lasers m ≡ false) = ground (arith, e) in
        (
          n,
          ap
                (λ b.
                  restore_spindle speeds condition speed
                    (replicate (if b then spindle_delay_steps else 0) calm ++ rest) m)
                e
              ∙ restore_spindle-waits (replicate spindle_delay_steps calm ++ rest) m
                  (no_restart m m d) tests.0 tests.1
              ∙ f,
          g,
          λ a b. subst (IsSpinning m) (sym h) (restored-IsSpinning m d.no_abort tests.1),
        )
    | inr e ↦
        let (n, f, g) = restore_spindle-goes_on rest m e d in
        (
          n,
          ap
                (λ b.
                  restore_spindle speeds condition speed
                    (replicate (if b then spindle_delay_steps else 0) calm ++ rest) m)
                e
              ∙ f,
          g,
          λ a b. absurd (ground (arith, a, b, e)),
        )
  ]

  pub restore_coolant-AtDoor :
      (rest : List Turn) (m₀ m : Machine)
      → AtDoor m₀ m
      → (n : Machine) × (restore_coolant speeds condition speed
            (replicate (coolant_turns m₀) calm ++ rest)
            m
          ≡ some (rest, n))
        × AtDoor m₀ n
        × SameSpindle n.pins m.pins
        × (cools m₀ ≡ true → n.pins.coolant_flood ≡ bit_istrue condition coolant_flood_enable)
  unfolding restore_coolant
  restore_coolant-AtDoor rest m₀ m d = elim (Bool-cases (cools m₀)) [
    | inl e ↦
        let cooled = coolant_set_state (bit_and condition coolant_flood_enable) m in
        let (door, same, flood) = set_coolant-AtDoor m₀ m d in
        let (n, f, g, h) = delay_sec-AtDoor coolant_delay_steps rest m₀ cooled door in
        let now : cools m ≡ true = ap (λ c. not (c == coolant_disable)) d.same_coolant ∙ e in
        (
          n,
          simp (e, now, no_restart m₀ m d, f),
          g,
          subst (λ p. SameSpindle p m.pins) (sym h) same,
          λ a. ap (λ (p : Pins). p.coolant_flood) h ∙ flood,
        )
    | inr e ↦
        let now : cools m ≡ false = ap (λ c. not (c == coolant_disable)) d.same_coolant ∙ e in
        (
          m,
          simp (e, now),
          d,
          record { direction = refl; pwm = refl; level = refl },
          λ a. absurd (ground (arith, a, e)),
        )
  ]
