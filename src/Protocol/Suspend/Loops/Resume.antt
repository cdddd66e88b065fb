-- ===== src/Protocol/Suspend/Loops/Resume.antt =====
-- From the closed door back to the cycle, in `protocol_exec_rt_suspend` of grbl/protocol.c, and the
-- retract before.
use tele_handwriter.Base.{
  ℕ, suc, ◌≡◌, ap, refl, sym, subst, ◌∙◌, true, false, ◌==◌, ◌||◌, ◌&&◌, arith, List, [], ◌∷◌, ◌++◌,
  none, some, replicate, bit_and, if_ind,
}
use tele_handwriter.Base.Bits.{bit_istrue, bit_not8}
use tele_handwriter.System.{
  Machine, Pins, with_sys, suspend_safety_door_ajar, exec_cycle_start, state_cycle,
  state_safety_door,
}
use tele_handwriter.Spindle.{Speeds}
use tele_handwriter.Protocol.Overrides.{coolant_flood_enable}
use tele_handwriter.Protocol.Realtime.{refill, exec_start}
use tele_handwriter.Protocol.Realtime.Calm.{
  IsStarting, restored_door, exec_start-door, exec_rt_system-starts,
}
use tele_handwriter.Protocol.Suspend.{
  Turn, after, check_door, system_check_safety_door_ajar, complete_restore, set_cycle_start,
  restore_spindle, restore_coolant, restore,
}
use tele_handwriter.Protocol.Suspend.Loops.{
  next_pass, suspend_loop-pass, suspend_loop-ends, is_asleep, suspend_pass, suspend_loop,
}
use tele_handwriter.Protocol.Suspend.Loops.Door.{calm, AtDoor, closed_door}
use tele_handwriter.Protocol.Suspend.Loops.Restore.{
  spins, lasers, cools, spindle_turns, coolant_turns, IsSpinning, IsSpinning-same,
  restore_spindle-AtDoor, restore_coolant-AtDoor,
}

-- At the closed door the check of the door changes nothing that is seen.
check_door-AtDoor : (m : Machine) → m.sys.suspend ≡ closed_door → check_door m ≡ m
unfolding check_door system_check_safety_door_ajar
check_door-AtDoor m e =
    let kept : bit_and m.sys.suspend (bit_not8 suspend_safety_door_ajar) ≡ m.sys.suspend =
      ap (λ s. bit_and s (bit_not8 suspend_safety_door_ajar)) e ∙ sym e in
    if_ind (λ n. n ≡ m) (m.sys.state == state_safety_door && true)
      (with_sys (λ s. record s { suspend = bit_and s.suspend (bit_not8 suspend_safety_door_ajar) })
        m)
      m (λ yes. ap (λ x. with_sys (λ s. record s { suspend = x }) m) kept) (λ no. refl)

complete_restore-IsStarting :
    (m₀ m : Machine)
    → AtDoor m₀ m
    → IsStarting (complete_restore m)
      × ((complete_restore m).sys.state ≡ state_safety_door)
      × ((complete_restore m).sys.suspend ≡ restored_door)
      × ((complete_restore m).sys.abort ≡ false)
      × ((complete_restore m).pins ≡ m.pins)
unfolding complete_restore set_cycle_start
complete_restore-IsStarting m₀ m d =
    let q = d.quiet in
    let e = d.suspend in
    (
      record {
        flags = ground (arith, q.no_flags, e);
        no_alarm = ground (arith, q.no_alarm, e);
        no_motion = ground (arith, q.no_motion, e);
        no_accessory = ground (arith, q.no_accessory, e);
      },
      ground (arith, d.state, e),
      ground (arith, e),
      ground (arith, d.no_abort, e),
      ground (arith, e),
    )

module _ {ℓ} {W : Type ℓ} (speeds : Speeds W) (condition : ℕ) (speed : W) where
  suspend_pass-restores :
      (turns : List Turn) (m : Machine)
      → AtDoor m m
      → suspend_pass speeds condition speed turns m
        ≡ after
            (after
              (restore_spindle speeds condition speed turns m)
              (restore_coolant speeds condition speed))
            (λ left n. some (left, complete_restore n))
  unfolding suspend_pass restore
  suspend_pass-restores turns m d = simp (d.suspend, d.state, check_door-AtDoor m d.suspend)

  -- The machine has resumed: a cycle runs, nothing is suspended, the spindle turns as the block asks
  -- if it was on and is no laser, and the flood coolant is as the block asks if coolant was on.
  pub record HasResumed (m n : Machine) : Type 0 where
    pub in_cycle : n.sys.state ≡ state_cycle
    pub not_suspended : n.sys.suspend ≡ 0
    pub spindle_on :
        spins speeds condition speed m ≡ true
        → lasers speeds condition speed m ≡ false
        → IsSpinning speeds condition speed m n.pins
    pub coolant_on :
        cools speeds condition speed m ≡ true
        → n.pins.coolant_flood ≡ bit_istrue condition coolant_flood_enable

  abbrev pub resume_turns : Machine → List Turn
  resume_turns m =
      replicate (spindle_turns speeds condition speed m) calm
      ++ (replicate (coolant_turns speeds condition speed m) calm ++ calm ∷ [])

  suspend_pass-AtDoor :
      (m : Machine)
      → AtDoor m m
      → (n : Machine) × (suspend_pass speeds condition speed (resume_turns m) m
          ≡ some (calm ∷ [], complete_restore n))
        × AtDoor m n
        × (spins speeds condition speed m ≡ true
            → lasers speeds condition speed m ≡ false
            → IsSpinning speeds condition speed m n.pins)
        × (cools speeds condition speed m ≡ true
            → n.pins.coolant_flood ≡ bit_istrue condition coolant_flood_enable)
  suspend_pass-AtDoor m d =
      let cooling = replicate (coolant_turns speeds condition speed m) calm ++ calm ∷ [] in
      let (a, e, f, g) = restore_spindle-AtDoor speeds condition speed cooling m d in
      let (b, h, i, j, k) = restore_coolant-AtDoor speeds condition speed (calm ∷ []) m a f in
      (
        b,
        suspend_pass-restores (resume_turns m) m d
            ∙ ap
                (λ o.
                  after (after o (restore_coolant speeds condition speed))
                    (λ left n. some (left, complete_restore n)))
                e
            ∙ ap (λ o. after o (λ left n. some (left, complete_restore n))) h,
        i,
        λ x y. IsSpinning-same speeds condition speed m b.pins a.pins j (g x y),
        k,
      )

  -- A machine that waits at the closed door and is asked to resume does so, in turns without
  -- interrupts and with a block to run: after the delays for the spindle and the coolant that it had
  -- on, and one more turn, the loop returns with the cycle entered and nothing suspended. A spindle that
  -- was on, and is no laser, turns as the block's condition and the scaled speed ask, in the direction
  -- of its clockwise or counterclockwise bit and with the PWM value of the speed; the flood coolant, if
  -- coolant was on, is on exactly when the condition asks for it.
  pub door_resumes :
      (passes : ℕ) (m : Machine)
      → AtDoor m m
      → (n : Machine) × (suspend_loop speeds (suc (suc passes)) condition speed (resume_turns m) m
          ≡ some ([], n))
        × HasResumed m n
  door_resumes passes m d =
      let (n, e, f, g, h) = suspend_pass-AtDoor m d in
      let (starting, door, restored, running, same) = complete_restore-IsStarting m n f in
      let ready = complete_restore n in
      let resumed = exec_start-door ready starting door restored in
      let final = refill (exec_start true exec_cycle_start ready) in
      let begins : (m.sys.suspend == 0 || m.sys.abort) ≡ false =
        ground (arith, d.suspend, d.no_abort) in
      let awake : is_asleep m ≡ false = ground (arith, d.state) in
      (
        final,
        suspend_loop-pass speeds condition speed (suc passes) (resume_turns m) m begins awake
            ∙ ap (λ o. after o (next_pass speeds condition speed (suc passes))) e
            ∙ ap
                (λ o. elim o [
                  | none ↦ none
                  | some next ↦ suspend_loop speeds (suc passes) condition speed [] next
                ])
                (exec_rt_system-starts [] ready starting)
            ∙ suspend_loop-ends speeds condition speed passes [] final resumed.not_suspended,
        record {
          in_cycle = resumed.in_cycle;
          not_suspended = resumed.not_suspended;
          spindle_on = λ a b.
              subst (IsSpinning speeds condition speed m) (sym (resumed.same_pins ∙ same)) (g a b);
          coolant_on = λ a. ap (λ (p : Pins). p.coolant_flood) (resumed.same_pins ∙ same) ∙ h a;
        },
      )
