-- ===== src/Motion/Synchronize.antt =====
-- The wait of grbl/protocol.c for the end of all motion, before the spindle is set and before a dwell of
-- grbl/motion_control.c.
use tele_handwriter.Base.{
  ℕ, zero, suc, ◌+◌, length, ◌≡◌, ◌⊎◌, inl, inr, true, false, some, List, [], ◌∷◌, ◌==◌, arith,
  Option-cases,
}
use tele_handwriter.System.{state_cycle, state_check_mode}
use tele_handwriter.Spindle.{Speeds, spindle_set_state}
use tele_handwriter.Motion.{
  Moment, Station, has_current, checkpoint, await_end, protocol_buffer_synchronize,
  protocol_auto_cycle_start, spindle_sync, dwell_sec, mc_dwell,
}

-- The planner holds no block and no cycle runs, or the program is aborted.
abbrev pub IsStill : Station → Type 0
IsStill t =
    (t.machine.sys.abort ≡ true)
    ⊎ ((has_current t.planner ≡ false) × ((t.machine.sys.state == state_cycle) ≡ false))

module _ {ℓ} {W : Type ℓ} (speeds : Speeds W) (spindle_speed : W) where
  await_end-IsStill :
      (moments left : List (Moment W)) (s t : Station)
      → await_end speeds spindle_speed moments s ≡ some (left, t)
      → IsStill t
  unfolding await_end
  await_end-IsStill [] left s t e = cc
  await_end-IsStill (moment ∷ moments) left s t e =
      elim (Option-cases (checkpoint speeds spindle_speed moment s)) [
        | inl nothing ↦ cc
        | inr (u, returns) ↦
            let later = await_end-IsStill moments left u t in ground (arith, e, returns, later)
      ]

  -- Outside the check mode the spindle is set only after the planner has run empty and the cycle is
  -- over, or the program was aborted, which spindle_set_state then finds.
  pub spindle_sync-IsStill :
      (state : ℕ) (rpm : W) (moments left : List (Moment W)) (s v : Station)
      → (s.machine.sys.state == state_check_mode) ≡ false
      → spindle_sync speeds spindle_speed state rpm moments s ≡ some (left, v)
      → (t : Station) × IsStill t
        × (v ≡ record t { machine = spindle_set_state speeds state rpm t.machine })
  unfolding spindle_sync protocol_buffer_synchronize
  spindle_sync-IsStill state rpm moments left s v mode e =
      let started = protocol_auto_cycle_start s in
      elim (Option-cases (await_end speeds spindle_speed moments started)) [
        | inl nothing ↦ absurd (ground (arith, e, mode, nothing))
        | inr ((rest, t), ends) ↦
            (t, await_end-IsStill moments rest started t ends, ground (arith, e, mode, ends))
      ]

  dwell_sec-length :
      (steps : ℕ) (moments left : List (Moment W)) (s t : Station)
      → dwell_sec speeds spindle_speed steps moments s ≡ some (left, t)
      → (t.machine.sys.abort ≡ true) ⊎ (length moments ≡ steps + length left)
  unfolding dwell_sec
  dwell_sec-length zero moments left s t e = ground (arith, e)
  dwell_sec-length (suc steps) [] left s t e = ground (arith, e)
  dwell_sec-length (suc steps) (moment ∷ moments) left s t e =
      elim (Option-cases (checkpoint speeds spindle_speed moment s)) [
        | inl nothing ↦ ground (arith, e, nothing)
        | inr (u, returns) ↦
            let later = dwell_sec-length steps moments left u t in ground (arith, e, returns, later)
      ]

  -- Outside the check mode a dwell starts when all motion has ended, and then lasts as many steps as
  -- it was given, each with a call of protocol_execute_realtime, unless the program is aborted.
  pub mc_dwell-lasts :
      (steps : ℕ) (moments left : List (Moment W)) (s v : Station)
      → (s.machine.sys.state == state_check_mode) ≡ false
      → mc_dwell speeds spindle_speed steps moments s ≡ some (left, v)
      → (rest : List (Moment W)) × (t : Station) × (protocol_buffer_synchronize speeds spindle_speed
            moments s
          ≡ some (rest, t))
        × IsStill t
        × ((v.machine.sys.abort ≡ true) ⊎ (length rest ≡ steps + length left))
  unfolding mc_dwell protocol_buffer_synchronize
  mc_dwell-lasts steps moments left s v mode e =
      let started = protocol_auto_cycle_start s in
      elim (Option-cases (await_end speeds spindle_speed moments started)) [
        | inl nothing ↦ absurd (ground (arith, e, mode, nothing))
        | inr ((rest, t), ends) ↦ (
          rest,
          t,
          ends,
          await_end-IsStill moments rest started t ends,
          dwell_sec-length steps rest left t v (ground (arith, e, mode, ends)),
        )
      ]
