-- ===== src/Protocol/Suspend/Loops/Sleep.antt =====
-- The sleep mode of `protocol_exec_rt_suspend` in grbl/protocol.c.
use tele_handwriter.Base.{
  ℕ, suc, ◌≡◌, ap, sym, refl, ◌∙◌, true, false, ◌==◌, ◌||◌, arith, List, [], ◌∷◌, ◌++◌, Option,
  none, some, All,
}
use tele_handwriter.Base.Bits.{bit_istrue}
use tele_handwriter.System.{Machine, with_sys, exec_reset}
use tele_handwriter.System.Reset.{st_go_idle, coolant_stop}
use tele_handwriter.Spindle.{Speeds, spindle_set_state}
use tele_handwriter.Protocol.Overrides.{coolant_set_state}
use tele_handwriter.Protocol.Realtime.Frame.{GoesOn, exec_rt_system-GoesOn, exec_rt_system-reset}
use tele_handwriter.Protocol.Suspend.{Turn, Stop, exec_turn, sleep_loop, enter_sleep, de_energize}
use tele_handwriter.Protocol.Suspend.Loops.{is_asleep, suspend_loop}

-- The interrupts of a turn raise neither an alarm nor a reset.
abbrev pub IsPeaceful : Turn → Type 0
IsPeaceful turn = (m : Machine) → GoesOn m → GoesOn (turn.interrupts m)

-- The interrupts of a turn ask for a reset.
abbrev pub Resets : Turn → Type 0
Resets turn =
    (m : Machine)
    → GoesOn m
    → ((turn.interrupts m).exec.alarm ≡ 0)
      × (bit_istrue (turn.interrupts m).exec.state exec_reset ≡ true)

abbrev continue_sleep : List Turn → Option Machine → Stop
continue_sleep turns o = elim o [ none ↦ none | some n ↦ sleep_loop turns n ]

sleep_loop-abort :
    (turns : List Turn) (m : Machine) → m.sys.abort ≡ true → sleep_loop turns m ≡ some (turns, m)
unfolding sleep_loop
sleep_loop-abort [] m a = simp a
sleep_loop-abort (turn ∷ turns) m a = simp a

sleep_loop-turn :
    (turn : Turn) (turns : List Turn) (m : Machine)
    → m.sys.abort ≡ false
    → sleep_loop (turn ∷ turns) m ≡ continue_sleep turns (exec_turn turn m)
unfolding sleep_loop
sleep_loop-turn turn turns m a = simp a

sleep_loop-peaceful :
    (before rest : List Turn) (m : Machine)
    → All IsPeaceful before
    → GoesOn m
    → (n : Machine) × GoesOn n × (sleep_loop (before ++ rest) m ≡ sleep_loop rest n)
sleep_loop-peaceful [] rest m p g = (m, g, refl)
sleep_loop-peaceful (turn ∷ before) rest m (p, ps) g =
    let (n, e, h) = exec_rt_system-GoesOn turn.has_block turn.polls (turn.interrupts m) (p m g) in
    let (k, i, f) = sleep_loop-peaceful before rest n ps h in
    (
      k,
      i,
      sleep_loop-turn turn (before ++ rest) m g.no_abort
          ∙ ap (continue_sleep (before ++ rest)) e
          ∙ f,
    )

sleep_loop-none : (m : Machine) → m.sys.abort ≡ false → sleep_loop [] m ≡ none
unfolding sleep_loop
sleep_loop-none m a = simp a

append_nothing : (turns : List Turn) → turns ++ [] ≡ turns
append_nothing [] = refl
append_nothing (turn ∷ turns) = ap (λ l. turn ∷ l) (append_nothing turns)

sleep_loop-reset :
    (turn : Turn) (rest : List Turn) (m : Machine)
    → GoesOn m
    → Resets turn
    → (n : Machine) × (n.sys.abort ≡ true) × (sleep_loop (turn ∷ rest) m ≡ some (rest, n))
sleep_loop-reset turn rest m g r =
    let woken = turn.interrupts m in
    let aborted = with_sys (λ s. record s { abort = true }) woken in
    let e = exec_rt_system-reset turn.has_block turn.polls woken (r m g).0 (r m g).1 in
    (
      aborted,
      refl,
      sleep_loop-turn turn rest m g.no_abort
          ∙ ap (continue_sleep rest) e
          ∙ sleep_loop-abort rest aborted refl,
    )

module _ {ℓ} {W : Type ℓ} (speeds : Speeds W) (condition : ℕ) (speed : W) where
  enter_sleep-GoesOn : (m : Machine) → GoesOn m → GoesOn (enter_sleep speeds condition speed m)
  unfolding enter_sleep de_energize spindle_set_state coolant_set_state st_go_idle coolant_stop
  enter_sleep-GoesOn m g = record {
    no_abort = ground (arith, g.no_abort);
    no_alarm = ground (arith, g.no_alarm);
    no_reset = ground (arith, g.no_reset);
  }

  suspend_loop-asleep :
      (turns : List Turn) (passes : ℕ) (m : Machine)
      → m.sys.abort ≡ false
      → is_asleep m ≡ true
      → suspend_loop speeds (suc passes) condition speed turns m
        ≡ sleep_loop turns (enter_sleep speeds condition speed m)
  unfolding suspend_loop
  suspend_loop-asleep turns passes m a s =
      let running : (m.sys.suspend == 0 || m.sys.abort) ≡ false = ground (arith, a, s) in
      simp (running, s)

  -- A machine put to sleep, with its retract complete, stays in the loop through every turn that
  -- raises neither an alarm nor a reset; the first reset ends the loop, with the program aborted.
  pub sleep_awaits_reset :
      (before rest : List Turn) (turn : Turn) (passes : ℕ) (m : Machine)
      → GoesOn m
      → is_asleep m ≡ true
      → All IsPeaceful before
      → Resets turn
      → (suspend_loop speeds (suc passes) condition speed before m ≡ none)
        × ((n : Machine) × (n.sys.abort ≡ true)
            × (suspend_loop speeds (suc passes) condition speed (before ++ turn ∷ rest) m
                ≡ some (rest, n)))
  sleep_awaits_reset before rest turn passes m g s p r =
      let entered = enter_sleep speeds condition speed m in
      let h = enter_sleep-GoesOn m g in
      let (k, i, e) = sleep_loop-peaceful before [] entered p h in
      let (l, j, f) = sleep_loop-peaceful before (turn ∷ rest) entered p h in
      let (n, a, d) = sleep_loop-reset turn rest l j r in
      (
        suspend_loop-asleep before passes m g.no_abort s
            ∙ ap (λ turns. sleep_loop turns entered) (sym (append_nothing before))
            ∙ e
            ∙ sleep_loop-none k i.no_abort,
        (n, a, suspend_loop-asleep (before ++ turn ∷ rest) passes m g.no_abort s ∙ f ∙ d),
      )
