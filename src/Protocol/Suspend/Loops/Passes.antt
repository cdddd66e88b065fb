-- ===== src/Protocol/Suspend/Loops/Passes.antt =====
-- The loop of `protocol_exec_rt_suspend` in grbl/protocol.c: how often it runs.
use tele_handwriter.Base.{
  ℕ, zero, suc, ◌≤◌, ◌<◌, ◌≡◌, refl, sym, ap, ◌∙◌, ◌||◌, Option, none, some, List, [], ◌∷◌, ◌==◌,
  if◌then◌else◌, if_ind, length, arith, bit_and, bit_or,
}
use tele_handwriter.Base.Bits.{bit_istrue}
use tele_handwriter.System.{Machine, suspend_restart_retract}
use tele_handwriter.Spindle.{Speeds}
use tele_handwriter.Protocol.Overrides.{coolant_set_state, coolant_flood_enable}
use tele_handwriter.Protocol.Suspend.{
  Turn, Stop, after, exec_turn, delay_sec, set_restored_spindle, restore_spindle, restore_coolant,
  restore, complete_restore, check_door, sleep_loop, enter_sleep, stop_laser,
}
use tele_handwriter.Protocol.Suspend.Loops.{
  Block, restore_point, is_asleep, suspend_pass, suspend_loop, next_pass, protocol_exec_rt_suspend,
}

-- At most `k` turns are left.
abbrev Leaves : ℕ → Stop → Type 0
Leaves k none = Unit
Leaves k (some (left, m)) = length left ≤ k

Leaves-weaken : (k l : ℕ) (o : Stop) → Leaves k o → k ≤ l → Leaves l o
Leaves-weaken k l none h i = tt
Leaves-weaken k l (some (left, m)) h i = omega (arith, h, i)

after-Leaves :
    (k : ℕ) (o : Stop) (next : List Turn → Machine → Stop)
    → Leaves k o
    → ((left : List Turn) (m : Machine) → Leaves (length left) (next left m))
    → Leaves k (after o next)
after-Leaves k none next h i = tt
after-Leaves k (some (left, m)) next h i = Leaves-weaken (length left) k (next left m) (i left m) h

delay_sec-Leaves :
    (i : ℕ) (turns : List Turn) (m : Machine) → Leaves (length turns) (delay_sec i turns m)
unfolding delay_sec
delay_sec-Leaves zero turns m = omega arith
delay_sec-Leaves (suc i) [] m =
    if_ind (Leaves 0) m.sys.abort (some ([], m)) none (λ aborted. omega arith) (λ runs. tt)
delay_sec-Leaves (suc i) (turn ∷ turns) m =
    if_ind (Leaves (length (turn ∷ turns))) m.sys.abort (some (turn ∷ turns, m)) _
      (λ aborted. omega arith) (λ runs. turned (λ n. delay_sec-Leaves i turns n) (exec_turn turn m))
  where
    turned :
        (again : (n : Machine) → Leaves (length turns) (delay_sec i turns n)) (o : Option Machine)
        → Leaves (length (turn ∷ turns)) (elim o as (λ o. Stop) [
          | none ↦ none
          | some n ↦
              if bit_istrue n.sys.suspend suspend_restart_retract
              then some (turns, n)
              else delay_sec i turns n
        ])
    turned again none = tt
    turned again (some n) =
        if_ind (Leaves (length (turn ∷ turns))) (bit_istrue n.sys.suspend suspend_restart_retract)
          (some (turns, n)) (delay_sec i turns n) (λ restarted. omega arith)
          (λ goes.
            Leaves-weaken (length turns) (length (turn ∷ turns)) (delay_sec i turns n) (again n)
              (omega arith))

after-same :
    (k : ℕ) (o : Stop) (f g : List Turn → Machine → Stop)
    → Leaves k o
    → ((left : List Turn) (n : Machine) → length left ≤ k → f left n ≡ g left n)
    → after o f ≡ after o g
after-same k none f g h i = refl
after-same k (some (left, n)) f g h i = i left n h

module _ {ℓ} {W : Type ℓ} (speeds : Speeds W) (condition : ℕ) (speed : W) where
  restore_spindle-Leaves :
      (turns : List Turn) (m : Machine)
      → Leaves (length turns) (restore_spindle speeds condition speed turns m)
  unfolding restore_spindle
  restore_spindle-Leaves turns m =
      let spun = delay_sec-Leaves 80 turns (set_restored_spindle speeds condition speed m) in
      ground (arith, spun)

  restore_coolant-Leaves :
      (turns : List Turn) (m : Machine)
      → Leaves (length turns) (restore_coolant speeds condition speed turns m)
  unfolding restore_coolant
  restore_coolant-Leaves turns m =
      let flood = bit_and condition (bit_or coolant_flood_enable coolant_flood_enable) in
      let cooled = delay_sec-Leaves 20 turns (coolant_set_state flood m) in ground (arith, cooled)

  restore-Leaves :
      (turns : List Turn) (m : Machine)
      → Leaves (length turns) (restore speeds condition speed turns m)
  unfolding restore
  restore-Leaves turns m =
      let k = length turns in
      let spun = restore_spindle speeds condition speed turns m in
      let restored =
        after-Leaves k (after spun (restore_coolant speeds condition speed))
          (λ left n. some (left, complete_restore n))
          (after-Leaves k spun (restore_coolant speeds condition speed)
            (restore_spindle-Leaves turns m) restore_coolant-Leaves)
          (λ left n. omega arith) in
      ground (arith, restored)

  suspend_pass-Leaves :
      (turns : List Turn) (m : Machine)
      → Leaves (length turns) (suspend_pass speeds condition speed turns m)
  unfolding suspend_pass
  suspend_pass-Leaves turns m =
      let restored = restore-Leaves turns (check_door m) in ground (arith, restored)

  abbrev round : (next : List Turn → Machine → Stop) → List Turn → Machine → Stop
  round next turns m =
      if m.sys.suspend == 0 || m.sys.abort
      then some (turns, m)
      else if is_asleep m
      then sleep_loop turns (enter_sleep speeds condition speed m)
      else after (suspend_pass speeds condition speed turns m) next

  suspend_loop-round :
      (passes : ℕ) (turns : List Turn) (m : Machine)
      → suspend_loop speeds (suc passes) condition speed turns m
        ≡ round (next_pass speeds condition speed passes) turns m
  unfolding suspend_loop
  suspend_loop-round passes turns m = refl

  module _ (passes other : ℕ) where
    abbrev Same : List Turn → Machine → Type 0
    Same turns m =
        suspend_loop speeds passes condition speed turns m
        ≡ suspend_loop speeds other condition speed turns m

    next_pass-turn :
        (rest : List Turn) (o : Option Machine)
        → ((n : Machine) → Same rest n)
        → (elim o as (λ o. Stop) [
          | none ↦ none
          | some n ↦ suspend_loop speeds passes condition speed rest n
        ])
          ≡ (elim o as (λ o. Stop) [
            | none ↦ none
            | some n ↦ suspend_loop speeds other condition speed rest n
          ])
    next_pass-turn rest none h = refl
    next_pass-turn rest (some n) h = h n

    next_pass-Same :
        (k : ℕ) (left : List Turn) (m : Machine)
        → length left ≤ k
        → ((rest : List Turn) (n : Machine) → length rest < k → Same rest n)
        → next_pass speeds condition speed passes left m
          ≡ next_pass speeds condition speed other left m
    next_pass-Same k [] m h i = refl
    next_pass-Same k (turn ∷ rest) m h i =
        next_pass-turn rest (exec_turn turn m) (λ n. i rest n (omega (arith, h)))

  suspend_loop-enough :
      (passes other : ℕ) (turns : List Turn) (m : Machine)
      → length turns < passes
      → length turns < other
      → Same passes other turns m
  suspend_loop-enough zero other turns m h i = absurd (omega (arith, h))
  suspend_loop-enough (suc passes) zero turns m h i = absurd (omega (arith, i))
  suspend_loop-enough (suc passes) (suc other) turns m h i =
      let next = next_pass speeds condition speed passes in
      let later = next_pass speeds condition speed other in
      let same : after (suspend_pass speeds condition speed turns m) next
          ≡ after (suspend_pass speeds condition speed turns m) later =
        after-same (length turns) (suspend_pass speeds condition speed turns m) next later
          (suspend_pass-Leaves turns m)
          (λ left n short.
            next_pass-Same passes other (length turns) left n short (λ rest o shorter.
              suspend_loop-enough passes other rest o (omega (arith, h, shorter))
                (omega (arith, i, shorter)))) in
      suspend_loop-round passes turns m
      ∙ ap
          (λ (o : Stop).
            if m.sys.suspend == 0 || m.sys.abort
            then some (turns, m)
            else if is_asleep m
            then sleep_loop turns (enter_sleep speeds condition speed m)
            else o)
          same
      ∙ sym (suspend_loop-round other turns m)

-- Counting the passes of the suspend loop leaves nothing out: with any number of passes above the
-- number of turns it has the same outcome, whatever the machine and the interrupts do.
pub protocol_exec_rt_suspend-enough {ℓ} :
    {W : Type ℓ} (speeds : Speeds W) (block : Block W) (spindle_speed : W) (passes : ℕ)
    (turns : List Turn) (m : Machine)
    → length turns < passes
    → let point = restore_point block spindle_speed m in
      suspend_loop speeds passes point.0 point.1 turns (stop_laser m)
      ≡ protocol_exec_rt_suspend speeds block spindle_speed turns m
unfolding protocol_exec_rt_suspend
protocol_exec_rt_suspend-enough speeds block spindle_speed passes turns m h =
    let point = restore_point block spindle_speed m in
    suspend_loop-enough speeds point.0 point.1 passes (suc (length turns)) turns (stop_laser m) h
      (omega arith)
