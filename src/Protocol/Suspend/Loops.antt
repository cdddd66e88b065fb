-- ===== src/Protocol/Suspend/Loops.antt =====
-- The loop of `protocol_exec_rt_suspend` in grbl/protocol.c, and `protocol_execute_realtime`.
pub mod Sleep
pub mod Door
pub mod Retract
pub mod Restore
pub mod Resume
pub mod Hold
pub mod Passes
use tele_handwriter.Base.{
  ℕ, zero, suc, ◌≡◌, ap, ◌∙◌, Bool, true, false, ◌&&◌, ◌||◌, Option, none, some, List, [], ◌∷◌,
  ◌==◌, if◌then◌else◌, length, arith, bit_or,
}
use tele_handwriter.Base.Bits.{bit_istrue, bit_isfalse}
use tele_handwriter.System.{
  Machine, state_safety_door, state_sleep, suspend_hold_complete, suspend_retract_complete,
}
use tele_handwriter.Spindle.{Speeds}
use tele_handwriter.Protocol.Suspend.{
  Turn, Stop, after, exec_turn, sleep_loop, stop_laser, check_door, retract, enter_sleep, restore,
  hold_manager,
}

-- The hold is complete in the door or the sleep state: the parking manager is at work.
abbrev pub is_parking : Machine → Bool
is_parking m =
    bit_istrue m.sys.suspend suspend_hold_complete
    && bit_istrue m.sys.state (bit_or state_safety_door state_sleep)

abbrev pub is_asleep : Machine → Bool
is_asleep m =
    is_parking m && bit_istrue m.sys.suspend suspend_retract_complete && m.sys.state == state_sleep

-- The block that runs, by its condition and spindle speed.
abbrev pub Block {ℓ} : Type ℓ → Type ℓ
Block W = Option (ℕ × W)

-- Lines 526 to 532. `spindle_speed` is gc_state.spindle_speed.
abbrev pub restore_point {ℓ} : {W : Type ℓ} → Block W → W → Machine → ℕ × W
restore_point none spindle_speed m = (bit_or m.modal_spindle m.modal_coolant, spindle_speed)
restore_point (some (condition, speed)) spindle_speed m = (condition, speed)

module _ {ℓ} {W : Type ℓ} (speeds : Speeds W) where
  -- Lines 548 to 757, but for a machine asleep.
  pub suspend_pass : ℕ → W → List Turn → Machine → Stop
  suspend_pass condition speed turns m =
      if is_parking m
      then (if bit_isfalse m.sys.suspend suspend_retract_complete
          then some (turns, retract speeds condition speed m)
          else restore speeds condition speed turns (check_door m))
      else if bit_istrue m.sys.suspend suspend_hold_complete
      then some (turns, hold_manager speeds condition speed m)
      else some (turns, m)

  -- Lines 543 to 761. Every pass takes a turn at its end, so that as many passes as turns, and one
  -- more, are enough.
  pub suspend_loop : ℕ → ℕ → W → List Turn → Machine → Stop
  suspend_loop zero condition speed turns m = none
  suspend_loop (suc passes) condition speed turns m =
      if m.sys.suspend == 0 || m.sys.abort
      then some (turns, m)
      else if is_asleep m
      then sleep_loop turns (enter_sleep speeds condition speed m)
      else after (suspend_pass condition speed turns m) λ left n. elim left [
        | [] ↦ none
        | turn ∷ rest ↦ elim (exec_turn turn n) [
          | none ↦ none
          | some next ↦ suspend_loop passes condition speed rest next
        ]
      ]

  -- The end of a pass: a call of protocol_exec_rt_system, and the next pass.
  abbrev pub next_pass : ℕ → W → ℕ → List Turn → Machine → Stop
  next_pass condition speed passes left n = elim left [
    | [] ↦ none
    | turn ∷ rest ↦ elim (exec_turn turn n) [
      | none ↦ none
      | some next ↦ suspend_loop passes condition speed rest next
    ]
  ]

  -- One pass of the loop for a machine that is not asleep.
  pub suspend_loop-pass :
      (condition : ℕ) (speed : W) (passes : ℕ) (turns : List Turn) (m : Machine)
      → (m.sys.suspend == 0 || m.sys.abort) ≡ false
      → is_asleep m ≡ false
      → suspend_loop (suc passes) condition speed turns m
        ≡ after (suspend_pass condition speed turns m) (next_pass condition speed passes)
  unfolding suspend_loop
  suspend_loop-pass condition speed passes turns m e f = simp (e, f)

  pub suspend_loop-ends :
      (condition : ℕ) (speed : W) (passes : ℕ) (turns : List Turn) (m : Machine)
      → m.sys.suspend ≡ 0
      → suspend_loop (suc passes) condition speed turns m ≡ some (turns, m)
  unfolding suspend_loop
  suspend_loop-ends condition speed passes turns m e = simp e

  pub protocol_exec_rt_suspend : Block W → W → List Turn → Machine → Stop
  protocol_exec_rt_suspend block spindle_speed turns m =
      let point = restore_point block spindle_speed m in
      suspend_loop (suc (length turns)) point.0 point.1 turns (stop_laser m)

  pub protocol_execute_realtime : Block W → W → List Turn → Machine → Stop
  protocol_execute_realtime block spindle_speed [] m = none
  protocol_execute_realtime block spindle_speed (turn ∷ turns) m = elim (exec_turn turn m) [
    | none ↦ none
    | some n ↦
        if n.sys.suspend == 0
        then some (turns, n)
        else protocol_exec_rt_suspend block spindle_speed turns n
  ]

  -- A turn that leaves nothing suspended is all of the call.
  pub protocol_execute_realtime-turn :
      (block : Block W) (spindle_speed : W) (turn : Turn) (turns : List Turn) (m n : Machine)
      → exec_turn turn m ≡ some n
      → n.sys.suspend ≡ 0
      → protocol_execute_realtime block spindle_speed (turn ∷ turns) m ≡ some (turns, n)
  unfolding protocol_execute_realtime
  protocol_execute_realtime-turn block spindle_speed turn turns m n e f =
      ap
        (λ (o : Option Machine). elim o [
          | none ↦ none
          | some k ↦
              if k.sys.suspend == 0
              then some (turns, k)
              else protocol_exec_rt_suspend block spindle_speed turns k
        ])
        e
      ∙ simp f

  -- A turn that aborts the program ends the call, with the same state and flags.
  pub protocol_execute_realtime-aborts :
      (block : Block W) (spindle_speed : W) (turn : Turn) (turns : List Turn) (m n : Machine)
      → exec_turn turn m ≡ some n
      → n.sys.abort ≡ true
      → (k : Machine) × (protocol_execute_realtime block spindle_speed (turn ∷ turns) m
          ≡ some (turns, k))
        × (k.sys ≡ n.sys)
        × (k.exec.state ≡ n.exec.state)
        × (k.exec.alarm ≡ n.exec.alarm)
  unfolding protocol_execute_realtime protocol_exec_rt_suspend suspend_loop stop_laser
  protocol_execute_realtime-aborts block spindle_speed turn turns m n e a =
      let k = if n.sys.suspend == 0 then n else stop_laser n in
      (
        k,
        ap
              (λ (o : Option Machine). elim o [
                | none ↦ none
                | some k ↦
                    if k.sys.suspend == 0
                    then some (turns, k)
                    else protocol_exec_rt_suspend block spindle_speed turns k
              ])
              e
            ∙ ground (arith, a),
        ground arith,
        ground arith,
        ground arith,
      )
