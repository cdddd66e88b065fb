-- ===== src/Planner/Target.antt =====
-- The position that the planner of grbl/planner.c keeps after a line.
use tele_handwriter.Base.{ℕ, ◌≡◌, Bool-cases, inl, inr, ◌==◌, max, arith}
use tele_handwriter.Base.Int.{ℤ, ◌+ℤ◌, ◌-ℤ◌, abs, int_laws}
use tele_handwriter.Planner.{Position, Planner, block_steps, plan_buffer_line}

same_x :
    (t p u q : ℤ)
    → abs ((t -ℤ p) +ℤ (u -ℤ q)) ≡ 0
    → abs ((t -ℤ p) -ℤ (u -ℤ q)) ≡ 0
    → (t ≡ p) × (u ≡ q)
same_x t p u q e f = (omega (int_laws, e, f), omega (int_laws, e, f))

same_z : (t p : ℤ) → abs (t -ℤ p) ≡ 0 → t ≡ p
same_z t p e = omega (int_laws, e)

max_zero : (a b c : ℕ) → max (max a b) c ≡ 0 → (a ≡ 0) × (b ≡ 0) × (c ≡ 0)
max_zero a b c e = ground (arith, e)

-- A line without steps ends where the planner is.
no_steps-here :
    (target position : Position)
    → (block_steps target position).step_event_count ≡ 0
    → target ≡ position
unfolding block_steps
no_steps-here target position e =
    let dx = target.x -ℤ position.x in
    let dy = target.y -ℤ position.y in
    let dz = target.z -ℤ position.z in
    let (a, b, c) = max_zero (abs (dx +ℤ dy)) (abs (dx -ℤ dy)) (abs dz) e in
    let (x, y) = same_x target.x position.x target.y position.y a b in
    let z = same_z target.z position.z c in λ i. record { x = x i; y = y i; z = z i }

-- Whether a line has steps or not, the planner is at its target after it.
pub plan_buffer_line-position :
    (target : Position) (planned : ℕ) (pl : Planner)
    → (plan_buffer_line target planned pl).1.position ≡ target
unfolding plan_buffer_line
plan_buffer_line-position target planned pl =
    let block = block_steps target pl.position in
    elim (Bool-cases (block.step_event_count == 0)) [
      | inl e ↦
          let here = no_steps-here target pl.position (ground (arith, e)) in ground (arith, e, here)
      | inr e ↦ ground (arith, e)
    ]
