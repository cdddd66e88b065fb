-- ===== src/Stepper/Bresenham.antt =====
-- One axis of the stepper interrupt in grbl/stepper.c over the ticks of a whole block.
use tele_handwriter.Base.{
  ℕ, zero, suc, ◌+◌, ◌-◌, ◌*◌, ◌/◌, ◌^◌, ◌<◌, ◌≤◌, ◌≡◌, inl, inr, sym, ap, ◌∙◌, Bool, List, [], ◌∷◌,
  ltb, if◌then◌else◌, arith, All, Bool-cases, ltb→lt,
}
use native.Mathlib.Nat.{mul-le-mul_left}
use tele_handwriter.Base.Int.{ℤ, pos, ◌+ℤ◌, sub_ℕ}
use tele_handwriter.Stepper.{Axis, pulses, axis_step, shift_axis}

-- `n` ticks of one axis.
unfoldable pub run_axis : Bool → ℕ → ℕ → Axis → Axis
run_axis is_negative events zero a = a
run_axis is_negative events (suc n) a =
    run_axis is_negative events n (axis_step is_negative events a)

-- The pulses of those ticks.
pub count_pulses : Bool → ℕ → ℕ → Axis → ℕ
count_pulses is_negative events zero a = 0
count_pulses is_negative events (suc n) a =
    (if pulses events a then 1 else 0)
    + count_pulses is_negative events n (axis_step is_negative events a)

-- The counter is within the event count, and a tick does not wrap it.
abbrev pub IsReady : ℕ → Axis → Type 0
IsReady events a =
    (0 < a.counter) × (a.counter ≤ events) × (a.steps ≤ events) × (events + events < 2 ^ 32)

-- A tick of one axis: the new counter, with what the pulse takes off.
axis_step-counter :
    (is_negative : Bool) (events : ℕ) (a : Axis)
    → IsReady events a
    → ((axis_step is_negative events a).counter + events * (if pulses events a then 1 else 0)
        ≡ a.counter + a.steps)
      × IsReady events (axis_step is_negative events a)
      × ((axis_step is_negative events a).steps ≡ a.steps)
unfolding axis_step pulses
axis_step-counter is_negative events a h = (ground arith, ground arith, ground arith)

-- A number of pulses, in the direction of the axis.
unfoldable pub moves : Bool → ℕ → ℤ
moves is_negative n = if is_negative then sub_ℕ 0 n else pos n

axis_step-position :
    (is_negative : Bool) (events : ℕ) (a : Axis)
    → (axis_step is_negative events a).position
      ≡ a.position +ℤ moves is_negative (if pulses events a then 1 else 0)
unfolding axis_step moves ◌+ℤ◌
axis_step-position is_negative events a = ground arith

+ℤ-moves :
    (is_negative : Bool) (z : ℤ) (m n : ℕ)
    → z +ℤ moves is_negative m +ℤ moves is_negative n ≡ z +ℤ moves is_negative (m + n)
unfolding moves ◌+ℤ◌
+ℤ-moves is_negative z m n = ground arith

+ℤ-moves_zero : (is_negative : Bool) (z : ℤ) → z +ℤ moves is_negative 0 ≡ z
unfolding moves ◌+ℤ◌
+ℤ-moves_zero is_negative z = ground arith

-- After `n` ticks the counter and the pulses add up, whatever the sizes, and the axis has moved by
-- its pulses.
run_axis-counter :
    (is_negative : Bool) (events n : ℕ) (a : Axis)
    → IsReady events a
    → ((run_axis is_negative events n a).counter + events * count_pulses is_negative events n a
        ≡ a.counter + n * a.steps)
      × IsReady events (run_axis is_negative events n a)
      × ((run_axis is_negative events n a).position
          ≡ a.position +ℤ moves is_negative (count_pulses is_negative events n a))
unfolding run_axis count_pulses
run_axis-counter is_negative events zero a h =
    (omega arith, h, sym (+ℤ-moves_zero is_negative a.position))
run_axis-counter is_negative events (suc n) a h =
    let stepped = axis_step-counter is_negative events a h in
    let b = axis_step is_negative events a in
    let rest = run_axis-counter is_negative events n b stepped.1 in
    let pulse : ℕ = if pulses events a then 1 else 0 in
    let increments : n * b.steps ≡ n * a.steps = ap (λ k. n * k) stepped.2 in
    (
      grind (arith, rest.0, stepped.0, increments),
      rest.1,
      rest.2
          ∙ ap (λ z. z +ℤ moves is_negative (count_pulses is_negative events n b))
              (axis_step-position is_negative events a)
          ∙ +ℤ-moves is_negative a.position pulse (count_pulses is_negative events n b),
    )

-- The segments of one block: their ticks and their smoothing level. A level halves the increment
-- `level` times, so that a tick at level 3 is one and at level 0 eight eighths of a step event.
abbrev pub eighths : List (ℕ × ℕ) → ℕ
eighths [] = 0
eighths ((n, level) ∷ segments) = n * 2 ^ (3 - level) + eighths segments

-- One axis over the segments of a block of `steps` steps.
pub run_block : Bool → ℕ → ℕ → List (ℕ × ℕ) → Axis → Axis
run_block is_negative events steps [] a = a
run_block is_negative events steps ((n, level) ∷ segments) a =
    run_block is_negative events steps segments
      (run_axis is_negative events n (shift_axis steps level a))

block_pulses : Bool → ℕ → ℕ → List (ℕ × ℕ) → Axis → ℕ
block_pulses is_negative events steps [] a = 0
block_pulses is_negative events steps ((n, level) ∷ segments) a =
    let b = shift_axis steps level a in
    count_pulses is_negative events n b
    + block_pulses is_negative events steps segments (run_axis is_negative events n b)

abbrev IsLevel : ℕ × ℕ → Type 0
IsLevel (n, level) = level ≤ 3

shifted : (s level : ℕ) → level ≤ 3 → (8 * s) / 2 ^ level ≡ s * 2 ^ (3 - level)
shifted s zero h = omega arith
shifted s (suc zero) h = omega arith
shifted s (suc (suc zero)) h = omega arith
shifted s (suc (suc (suc zero))) h = omega arith
shifted s (suc (suc (suc (suc level)))) h = absurd (omega arith)

shifted-le : (s level : ℕ) → level ≤ 3 → (8 * s) / 2 ^ level ≤ 8 * s
shifted-le s zero h = omega arith
shifted-le s (suc zero) h = omega arith
shifted-le s (suc (suc zero)) h = omega arith
shifted-le s (suc (suc (suc zero))) h = omega arith
shifted-le s (suc (suc (suc (suc level)))) h = absurd (omega arith)

swap : (n s w : ℕ) → n * (s * w) ≡ s * (n * w)
swap n s w = grind arith

add_up :
    (d a c e p q s v w : ℕ)
    → c + e * p ≡ a + s * v
    → d + e * q ≡ c + s * w
    → d + e * (p + q) ≡ a + s * (v + w)
add_up d a c e p q s v w h k = grind arith

module _ (is_negative : Bool) (e s : ℕ) (small : e < 2 ^ 28) (dominated : s ≤ e) where
  run_block-counter :
      (segments : List (ℕ × ℕ)) (a : Axis)
      → All IsLevel segments
      → 0 < a.counter
      → a.counter ≤ 8 * e
      → let b = run_block is_negative (8 * e) (8 * s) segments a in
        let p = block_pulses is_negative (8 * e) (8 * s) segments a in
        (b.counter + 8 * e * p ≡ a.counter + s * eighths segments)
        × (0 < b.counter)
        × (b.counter ≤ 8 * e)
        × (b.position ≡ a.position +ℤ moves is_negative p)
  unfolding run_block block_pulses shift_axis
  run_block-counter [] a l h k = (omega arith, h, k, sym (+ℤ-moves_zero is_negative a.position))
  run_block-counter ((n, level) ∷ segments) a (l, ls) h k =
      let b = shift_axis (8 * s) level a in
      let bound = shifted-le s level l in
      let ready : IsReady (8 * e) b = (h, k, omega (arith, bound), omega arith) in
      let b_end = run_axis is_negative (8 * e) n b in
      let ran = run_axis-counter is_negative (8 * e) n b ready in
      let rest = run_block-counter segments (run_axis is_negative (8 * e) n b) ls ran.1.0 ran.1.1 in
      let first : ℕ = count_pulses is_negative (8 * e) n b in
      let later : ℕ =
        block_pulses is_negative (8 * e) (8 * s) segments (run_axis is_negative (8 * e) n b) in
      let scaled : n * b.steps ≡ s * (n * 2 ^ (3 - level)) =
        ap (λ k. n * k) (shifted s level l) ∙ swap n s (2 ^ (3 - level)) in
      (
        add_up (run_block is_negative (8 * e) (8 * s) segments b_end).counter a.counter
            b_end.counter (8 * e) first later s (n * 2 ^ (3 - level)) (eighths segments)
            (ran.0 ∙ ap (λ k. a.counter + k) scaled) rest.0,
        rest.1,
        rest.2,
        rest.3
            ∙ ap (λ z. z +ℤ moves is_negative later) ran.2
            ∙ +ℤ-moves is_negative a.position first later,
      )

-- Within half an event count of a multiple, the multiple is determined.
settle-below : (e s p c : ℕ) → 0 < e → c ≤ 8 * e → c + 8 * e * p ≡ 4 * e + s * (8 * e) → s ≤ p
settle-below e s p c h k eq = elim (Bool-cases (ltb p s)) [
  | inl less ↦
      let room : suc p ≤ s = omega (arith, ltb→lt p s less) in
      let more : 8 * e * suc p ≤ 8 * e * s = mul-le-mul_left (8 * e) room in
      absurd (grind (arith, more))
  | inr enough ↦ ground arith
]

settle-above : (e s p c : ℕ) → 0 < e → 0 < c → c + 8 * e * p ≡ 4 * e + s * (8 * e) → p ≤ s
settle-above e s p c h k eq = elim (Bool-cases (ltb s p)) [
  | inl less ↦
      let room : suc s ≤ p = omega (arith, ltb→lt s p less) in
      let more : 8 * e * suc s ≤ 8 * e * p = mul-le-mul_left (8 * e) room in
      absurd (grind (arith, more))
  | inr enough ↦ ground arith
]

-- Executed to the end, a block of `e` step events moves an axis by exactly its `s` steps, in the
-- direction of the block, and leaves the counter at its start, however the block is cut in segments
-- and whatever their smoothing levels are. The stored numbers are the step counts times 8.
pub run_block-exact :
    (is_negative : Bool) (e s : ℕ) (segments : List (ℕ × ℕ)) (a : Axis)
    → 0 < e
    → e < 2 ^ 28
    → s ≤ e
    → All IsLevel segments
    → eighths segments ≡ 8 * e
    → a.counter ≡ 4 * e
    → let b = run_block is_negative (8 * e) (8 * s) segments a in
      (b.position ≡ a.position +ℤ moves is_negative s) × (b.counter ≡ 4 * e)
run_block-exact is_negative e s segments a pos_e small dominated ls total start =
    let b = run_block is_negative (8 * e) (8 * s) segments a in
    let p : ℕ = block_pulses is_negative (8 * e) (8 * s) segments a in
    let ran =
      run_block-counter is_negative e s small dominated segments a ls (omega arith) (omega arith) in
    let balance : b.counter + 8 * e * p ≡ 4 * e + s * (8 * e) =
      ran.0 ∙ ap (λ c. c + s * eighths segments) start ∙ ap (λ w. 4 * e + s * w) total in
    let exact : p ≡ s =
      antisym (settle-above e s p b.counter pos_e ran.1 balance)
        (settle-below e s p b.counter pos_e ran.2 balance) in
    (ran.3 ∙ ap (λ k. a.position +ℤ moves is_negative k) exact, grind (arith, balance, exact))
  where
    antisym : {m n : ℕ} → m ≤ n → n ≤ m → m ≡ n
    antisym h k = omega arith
