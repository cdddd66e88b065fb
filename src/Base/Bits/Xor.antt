-- ===== src/Base/Bits/Xor.antt =====
-- What a difference `old ^ new` says of the two bytes.
use Prim.Native.Nat.{ℕ, zero, suc, ◌+◌, ◌/◌, ◌%◌, ◌<◌, min, bit_and, bit_xor, bit_xor-bitwise}
use mathlib.Core.Path.{◌≡◌, refl, ap, sym, ◌∙◌}
use mathlib.Core.WellFounded as WF
use native.Mathlib.Omega.{arith}
use tele_handwriter.Base.Bits.Laws.{zero-bit_and}
use tele_handwriter.Base.Bits.{lt_wf, bit_and_step, bit_xor_step}

zero-bit_xor : (b : ℕ) → bit_xor 0 b ≡ b
zero-bit_xor b = bit_xor-bitwise 0 b

bit_and_self : (b : ℕ) → bit_and b b ≡ b
bit_and_self b = WF.induction lt_wf {C = λ b. bit_and b b ≡ b} b step
  where
    step : (n : ℕ) → ((m : ℕ) → m < n → bit_and m m ≡ m) → bit_and n n ≡ n
    step zero ih = refl
    step (suc n) ih = omega (arith, bit_and_step (suc n) (suc n), ih (suc n / 2) (omega arith))

-- No difference.
pub bit_xor-same : (a b : ℕ) → bit_xor a b ≡ 0 → a ≡ b
bit_xor-same a = WF.induction lt_wf {C = λ a. (b : ℕ) → bit_xor a b ≡ 0 → a ≡ b} a step
  where
    step :
        (n : ℕ)
        → ((m : ℕ) → m < n → (b : ℕ) → bit_xor m b ≡ 0 → m ≡ b)
        → (b : ℕ) → bit_xor n b ≡ 0
        → n ≡ b
    step zero ih b e = omega (arith, zero-bit_xor b)
    step (suc n) ih b e =
        let rest : suc n / 2 ≡ b / 2 =
          ih (suc n / 2) (omega arith) (b / 2) (omega (arith, bit_xor_step (suc n) b)) in
        omega (arith, bit_xor_step (suc n) b)

-- No bit of `b` is new, so each bit of `b` is one of `a`.
pub bit_and-of_bit_xor : (a b : ℕ) → bit_and (bit_xor a b) b ≡ 0 → bit_and a b ≡ b
bit_and-of_bit_xor a =
    WF.induction lt_wf {C = λ a. (b : ℕ) → bit_and (bit_xor a b) b ≡ 0 → bit_and a b ≡ b} a step
  where
    step :
        (n : ℕ)
        → ((m : ℕ) → m < n → (b : ℕ) → bit_and (bit_xor m b) b ≡ 0 → bit_and m b ≡ b)
        → (b : ℕ) → bit_and (bit_xor n b) b ≡ 0
        → bit_and n b ≡ b
    step zero ih b e = omega (
      arith,
      zero-bit_xor b,
      bit_and_self b,
      zero-bit_and b,
      ap (λ x. bit_and x b) (zero-bit_xor b),
    )
    step (suc n) ih b e =
        let x = bit_xor (suc n) b in
        let half_x : x / 2 ≡ bit_xor (suc n / 2) (b / 2) = omega (arith, bit_xor_step (suc n) b) in
        let low_x : x % 2 ≡ (suc n % 2 + b % 2) % 2 = omega (arith, bit_xor_step (suc n) b) in
        let upper : bit_and (x / 2) (b / 2) ≡ 0 = omega (arith, bit_and_step x b) in
        let low : min (x % 2) (b % 2) ≡ 0 = omega (arith, bit_and_step x b) in
        let rest =
          ih (suc n / 2) (omega arith) (b / 2) (ap (λ k. bit_and k (b / 2)) (sym half_x) ∙ upper) in
        omega (arith, bit_and_step (suc n) b, rest)
