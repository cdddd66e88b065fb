-- ===== src/Base/Bits.antt =====
-- `&` and `|` on bytes: the macros of nuts_bolts.h and one equation for the lowest digit.
pub mod Laws
pub mod Xor
use Prim.Native.Nat.{ℕ, zero, suc, ◌+◌, ◌-◌, ◌*◌, ◌/◌, ◌%◌, ◌≤◌, ◌<◌, ◌^◌, min, max}
use Prim.Native.Nat.{bit_and, bit_or, bit_xor, digits, bitwise, bit_and-bitwise, bit_or-bitwise}
use Prim.Native.Nat.{bit_xor-bitwise, differ}
use mathlib.Core.Path.{◌≡◌, refl, sym, ap, ◌∙◌}
use mathlib.Core.Bool.{Bool, true, false, not, ◌&&◌}
use mathlib.Core.WellFounded.{Acc, WellFounded}
use mathlib.Core.WellFounded as WF
use native.Mathlib.Nat.{le_refl}
use native.Mathlib.Omega.{arith}
use tele_handwriter.Base.Tests.{◌==◌, ==_iff}

-- `bit_istrue(x, mask)`
abbrev pub bit_istrue : ℕ → ℕ → Bool
bit_istrue x mask = not (bit_and x mask == 0)

-- `bit_isfalse(x, mask)`
abbrev pub bit_isfalse : ℕ → ℕ → Bool
bit_isfalse x mask = bit_and x mask == 0

-- `~mask` on a byte.
abbrev pub bit_not8 : ℕ → ℕ
bit_not8 mask = 255 - mask

-- `<` on the native numbers is well-founded: every number below a bound is accessible.
accessible : (bound n : ℕ) → n < bound → Acc ◌<◌ n
accessible zero n low = absurd (omega arith)
accessible (suc bound) n low = Acc.intro n (λ lower q. accessible bound lower (omega arith))

pub lt_wf : WellFounded ◌<◌
lt_wf = record { apply = λ n. accessible (n + 1) n (omega arith) }

-- Fuel beyond what the first number needs.
beyond : ℕ → ℕ → ℕ
beyond zero n = n
beyond (suc extra) n = suc (beyond extra n)

beyond-sum : (extra n : ℕ) → beyond extra n ≡ extra + n
unfolding beyond
beyond-sum zero n = omega arith
beyond-sum (suc extra) n = omega (arith, beyond-sum extra n)

module _ (z : ℕ → ℕ) (f : ℕ → ℕ → ℕ) where
  one_more : (n a b : ℕ) → a ≤ n → digits z f (suc n) a b ≡ digits z f n a b
  one_more zero zero b h = refl
  one_more (suc n) zero b h = refl
  one_more zero (suc a) b h = absurd (omega arith)
  one_more (suc n) (suc a) b h =
      ap (λ d. d * 2 + f (suc a % 2) (b % 2)) (one_more n (suc a / 2) (b / 2) (omega arith))

  many_more : (extra n a b : ℕ) → a ≤ n → digits z f (beyond extra n) a b ≡ digits z f n a b
  unfolding beyond
  many_more zero n a b h = refl
  many_more (suc extra) n a b h =
      one_more (beyond extra n) a b (omega (arith, beyond-sum extra n)) ∙ many_more extra n a b h

  -- The lowest digit of an operation that has `z` on the left edge.
  lowest :
      ((b : ℕ) → z b ≡ z (b / 2) * 2 + f 0 (b % 2))
      → (a b : ℕ) → bitwise z f a b ≡ bitwise z f (a / 2) (b / 2) * 2 + f (a % 2) (b % 2)
  lowest edge zero b = edge b
  lowest edge (suc a) b =
      let half_a = suc a / 2 in
      let extra = a - half_a in
      let fuel : beyond extra half_a ≡ a = omega (arith, beyond-sum extra half_a) in
      let fewer : digits z f a half_a (b / 2) ≡ digits z f half_a half_a (b / 2) =
        ap (λ n. digits z f n half_a (b / 2)) (sym fuel)
        ∙ many_more extra half_a half_a (b / 2) (omega arith) in
      ap (λ d. d * 2 + f (suc a % 2) (b % 2)) fewer

-- The lowest digits of `a | b`, `a & b` and `a ^ b`.
pub bit_or_step : (a b : ℕ) → bit_or a b ≡ bit_or (a / 2) (b / 2) * 2 + max (a % 2) (b % 2)
bit_or_step a b = simp bit_or-bitwise (lowest (λ y. y) max (λ y. omega arith) a b)

pub bit_and_step : (a b : ℕ) → bit_and a b ≡ bit_and (a / 2) (b / 2) * 2 + min (a % 2) (b % 2)
bit_and_step a b = simp bit_and-bitwise (lowest (λ y. 0) min (λ y. omega arith) a b)

differ-mod : (x y : ℕ) → x < 2 → y < 2 → differ x y ≡ (x + y) % 2
differ-mod zero y p q = omega arith
differ-mod (suc zero) zero p q = refl
differ-mod (suc zero) (suc zero) p q = refl
differ-mod (suc zero) (suc (suc y)) p q = absurd (omega arith)
differ-mod (suc (suc x)) y p q = absurd (omega arith)

pub bit_xor_step : (a b : ℕ) → bit_xor a b ≡ bit_xor (a / 2) (b / 2) * 2 + (a % 2 + b % 2) % 2
bit_xor_step a b = simp bit_xor-bitwise (
    lowest (λ y. y) differ (λ y. omega arith) a b
    ∙ ap (λ d. bitwise (λ y. y) differ (a / 2) (b / 2) * 2 + d)
        (differ-mod (a % 2) (b % 2) (omega arith) (omega arith)))

-- To prove a property of every number from that of its half.
by_halves :
    (holds : ℕ → Type 0)
    → holds 0
    → ((n : ℕ) → holds (suc n / 2) → holds (suc n))
    → (a : ℕ) → holds a
by_halves holds base step a = WF.induction lt_wf {C = holds} a down
  where
    down : (n : ℕ) → ((m : ℕ) → m < n → holds m) → holds n
    down zero below = base
    down (suc n) below = step n (below (suc n / 2) (omega arith))

pub bit_or-zero : (a : ℕ) → bit_or a 0 ≡ a
bit_or-zero =
    by_halves (λ k. bit_or k 0 ≡ k) refl (λ n half. omega (arith, bit_or_step (suc n) 0, half))

pub bit_and-zero : (a : ℕ) → bit_and a 0 ≡ 0
bit_and-zero =
    by_halves (λ k. bit_and k 0 ≡ 0) refl (λ n half. omega (arith, bit_and_step (suc n) 0, half))
