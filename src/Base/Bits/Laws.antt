-- ===== src/Base/Bits/Laws.antt =====
-- Laws of `&` and `|` at every width, by recursion on the binary digits. With constant masks the
-- inner call computes, so each law turns an update followed by a test into the test alone.
use Prim.Native.Nat.{ℕ, zero, suc, ◌/◌, ◌%◌, ◌≤◌, ◌<◌, ◌^◌, min, max}
use Prim.Native.Nat.{bit_and, bit_or, bit_and-bitwise, bit_or-bitwise}
use mathlib.Core.Path.{◌≡◌, refl}
use mathlib.Core.WellFounded as WF
use native.Mathlib.Nat.{pow-suc}
use native.Mathlib.Omega.{arith}
use tele_handwriter.Base.Bits.{
  by_halves, bit_and_step, bit_or_step, bit_or-zero, bit_and-zero, lt_wf,
}

pub zero-bit_and : (b : ℕ) → bit_and 0 b ≡ 0
zero-bit_and b = bit_and-bitwise 0 b

pub zero-bit_or : (b : ℕ) → bit_or 0 b ≡ b
zero-bit_or b = bit_or-bitwise 0 b

bit_and-half : (a b : ℕ) → bit_and a b / 2 ≡ bit_and (a / 2) (b / 2)
bit_and-half a b = omega (arith, bit_and_step a b)

bit_and-odd : (a b : ℕ) → bit_and a b % 2 ≡ min (a % 2) (b % 2)
bit_and-odd a b = omega (arith, bit_and_step a b)

bit_or-half : (a b : ℕ) → bit_or a b / 2 ≡ bit_or (a / 2) (b / 2)
bit_or-half a b = omega (arith, bit_or_step a b)

bit_or-odd : (a b : ℕ) → bit_or a b % 2 ≡ max (a % 2) (b % 2)
bit_or-odd a b = omega (arith, bit_or_step a b)

-- Two numbers are equal if their halves and their lowest digits are.
eq_of_digits : (x y : ℕ) → x / 2 ≡ y / 2 → x % 2 ≡ y % 2 → x ≡ y
eq_of_digits x y p q = omega arith

pub bit_and_assoc : (a b c : ℕ) → bit_and (bit_and a b) c ≡ bit_and a (bit_and b c)
bit_and_assoc a =
    WF.induction lt_wf {C = λ a. (b c : ℕ) → bit_and (bit_and a b) c ≡ bit_and a (bit_and b c)} a
      step
  where
    step :
        (n : ℕ)
        → ((m : ℕ) → m < n → (b c : ℕ) → bit_and (bit_and m b) c ≡ bit_and m (bit_and b c))
        → (b c : ℕ) → bit_and (bit_and n b) c ≡ bit_and n (bit_and b c)
    step zero ih b c = simp zero-bit_and
    step (suc n) ih b c =
        eq_of_digits _ _ (simp bit_and-half (ih (suc n / 2) (omega arith) (b / 2) (c / 2)))
          (simp bit_and-odd (omega arith))

-- `(a | b) & c` is `(a & c) | (b & c)`.
pub bit_and-bit_or : (a b c : ℕ) → bit_and (bit_or a b) c ≡ bit_or (bit_and a c) (bit_and b c)
bit_and-bit_or a =
    WF.induction lt_wf
      {C = λ a. (b c : ℕ) → bit_and (bit_or a b) c ≡ bit_or (bit_and a c) (bit_and b c)} a step
  where
    step :
        (n : ℕ)
        → ((m : ℕ)
            → m < n
            → (b c : ℕ) → bit_and (bit_or m b) c ≡ bit_or (bit_and m c) (bit_and b c))
        → (b c : ℕ) → bit_and (bit_or n b) c ≡ bit_or (bit_and n c) (bit_and b c)
    step zero ih b c = simp (zero-bit_and, zero-bit_or)
    step (suc n) ih b c =
        eq_of_digits _ _
          (simp (bit_and-half, bit_or-half) (ih (suc n / 2) (omega arith) (b / 2) (c / 2)))
          (simp (bit_and-odd, bit_or-odd) (omega arith))

pub le-bit_or : (a b : ℕ) → b ≤ bit_or a b
le-bit_or a = WF.induction lt_wf {C = λ a. (b : ℕ) → b ≤ bit_or a b} a step
  where
    step : (n : ℕ) → ((m : ℕ) → m < n → (b : ℕ) → b ≤ bit_or m b) → (b : ℕ) → b ≤ bit_or n b
    step zero ih b = omega (arith, zero-bit_or b)
    step (suc n) ih b = omega (arith, bit_or_step (suc n) b, ih (suc n / 2) (omega arith) (b / 2))

pub bit_and-le : (a b : ℕ) → bit_and a b ≤ b
bit_and-le a = WF.induction lt_wf {C = λ a. (b : ℕ) → bit_and a b ≤ b} a step
  where
    step : (n : ℕ) → ((m : ℕ) → m < n → (b : ℕ) → bit_and m b ≤ b) → (b : ℕ) → bit_and n b ≤ b
    step zero ih b = omega (arith, zero-bit_and b)
    step (suc n) ih b = omega (arith, bit_and_step (suc n) b, ih (suc n / 2) (omega arith) (b / 2))

pub bit_or-lt : (k a b : ℕ) → a < 2 ^ k → b < 2 ^ k → bit_or a b < 2 ^ k
bit_or-lt zero a b p q =
    let ea : a ≡ 0 = omega arith in let eb : b ≡ 0 = omega arith in rw (ea, eb) (omega arith)
bit_or-lt (suc k) a b p q = omega (
  arith,
  pow-suc 2 k,
  bit_or_step a b,
  bit_or-lt k (a / 2) (b / 2) (omega (arith, pow-suc 2 k)) (omega (arith, pow-suc 2 k)),
)

-- Setting a mask makes each of its bits test true.
pub bit_or-ne-zero : (a b : ℕ) → 0 < b → 0 < bit_or a b
bit_or-ne-zero a b h = omega (arith, le-bit_or a b)

pub ruleset bit_laws = (bit_and_assoc, bit_and-bit_or, bit_or-zero, bit_and-zero, zero-bit_and)

-- Setting the bits of `mask`: a test that shares a bit with it holds, and a test that shares none
-- reads as before.
pub test-bit_or_hit : (x mask n : ℕ) → 0 < bit_and mask n → 0 < bit_and (bit_or x mask) n
test-bit_or_hit x mask n h = rw bit_and-bit_or (bit_or-ne-zero (bit_and x n) (bit_and mask n) h)

pub test-bit_or_miss : (x mask n : ℕ) → bit_and mask n ≡ 0 → bit_and (bit_or x mask) n ≡ bit_and x n
test-bit_or_miss x mask n h = rw (bit_and-bit_or, h, bit_or-zero)

-- Keeping the bits of `mask` only: a test within `mask` reads as before, one outside it is 0.
pub test-bit_and_keep :
    (x mask n : ℕ) → bit_and mask n ≡ n → bit_and (bit_and x mask) n ≡ bit_and x n
test-bit_and_keep x mask n h = rw (bit_and_assoc, h)

pub test-bit_and_drop : (x mask n : ℕ) → bit_and mask n ≡ 0 → bit_and (bit_and x mask) n ≡ 0
test-bit_and_drop x mask n h = rw (bit_and_assoc, h, bit_and-zero)

pub le-bit_or_left : (a b : ℕ) → a ≤ bit_or a b
le-bit_or_left a = WF.induction lt_wf {C = λ a. (b : ℕ) → a ≤ bit_or a b} a step
  where
    step : (n : ℕ) → ((m : ℕ) → m < n → (b : ℕ) → m ≤ bit_or m b) → (b : ℕ) → n ≤ bit_or n b
    step zero ih b = omega arith
    step (suc n) ih b = omega (arith, bit_or_step (suc n) b, ih (suc n / 2) (omega arith) (b / 2))

-- A test that holds still holds after more bits are set.
pub test-bit_or_stays : (x mask n : ℕ) → 0 < bit_and x n → 0 < bit_and (bit_or x mask) n
test-bit_or_stays x mask n h =
    rw bit_and-bit_or (omega (arith, le-bit_or_left (bit_and x n) (bit_and mask n)))

pub bit_and_self : (a : ℕ) → bit_and a a ≡ a
bit_and_self =
    by_halves (λ k. bit_and k k ≡ k) refl
      (λ n half. omega (arith, bit_and_step (suc n) (suc n), half))

pub bit_and_comm : (a b : ℕ) → bit_and a b ≡ bit_and b a
bit_and_comm a = WF.induction lt_wf {C = λ a. (b : ℕ) → bit_and a b ≡ bit_and b a} a step
  where
    step :
        (n : ℕ)
        → ((m : ℕ) → m < n → (b : ℕ) → bit_and m b ≡ bit_and b m)
        → (b : ℕ) → bit_and n b ≡ bit_and b n
    step zero ih b = simp (zero-bit_and, bit_and-zero)
    step (suc n) ih b = omega (
      arith,
      bit_and_step (suc n) b,
      bit_and_step b (suc n),
      ih (suc n / 2) (omega arith) (b / 2),
    )

-- A test of two masks at once is not zero exactly where one of the tests is not.
pub test-either :
    (x a b : ℕ)
    → (0 < bit_and x a → 0 < bit_and x (bit_or a b))
      × (0 < bit_and x b → 0 < bit_and x (bit_or a b))
      × (bit_and x a ≡ 0 → bit_and x b ≡ 0 → bit_and x (bit_or a b) ≡ 0)
test-either x a b =
    let split : bit_and x (bit_or a b) ≡ bit_or (bit_and x a) (bit_and x b) =
      rw (bit_and_comm x (bit_or a b), bit_and-bit_or a b x, bit_and_comm a x, bit_and_comm b x)
        refl in
    (
      λ h. omega (arith, split, h, le-bit_or_left (bit_and x a) (bit_and x b)),
      λ h. omega (arith, split, h, le-bit_or (bit_and x a) (bit_and x b)),
      λ h k. rw (split, h, k) (zero-bit_or 0),
    )
