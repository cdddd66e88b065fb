-- ===== src/Print/Decimal.antt =====
-- Reading back what the integer printers write.
use tele_handwriter.Base.{
  ℕ, zero, suc, ◌+◌, ◌-◌, ◌*◌, ◌/◌, ◌%◌, ◌^◌, ◌<◌, ◌≤◌, ◌≡◌, refl, sym, ap, ◌∙◌, false, List, [],
  ◌∷◌, ◌++◌, ◌==◌, map, reverse, length, length-append, arith,
}
use native.Mathlib.Nat.{mod-add-div, mod-lt, add-mul-mod_self_left, mod-eq_of_lt}
use mathlib.Core.List.{reverse-cons, map-append}
use tele_handwriter.Print.{
  fill_digits, write_digits, max_digits, print_uint32_base10, print_uint8_base10, fill_bits,
  print_uint8_base2_ndigit,
}

-- The number that a text of digits denotes in a base, after a prefix of value `acc`.
abbrev pub read_digits : ℕ → ℕ → List ℕ → ℕ
read_digits base acc [] = acc
read_digits base acc (c ∷ cs) = read_digits base (acc * base + (c - 48)) cs

-- The number of a buffer with the low digit first.
abbrev value : ℕ → List ℕ → ℕ
value base [] = 0
value base (d ∷ ds) = d + base * value base ds

read_digits-append :
    (base acc : ℕ) (cs : List ℕ) (c : ℕ)
    → read_digits base acc (cs ++ c ∷ []) ≡ read_digits base acc cs * base + (c - 48)
read_digits-append base acc [] c = refl
read_digits-append base acc (d ∷ cs) c = read_digits-append base (acc * base + (d - 48)) cs c

write_digits-cons : (d : ℕ) (ds : List ℕ) → write_digits (d ∷ ds) ≡ write_digits ds ++ (48 + d) ∷ []
unfolding write_digits
write_digits-cons d ds =
    ap (map (λ d. 48 + d)) (reverse-cons d ds)
    ∙ map-append (λ (x : ℕ). 48 + x) (reverse ds) (d ∷ [])

read-write_digits : (base : ℕ) (ds : List ℕ) → read_digits base 0 (write_digits ds) ≡ value base ds
unfolding write_digits
read-write_digits base [] = refl
read-write_digits base (d ∷ ds) =
    ap (read_digits base 0) (write_digits-cons d ds)
    ∙ read_digits-append base 0 (write_digits ds) (48 + d)
    ∙ omega (arith, ap (λ v. v * base) (read-write_digits base ds))

length-write_digits : (ds : List ℕ) → length (write_digits ds) ≡ length ds
unfolding write_digits
length-write_digits [] = refl
length-write_digits (d ∷ ds) =
    ap length (write_digits-cons d ds)
    ∙ length-append (write_digits ds) ((48 + d) ∷ [])
    ∙ omega (arith, length-write_digits ds)

fill_digits-step :
    (fuel n : ℕ) → fill_digits (suc fuel) (suc n) ≡ suc n % 10 ∷ fill_digits fuel (suc n / 10)
unfolding fill_digits
fill_digits-step fuel n = let more : (suc n == 0) ≡ false = ground arith in simp more

print_uint32_base10-suc :
    (n : ℕ) → print_uint32_base10 (suc n) ≡ write_digits (fill_digits max_digits (suc n))
unfolding print_uint32_base10
print_uint32_base10-suc n = let more : (suc n == 0) ≡ false = ground arith in simp more

value-fill_digits : (fuel n : ℕ) → n < 10 ^ fuel → value 10 (fill_digits fuel n) ≡ n
unfolding fill_digits
value-fill_digits zero n h = omega arith
value-fill_digits (suc fuel) zero h = refl
value-fill_digits (suc fuel) (suc n) h =
    ap (value 10) (fill_digits-step fuel n)
    ∙ omega (arith, value-fill_digits fuel (suc n / 10) (omega arith))

length-fill_digits : (fuel n : ℕ) → length (fill_digits fuel n) ≤ fuel
unfolding fill_digits
length-fill_digits zero n = omega arith
length-fill_digits (suc fuel) zero = omega arith
length-fill_digits (suc fuel) (suc n) =
    omega (arith, ap length (fill_digits-step fuel n), length-fill_digits fuel (suc n / 10))

print_zero :
    (read_digits 10 0 (print_uint32_base10 0) ≡ 0) × (length (print_uint32_base10 0) ≤ max_digits)
unfolding print_uint32_base10
print_zero = (refl, omega arith)

-- Every 32-bit number is read back from what is printed, and its digits fit the buffer.
pub read-print_uint32_base10 :
    (n : ℕ)
    → n < 2 ^ 32
    → (read_digits 10 0 (print_uint32_base10 n) ≡ n) × (length (print_uint32_base10 n) ≤ max_digits)
read-print_uint32_base10 zero h = print_zero
read-print_uint32_base10 (suc n) h = (
  ap (read_digits 10 0) (print_uint32_base10-suc n)
      ∙ read-write_digits 10 (fill_digits max_digits (suc n))
      ∙ value-fill_digits max_digits (suc n) (omega arith),
  omega (
    arith,
    ap length (print_uint32_base10-suc n),
    length-write_digits (fill_digits max_digits (suc n)),
    length-fill_digits max_digits (suc n),
  ),
)

half_mod : (a n : ℕ) → 0 < a → n % (2 * a) ≡ n % 2 + 2 * (n / 2 % a)
half_mod a n h =
    let low = n % 2 + 2 * (n / 2 % a) in
    let split : n ≡ low + 2 * a * (n / 2 / a) = grind (arith, mod-add-div (n / 2) a) in
    let small : low < 2 * a = omega (arith, mod-lt (n / 2) h) in
    ap (λ k. k % (2 * a)) split ∙ add-mul-mod_self_left low (2 * a) (n / 2 / a) ∙ mod-eq_of_lt small

pow_pos : (d : ℕ) → 0 < 2 ^ d
pow_pos zero = omega arith
pow_pos (suc d) = omega (arith, pow_pos d)

value-fill_bits : (digits n : ℕ) → value 2 (fill_bits digits n) ≡ n % 2 ^ digits
unfolding fill_bits
value-fill_bits zero n = omega arith
value-fill_bits (suc digits) n =
    let wide : n % (2 * 2 ^ digits) ≡ n % 2 + 2 * (n / 2 % 2 ^ digits) =
      half_mod (2 ^ digits) n (pow_pos digits) in
    let powers : 2 * 2 ^ digits ≡ 2 ^ suc digits = omega arith in
    ap (λ v. n % 2 + 2 * v) (value-fill_bits digits (n / 2)) ∙ sym wide ∙ ap (λ m. n % m) powers

length-fill_bits : (digits n : ℕ) → length (fill_bits digits n) ≡ digits
unfolding fill_bits
length-fill_bits zero n = refl
length-fill_bits (suc digits) n = ap suc (length-fill_bits digits (n / 2))

-- The binary printer writes the low `digits` bits of the number, all of them.
pub read-print_uint8_base2_ndigit :
    (n digits : ℕ)
    → (read_digits 2 0 (print_uint8_base2_ndigit n digits) ≡ n % 2 ^ digits)
      × (length (print_uint8_base2_ndigit n digits) ≡ digits)
unfolding print_uint8_base2_ndigit
read-print_uint8_base2_ndigit n digits = (
  read-write_digits 2 (fill_bits digits n) ∙ value-fill_bits digits n,
  length-write_digits (fill_bits digits n) ∙ length-fill_bits digits n,
)

-- The unrolled 8-bit printer writes what the 32-bit printer writes.
pub print_uint8_base10_lem : (n : ℕ) → n < 256 → print_uint8_base10 n ≡ print_uint32_base10 n
unfolding print_uint8_base10 print_uint32_base10 fill_digits write_digits
print_uint8_base10_lem n h = ground arith
