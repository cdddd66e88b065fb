-- ===== src/Print.antt =====
-- grbl/print.c: the integer printers. A printer is the list of the bytes that it passes to
-- serial_write. `printFloat` works on floats and is left out.
pub mod Decimal
use tele_handwriter.Base.{
  ℕ, zero, suc, ◌+◌, ◌/◌, ◌%◌, Bool, not, List, [], ◌∷◌, ◌++◌, ◌==◌, leb, if◌then◌else◌, map,
  reverse, u8,
}
use tele_handwriter.Base.Int.{ℤ, pos, negsuc}

-- `buf` after the loop that fills it, for a base: the low digit first. The loop ends when `n` is 0,
-- or after `fuel` digits.
pub fill_digits : ℕ → ℕ → List ℕ
fill_digits zero n = []
fill_digits (suc fuel) n =
    let rest = fill_digits fuel (n / 10) in if n == 0 then [] else n % 10 ∷ rest

-- `for (; i > 0; i--) serial_write('0' + buf[i-1])`
pub write_digits : List ℕ → List ℕ
write_digits buf = map (λ d. 48 + d) (reverse buf)

-- The size of `buf`.
abbrev pub max_digits : ℕ
max_digits = 10

pub print_uint32_base10 : ℕ → List ℕ
print_uint32_base10 n = if n == 0 then 48 ∷ [] else write_digits (fill_digits max_digits n)

pub print_uint8_base10 : ℕ → List ℕ
print_uint8_base10 n =
    let hundreds = leb 100 n in
    let digit_a = if hundreds then 48 + n % 10 else 0 in
    let n1 = if hundreds then n / 10 else n in
    let tens = leb 10 n1 in
    let digit_b = if tens then 48 + n1 % 10 else 0 in
    let n2 = if tens then n1 / 10 else n1 in
    (u8 (48 + n2) ∷ [])
    ++ (if digit_b == 0 then [] else digit_b ∷ [])
    ++ (if digit_a == 0 then [] else digit_a ∷ [])

-- `buf` of the binary printer: always `digits` digits.
pub fill_bits : ℕ → ℕ → List ℕ
fill_bits zero n = []
fill_bits (suc digits) n = n % 2 ∷ fill_bits digits (n / 2)

pub print_uint8_base2_ndigit : ℕ → ℕ → List ℕ
print_uint8_base2_ndigit n digits = write_digits (fill_bits digits n)

-- `-n` of a negative long, read as an uint32_t, is its absolute value.
pub print_integer : ℤ → List ℕ
print_integer (pos n) = print_uint32_base10 n
print_integer (negsuc n) = 45 ∷ print_uint32_base10 (suc n)
