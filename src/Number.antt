-- ===== src/Number.antt =====
-- `read_float` of grbl/nuts_bolts.c. A text is the list of its bytes from *char_counter on, and ends
-- with a 0 or with the list. The digits are read into an integer and a decimal exponent; the steps
-- that make a float of them are an interface.
pub mod Digits
pub mod Range
use tele_handwriter.Base.{
  ℕ, zero, suc, ◌+◌, ◌*◌, ◌/◌, ◌%◌, Bool, true, false, not, ◌&&◌, ◌==◌, ltb, leb, ◌-◌,
  if◌then◌else◌, Option, none, some, List, [], ◌∷◌, u8, u32, sub8,
}
use tele_handwriter.Base.Int.{ℤ, pos, negsuc, pos_part, neg_part, ◌+ℤ◌, ◌-ℤ◌}

abbrev pub max_int_digits : ℕ
max_int_digits = 8

-- The variables of the loop.
pub record Number : Type 0 where
  pub intval : ℕ
  pub exp : ℤ
  pub ndigit : ℕ
  pub isdecimal : Bool

abbrev pub no_number : Number
no_number = record { intval = 0; exp = pos 0; ndigit = 0; isdecimal = false }

-- The value that an int8_t variable keeps of an integer, in two's complement.
unfoldable pub i8 : ℤ → ℤ
i8 n =
    let byte = (pos_part n + (256 - neg_part n % 256)) % 256 in
    if ltb byte 128 then pos byte else negsuc (255 - byte)

-- Lines 60 to 66; `c` is the digit, and the exponent is an int8_t. `(((intval << 2) + intval) << 1) + c` in 32 bits.
unfoldable pub add_digit : ℕ → Number → Number
add_digit c n =
    let ndigit = u8 (n.ndigit + 1) in
    let kept = record n {
      ndigit = ndigit;
      exp = if n.isdecimal then i8 (n.exp -ℤ pos 1) else n.exp;
      intval = u32 ((n.intval * 4 + n.intval) * 2 + c);
    } in
    let dropped = record n {
      ndigit = ndigit;
      exp = if n.isdecimal then n.exp else i8 (n.exp +ℤ pos 1);
    } in
    if leb ndigit max_int_digits then kept else dropped

-- The loop of lines 57 to 73: the number, and how many characters it took.
unfoldable pub scan : List ℕ → Number → ℕ → Number × ℕ
scan [] n count = (n, count)
scan (ch ∷ rest) n count =
    let c = sub8 ch 48 in
    let after_digit = scan rest (add_digit c n) (count + 1) in
    let after_point = scan rest (record n { isdecimal = true }) (count + 1) in
    if leb c 9 then after_digit else if c == 254 && not n.isdecimal then after_point else (n, count)

-- Lines 44 to 50: whether the number is negative, the text after the sign, and the length of the sign.
unfoldable pub read_sign : List ℕ → Bool × List ℕ × ℕ
read_sign [] = (false, [], 0)
read_sign (ch ∷ rest) =
    if ch == 45
    then (true, rest, 1)
    else if ch == 43
    then (false, rest, 1)
    else (false, ch ∷ rest, 0)

-- The number with its sign, and the new *char_counter; `none` is the result `false`.
unfoldable pub read_decimal : ℕ → List ℕ → Option (Bool × Number × ℕ)
read_decimal char_counter line =
    let signed = read_sign line in
    let read = scan signed.1 no_number 0 in
    if read.0.ndigit == 0 then none else some (signed.0, read.0, char_counter + signed.2 + read.1)

-- The operations on a `float` in lines 79 to 103.
pub record Floats {ℓ} (W : Type ℓ) : Type ℓ where
  pub of_nat : ℕ → W
  pub times_hundredth : W → W
  pub times_tenth : W → W
  pub times_ten : W → W
  pub negate : W → W
  pub is_zero : W → Bool

module _ {ℓ} {W : Type ℓ} (floats : Floats W) where
  unfoldable pub repeat : ℕ → (W → W) → W → W
  repeat zero f fval = fval
  repeat (suc n) f fval = f (repeat n f fval)

  -- Lines 84 to 96.
  unfoldable pub apply_exp : ℤ → W → W
  apply_exp (pos exp) fval = if floats.is_zero fval then fval else repeat exp floats.times_ten fval
  apply_exp (negsuc exp) fval =
      let low = repeat (suc exp / 2) floats.times_hundredth fval in
      if floats.is_zero fval then fval else if suc exp % 2 == 0 then low else floats.times_tenth low

  unfoldable pub to_float : Bool × Number × ℕ → W × ℕ
  to_float (isnegative, n, char_counter) =
      let fval = apply_exp n.exp (floats.of_nat n.intval) in
      (if isnegative then floats.negate fval else fval, char_counter)

  -- `read_float(line, char_counter, float_ptr)`
  unfoldable pub read_float : ℕ → List ℕ → Option (W × ℕ)
  read_float char_counter line = elim (read_decimal char_counter line) [
    | none ↦ none
    | some number ↦ some (to_float number)
  ]
