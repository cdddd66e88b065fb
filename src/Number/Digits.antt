-- ===== src/Number/Digits.antt =====
-- What `read_float` of grbl/nuts_bolts.c reads from the digits of a number.
use tele_handwriter.Base.{
  ℕ, suc, ◌+◌, ◌-◌, ◌*◌, ◌≤◌, ◌<◌, ◌≡◌, ◌≢◌, refl, sym, subst, ap, ◌⊎◌, ◌∙◌, Bool, true, false,
  ◌==◌, leb, if◌then◌else◌, Option, some, none, List, [], ◌∷◌, ◌++◌, length, All, arith, sub8,
}
use tele_handwriter.Base.Int.{ℤ, pos, ◌-ℤ◌}
use tele_handwriter.Print.Decimal.{read_digits}
use tele_handwriter.Number.{
  Number, no_number, add_digit, scan, read_sign, read_decimal, max_int_digits,
}
use tele_handwriter.Number.Range.{
  InRange, no_number-InRange, point-InRange, exp-InRange, add_digit-InRange,
}

abbrev pub IsDigit : ℕ → Type 0
IsDigit ch = (48 ≤ ch) × (ch ≤ 57)

-- The number after digits that all fit, where `places` counts those after the point.
abbrev after_digits : List ℕ → Number → Number
after_digits ds n = record n {
  intval = read_digits 10 n.intval ds;
  ndigit = n.ndigit + length ds;
  exp = if n.isdecimal then n.exp -ℤ pos (length ds) else n.exp;
}

add_digit-after :
    (ch : ℕ) (n : Number)
    → IsDigit ch
    → n.ndigit + 1 ≤ max_int_digits
    → InRange n
    → add_digit (sub8 ch 48) n ≡ after_digits (ch ∷ []) n
unfolding add_digit
add_digit-after ch n d h r =
    let (down, up) = exp-InRange n (omega arith) r in ground (arith, d, h, r.fits, down)

minus_zero : (e : ℤ) → e -ℤ pos 0 ≡ e
unfolding ◌-ℤ◌
minus_zero e = ground arith

minus_more : (e : ℤ) (k : ℕ) → e -ℤ pos 1 -ℤ pos k ≡ e -ℤ pos (suc k)
unfolding ◌-ℤ◌
minus_more e k = ground arith

after_digits-none : (n : Number) → after_digits [] n ≡ n
after_digits-none n = ground (arith, minus_zero n.exp)

after_digits-cons :
    (ch : ℕ) (ds : List ℕ) (n : Number)
    → after_digits ds (after_digits (ch ∷ []) n) ≡ after_digits (ch ∷ ds) n
after_digits-cons ch ds n = ground (arith, minus_more n.exp (length ds))

scan-digit :
    (ch : ℕ) (rest : List ℕ) (n : Number) (count : ℕ)
    → IsDigit ch
    → scan (ch ∷ rest) n count ≡ scan rest (add_digit (sub8 ch 48) n) (count + 1)
unfolding scan
scan-digit ch rest n count d =
    let digit : leb (sub8 ch 48) 9 ≡ true = ground (arith, d) in simp digit

-- Digits that all fit are read as the number that they denote.
scan-digits :
    (ds rest : List ℕ) (n : Number) (count : ℕ)
    → All IsDigit ds
    → n.ndigit + length ds ≤ max_int_digits
    → InRange n
    → (scan (ds ++ rest) n count ≡ scan rest (after_digits ds n) (count + length ds))
      × InRange (after_digits ds n)
scan-digits [] rest n count d h r =
    let same = after_digits-none n in
    let total : count + 0 ≡ count = omega arith in
    (
      ap (λ k. scan rest n k) (sym total) ∙ ap (λ k. scan rest k (count + 0)) (sym same),
      subst InRange (sym same) r,
    )
scan-digits (ch ∷ ds) rest n count (d, each) h r =
    let one = after_digits (ch ∷ []) n in
    let added = add_digit-after ch n d (omega arith) r in
    let low : sub8 ch 48 ≤ 9 = omega arith in
    let ranged = subst InRange added (add_digit-InRange (sub8 ch 48) n low (omega arith) r).0 in
    let (e, s) = scan-digits ds rest one (count + 1) each (omega arith) ranged in
    let cons = after_digits-cons ch ds n in
    let total : count + 1 + length ds ≡ count + suc (length ds) = omega arith in
    (
      scan-digit ch (ds ++ rest) n count d
          ∙ ap (λ k. scan (ds ++ rest) k (count + 1)) added
          ∙ e
          ∙ ap (λ k. scan rest k (count + 1 + length ds)) cons
          ∙ ap (scan rest (after_digits (ch ∷ ds) n)) total,
      subst InRange cons s,
    )

scan-point :
    (rest : List ℕ) (n : Number) (count : ℕ)
    → n.isdecimal ≡ false
    → scan (46 ∷ rest) n count ≡ scan rest (record n { isdecimal = true }) (count + 1)
unfolding scan
scan-point rest n count e = simp e

-- A character that ends a number: not a digit, and not a point.
abbrev pub Ends : ℕ → Type 0
Ends ch = (ch < 256) × ((ch < 48) ⊎ (57 < ch)) × (ch ≢ 46)

scan-end :
    (ch : ℕ) (more : List ℕ) (n : Number) (count : ℕ)
    → Ends ch
    → scan (ch ∷ more) n count ≡ (n, count)
unfolding scan
scan-end ch more n count (h, d, p) =
    let other : leb (sub8 ch 48) 9 ≡ false = ground (arith, h, d) in
    let no_point : (sub8 ch 48 == 254) ≡ false = ground (arith, h, p) in simp (other, no_point)

-- No digit and no point is a sign.
read_sign-none : (ch : ℕ) (rest : List ℕ) → 46 ≤ ch → read_sign (ch ∷ rest) ≡ (false, ch ∷ rest, 0)
unfolding read_sign
read_sign-none ch rest h =
    let minus : (ch == 45) ≡ false = ground (arith, h) in
    let plus : (ch == 43) ≡ false = ground (arith, h) in simp (minus, plus)

read_digits-append :
    (acc : ℕ) (xs ys : List ℕ)
    → read_digits 10 (read_digits 10 acc xs) ys ≡ read_digits 10 acc (xs ++ ys)
read_digits-append acc [] ys = refl
read_digits-append acc (x ∷ xs) ys = read_digits-append (acc * 10 + (x - 48)) xs ys

-- The number with the digits of `whole` and, after the point, of `frac`.
abbrev pub decimal : List ℕ → List ℕ → Number
decimal whole frac = record {
  intval = read_digits 10 0 (whole ++ frac);
  exp = pos 0 -ℤ pos (length frac);
  ndigit = length whole + length frac;
  isdecimal = true;
}

scan-decimal :
    (whole frac more : List ℕ) (stop : ℕ)
    → All IsDigit whole
    → All IsDigit frac
    → length whole + length frac ≤ max_int_digits
    → Ends stop
    → scan (whole ++ 46 ∷ (frac ++ stop ∷ more)) no_number 0
      ≡ (decimal whole frac, length whole + 1 + length frac)
scan-decimal whole frac more stop v w h s =
    let rest = frac ++ stop ∷ more in
    let (e, r) = scan-digits whole (46 ∷ rest) no_number 0 v (omega arith) no_number-InRange in
    let read = after_digits whole no_number in
    let pointed = record read { isdecimal = true } in
    let count = 0 + length whole + 1 in
    let total : count + length frac ≡ length whole + 1 + length frac = omega arith in
    let (f, q) =
      scan-digits frac (stop ∷ more) pointed count w (omega arith) (point-InRange read r) in
    let digits = read_digits-append 0 whole frac in
    let last : after_digits frac pointed ≡ decimal whole frac = ground (arith, digits) in
    e
    ∙ scan-point rest read (0 + length whole) refl
    ∙ f
    ∙ scan-end stop more (after_digits frac pointed) (count + length frac) s
    ∙ ap (λ (n : Number). (n, count + length frac)) last
    ∙ ap (λ (k : ℕ). (decimal whole frac, k)) total

-- What `read_decimal` makes of the sign and of the number after it.
abbrev finish : ℕ → Bool → ℕ → Number × ℕ → Option (Bool × Number × ℕ)
finish char_counter isnegative sign read =
    if read.0.ndigit == 0 then none else some (isnegative, read.0, char_counter + sign + read.1)

read_decimal-finish :
    (char_counter : ℕ) (line rest : List ℕ) (isnegative : Bool) (sign : ℕ)
    → read_sign line ≡ (isnegative, rest, sign)
    → read_decimal char_counter line ≡ finish char_counter isnegative sign (scan rest no_number 0)
unfolding read_decimal
read_decimal-finish char_counter line rest isnegative sign e =
    ap (λ (s : Bool × List ℕ × ℕ). finish char_counter s.0 s.2 (scan s.1 no_number 0)) e

-- A decimal of at most eight digits, with one before the point at least, that ends at a character
-- that is neither a digit nor a point, is read as the number of its digits with the exponent minus
-- the digits after the point, and the counter is moved to the character that ends it.
pub read_decimal_lem :
    (char_counter first : ℕ) (whole frac more : List ℕ) (stop : ℕ)
    → All IsDigit (first ∷ whole)
    → All IsDigit frac
    → length (first ∷ whole) + length frac ≤ max_int_digits
    → Ends stop
    → read_decimal char_counter ((first ∷ whole) ++ 46 ∷ (frac ++ stop ∷ more))
      ≡ some (
        false,
        decimal (first ∷ whole) frac,
        char_counter + 0 + (length (first ∷ whole) + 1 + length frac),
      )
read_decimal_lem char_counter first whole frac more stop (v, vs) w h s =
    let digits = first ∷ whole in
    let text = digits ++ 46 ∷ (frac ++ stop ∷ more) in
    let some_digit : (length digits + length frac == 0) ≡ false = ground arith in
    read_decimal-finish char_counter text text false 0
      (read_sign-none first (whole ++ 46 ∷ (frac ++ stop ∷ more)) (omega arith))
    ∙ ap (finish char_counter false 0) (scan-decimal digits frac more stop (v, vs) w h s)
    ∙ simp some_digit
