-- ===== src/Number/Range.antt =====
-- The range of the numbers in `read_float` of grbl/nuts_bolts.c.
use tele_handwriter.Base.{
  ℕ, suc, ◌+◌, ◌*◌, ◌≤◌, ◌<◌, ◌≡◌, ap, subst, refl, Bool, true, false, not, ◌&&◌, ◌==◌, leb,
  if◌then◌else◌, if_ind, Option, some, none, List, [], ◌∷◌, length, arith, u8, sub8, zero,
}
use mathlib.Core.Option.{some-injective}
use tele_handwriter.Base.Int.{ℤ, pos, negsuc, pos_part, neg_part, ◌+ℤ◌, ◌-ℤ◌}
use tele_handwriter.Number.{
  Number, Floats, read_sign, no_number, i8, add_digit, scan, read_decimal, read_float, to_float,
  max_int_digits,
}

-- 10 ^ n
abbrev pub tens : ℕ → ℕ
tens zero = 1
tens (suc n) = 10 * tens n

-- The digits that were kept fit in eight places, and the exponent counts the others.
pub record InRange (n : Number) : Type 0 where
  pub fits : n.intval < tens max_int_digits
  pub early : n.ndigit ≤ max_int_digits → n.intval < tens n.ndigit
  pub places : neg_part n.exp ≤ max_int_digits
  pub counted : neg_part n.exp ≤ n.ndigit
  pub dropped : pos_part n.exp ≤ n.ndigit

tens_le : (a : ℕ) → a ≤ max_int_digits → tens a ≤ tens max_int_digits
tens_le zero h = omega arith
tens_le (suc zero) h = omega arith
tens_le (suc (suc zero)) h = omega arith
tens_le (suc (suc (suc zero))) h = omega arith
tens_le (suc (suc (suc (suc zero)))) h = omega arith
tens_le (suc (suc (suc (suc (suc zero))))) h = omega arith
tens_le (suc (suc (suc (suc (suc (suc zero)))))) h = omega arith
tens_le (suc (suc (suc (suc (suc (suc (suc zero))))))) h = omega arith
tens_le (suc (suc (suc (suc (suc (suc (suc (suc zero)))))))) h = omega arith
tens_le (suc (suc (suc (suc (suc (suc (suc (suc (suc a))))))))) h = absurd (omega arith)

tens_more : (a : ℕ) → tens (a + 1) ≡ 10 * tens a
tens_more a = let more : a + 1 ≡ suc a = omega arith in ap tens more

-- An integer of eight bits is kept by an int8_t.
i8_small : (e : ℤ) → neg_part e ≤ 128 → pos_part e ≤ 127 → i8 e ≡ e
unfolding i8
i8_small (pos n) low high = ground arith
i8_small (negsuc n) low high = ground arith

one_more :
    (e : ℤ)
    → (neg_part (e -ℤ pos 1) ≤ neg_part e + 1)
      × (pos_part (e -ℤ pos 1) ≤ pos_part e)
      × (neg_part (e +ℤ pos 1) ≤ neg_part e)
      × (pos_part (e +ℤ pos 1) ≤ pos_part e + 1)
unfolding ◌+ℤ◌ ◌-ℤ◌
one_more e = ground arith

-- One place more is kept by the int8_t exponent, after the point and before it.
pub exp-InRange :
    (n : Number)
    → n.ndigit + 1 < 128
    → InRange n
    → (i8 (n.exp -ℤ pos 1) ≡ n.exp -ℤ pos 1) × (i8 (n.exp +ℤ pos 1) ≡ n.exp +ℤ pos 1)
exp-InRange n k r =
    let (a, b, d, e) = one_more n.exp in
    (
      i8_small (n.exp -ℤ pos 1) (omega (arith, a, r.places, r.counted, k))
          (omega (arith, b, r.dropped, k)),
      i8_small (n.exp +ℤ pos 1) (omega (arith, d, r.places, r.counted, k))
          (omega (arith, e, r.dropped, k)),
    )

pub add_digit-InRange :
    (c : ℕ) (n : Number)
    → c ≤ 9
    → n.ndigit + 1 < 128
    → InRange n
    → InRange (add_digit c n) × ((add_digit c n).ndigit ≡ n.ndigit + 1)
unfolding add_digit
add_digit-InRange c n h k r =
    let (a, b, d, e) = one_more n.exp in
    let (down, up) = exp-InRange n k r in
    let count : u8 (n.ndigit + 1) ≡ n.ndigit + 1 = omega arith in
    let next = tens_more n.ndigit in
    let limit = tens_le (n.ndigit + 1) in
    let early = r.early in
    (
      record {
        fits = ground (arith, r.fits, early, count, next, limit);
        early = λ few. ground (arith, r.fits, early, count, next, limit);
        places = ground (arith, r.places, r.counted, count, a, d, down, up);
        counted = ground (arith, r.counted, count, a, d, down, up);
        dropped = ground (arith, r.dropped, count, b, e, down, up);
      },
      ground (arith, count),
    )

pub point-InRange : (n : Number) → InRange n → InRange (record n { isdecimal = true })
point-InRange n r = record {
  fits = r.fits;
  early = r.early;
  places = r.places;
  counted = r.counted;
  dropped = r.dropped;
}

abbrev scanned : List ℕ → Number → ℕ → Number
scanned cs n count = (scan cs n count).0

scan-InRange :
    (cs : List ℕ) (n : Number) (count : ℕ)
    → n.ndigit + length cs < 128
    → InRange n
    → InRange (scanned cs n count)
unfolding scan
scan-InRange [] n count h r = r
scan-InRange (ch ∷ rest) n count h r =
    let c = sub8 ch 48 in
    if_ind (λ (x : Number × ℕ). InRange x.0) (leb c 9) _ _
      (λ digit.
        let (s, e) = add_digit-InRange c n (ground (arith, digit)) (omega arith) r in
        scan-InRange rest (add_digit c n) (count + 1) (omega (arith, e)) s)
      λ other.
        if_ind (λ (x : Number × ℕ). InRange x.0) (c == 254 && not n.isdecimal) _ _
          (λ point.
            scan-InRange rest (record n { isdecimal = true }) (count + 1) (omega arith)
              (point-InRange n r))
          (λ stop. r)

pub no_number-InRange : InRange no_number
no_number-InRange = record {
  fits = omega arith;
  early = λ few. omega arith;
  places = omega arith;
  counted = omega arith;
  dropped = omega arith;
}

scan-count :
    (cs : List ℕ) (n : Number) (count : ℕ)
    → (count ≤ (scan cs n count).1) × ((scan cs n count).1 ≤ count + length cs)
unfolding scan
scan-count [] n count = omega arith
scan-count (ch ∷ rest) n count =
    let c = sub8 ch 48 in
    let point = record n { isdecimal = true } in
    ground (arith, scan-count rest (add_digit c n) (count + 1), scan-count rest point (count + 1))

read_sign-length : (line : List ℕ) → (read_sign line).2 + length (read_sign line).1 ≡ length line
unfolding read_sign
read_sign-length [] = refl
read_sign-length (ch ∷ rest) = ground arith

if_some {ℓ} : {A : Type ℓ} (b : Bool) (x y : A) → (if b then none else some x) ≡ some y → x ≡ y
if_some true x y e = cc
if_some false x y e = some-injective x y e

-- The counter never moves back, and moves by the length of the text at most.
read_decimal-forward :
    (char_counter : ℕ) (line : List ℕ) (number : Bool × Number × ℕ)
    → read_decimal char_counter line ≡ some number
    → (char_counter ≤ number.2) × (number.2 ≤ char_counter + length line)
unfolding read_decimal
read_decimal-forward char_counter line number e =
    let signed = read_sign line in
    let text = read_sign-length line in
    let (low, high) = scan-count signed.1 no_number 0 in
    let read = scan signed.1 no_number 0 in
    let found =
      if_some (read.0.ndigit == 0) (signed.0, read.0, char_counter + signed.2 + read.1) number e in
    let counter = ap (λ (t : Bool × Number × ℕ). t.2) found in
    (omega (arith, counter, low, high, text), omega (arith, counter, low, high, text))

-- A number that is read from a text shorter than 128 characters fits: its integer has at most eight
-- digits, the decimal exponent, an int8_t, lies between -8 and the number of digits, and the new
-- counter stands within the text.
pub read_decimal-InRange :
    (char_counter : ℕ) (line : List ℕ) (isnegative : Bool) (n : Number) (new_counter : ℕ)
    → length line < 128
    → read_decimal char_counter line ≡ some (isnegative, n, new_counter)
    → InRange n × (char_counter ≤ new_counter) × (new_counter ≤ char_counter + length line)
unfolding read_decimal
read_decimal-InRange char_counter line isnegative n new_counter h e =
    let signed = read_sign line in
    let text = read_sign-length line in
    let range = scan-InRange signed.1 no_number 0 (omega (arith, text)) no_number-InRange in
    let read = scan signed.1 no_number 0 in
    let found =
      if_some (read.0.ndigit == 0) (signed.0, read.0, char_counter + signed.2 + read.1)
        (isnegative, n, new_counter) e in
    let (forward, within) = read_decimal-forward char_counter line (isnegative, n, new_counter) e in
    (subst InRange (ap (λ (t : Bool × Number × ℕ). t.1) found) range, forward, within)

module _ {ℓ} {W : Type ℓ} (floats : Floats W) where
  forward :
      (char_counter : ℕ) (o : Option (Bool × Number × ℕ)) (value : W) (next : ℕ)
      → ((number : Bool × Number × ℕ) → o ≡ some number → char_counter ≤ number.2)
      → (elim o as (λ o. Option (W × ℕ)) [
        | none ↦ none
        | some number ↦ some (to_float floats number)
      ])
        ≡ some (value, next)
      → char_counter ≤ next
  unfolding to_float
  forward char_counter none value next h e = cc
  forward char_counter (some number) value next h e =
      subst (λ n. char_counter ≤ n)
        (ap (λ (t : W × ℕ). t.1) (some-injective (to_float floats number) (value, next) e))
        (h number refl)

  -- The counter that read_float leaves never stands before the one that it was given.
  pub read_float-forward :
      (char_counter : ℕ) (line : List ℕ) (value : W) (next : ℕ)
      → read_float floats char_counter line ≡ some (value, next)
      → char_counter ≤ next
  unfolding read_float
  read_float-forward char_counter line value next e =
      forward char_counter (read_decimal char_counter line) value next
        (λ number d. (read_decimal-forward char_counter line number d).0) e
