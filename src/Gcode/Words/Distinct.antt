-- ===== src/Gcode/Words/Distinct.antt =====
-- The words of an accepted block of grbl/gcode.c have different modal groups and letters.
use tele_handwriter.Base.{
  ℕ, zero, suc, ◌^◌, ◌<◌, ◌≡◌, ◌⊎◌, refl, sym, ap, subst, ◌∙◌, Bool, true, false, Bool-cases, inl,
  inr, Option, none, some, ◌==◌, if◌then◌else◌, arith, bit_and, bit_or,
}
use tele_handwriter.Base.Bits.{bit_istrue}
use tele_handwriter.Base.Bits.Laws.{test-bit_or_hit, test-bit_or_stays, bit_and_self}
use tele_handwriter.Gcode.{Result, ok, fail, Block, Numbers}
use tele_handwriter.Gcode.Commands.{Command, g_command, m_command}
use tele_handwriter.Gcode.Commands.Groups.{g_group, m_group, IsIn, g_command-IsIn, m_command-IsIn}
use tele_handwriter.Gcode.Words.{take_command, take_value, g_word, m_word, value_word, parse_word}

-- The number of a value word.
abbrev pub value_bit : ℕ → ℕ
value_bit letter =
    if letter == b'F'
    then 0
    else if letter == b'I'
    then 1
    else if letter == b'J'
    then 2
    else if letter == b'K'
    then 3
    else if letter == b'L'
    then 4
    else if letter == b'N'
    then 5
    else if letter == b'P'
    then 6
    else if letter == b'R'
    then 7
    else if letter == b'S'
    then 8
    else if letter == b'T'
    then 9
    else if letter == b'X'
    then 10
    else if letter == b'Y'
    then 11
    else 12

two_pow_pos : (n : ℕ) → 0 < 2 ^ n
two_pow_pos zero = omega arith
two_pow_pos (suc n) = omega (arith, two_pow_pos n)

power_hits : (n : ℕ) → 0 < bit_and (2 ^ n) (2 ^ n)
power_hits n = omega (arith, bit_and_self (2 ^ n), two_pow_pos n)

-- Words that only gain the bit `2 ^ n`.
grows : (x n k : ℕ) → bit_istrue x (2 ^ k) ≡ true → bit_istrue (bit_or x (2 ^ n)) (2 ^ k) ≡ true
grows x n k h = ground (arith, h, test-bit_or_stays x (2 ^ n) (2 ^ k))

hits : (x n : ℕ) → bit_istrue (bit_or x (2 ^ n)) (2 ^ n) ≡ true
hits x n = ground (arith, test-bit_or_hit x (2 ^ n) (2 ^ n) (power_hits n))

-- A word's place: among the commands by its modal group, or among the values by its letter.
abbrev pub Slot : Type 0
Slot = Bool × ℕ

module _ {ℓ} {W : Type ℓ} where
  -- The words of the block hold one in that place.
  abbrev pub seen : Slot → Block W → Bool
  seen (true, n) b = bit_istrue b.command_words (2 ^ n)
  seen (false, n) b = bit_istrue b.value_words (2 ^ n)

  -- `q` has the words of `b` and a new one.
  abbrev pub Adds : Slot → Block W → Block W → Type 0
  Adds slot b q =
      (seen slot b ≡ false)
      × (seen slot q ≡ true)
      × ((s : Slot) → seen s b ≡ true → seen s q ≡ true)

  value_word-bit :
      (numbers : Numbers W) (letter : ℕ) (value : W) (b : Block W) (bit : ℕ) (n : Block W)
      → value_word numbers letter value b ≡ some (bit, n)
      → (bit ≡ value_bit letter)
        × (n.command_words ≡ b.command_words)
        × (n.value_words ≡ b.value_words)
  unfolding value_word
  value_word-bit numbers letter value b bit n e = ground (arith, e)

  take_command-words :
      (numbers : Numbers W) (c : Command W) (q : Block W)
      → take_command numbers (ok c) ≡ ok q
      → (bit_istrue c.block.command_words (2 ^ c.word_bit) ≡ false)
        × (q.command_words ≡ bit_or c.block.command_words (2 ^ c.word_bit))
        × (q.value_words ≡ c.block.value_words)
  unfolding take_command
  take_command-words numbers c q e = ground (arith, e)

  take_value-words :
      (numbers : Numbers W) (letter : ℕ) (value : W) (bit : ℕ) (n q : Block W)
      → take_value numbers letter value (some (bit, n)) ≡ ok q
      → (bit_istrue n.value_words (2 ^ bit) ≡ false)
        × (q.value_words ≡ bit_or n.value_words (2 ^ bit))
        × (q.command_words ≡ n.command_words)
  unfolding take_value
  take_value-words numbers letter value bit n q e = ground (arith, e)

  command-Adds :
      (b q : Block W) (n : ℕ)
      → bit_istrue b.command_words (2 ^ n) ≡ false
      → q.command_words ≡ bit_or b.command_words (2 ^ n)
      → q.value_words ≡ b.value_words
      → Adds (true, n) b q
  command-Adds b q n fresh commands values =
      (fresh, ap (λ w. bit_istrue w (2 ^ n)) commands ∙ hits b.command_words n, stays)
    where
      stays : (s : Slot) → seen s b ≡ true → seen s q ≡ true
      stays (true, k) h = ap (λ w. bit_istrue w (2 ^ k)) commands ∙ grows b.command_words n k h
      stays (false, k) h = ap (λ w. bit_istrue w (2 ^ k)) values ∙ h

  value-Adds :
      (b q : Block W) (n : ℕ)
      → bit_istrue b.value_words (2 ^ n) ≡ false
      → q.value_words ≡ bit_or b.value_words (2 ^ n)
      → q.command_words ≡ b.command_words
      → Adds (false, n) b q
  value-Adds b q n fresh values commands =
      (fresh, ap (λ w. bit_istrue w (2 ^ n)) values ∙ hits b.value_words n, stays)
    where
      stays : (s : Slot) → seen s b ≡ true → seen s q ≡ true
      stays (true, k) h = ap (λ w. bit_istrue w (2 ^ k)) commands ∙ h
      stays (false, k) h = ap (λ w. bit_istrue w (2 ^ k)) values ∙ grows b.value_words n k h

  -- A command that was taken adds its group to the words of the block that it came from.
  taken-Adds :
      (numbers : Numbers W) (group : ℕ) (b q : Block W) (r : Result (Command W))
      → ((c : Command W) → r ≡ ok c → IsIn group b c)
      → take_command numbers r ≡ ok q
      → Adds (true, group) b q
  unfolding take_command
  taken-Adds numbers group b q (fail status) h e = cc
  taken-Adds numbers group b q (ok c) h e =
      let (word, commands, values) = h c refl in
      let (fresh, more, same) = take_command-words numbers c q e in
      let power : 2 ^ c.word_bit ≡ 2 ^ group = ap (λ n. 2 ^ n) word in
      command-Adds b q group (ground (arith, fresh, power, commands))
        (ground (arith, more, power, commands)) (same ∙ values)

  module _ (numbers : Numbers W) where
    -- The place of a word.
    abbrev pub slot : ℕ → W → Slot
    slot letter value =
        if letter == b'G'
        then (true, g_group (numbers.int_value value) (numbers.mantissa value))
        else if letter == b'M'
        then (true, m_group (numbers.int_value value))
        else (false, value_bit letter)

    g_word-Adds :
        (value : W) (b q : Block W)
        → g_word numbers value b ≡ ok q
        → Adds (true, g_group (numbers.int_value value) (numbers.mantissa value)) b q
    unfolding g_word
    g_word-Adds value b q e =
        let int_value = numbers.int_value value in
        let mantissa = numbers.mantissa value in
        taken-Adds numbers (g_group int_value mantissa) b q (g_command int_value mantissa b)
          (λ c h. g_command-IsIn int_value mantissa b c h) e

    m_word-taken :
        (value : W) (b q : Block W)
        → m_word numbers value b ≡ ok q
        → take_command numbers (m_command (numbers.int_value value) b) ≡ ok q
    unfolding m_word
    m_word-taken value b q e = ground (arith, e)

    m_word-Adds :
        (value : W) (b q : Block W)
        → m_word numbers value b ≡ ok q
        → Adds (true, m_group (numbers.int_value value)) b q
    m_word-Adds value b q e =
        let int_value = numbers.int_value value in
        taken-Adds numbers (m_group int_value) b q (m_command int_value b)
          (λ c h. m_command-IsIn int_value b c h) (m_word-taken value b q e)

    value_word-Adds :
        (letter : ℕ) (value : W) (b q : Block W) (o : Option (ℕ × Block W))
        → value_word numbers letter value b ≡ o
        → take_value numbers letter value o ≡ ok q
        → Adds (false, value_bit letter) b q
    unfolding take_value
    value_word-Adds letter value b q none h e = cc
    value_word-Adds letter value b q (some (bit, n)) h e =
        let (word, commands, values) = value_word-bit numbers letter value b bit n h in
        let (fresh, more, same) = take_value-words numbers letter value bit n q e in
        let power : 2 ^ bit ≡ 2 ^ value_bit letter = ap (λ k. 2 ^ k) word in
        value-Adds b q (value_bit letter) (ground (arith, fresh, power, values))
          (ground (arith, more, power, values)) (same ∙ commands)

    -- The three kinds of words.
    parse_word-kinds :
        (letter : ℕ) (value : W) (b : Block W)
        → ((parse_word numbers letter value b ≡ g_word numbers value b)
            × (slot letter value
                ≡ (true, g_group (numbers.int_value value) (numbers.mantissa value))))
          ⊎ ((parse_word numbers letter value b ≡ m_word numbers value b)
              × (slot letter value ≡ (true, m_group (numbers.int_value value))))
          ⊎ ((parse_word numbers letter value b
                ≡ take_value numbers letter value (value_word numbers letter value b))
              × (slot letter value ≡ (false, value_bit letter)))
    unfolding parse_word
    parse_word-kinds letter value b = elim (Bool-cases (letter == b'G')) [
      | inl g ↦ inl (simp g, simp g)
      | inr g ↦ elim (Bool-cases (letter == b'M')) [
        | inl m ↦ inr (inl (simp (g, m), simp (g, m)))
        | inr m ↦ inr (inr (simp (g, m), simp (g, m)))
      ]
    ]

    -- An accepted word was not yet in its place, and stands there afterwards with all the others.
    pub parse_word-Adds :
        (letter : ℕ) (value : W) (b q : Block W)
        → parse_word numbers letter value b ≡ ok q
        → Adds (slot letter value) b q
    parse_word-Adds letter value b q e = elim (parse_word-kinds letter value b) [
      | inl (same, place) ↦
          subst (λ s. Adds s b q) (sym place) (g_word-Adds value b q (sym same ∙ e))
      | inr (inl (same, place)) ↦
          subst (λ s. Adds s b q) (sym place) (m_word-Adds value b q (sym same ∙ e))
      | inr (inr (same, place)) ↦
          subst (λ s. Adds s b q) (sym place)
            (value_word-Adds letter value b q (value_word numbers letter value b) refl
              (sym same ∙ e))
    ]
