-- ===== src/Gcode/Words/Accepted.antt =====
-- The text of an accepted block of grbl/gcode.c: its words, and that none repeats another.
use tele_handwriter.Base.{
  ℕ, zero, suc, ◌+◌, leb, ◌≡◌, ◌≢◌, refl, sym, ap, subst, ◌∙◌, Bool, true, false, ◌&&◌, Bool-cases,
  inl, inr, Option, none, some, List, [], ◌∷◌, ◌==◌, if◌then◌else◌, get_or, drop, length, All,
}
use mathlib.Core.Bool.{false≢true}
use tele_handwriter.Number.{Floats, read_float}
use tele_handwriter.System.Commands.{status_bad_number_format}
use tele_handwriter.Gcode.{Result, ok, fail, Modal, Block, Numbers, status_expected_command_letter}
use tele_handwriter.Gcode.Words.{parse_word, parse_words, parse_block, empty_block}
use tele_handwriter.Gcode.Words.Distinct.{Slot, slot, seen, parse_word-Adds}

module _ {ℓ} {W : Type ℓ} (numbers : Numbers W) where
  -- The words of a text from a position on, each a letter with a number; nothing else is checked.
  unfoldable pub words : Floats W → (fuel char_counter : ℕ) → List ℕ → Option (List (ℕ × W))
  words floats zero char_counter line = none
  words floats (suc fuel) char_counter line =
      let letter = get_or line char_counter 0 in
      if letter == 0
      then some []
      else elim (read_float floats (char_counter + 1) (drop (char_counter + 1) line)) [
        | none ↦ none
        | some (value, next) ↦ elim (words floats fuel next line) [
          | none ↦ none
          | some rest ↦ some ((letter, value) ∷ rest)
        ]
      ]

  -- No two words have the same place.
  abbrev pub AllDistinct : List (ℕ × W) → Type 0
  AllDistinct [] = Unit
  AllDistinct ((letter, value) ∷ rest) =
      All (λ (w : ℕ × W). slot numbers letter value ≢ slot numbers w.0 w.1) rest × AllDistinct rest

  -- The words of the list are new to the block and to each other.
  abbrev Fresh : Block W → List (ℕ × W) → Type 0
  Fresh b ws = All (λ (w : ℕ × W). seen (slot numbers w.0 w.1) b ≡ false) ws × AllDistinct ws

  -- What is not in a later block is not in an earlier one.
  fresh_before :
      (b q : Block W) (ws : List (ℕ × W))
      → ((s : Slot) → seen s b ≡ true → seen s q ≡ true)
      → All (λ (w : ℕ × W). seen (slot numbers w.0 w.1) q ≡ false) ws
      → All (λ (w : ℕ × W). seen (slot numbers w.0 w.1) b ≡ false) ws
  fresh_before b q [] grows h = tt
  fresh_before b q (w ∷ ws) grows (h, hs) =
      let place = slot numbers w.0 w.1 in
      let earlier : seen place b ≡ false = elim (Bool-cases (seen place b)) [
        | inl present ↦ absurd (false≢true (sym h ∙ grows place present))
        | inr absent ↦ absent
      ] in
      (earlier, fresh_before b q ws grows hs)

  apart :
      (place : Slot) (q : Block W) (ws : List (ℕ × W))
      → seen place q ≡ true
      → All (λ (w : ℕ × W). seen (slot numbers w.0 w.1) q ≡ false) ws
      → All (λ (w : ℕ × W). place ≢ slot numbers w.0 w.1) ws
  apart place q [] s h = tt
  apart place q (w ∷ ws) s (h, hs) =
      (λ e. false≢true (sym h ∙ ap (λ p. seen p q) (sym e) ∙ s), apart place q ws s hs)

  Fresh-cons :
      (letter : ℕ) (value : W) (b q : Block W) (ws : List (ℕ × W))
      → parse_word numbers letter value b ≡ ok q
      → Fresh q ws
      → Fresh b ((letter, value) ∷ ws)
  Fresh-cons letter value b q ws e (fresh, distinct) =
      let (first, there, grows) = parse_word-Adds numbers letter value b q e in
      (
        (first, fresh_before b q ws grows fresh),
        (apart (slot numbers letter value) q ws there fresh, distinct),
      )

  -- The rest of a round of the loop, after the number was read.
  abbrev round : Floats W → ℕ → List ℕ → ℕ → Block W → Option (W × ℕ) → Result (Block W)
  round floats fuel line letter b o = elim o [
    | none ↦ fail status_bad_number_format
    | some (value, next) ↦ elim (parse_word numbers letter value b) [
      | fail status ↦ fail status
      | ok parsed ↦ parse_words numbers floats (fail status_bad_number_format) fuel next line parsed
    ]
  ]

  -- The same for `words`.
  abbrev words_round : Floats W → ℕ → List ℕ → ℕ → Option (W × ℕ) → Option (List (ℕ × W))
  words_round floats fuel line letter o = elim o [
    | none ↦ none
    | some (value, next) ↦ elim (words floats fuel next line) [
      | none ↦ none
      | some rest ↦ some ((letter, value) ∷ rest)
    ]
  ]

  -- A text that is accepted from the block `b` on has words that are new to `b` and distinct.
  abbrev Accepts : Block W → Option (List (ℕ × W)) → Type ℓ
  Accepts b o = (ws : List (ℕ × W)) × (o ≡ some ws) × Fresh b ws

  abbrev is_letter : ℕ → Bool
  is_letter letter = leb b'A' letter && leb letter b'Z'

  parse_words-letter :
      (floats : Floats W) (fuel char_counter : ℕ) (line : List ℕ) (b : Block W)
      → (get_or line char_counter 0 == 0) ≡ false
      → is_letter (get_or line char_counter 0) ≡ true
      → parse_words numbers floats (fail status_bad_number_format) (suc fuel) char_counter line b
        ≡ round floats fuel line
            (get_or line char_counter 0)
            b
            (read_float floats (char_counter + 1) (drop (char_counter + 1) line))
  unfolding parse_words
  parse_words-letter floats fuel char_counter line b more upper = simp (more, upper)

  parse_words-other :
      (floats : Floats W) (fuel char_counter : ℕ) (line : List ℕ) (b : Block W)
      → (get_or line char_counter 0 == 0) ≡ false
      → is_letter (get_or line char_counter 0) ≡ false
      → parse_words numbers floats (fail status_bad_number_format) (suc fuel) char_counter line b
        ≡ fail status_expected_command_letter
  unfolding parse_words
  parse_words-other floats fuel char_counter line b more other = simp (more, other)

  parse_words-round :
      (floats : Floats W) (fuel char_counter : ℕ) (line : List ℕ) (b q : Block W)
      → (get_or line char_counter 0 == 0) ≡ false
      → parse_words numbers floats (fail status_bad_number_format) (suc fuel) char_counter line b
        ≡ ok q
      → round floats fuel line
          (get_or line char_counter 0)
          b
          (read_float floats (char_counter + 1) (drop (char_counter + 1) line))
        ≡ ok q
  parse_words-round floats fuel char_counter line b q more e =
      elim (Bool-cases (is_letter (get_or line char_counter 0))) [
        | inl upper ↦ sym (parse_words-letter floats fuel char_counter line b more upper) ∙ e
        | inr other ↦
            let refused = sym (parse_words-other floats fuel char_counter line b more other) ∙ e in
            cc
      ]

  words-round :
      (floats : Floats W) (fuel char_counter : ℕ) (line : List ℕ)
      → (get_or line char_counter 0 == 0) ≡ false
      → words floats (suc fuel) char_counter line
        ≡ words_round floats fuel line
            (get_or line char_counter 0)
            (read_float floats (char_counter + 1) (drop (char_counter + 1) line))
  unfolding words
  words-round floats fuel char_counter line more = simp more

  words-end :
      (floats : Floats W) (fuel char_counter : ℕ) (line : List ℕ)
      → (get_or line char_counter 0 == 0) ≡ true
      → words floats (suc fuel) char_counter line ≡ some []
  unfolding words
  words-end floats fuel char_counter line last = simp last

  -- The texts after this word are accepted as the induction says.
  module _ (floats : Floats W) (fuel : ℕ) (line : List ℕ) (q : Block W) where
    abbrev Induction : Type ℓ
    Induction =
        (next : ℕ) (parsed : Block W)
        → parse_words numbers floats (fail status_bad_number_format) fuel next line parsed ≡ ok q
        → Accepts parsed (words floats fuel next line)

    continues :
        (again : Induction) (b : Block W) (letter : ℕ) (value : W) (next : ℕ) (r : Result (Block W))
        → parse_word numbers letter value b ≡ r
        → (elim r as (λ r. Result (Block W)) [
          | fail status ↦ fail status
          | ok parsed ↦
              parse_words numbers floats (fail status_bad_number_format) fuel next line parsed
        ])
          ≡ ok q
        → Accepts b (words_round floats fuel line letter (some (value, next)))
    continues again b letter value next (fail status) h f = cc
    continues again b letter value next (ok parsed) h f =
        let (ws, same, fresh) = again next parsed f in
        (
          (letter, value) ∷ ws,
          ap (λ o. elim o [ none ↦ none | some rest ↦ some ((letter, value) ∷ rest) ]) same,
          Fresh-cons letter value b parsed ws h fresh,
        )

    ends :
        (again : Induction) (b : Block W) (letter : ℕ) (o : Option (W × ℕ))
        → round floats fuel line letter b o ≡ ok q
        → Accepts b (words_round floats fuel line letter o)
    ends again b letter none f = cc
    ends again b letter (some (value, next)) f =
        continues again b letter value next (parse_word numbers letter value b) refl f

  parse_words-Accepts :
      (floats : Floats W) (fuel char_counter : ℕ) (line : List ℕ) (b q : Block W)
      → parse_words numbers floats (fail status_bad_number_format) fuel char_counter line b ≡ ok q
      → Accepts b (words floats fuel char_counter line)
  unfolding parse_words
  parse_words-Accepts floats zero char_counter line b q e = cc
  parse_words-Accepts floats (suc fuel) char_counter line b q e =
      let letter = get_or line char_counter 0 in
      let number = read_float floats (char_counter + 1) (drop (char_counter + 1) line) in
      elim (Bool-cases (letter == 0)) [
        | inl last ↦ ([], words-end floats fuel char_counter line last, (tt, tt))
        | inr more ↦ subst (Accepts b) (sym (words-round floats fuel char_counter line more)) (
            ends floats fuel line q
              (λ next parsed. parse_words-Accepts floats fuel next line parsed q) b letter number
              (parse_words-round floats fuel char_counter line b q more e))
      ]

  -- A block that passes the first two steps of the parser consists of words, each a letter with a
  -- number, and no modal group and no value letter occurs in it twice.
  pub parse_block-AllDistinct :
      (floats : Floats W) (modal : Modal) (line : List ℕ) (q : Block W)
      → parse_block numbers floats modal line ≡ ok q
      → (ws : List (ℕ × W)) × (words floats
            (suc (length line))
            (if get_or line 0 0 == b'$' then 3 else 0)
            line
          ≡ some ws)
        × AllDistinct ws
  unfolding parse_block
  parse_block-AllDistinct floats modal line q e =
      let is_jog = get_or line 0 0 == b'$' in
      let (ws, same, fresh) =
        parse_words-Accepts floats (suc (length line)) (if is_jog then 3 else 0) line
          (empty_block numbers is_jog modal) q e in
      (ws, same, fresh.1)
