-- ===== src/Gcode/Words/Fuel.antt =====
-- The loop over the words of a block in grbl/gcode.c, lines 117 to 335: how far it runs.
use tele_handwriter.Base.{
  ℕ, zero, suc, ◌+◌, ◌≤◌, ◌<◌, leb, ◌≡◌, refl, sym, ap, ◌∙◌, not, ◌&&◌, Option, none, some, List,
  [], ◌∷◌, ◌==◌, if◌then◌else◌, get_or, drop, length, arith,
}
use tele_handwriter.Number.{Floats, read_float}
use tele_handwriter.Number.Range.{read_float-forward}
use tele_handwriter.System.Commands.{status_bad_number_format}
use tele_handwriter.Gcode.{Result, ok, fail, Modal, Block, Numbers, status_expected_command_letter}
use tele_handwriter.Gcode.Words.{parse_word, parse_words, parse_block, empty_block}

get_or-past : (line : List ℕ) (c : ℕ) → length line ≤ c → get_or line c 0 ≡ 0
get_or-past [] c h = refl
get_or-past (x ∷ line) zero h = absurd (omega (arith, h))
get_or-past (x ∷ line) (suc c) h = get_or-past line c (omega (arith, h))

module _ {ℓ} {W : Type ℓ} (numbers : Numbers W) (floats : Floats W) (line : List ℕ) where
  -- What follows the number of a word, with the loop left to run as `again`.
  abbrev after_number :
      (again : ℕ → Block W → Result (Block W)) → ℕ → Block W → Option (W × ℕ) → Result (Block W)
  after_number again letter b o = elim o [
    | none ↦ fail status_bad_number_format
    | some (value, next) ↦ elim (parse_word numbers letter value b) [
      | fail status ↦ fail status
      | ok parsed ↦ again next parsed
    ]
  ]

  abbrev round : (again : ℕ → Block W → Result (Block W)) → ℕ → Block W → Result (Block W)
  round again c b =
      let letter = get_or line c 0 in
      if letter == 0
      then ok b
      else if not (leb b'A' letter && leb letter b'Z')
      then fail status_expected_command_letter
      else after_number again letter b (read_float floats (c + 1) (drop (c + 1) line))

  parse_words-round :
      (unended : Result (Block W)) (fuel c : ℕ) (b : Block W)
      → parse_words numbers floats unended (suc fuel) c line b
        ≡ round (λ next parsed. parse_words numbers floats unended fuel next line parsed) c b
  unfolding parse_words
  parse_words-round unended fuel c b = refl

  module _ (f g : ℕ → Block W → Result (Block W)) (letter c : ℕ) (b : Block W) where
    same_next :
        (value : W) (next : ℕ) (r : Result (Block W))
        → ((parsed : Block W) → f next parsed ≡ g next parsed)
        → (elim r as (λ r. Result (Block W)) [
          | fail status ↦ fail status
          | ok parsed ↦ f next parsed
        ])
          ≡ (elim r as (λ r. Result (Block W)) [
            | fail status ↦ fail status
            | ok parsed ↦ g next parsed
          ])
    same_next value next (fail status) h = refl
    same_next value next (ok parsed) h = h parsed

    same_after :
        (o : Option (W × ℕ))
        → ((value : W) (next : ℕ) (parsed : Block W)
            → o ≡ some (value, next)
            → f next parsed ≡ g next parsed)
        → after_number f letter b o ≡ after_number g letter b o
    same_after none h = refl
    same_after (some (value, next)) h =
        same_next value next (parse_word numbers letter value b)
          (λ parsed. h value next parsed refl)

  round-past :
      (f : ℕ → Block W → Result (Block W)) (c : ℕ) (b : Block W)
      → length line ≤ c
      → round f c b ≡ ok b
  round-past f c b h = let past = get_or-past line c h in simp past

  same_round :
      (f g : ℕ → Block W → Result (Block W)) (c : ℕ) (b : Block W)
      → ((next : ℕ) (parsed : Block W) → c + 1 ≤ next → f next parsed ≡ g next parsed)
      → round f c b ≡ round g c b
  same_round f g c b h =
      let letter = get_or line c 0 in
      let number = read_float floats (c + 1) (drop (c + 1) line) in
      ap
        (λ (o : Result (Block W)).
          if letter == 0
          then ok b
          else if not (leb b'A' letter && leb letter b'Z')
          then fail status_expected_command_letter
          else o)
        (same_after f g letter c b number (λ value next parsed e.
          h next parsed (read_float-forward floats (c + 1) (drop (c + 1) line) value next e)))

  parse_words-past :
      (unended : Result (Block W)) (fuel c : ℕ) (b : Block W)
      → length line ≤ c
      → parse_words numbers floats unended (suc fuel) c line b ≡ ok b
  parse_words-past unended fuel c b h =
      parse_words-round unended fuel c b
      ∙ round-past (λ next parsed. parse_words numbers floats unended fuel next line parsed) c b h

  -- Two amounts of fuel that both cover the rest of the line give the same result, whatever the
  -- results for a loop that has not ended are.
  parse_words-enough :
      (unended unending : Result (Block W)) (fuel other c : ℕ) (b : Block W)
      → length line ≤ c + fuel
      → length line ≤ c + other
      → parse_words numbers floats unended (suc fuel) c line b
        ≡ parse_words numbers floats unending (suc other) c line b
  parse_words-enough unended unending zero other c b h k =
      let past : length line ≤ c = omega (arith, h) in
      parse_words-past unended 0 c b past ∙ sym (parse_words-past unending other c b past)
  parse_words-enough unended unending (suc fuel) zero c b h k =
      let past : length line ≤ c = omega (arith, k) in
      parse_words-past unended (suc fuel) c b past ∙ sym (parse_words-past unending 0 c b past)
  parse_words-enough unended unending (suc fuel) (suc other) c b h k =
      parse_words-round unended (suc fuel) c b
      ∙ same_round (λ next parsed. parse_words numbers floats unended (suc fuel) next line parsed)
          (λ next parsed. parse_words numbers floats unending (suc other) next line parsed) c b
          (λ next parsed low.
            parse_words-enough unended unending fuel other next parsed (omega (arith, h, low))
              (omega (arith, k, low)))
      ∙ sym (parse_words-round unending (suc other) c b)

  -- The loop over the words of a block ends by itself: with any fuel above the length of the line, the
  -- outcome is that of the first two steps of the parser, whatever the line is, and whatever result
  -- stands for a loop that has not ended when the fuel is used up.
  pub parse_block-enough :
      (unended : Result (Block W)) (modal : Modal) (fuel : ℕ)
      → length line < fuel
      → let is_jog = get_or line 0 0 == b'$' in
        parse_words numbers floats unended fuel
          (if is_jog then 3 else 0)
          line
          (empty_block numbers is_jog modal)
        ≡ parse_block numbers floats modal line
  unfolding parse_block
  parse_block-enough unended modal zero h = absurd (omega (arith, h))
  parse_block-enough unended modal (suc fuel) h =
      let is_jog = get_or line 0 0 == b'$' in
      let start = if is_jog then 3 else 0 in
      parse_words-enough unended (fail status_bad_number_format) fuel (length line) start
        (empty_block numbers is_jog modal) (omega (arith, h)) (omega arith)
