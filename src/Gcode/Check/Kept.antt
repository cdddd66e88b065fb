-- ===== src/Gcode/Check/Kept.antt =====
-- The value words that the steps of the error check of grbl/gcode.c up to its motion modes keep.
use tele_handwriter.Base.{
  ℕ, zero, suc, ◌-◌, ◌^◌, ◌<◌, ltb, ◌≡◌, inl, inr, refl, ◌∙◌, ap, Bool, true, false, not, ◌&&◌,
  ◌||◌, Bool-cases, Option-cases, ◌==◌, if◌then◌else◌, arith, bit_and,
}
use tele_handwriter.Base.Bits.{bit_istrue}
use tele_handwriter.Base.Bits.Laws.{test-bit_and_keep}
use tele_handwriter.Gcode.State.{Arithmetic, Parser, Coords, Checked, pass, bit_false}
use tele_handwriter.Gcode.Offsets.{
  convert_units, check_tool_length, check_coord_system, set_coordinate_data, change_data,
  set_coordinate_offset, set_target, go_home, check_target, check_non_modal,
}
use tele_handwriter.Gcode.Check.{
  imply_motion, check_line_number, check_feed, feed_per_min, keep_speed, check_dwell,
}

abbrev below : (ℕ → Bool) → ℕ → Bool
below f zero = true
below f (suc n) = f n && below f n

below_at : (f : ℕ → Bool) (n k : ℕ) → below f n ≡ true → k < n → f k ≡ true
below_at f zero k h l = absurd (omega (arith, l))
below_at f (suc n) k h l = elim (Bool-cases (k == n)) [
  | inl last ↦ ground (arith, h, last)
  | inr earlier ↦ below_at f n k (ground (arith, h)) (ground (arith, l, earlier))
]

-- Clearing `mask` keeps the other words: true of each of the masks of the code.
abbrev keeps_others : ℕ → ℕ → Bool
keeps_others mask k = bit_istrue mask (2 ^ k) || bit_and (65535 - mask) (2 ^ k) == 2 ^ k

pub stays :
    (mask x k : ℕ)
    → below (keeps_others mask) 13 ≡ true
    → k < 13
    → bit_istrue mask (2 ^ k) ≡ false
    → bit_istrue (bit_false x mask) (2 ^ k) ≡ bit_istrue x (2 ^ k)
stays mask x k all l free =
    let whole = below_at (keeps_others mask) 13 k all l in
    let same : bit_and (65535 - mask) (2 ^ k) ≡ 2 ^ k = ground (arith, whole, free) in
    ap (λ n. not (n == 0)) (test-bit_and_keep x (65535 - mask) (2 ^ k) same)

module _ {ℓ} {W : Type ℓ} (k : ℕ) where
  abbrev pub has : Checked W → Bool
  has c = bit_istrue c.block.value_words (2 ^ k)

  -- From `c` to `d` the word number `k` is kept, unless it may be cleared, and so is what the later
  -- stages ask for.
  pub record Keeps (cleared : Bool) (c d : Checked W) : Type ℓ where
    pub kept : cleared ≡ false → has d ≡ has c
    pub same_radius : bit_istrue d.block.value_words 0x80 ≡ bit_istrue c.block.value_words 0x80
    pub same_non_modal : d.block.non_modal_command ≡ c.block.non_modal_command
    pub same_motion : d.block.modal.motion ≡ c.block.modal.motion
    pub same_jog : d.parser_flags ≡ c.parser_flags

  Keeps-trans : (x y : Bool) (c d e : Checked W) → Keeps x c d → Keeps y d e → Keeps (x || y) c e
  Keeps-trans x y c d e f g = record {
    kept = λ h. g.kept (ground (arith, h)) ∙ f.kept (ground (arith, h));
    same_radius = g.same_radius ∙ f.same_radius;
    same_non_modal = g.same_non_modal ∙ f.same_non_modal;
    same_motion = g.same_motion ∙ f.same_motion;
    same_jog = g.same_jog ∙ f.same_jog;
  }

  pub first-Keeps :
      (c d : Checked W) → check_line_number (imply_motion c) ≡ pass d → Keeps false c d
  unfolding check_line_number imply_motion
  first-Keeps c d e = ground (arith, e)

module _ {ℓ} {W : Type ℓ} (arithmetic : Arithmetic W) (gc : Parser W) (k : ℕ) (l : k < 13) where
  pub check_feed-Keeps : (c d : Checked W) → check_feed arithmetic gc c ≡ pass d → Keeps k false c d
  unfolding check_feed feed_per_min
  check_feed-Keeps c d e = ground (arith, e)

  pub check_dwell-Keeps :
      (c d : Checked W)
      → check_dwell (keep_speed arithmetic gc c) ≡ pass d
      → Keeps k (c.block.non_modal_command == 4 && bit_istrue 0x40 (2 ^ k)) c d
  unfolding check_dwell keep_speed
  check_dwell-Keeps c d e =
      let x = c.block.value_words in
      let kept = stays 0x40 x k refl l in
      let radius = stays 0x40 x 7 refl (omega arith) refl in ground (arith, e, kept, radius)

  pub check_tool_length-Keeps :
      (c d : Checked W)
      → check_tool_length arithmetic (convert_units arithmetic c) ≡ pass d
      → Keeps k false c d
  unfolding check_tool_length convert_units
  check_tool_length-Keeps c d e = ground (arith, e)

  pub check_coord_system-Keeps :
      (coords : Coords W) (c d : Checked W)
      → check_coord_system arithmetic coords gc c ≡ pass d
      → Keeps k false c d
  unfolding check_coord_system
  check_coord_system-Keeps coords c d e = elim (Option-cases (coords c.block.modal.coord_select)) [
    | inl unreadable ↦ ground (arith, e, unreadable)
    | inr (system, found) ↦ ground (arith, e, found)
  ]

  change_data-Keeps :
      (coords : Coords W) (i : ℕ) (c d : Checked W)
      → change_data arithmetic coords gc i c ≡ pass d
      → Keeps k (bit_istrue 0x50 (2 ^ k)) c d
  unfolding change_data
  change_data-Keeps coords i c d e =
      let x = c.block.value_words in
      let kept = stays 0x50 x k refl l in
      let radius = stays 0x50 x 7 refl (omega arith) refl in
      elim (Option-cases (coords i)) [
        | inl unreadable ↦ ground (arith, e, unreadable)
        | inr (system, found) ↦ ground (arith, e, found, kept, radius)
      ]

  go_home-Keeps :
      (coords : Coords W) (i : ℕ) (c d : Checked W)
      → go_home arithmetic coords gc i c ≡ pass d
      → Keeps k false c d
  unfolding go_home
  go_home-Keeps coords i c d e = elim (Option-cases (coords i)) [
    | inl unreadable ↦ ground (arith, e, unreadable)
    | inr (system, found) ↦ ground (arith, e, found)
  ]

  set_target-Keeps : (c : Checked W) → Keeps k false c (set_target arithmetic gc c)
  unfolding set_target
  set_target-Keeps c = ground arith

  check_target-Keeps :
      (coords : Coords W) (c d : Checked W)
      → check_target arithmetic coords gc c ≡ pass d
      → Keeps k false c d
  unfolding check_target
  check_target-Keeps coords c d e =
      let aimed = set_target arithmetic gc c in
      let start = set_target-Keeps c in
      let first = go_home-Keeps coords 6 aimed d in
      let second = go_home-Keeps coords 7 aimed d in
      let home_first = λ (h : go_home arithmetic coords gc 6 aimed ≡ pass d).
        Keeps-trans k false false c aimed d start (first h) in
      let home_second = λ (h : go_home arithmetic coords gc 7 aimed ≡ pass d).
        Keeps-trans k false false c aimed d start (second h) in
      ground (arith, e, start, home_first, home_second)

  set_coordinate_data-Keeps :
      (coords : Coords W) (c d : Checked W)
      → set_coordinate_data arithmetic coords gc c ≡ pass d
      → Keeps k (bit_istrue 0x50 (2 ^ k)) c d
  unfolding set_coordinate_data
  set_coordinate_data-Keeps coords c d e =
      let number = arithmetic.byte c.block.values.p in
      let select = if ltb 0 number then number - 1 else c.block.modal.coord_select in
      let changed = change_data-Keeps coords select c d in ground (arith, e, changed)

  pub check_non_modal-Keeps :
      (coords : Coords W) (c d : Checked W)
      → check_non_modal arithmetic coords gc c ≡ pass d
      → Keeps k (c.block.non_modal_command == 10 && bit_istrue 0x50 (2 ^ k)) c d
  unfolding check_non_modal set_coordinate_offset
  check_non_modal-Keeps coords c d e =
      let changed = set_coordinate_data-Keeps coords c d in
      let aimed = check_target-Keeps coords c d in ground (arith, e, changed, aimed)
