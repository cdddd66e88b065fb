-- ===== src/Gcode/Line/Work/Convert.antt =====
-- What the checks of grbl/gcode.c make of the axis words of a block, lines 365 to 511.
use tele_handwriter.Base.{
  ℕ, zero, suc, ◌^◌, ◌<◌, ◌≡◌, ◌≢◌, inl, inr, ◌∙◌, ap, true, Option-cases, if◌then◌else◌, arith,
}
use tele_handwriter.Base.Bits.{bit_istrue}
use tele_handwriter.Gcode.State.{at, xyz, Arithmetic, Parser, Coords, Checked, pass}
use tele_handwriter.Gcode.Offsets.{inches, convert_units, check_tool_length, check_coord_system}
use tele_handwriter.Gcode.Check.Stages.{Stages}
use tele_handwriter.Gcode.Check.{
  imply_motion, check_line_number, check_feed, feed_per_min, keep_speed, check_dwell,
}
use tele_handwriter.Gcode.Line.Work.{SystemKept, if_true}

module _ {ℓ} {W : Type ℓ} (arithmetic : Arithmetic W) where
  -- What the checks keep up to the non-modal commands, with the values in millimeters.
  pub record IsConverted (c d : Checked W) : Type ℓ where
    pub same_modal : d.block.modal ≡ c.block.modal
    pub same_non_modal : d.block.non_modal_command ≡ c.block.non_modal_command
    pub same_words : d.block.axis_words ≡ c.block.axis_words
    pub same_command : d.block.axis_command ≡ c.block.axis_command
    pub same_flags : d.parser_flags ≡ c.parser_flags
    pub converted :
        (idx : ℕ)
        → bit_istrue c.block.axis_words (2 ^ idx) ≡ true
        → idx < 3
        → at (xyz d.block.values) idx
          ≡ inches arithmetic c.block.modal (at (xyz c.block.values) idx)

  before_units :
      (gc : Parser W) (c numbered fed waiting : Checked W)
      → c.block.axis_command ≢ 0
      → check_line_number (imply_motion c) ≡ pass numbered
      → check_feed arithmetic gc numbered ≡ pass fed
      → check_dwell (keep_speed arithmetic gc fed) ≡ pass waiting
      → (waiting.block.modal ≡ c.block.modal)
        × (waiting.block.non_modal_command ≡ c.block.non_modal_command)
        × (waiting.block.axis_words ≡ c.block.axis_words)
        × (waiting.block.axis_command ≡ c.block.axis_command)
        × (waiting.parser_flags ≡ c.parser_flags)
        × (xyz waiting.block.values ≡ xyz c.block.values)
  unfolding check_line_number imply_motion check_feed feed_per_min check_dwell keep_speed
  before_units gc c numbered fed waiting a e f g = ground (arith, a, e, f, g)

  converted-at :
      (c d : Checked W) (idx : ℕ)
      → check_tool_length arithmetic (convert_units arithmetic c) ≡ pass d
      → idx < 3
      → at (xyz d.block.values) idx ≡ (
          if bit_istrue c.block.axis_words (2 ^ idx)
          then inches arithmetic c.block.modal (at (xyz c.block.values) idx)
          else at (xyz c.block.values) idx)
  unfolding check_tool_length convert_units
  converted-at c d zero e l = ground (arith, e)
  converted-at c d (suc zero) e l = ground (arith, e)
  converted-at c d (suc (suc zero)) e l = ground (arith, e)
  converted-at c d (suc (suc (suc idx))) e l = absurd (omega (arith, l))

  check_tool_length-same :
      (c d : Checked W)
      → check_tool_length arithmetic (convert_units arithmetic c) ≡ pass d
      → (d.block.modal ≡ c.block.modal)
        × (d.block.non_modal_command ≡ c.block.non_modal_command)
        × (d.block.axis_words ≡ c.block.axis_words)
        × (d.block.axis_command ≡ c.block.axis_command)
        × (d.parser_flags ≡ c.parser_flags)
  unfolding check_tool_length convert_units
  check_tool_length-same c d e = ground (arith, e)

  check_coord_system-same :
      (coords : Coords W) (gc : Parser W) (c d : Checked W)
      → check_coord_system arithmetic coords gc c ≡ pass d
      → (d.block ≡ c.block) × (d.parser_flags ≡ c.parser_flags) × SystemKept gc d
  unfolding check_coord_system
  check_coord_system-same coords gc c d e =
      elim (Option-cases (coords c.block.modal.coord_select)) [
        | inl unreadable ↦ ground (arith, e, unreadable)
        | inr (system, found) ↦ ground (arith, e, found)
      ]

  -- From the words of a block to the non-modal commands.
  pub located-IsConverted :
      (coords : Coords W) (gc : Parser W) (c d : Checked W) (t : Stages arithmetic coords gc c d)
      → c.block.axis_command ≢ 0
      → IsConverted c t.located × SystemKept gc t.located
  located-IsConverted coords gc c d t a =
      let waiting = t.waiting in
      let tooled = t.tooled in
      let h = t.tools in
      let (modal, non_modal, words, command, flags, values) =
        before_units gc c t.numbered t.fed waiting a t.numbers t.feeds t.waits in
      let (modal_2, non_modal_2, words_2, command_2, flags_2) =
        check_tool_length-same waiting tooled h in
      let (block, flags_3, system) = check_coord_system-same coords gc tooled t.located t.locates in
      (
        record {
          same_modal = ap (λ b. b.modal) block ∙ modal_2 ∙ modal;
          same_non_modal = ap (λ b. b.non_modal_command) block ∙ non_modal_2 ∙ non_modal;
          same_words = ap (λ b. b.axis_words) block ∙ words_2 ∙ words;
          same_command = ap (λ b. b.axis_command) block ∙ command_2 ∙ command;
          same_flags = flags_3 ∙ flags_2 ∙ flags;
          converted = λ idx given l.
              ap (λ b. at (xyz b.values) idx) block
              ∙ converted-at waiting tooled idx h l
              ∙ if_true (bit_istrue waiting.block.axis_words (2 ^ idx)) _ _
                  (ap (λ w. bit_istrue w (2 ^ idx)) words ∙ given)
              ∙ ap (λ m. inches arithmetic m (at (xyz waiting.block.values) idx)) modal
              ∙ ap (λ v. inches arithmetic c.block.modal (at v idx)) values;
        },
        system,
      )
