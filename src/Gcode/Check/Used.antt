-- ===== src/Gcode/Check/Used.antt =====
-- The value words of a block that passes the error check of grbl/gcode.c.
use tele_handwriter.Base.{
  ℕ, ◌^◌, ◌<◌, ◌≡◌, ◌≢◌, ◌⊎◌, inl, inr, refl, Bool, true, false, not, ◌&&◌, ◌||◌, Bool-cases, ◌==◌,
  if◌then◌else◌, arith, bit_or,
}
use tele_handwriter.Base.Bits.{bit_istrue}
use tele_handwriter.Base.Bits.Laws.{zero-bit_and, test-bit_or_miss}
use tele_handwriter.Gcode.State.{Arithmetic, Parser, Coords, Checked, pass, bit_false}
use tele_handwriter.Gcode.Arcs.{radius_arc, offset_arc, check_arc, check_probe}
use tele_handwriter.Gcode.Check.Stages.{Stages, check_block-Stages}
use tele_handwriter.Gcode.Check.{is_jog, check_motion, check_feed_motion, check_unused, check_block}
use tele_handwriter.Gcode.Check.Kept.{
  stays, has, first-Keeps, check_feed-Keeps, check_dwell-Keeps, check_tool_length-Keeps,
  check_coord_system-Keeps, check_non_modal-Keeps, Keeps,
}

-- The words that every block uses, and the ones that go with an axis command.
abbrev plain_words : (is_jog has_command : Bool) → ℕ → Bool
plain_words is_jog has_command k =
    (if is_jog then bit_istrue 0x21 (2 ^ k) else bit_istrue 0x321 (2 ^ k))
    || (has_command && bit_istrue 0x1C00 (2 ^ k))

module _ {ℓ} {W : Type ℓ} where
  -- The words that an arc may clear.
  abbrev arc_words : ℕ → Checked W → Bool
  arc_words k c =
      if bit_istrue c.block.value_words 0x80
      then bit_istrue 0x80 (2 ^ k)
      else bit_istrue 0xE (2 ^ k)

  abbrev is_arc : Checked W → Bool
  is_arc d = d.block.axis_command == 2 && (d.block.modal.motion == 2 || d.block.modal.motion == 3)

module _ {ℓ} {W : Type ℓ} (arithmetic : Arithmetic W) (gc : Parser W) (k : ℕ) (l : k < 13) where
  check_arc-kept :
      (c d : Checked W)
      → check_arc arithmetic gc c ≡ pass d
      → (arc_words k c ≡ false → has k d ≡ has k c)
        × (d.block.axis_command ≡ c.block.axis_command)
        × (d.block.modal.motion ≡ c.block.modal.motion)
        × (is_jog d ≡ is_jog c)
  unfolding check_arc radius_arc offset_arc
  check_arc-kept c d e =
      let x = c.block.value_words in
      let radius = stays 0x80 x k refl l in
      let offset = stays 0xE x k refl l in
      let same_flag = test-bit_or_miss c.parser_flags 4 1 refl in
      ground (arith, e, radius, offset, same_flag)

  check_probe-kept :
      (c d : Checked W)
      → check_probe arithmetic gc c ≡ pass d
      → (has k d ≡ has k c) × (is_jog d ≡ is_jog c)
  unfolding check_probe
  check_probe-kept c d e =
      let f = c.parser_flags in
      let zero_miss = test-bit_or_miss f 0 1 refl in
      let calm_miss = test-bit_or_miss f 16 1 refl in
      let away = λ (g : ℕ). test-bit_or_miss g 8 1 refl in
      let none_away = λ (g : ℕ). test-bit_or_miss g 0 1 refl in
      ground (
        arith,
        e,
        zero_miss,
        calm_miss,
        away (bit_or f 0),
        away (bit_or f 16),
        none_away (bit_or f 0),
        none_away (bit_or f 16),
      )

  check_probe-motion :
      (c d : Checked W)
      → check_probe arithmetic gc c ≡ pass d
      → d.block.modal.motion ≡ c.block.modal.motion
  unfolding check_probe
  check_probe-motion c d e = ground (arith, e)

  check_motion-kept :
      (c d : Checked W)
      → check_motion arithmetic gc c ≡ pass d
      → ((is_arc d && arc_words k c) ≡ false → has k d ≡ has k c)
        × (is_jog d ≡ is_jog c)
        × (d.block.modal.motion ≡ c.block.modal.motion)
  unfolding check_motion check_feed_motion
  check_motion-kept c d e =
      let arc = check_arc-kept c d in
      let probe = check_probe-kept c d in
      let probed = check_probe-motion c d in ground (arith, e, arc, probe, probed)

  check_unused-kept :
      (c d : Checked W)
      → check_unused c ≡ pass d
      → (plain_words (is_jog c) (not (c.block.axis_command == 0)) k ≡ false → has k c ≡ false)
        × (d.block.axis_command ≡ c.block.axis_command)
        × (d.block.modal.motion ≡ c.block.modal.motion)
        × (d.parser_flags ≡ c.parser_flags)
  unfolding check_unused
  check_unused-kept c d e =
      let x = c.block.value_words in
      let jog = stays 0x21 x k refl l in
      let single = stays 0x321 x k refl l in
      let jog_axes = stays 0x1C00 (bit_false x 0x21) k refl l in
      let axes = stays 0x1C00 (bit_false x 0x321) k refl l in
      let nothing = zero-bit_and (2 ^ k) in
      elim (Bool-cases (is_jog c)) [
        | inl jogs ↦ ground (arith, e, jog, jog_axes, nothing, jogs)
        | inr runs ↦ ground (arith, e, single, axes, nothing, runs)
      ]

  -- Up to the motion modes, only a dwell and G10 use words up.
  before_motion-Keeps :
      (coords : Coords W) (c d : Checked W) (t : Stages arithmetic coords gc c d)
      → Keeps k
          ((c.block.non_modal_command == 4 && bit_istrue 0x40 (2 ^ k))
            || (c.block.non_modal_command == 10 && bit_istrue 0x50 (2 ^ k)))
          c
          t.aimed
  before_motion-Keeps coords c d t =
      let first = first-Keeps k c t.numbered t.numbers in
      let fed = check_feed-Keeps arithmetic gc k l t.numbered t.fed t.feeds in
      let waits = check_dwell-Keeps arithmetic gc k l t.fed t.waiting t.waits in
      let tools = check_tool_length-Keeps arithmetic gc k l t.waiting t.tooled t.tools in
      let locates =
        check_coord_system-Keeps arithmetic gc k l coords t.tooled t.located t.locates in
      let aims = check_non_modal-Keeps arithmetic gc k l coords t.located t.aimed t.aims in
      ground (arith, first, fed, waits, tools, locates, aims)

-- The check clears the value word number `k` of the block `c`, which becomes `d`.
abbrev is_cleared {ℓ} : {W : Type ℓ} → Checked W → Checked W → ℕ → Bool
is_cleared c d k =
    plain_words (is_jog c) (not (d.block.axis_command == 0)) k
    || (c.block.non_modal_command == 4 && bit_istrue 0x40 (2 ^ k))
    || (c.block.non_modal_command == 10 && bit_istrue 0x50 (2 ^ k))
    || (is_arc d && arc_words k c)

check_block-clears {ℓ} :
    {W : Type ℓ} (arithmetic : Arithmetic W) (coords : Coords W) (gc : Parser W) (c d : Checked W)
    (k : ℕ)
    → k < 13
    → check_block arithmetic coords gc c ≡ pass d
    → bit_istrue c.block.value_words (2 ^ k) ≡ true
    → is_cleared c d k ≡ true
check_block-clears arithmetic coords gc c d k l e present =
    let t = check_block-Stages arithmetic coords gc c d e in
    let ready = before_motion-Keeps arithmetic gc k l coords c d t in
    let moved = check_motion-kept arithmetic gc k l t.aimed t.moving t.moves in
    let ended = check_unused-kept arithmetic gc k l t.moving d t.ends in
    ground (arith, ready, moved, ended, present)

-- Each value word of the block `c`, which the check makes `d`, stands with a command that takes it.
pub record HasCommands {ℓ} {W : Type ℓ} (c d : Checked W) : Type 0 where
  pub i_word : has 1 c ≡ true → (is_arc d ≡ true) × (has 7 c ≡ false)
  pub j_word : has 2 c ≡ true → (is_arc d ≡ true) × (has 7 c ≡ false)
  pub k_word : has 3 c ≡ true → (is_arc d ≡ true) × (has 7 c ≡ false)
  pub l_word : has 4 c ≡ true → c.block.non_modal_command ≡ 10
  pub p_word : has 6 c ≡ true → (c.block.non_modal_command ≡ 4) ⊎ (c.block.non_modal_command ≡ 10)
  pub r_word : has 7 c ≡ true → is_arc d ≡ true
  pub s_word : has 8 c ≡ true → is_jog c ≡ false
  pub t_word : has 9 c ≡ true → is_jog c ≡ false
  pub x_word : has 10 c ≡ true → d.block.axis_command ≢ 0
  pub y_word : has 11 c ≡ true → d.block.axis_command ≢ 0
  pub z_word : has 12 c ≡ true → d.block.axis_command ≢ 0

-- In a block that passes the error check no value word stands without a command that takes it: I, J
-- and K stand only with an arc, as the motion of an axis command, and without an R; R only with such an
-- arc; L only with G10; P only with G4 or G10; S and T not in a jog; X, Y and Z only with an axis
-- command. (F and N are free.)
pub check_block-HasCommands {ℓ} :
    {W : Type ℓ} (arithmetic : Arithmetic W) (coords : Coords W) (gc : Parser W) (c d : Checked W)
    → check_block arithmetic coords gc c ≡ pass d
    → HasCommands c d
check_block-HasCommands arithmetic coords gc c d e =
    let clears = λ (k : ℕ) (l : k < 13). check_block-clears arithmetic coords gc c d k l e in
    record {
      i_word = λ h. let used = clears 1 (omega arith) h in ground (arith, used);
      j_word = λ h. let used = clears 2 (omega arith) h in ground (arith, used);
      k_word = λ h. let used = clears 3 (omega arith) h in ground (arith, used);
      l_word = λ h. let used = clears 4 (omega arith) h in ground (arith, used);
      p_word = λ h. let used = clears 6 (omega arith) h in ground (arith, used);
      r_word = λ h. let used = clears 7 (omega arith) h in ground (arith, used);
      s_word = λ h. let used = clears 8 (omega arith) h in ground (arith, used);
      t_word = λ h. let used = clears 9 (omega arith) h in ground (arith, used);
      x_word = λ h. let used = clears 10 (omega arith) h in ground (arith, used);
      y_word = λ h. let used = clears 11 (omega arith) h in ground (arith, used);
      z_word = λ h. let used = clears 12 (omega arith) h in ground (arith, used);
    }
