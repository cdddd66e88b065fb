-- ===== src/Gcode/Check/Units.antt =====
-- The units of the feed rate in grbl/gcode.c, lines 411 to 423.
use tele_handwriter.Base.{
  ℕ, ◌-◌, ltb, ◌≡◌, inl, inr, ◌∙◌, true, false, Option-cases, ◌==◌, if◌then◌else◌, arith,
}
use tele_handwriter.Base.Bits.{bit_istrue}
use tele_handwriter.Gcode.State.{Arithmetic, Parser, Coords, Checked, pass}
use tele_handwriter.Gcode.Offsets.{
  inches, convert_units, check_tool_length, check_coord_system, set_coordinate_data, change_data,
  set_coordinate_offset, set_target, go_home, check_target, check_non_modal,
}
use tele_handwriter.Gcode.Arcs.{radius_arc, offset_arc, check_arc, check_probe}
use tele_handwriter.Gcode.Check.{
  is_jog, imply_motion, check_line_number, check_feed, feed_per_min, keep_speed, check_dwell,
  check_motion, check_feed_motion, check_unused, check_block,
}
use tele_handwriter.Gcode.Check.Stages.{check_block-Stages}

module _ {ℓ} {W : Type ℓ} (arithmetic : Arithmetic W) where
  -- The feed rate of a G94 block with an F word: in G94 it is converted to millimeters, but after a G93
  -- it is taken as it is, also where the block is in inches.
  abbrev pub feed_taken : Parser W → Checked W → W
  feed_taken gc c =
      if gc.modal.feed_rate == 0
      then inches arithmetic c.block.modal c.block.values.f
      else c.block.values.f

  first-feed :
      (gc : Parser W) (c numbered fed waiting : Checked W)
      → is_jog c ≡ false
      → c.block.modal.feed_rate ≡ 0
      → bit_istrue c.block.value_words 1 ≡ true
      → check_line_number (imply_motion c) ≡ pass numbered
      → check_feed arithmetic gc numbered ≡ pass fed
      → check_dwell (keep_speed arithmetic gc fed) ≡ pass waiting
      → waiting.block.values.f ≡ feed_taken gc c
  unfolding check_line_number imply_motion check_feed feed_per_min check_dwell keep_speed
  first-feed gc c numbered fed waiting jog mode given e f g =
      ground (arith, jog, mode, given, e, f, g)

  tool-feed :
      (c d : Checked W)
      → check_tool_length arithmetic (convert_units arithmetic c) ≡ pass d
      → d.block.values.f ≡ c.block.values.f
  unfolding check_tool_length convert_units
  tool-feed c d e = ground (arith, e)

  coord-feed :
      (coords : Coords W) (gc : Parser W) (c d : Checked W)
      → check_coord_system arithmetic coords gc c ≡ pass d
      → d.block.values.f ≡ c.block.values.f
  unfolding check_coord_system
  coord-feed coords gc c d e = elim (Option-cases (coords c.block.modal.coord_select)) [
    | inl unreadable ↦ ground (arith, e, unreadable)
    | inr (system, found) ↦ ground (arith, e, found)
  ]

  home-feed :
      (coords : Coords W) (gc : Parser W) (i : ℕ) (c d : Checked W)
      → go_home arithmetic coords gc i c ≡ pass d
      → d.block.values.f ≡ c.block.values.f
  unfolding go_home
  home-feed coords gc i c d e = elim (Option-cases (coords i)) [
    | inl unreadable ↦ ground (arith, e, unreadable)
    | inr (system, found) ↦ ground (arith, e, found)
  ]

  data-feed :
      (coords : Coords W) (gc : Parser W) (i : ℕ) (c d : Checked W)
      → change_data arithmetic coords gc i c ≡ pass d
      → d.block.values.f ≡ c.block.values.f
  unfolding change_data
  data-feed coords gc i c d e = elim (Option-cases (coords i)) [
    | inl unreadable ↦ ground (arith, e, unreadable)
    | inr (system, found) ↦ ground (arith, e, found)
  ]

  non_modal-feed :
      (coords : Coords W) (gc : Parser W) (c d : Checked W)
      → check_non_modal arithmetic coords gc c ≡ pass d
      → d.block.values.f ≡ c.block.values.f
  unfolding check_non_modal set_coordinate_data set_coordinate_offset check_target set_target
  non_modal-feed coords gc c d e =
      let number = arithmetic.byte c.block.values.p in
      let select = if ltb 0 number then number - 1 else c.block.modal.coord_select in
      let changed = data-feed coords gc select c d in
      let aimed = set_target arithmetic gc c in
      let first = home-feed coords gc 6 aimed d in
      let second = home-feed coords gc 7 aimed d in ground (arith, e, changed, first, second)

  motion-feed :
      (gc : Parser W) (c d : Checked W)
      → check_motion arithmetic gc c ≡ pass d
      → d.block.values.f ≡ c.block.values.f
  unfolding check_motion check_feed_motion check_arc radius_arc offset_arc check_probe
  motion-feed gc c d e = ground (arith, e)

  unused-feed : (c d : Checked W) → check_unused c ≡ pass d → d.block.values.f ≡ c.block.values.f
  unfolding check_unused
  unused-feed c d e = ground (arith, e)

  -- A G94 block with an F word, other than a jog, that passes the error check has its F value,
  -- converted from inches where the block is in inches, but only if the parser was in G94 before: after
  -- G93, inches count as millimeters.
  pub check_block-feed :
      (coords : Coords W) (gc : Parser W) (c d : Checked W)
      → is_jog c ≡ false
      → c.block.modal.feed_rate ≡ 0
      → bit_istrue c.block.value_words 1 ≡ true
      → check_block arithmetic coords gc c ≡ pass d
      → d.block.values.f ≡ feed_taken gc c
  check_block-feed coords gc c d jog mode given e =
      let t = check_block-Stages arithmetic coords gc c d e in
      unused-feed t.moving d t.ends
      ∙ motion-feed gc t.aimed t.moving t.moves
      ∙ non_modal-feed coords gc t.located t.aimed t.aims
      ∙ coord-feed coords gc t.tooled t.located t.locates
      ∙ tool-feed t.waiting t.tooled t.tools
      ∙ first-feed gc c t.numbered t.fed t.waiting jog mode given t.numbers t.feeds t.waits
