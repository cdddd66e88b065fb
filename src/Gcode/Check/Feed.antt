-- ===== src/Gcode/Check/Feed.antt =====
-- The feed rate of a block in grbl/gcode.c, lines 389 to 425 and 662 to 664.
use tele_handwriter.Base.{leb, ◌≡◌, ◌≢◌, ◌⊎◌, true, false, ◌&&◌, arith}
use tele_handwriter.Gcode.State.{Arithmetic, Parser, Coords, Checked, pass}
use tele_handwriter.Gcode.Arcs.{radius_arc, offset_arc, check_arc, check_probe}
use tele_handwriter.Gcode.Check.{check_motion, check_feed_motion, check_unused, check_block}
use tele_handwriter.Gcode.Check.Stages.{check_block-Stages}

module _ {ℓ} {W : Type ℓ} (arithmetic : Arithmetic W) where
  -- The motions that need a feed rate have one, and those that need a target have axis words.
  pub record IsReady (d : Checked W) : Type 0 where
    pub has_feed :
        d.block.modal.motion ≢ 0 → arithmetic.eq d.block.values.f arithmetic.nought ≡ false
    pub has_target :
        (d.block.modal.motion ≡ 0)
          ⊎ (leb 1 d.block.modal.motion && leb d.block.modal.motion 3 ≡ true)
          ⊎ (leb 140 d.block.modal.motion && leb d.block.modal.motion 143 ≡ true)
        → d.block.axis_words ≢ 0

  check_arc-kept :
      (gc : Parser W) (c d : Checked W)
      → check_arc arithmetic gc c ≡ pass d
      → (d.block.values.f ≡ c.block.values.f)
        × (d.block.axis_words ≡ c.block.axis_words)
        × (d.block.modal ≡ c.block.modal)
        × (c.block.axis_words ≢ 0)
  unfolding check_arc radius_arc offset_arc
  check_arc-kept gc c d e = ground (arith, e)

  check_probe-kept :
      (gc : Parser W) (c d : Checked W)
      → check_probe arithmetic gc c ≡ pass d
      → (d.block ≡ c.block) × (c.block.axis_words ≢ 0)
  unfolding check_probe
  check_probe-kept gc c d e = ground (arith, e)

  check_motion-IsReady :
      (gc : Parser W) (c d : Checked W)
      → check_motion arithmetic gc c ≡ pass d
      → d.block.axis_command ≡ 2
      → d.block.modal.motion ≢ 80
      → IsReady d
  unfolding check_motion check_feed_motion
  check_motion-IsReady gc c d e a m =
      let arc = check_arc-kept gc c d in
      let probe = check_probe-kept gc c d in ground (arith, e, a, m, arc, probe)

  check_unused-kept :
      (c d : Checked W)
      → check_unused c ≡ pass d
      → (d.block.values ≡ c.block.values)
        × (d.block.axis_words ≡ c.block.axis_words)
        × (d.block.axis_command ≡ c.block.axis_command)
        × (d.block.modal ≡ c.block.modal)
  unfolding check_unused
  check_unused-kept c d e = ground (arith, e)

  -- A block that passes the error check, and is executed as a motion other than G80, has a feed rate
  -- that is not zero unless it is a G0, and has axis words.
  pub check_block-IsReady :
      (coords : Coords W) (gc : Parser W) (c d : Checked W)
      → check_block arithmetic coords gc c ≡ pass d
      → d.block.axis_command ≡ 2
      → d.block.modal.motion ≢ 80
      → IsReady d
  check_block-IsReady coords gc c d e a m =
      let t = check_block-Stages arithmetic coords gc c d e in
      let (values, words, command, modal) = check_unused-kept t.moving d t.ends in
      let ready = check_motion-IsReady gc t.aimed t.moving t.moves in
      ground (arith, values, words, command, modal, ready, a, m)
