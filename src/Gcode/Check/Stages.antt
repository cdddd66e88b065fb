-- ===== src/Gcode/Check/Stages.antt =====
-- The error check of grbl/gcode.c, taken apart into its stages.
use tele_handwriter.Base.{◌≡◌}
use tele_handwriter.Gcode.State.{Arithmetic, Parser, Coords, Checked, pass, >>=-eq-pass}
use tele_handwriter.Gcode.Offsets.{
  convert_units, check_tool_length, check_coord_system, check_non_modal,
}
use tele_handwriter.Gcode.Check.{
  imply_motion, check_line_number, check_feed, keep_speed, check_dwell, check_motion, check_unused,
  check_block,
}

module _ {ℓ} {W : Type ℓ} (arithmetic : Arithmetic W) (coords : Coords W) (gc : Parser W) where
  -- The blocks between the stages of a check that takes `c` to `d`.
  pub record Stages (c d : Checked W) : Type ℓ where
    pub numbered : Checked W
    pub fed : Checked W
    pub waiting : Checked W
    pub tooled : Checked W
    pub located : Checked W
    pub aimed : Checked W
    pub moving : Checked W
    pub numbers : check_line_number (imply_motion c) ≡ pass numbered
    pub feeds : check_feed arithmetic gc numbered ≡ pass fed
    pub waits : check_dwell (keep_speed arithmetic gc fed) ≡ pass waiting
    pub tools : check_tool_length arithmetic (convert_units arithmetic waiting) ≡ pass tooled
    pub locates : check_coord_system arithmetic coords gc tooled ≡ pass located
    pub aims : check_non_modal arithmetic coords gc located ≡ pass aimed
    pub moves : check_motion arithmetic gc aimed ≡ pass moving
    pub ends : check_unused moving ≡ pass d

  pub check_block-Stages :
      (c d : Checked W) → check_block arithmetic coords gc c ≡ pass d → Stages c d
  unfolding check_block
  check_block-Stages c d e =
      let (numbered, e1, f1) = >>=-eq-pass (check_line_number (imply_motion c)) _ e in
      let (fed, e2, f2) = >>=-eq-pass (check_feed arithmetic gc numbered) _ f1 in
      let (waiting, e3, f3) = >>=-eq-pass (check_dwell (keep_speed arithmetic gc fed)) _ f2 in
      let (tooled, e4, f4) =
        >>=-eq-pass (check_tool_length arithmetic (convert_units arithmetic waiting)) _ f3 in
      let (located, e5, f5) = >>=-eq-pass (check_coord_system arithmetic coords gc tooled) _ f4 in
      let (aimed, e6, f6) = >>=-eq-pass (check_non_modal arithmetic coords gc located) _ f5 in
      let (moving, e7, f7) = >>=-eq-pass (check_motion arithmetic gc aimed) _ f6 in
      record {
        numbered = numbered;
        fed = fed;
        waiting = waiting;
        tooled = tooled;
        located = located;
        aimed = aimed;
        moving = moving;
        numbers = e1;
        feeds = e2;
        waits = e3;
        tools = e4;
        locates = e5;
        aims = e6;
        moves = e7;
        ends = f7;
      }
