-- ===== src/Gcode/Execute/Jog.antt =====
-- A jog of grbl/jog.c, as the g-code parser of grbl/gcode.c executes it.
use tele_handwriter.Base.{◌≡◌, ◌≢◌, ◌⊎◌, true, false, [], ◌∷◌, arith, bit_or}
use tele_handwriter.Settings.Global.{status_ok}
use tele_handwriter.Gcode.State.{Vector, xyz, Arithmetic, Parser, Coords, Checked}
use tele_handwriter.Gcode.Check.{is_jog}
use tele_handwriter.Gcode.Events.{
  Surroundings, PlanData, status_travel_exceeded, mc_line, start_jog, pl_cond_flag_no_feed_override,
}
use tele_handwriter.Gcode.Execute.{execute_block, execute_jog_block, jog_execute}

module _ {ℓ} {W : Type ℓ} (arithmetic : Arithmetic W) where
  -- The line that a jog plans: with the spindle and the coolant as they are, and no feed override.
  abbrev pub jog_plan : Parser W → Checked W → PlanData W
  jog_plan gc c = record {
    spindle_speed = gc.spindle_speed;
    feed_rate = c.block.values.f;
    condition = bit_or (bit_or gc.modal.spindle gc.modal.coolant) pl_cond_flag_no_feed_override;
  }

  -- Each coordinate of the target lies between the maximum travel of its axis, which is stored as
  -- negative, and zero.
  pub record IsWithin (max_travel target : Vector W) : Type 0 where
    pub x_below : arithmetic.lt arithmetic.nought target.on_x ≡ false
    pub x_above : arithmetic.lt target.on_x max_travel.on_x ≡ false
    pub y_below : arithmetic.lt arithmetic.nought target.on_y ≡ false
    pub y_above : arithmetic.lt target.on_y max_travel.on_y ≡ false
    pub z_below : arithmetic.lt arithmetic.nought target.on_z ≡ false
    pub z_above : arithmetic.lt target.on_z max_travel.on_z ≡ false

  -- A jog that succeeds has, if the soft limits are on, a target that lies on each axis between the
  -- maximum travel and zero; it has planned one line to its target, has at most started the jog after
  -- it, and has changed nothing of the parser but the position, nor the coordinate data. A jog that
  -- fails has planned nothing and changed neither. A jog whose target lies within the travel does not
  -- fail for the travel limits.
  pub jog_moves :
      (s : Surroundings W) (coords : Coords W) (gc : Parser W) (c : Checked W)
      → is_jog c ≡ true
      → let (status, run) = execute_block arithmetic s coords gc c in
        let target = xyz c.block.values in
        (status ≡ status_ok
          → (s.soft_limit_enable ≡ true → IsWithin s.max_travel target)
            × (run.gc ≡ record gc { position = target })
            × (run.coords ≡ coords)
            × ((run.events ≡ mc_line target (jog_plan gc c) ∷ [])
                ⊎ (run.events ≡ start_jog ∷ mc_line target (jog_plan gc c) ∷ [])))
        × (status ≢ status_ok → (run.gc ≡ gc) × (run.coords ≡ coords) × (run.events ≡ []))
        × (IsWithin s.max_travel target → status ≢ status_travel_exceeded)
  unfolding execute_block execute_jog_block jog_execute
  jog_moves s coords gc c j = (
    λ e. (
      λ soft. record {
        x_below = ground (arith, j, e, soft);
        x_above = ground (arith, j, e, soft);
        y_below = ground (arith, j, e, soft);
        y_above = ground (arith, j, e, soft);
        z_below = ground (arith, j, e, soft);
        z_above = ground (arith, j, e, soft);
      },
      ground (arith, j, e),
      ground (arith, j, e),
      ground (arith, j, e),
    ),
    λ e. (ground (arith, j, e), ground (arith, j, e), ground (arith, j, e)),
    λ within.
        let a = within.x_below in
        let b = within.x_above in
        let d = within.y_below in
        let f = within.y_above in
        let g = within.z_below in
        let h = within.z_above in λ e. ground (arith, j, a, b, d, f, g, h, e),
  )
