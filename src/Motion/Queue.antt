-- ===== src/Motion/Queue.antt =====
-- The wait of mc_line in grbl/motion_control.c for room in the planner.
use tele_handwriter.Base.{
  ◌≡◌, inl, inr, refl, ap, true, false, not, ◌&&◌, ◌||◌, none, some, List, [], ◌∷◌, ◌++◌, ◌==◌,
  if◌then◌else◌, arith, Bool-cases,
}
use tele_handwriter.Base.Bits.{bit_istrue}
use tele_handwriter.System.{
  Machine, state_jog, state_check_mode, bitflag_soft_limit_enable, bitflag_laser_mode,
}
use tele_handwriter.System.Travel.{system_check_travel_limits}
use tele_handwriter.Spindle.{Speeds}
use tele_handwriter.Protocol.Suspend.{Turn, Stop}
use tele_handwriter.Protocol.Suspend.Loops.{protocol_execute_realtime}
use tele_handwriter.Planner.{plan_check_full_buffer, plan_buffer_line, block_steps, PlanBlock}
use tele_handwriter.Planner.Blocks.{IsValid, planned_blocks, plan_buffer_line_refines}
use tele_handwriter.Planner.Target.{plan_buffer_line-position}
use tele_handwriter.Gcode.State.{Vector, Arithmetic}
use tele_handwriter.Gcode.Events.{PlanData}
use tele_handwriter.Motion.{
  Moment, Station, Planning, checkpoint, await_room, queue_line, mc_line, limits_soft_check,
  protocol_auto_cycle_start,
}

module _ {ℓ} {W : Type ℓ} (speeds : Speeds W) (spindle_speed : W) where
  pub checkpoint-returns :
      (moment : Moment W) (s : Station) (turns : List Turn) (m : Machine)
      → protocol_execute_realtime speeds moment.block spindle_speed moment.turns s.machine
        ≡ some (turns, m)
      → checkpoint speeds spindle_speed moment s
        ≡ some (record { machine = m; planner = moment.settle s.planner })
  unfolding checkpoint
  checkpoint-returns moment s turns m e =
      ap
        (λ (r : Stop). elim r [
          | none ↦ none
          | some (rest, n) ↦ some (record { machine = n; planner = moment.settle s.planner })
        ])
        e

  -- From `s`, each of the moments returns without an abort and with a full planner, up to `t`. A cycle
  -- start is asked for after each.
  pub data Stalls : List (Moment W) → Station → Station → Type ℓ where
    ready : {s : Station} → Stalls [] s s
    stall :
        {p : Moment W} {ps : List (Moment W)} {s t u : Station}
        → checkpoint speeds spindle_speed p s ≡ some t
        → t.machine.sys.abort ≡ false
        → plan_check_full_buffer t.planner ≡ true
        → Stalls ps (protocol_auto_cycle_start t) u
        → Stalls (p ∷ ps) s u

  await_room-Stalls :
      {used : List (Moment W)} {s t : Station} (p : Moment W) (left : List (Moment W)) (u : Station)
      → Stalls used s t
      → checkpoint speeds spindle_speed p t ≡ some u
      → (u.machine.sys.abort || not (plan_check_full_buffer u.planner)) ≡ true
      → await_room speeds spindle_speed (used ++ p ∷ left) s ≡ some (left, u)
  unfolding await_room
  await_room-Stalls p left u ready e free = ground (arith, e, free)
  await_room-Stalls p left u (stall f a full more) e free =
      let rest = await_room-Stalls p left u more e free in ground (arith, f, a, full, rest)

  queue_line-blocks :
      (planning : Planning W) (target : Vector W) (pl_data : PlanData W) (left : List (Moment W))
      (u : Station)
      → bit_istrue u.machine.settings_flags bitflag_laser_mode ≡ false
      → queue_line speeds spindle_speed planning target pl_data left u
        ≡ some (
          left,
          record u {
            planner =
                (plan_buffer_line
                  (planning.to_steps target)
                  (planning.planned u.planner)
                  u.planner).1;
          },
        )
  unfolding queue_line
  queue_line-blocks planning target pl_data left u off = ground (arith, off)

  -- The blocks of the planner after mc_line has found it as `u`.
  abbrev pub queued_blocks : Planning W → Vector W → Station → List PlanBlock
  queued_blocks planning target u =
      let block = block_steps (planning.to_steps target) u.planner.position in
      if u.machine.sys.abort || block.step_event_count == 0
      then planned_blocks u.planner
      else planned_blocks u.planner ++ block ∷ []

  -- Outside the laser mode and the check mode, for a target that the soft limits allow or do not apply
  -- to: mc_line waits as long as the planner is full, and returns at the first moment that aborts the
  -- program or leaves room. Then the blocks of the planner are those of that moment, with the block of
  -- the line at their end unless the program is aborted or the line has no steps; and without an abort
  -- the position of the planner is the target, in steps.
  pub mc_line-queues :
      (arithmetic : Arithmetic W) (planning : Planning W) (target : Vector W) (pl_data : PlanData W)
      {used : List (Moment W)} {s t : Station} (p : Moment W) (left : List (Moment W)) (u : Station)
      → (bit_istrue s.machine.settings_flags bitflag_soft_limit_enable
          && not (s.machine.sys.state == state_jog)
          && system_check_travel_limits arithmetic planning.max_travel target)
        ≡ false
      → (s.machine.sys.state == state_check_mode) ≡ false
      → Stalls used s t
      → checkpoint speeds spindle_speed p t ≡ some u
      → (u.machine.sys.abort || not (plan_check_full_buffer u.planner)) ≡ true
      → bit_istrue u.machine.settings_flags bitflag_laser_mode ≡ false
      → IsValid u.planner
      → (v : Station) × (mc_line speeds spindle_speed arithmetic planning target pl_data
            (used ++ p ∷ left)
            s
          ≡ some (left, v))
        × (v.machine ≡ u.machine)
        × IsValid v.planner
        × (planned_blocks v.planner ≡ queued_blocks planning target u)
        × (u.machine.sys.abort ≡ false → v.planner.position ≡ planning.to_steps target)
  unfolding mc_line limits_soft_check
  mc_line-queues arithmetic planning target pl_data {used} {s} p left u inside mode stalls e free
        off valid =
      let waits = await_room-Stalls p left u stalls e free in
      let queued = queue_line-blocks planning target pl_data left u off in
      elim (Bool-cases u.machine.sys.abort) [
        | inl stops ↦ (
          u,
          ground (arith, inside, mode, waits, stops),
          refl,
          valid,
          ground (arith, stops),
          λ runs. absurd (ground (arith, stops, runs)),
        )
        | inr runs ↦
            let (blocks, kept) =
              plan_buffer_line_refines (planning.to_steps target) (planning.planned u.planner)
                u.planner valid (ground (arith, free, runs)) in
            (
              record u {
                planner =
                    (plan_buffer_line (planning.to_steps target) (planning.planned u.planner)
                      u.planner).1;
              },
              ground (arith, inside, mode, waits, runs, queued),
              refl,
              kept,
              ground (arith, blocks, runs),
              λ e.
                  plan_buffer_line-position (planning.to_steps target) (planning.planned u.planner)
                    u.planner,
            )
      ]
