-- ===== src/Motion/SoftLimits.antt =====
-- A line of grbl/motion_control.c outside the soft limits of grbl/limits.c.
use tele_handwriter.Base.{
  ℕ, ◌≡◌, ◌∙◌, ap, refl, All, true, false, Option, none, some, List, ◌∷◌, ◌++◌, ◌==◌, arith,
}
use tele_handwriter.Base.Bits.{bit_istrue}
use tele_handwriter.System.{
  Machine, with_sys, system_set_exec_alarm, exec_reset, exec_alarm_soft_limit, state_alarm,
  state_jog, bitflag_soft_limit_enable,
}
use tele_handwriter.System.Reset.{mc_reset}
use tele_handwriter.System.Travel.{system_check_travel_limits}
use tele_handwriter.Spindle.{Speeds}
use tele_handwriter.Protocol.Realtime.{is_critical}
use tele_handwriter.Protocol.Realtime.Alarm.{released, critical_alarm_released, reset_first}
use tele_handwriter.Protocol.Suspend.{Turn, exec_turn}
use tele_handwriter.Protocol.Suspend.Loops.{protocol_execute_realtime-aborts}
use tele_handwriter.Gcode.State.{Vector, Arithmetic}
use tele_handwriter.Gcode.Events.{PlanData}
use tele_handwriter.Motion.{
  Moment, Station, Planning, checkpoint, await_room, raise_soft_limit, stop_cycle,
  limits_soft_check, mc_line,
}
use tele_handwriter.Motion.Queue.{checkpoint-returns}

-- The first poll with a reset after the critical alarm that the turn meets, whatever interrupts do
-- before it.
pub record IsReleased (turn : Turn) (flags : ℕ) : Type 0 where
  pub before : List ℕ
  pub after : List ℕ
  pub polled : turn.polls ≡ before ++ flags ∷ after
  pub none_before : All (λ f. bit_istrue f exec_reset ≡ false) before
  pub is_reset : bit_istrue flags exec_reset ≡ true
  pub stays_critical :
      (m : Machine)
      → is_critical m.exec.alarm ≡ true
      → is_critical (turn.interrupts m).exec.alarm ≡ true

-- No alarm comes up before the turn serves a pending reset.
abbrev pub KeepsReset : Turn → Type 0
KeepsReset turn =
    (m : Machine)
    → m.exec.alarm ≡ 0
    → bit_istrue m.exec.state exec_reset ≡ true
    → ((turn.interrupts m).exec.alarm ≡ 0)
      × (bit_istrue (turn.interrupts m).exec.state exec_reset ≡ true)

-- The program is aborted in the alarm state, and the reset is pending.
record IsAborted (m : Machine) : Type 0 where
  pub aborts : m.sys.abort ≡ true
  pub pending : bit_istrue m.exec.state exec_reset ≡ true
  pub no_alarm : m.exec.alarm ≡ 0

module _ {ℓ} {W : Type ℓ} (speeds : Speeds W) (spindle_speed : W) where
  checkpoint-aborts :
      (moment : Moment W) (turn : Turn) (turns : List Turn) (s : Station) (n : Machine)
      → moment.turns ≡ turn ∷ turns
      → exec_turn turn s.machine ≡ some n
      → n.sys.abort ≡ true
      → (u : Station) × (checkpoint speeds spindle_speed moment s ≡ some u)
        × (u.planner ≡ moment.settle s.planner)
        × (u.machine.sys ≡ n.sys)
        × (u.machine.exec.state ≡ n.exec.state)
        × (u.machine.exec.alarm ≡ n.exec.alarm)
  checkpoint-aborts moment turn turns s n first e a =
      let (k, returns, sys, flags, alarm) =
        protocol_execute_realtime-aborts speeds moment.block spindle_speed turn turns s.machine n e
          a in
      (
        record { machine = k; planner = moment.settle s.planner },
        checkpoint-returns speeds spindle_speed moment s turns k (rw first returns),
        refl,
        sys,
        flags,
        alarm,
      )

  raise_soft_limit-IsAborted :
      (p : Moment W) (turn : Turn) (turns : List Turn) (flags : ℕ) (left : List (Moment W))
      (s : Station)
      → p.turns ≡ turn ∷ turns
      → IsReleased turn flags
      → (u : Station) × (raise_soft_limit speeds spindle_speed (p ∷ left) s ≡ some (left, u))
        × (u.planner ≡ p.settle s.planner)
        × (u.machine.sys.state ≡ state_alarm)
        × IsAborted u.machine
  unfolding raise_soft_limit
  raise_soft_limit-IsAborted p turn turns flags left s first r =
      let reset = mc_reset s.machine in
      let alarmed = record reset {
        exec = system_set_exec_alarm exec_alarm_soft_limit reset.exec;
      } in
      let raised = record s { machine = alarmed } in
      let met = turn.interrupts alarmed in
      let n = with_sys (λ y. record y { abort = true }) (released flags met) in
      let ends : exec_turn turn alarmed ≡ some n = rw r.polled (
        critical_alarm_released r.before r.after flags turn.has_block met
          (r.stays_critical alarmed refl) r.none_before r.is_reset) in
      let (u, returns, planner, sys, flagged, alarm) =
        checkpoint-aborts p turn turns raised n first ends refl in
      (
        u,
        ap (λ (o : Option Station). elim o [ none ↦ none | some t ↦ some (left, t) ]) returns,
        planner,
        ap (λ y. y.state) sys,
        record {
          aborts = ap (λ y. y.abort) sys;
          pending = ap (λ f. bit_istrue f exec_reset) flagged ∙ r.is_reset;
          no_alarm = alarm;
        },
      )

  await_room-aborts :
      (q : Moment W) (turn : Turn) (turns : List Turn) (left : List (Moment W)) (u : Station)
      → q.turns ≡ turn ∷ turns
      → KeepsReset turn
      → IsAborted u.machine
      → (v : Station) × (await_room speeds spindle_speed (q ∷ left) u ≡ some (left, v))
        × (v.planner ≡ q.settle u.planner)
        × (v.machine.sys.abort ≡ true)
  unfolding await_room
  await_room-aborts q turn turns left u first keeps a =
      let met = turn.interrupts u.machine in
      let (no_alarm, pending) = keeps u.machine a.no_alarm a.pending in
      let n = with_sys (λ y. record y { abort = true }) met in
      let (v, returns, planner, sys, flagged, alarm) =
        checkpoint-aborts q turn turns u n first
          (reset_first turn.has_block turn.polls met no_alarm pending) refl in
      let aborts = ap (λ y. y.abort) sys in (v, ground (arith, returns, aborts), planner, aborts)

  -- With the soft limits on, a line outside of them that is not a jog ends the program and is not
  -- queued. `t` is where the halt of a running cycle ends, or `s` itself with the soft limit noted;
  -- then two calls of protocol_execute_realtime serve the alarm and the reset that the user answers
  -- it with, and all that happens to the planner is what they do to it.
  pub mc_line-aborts :
      (arithmetic : Arithmetic W) (planning : Planning W) (target : Vector W) (pl_data : PlanData W)
      (moments left : List (Moment W)) (p q : Moment W) (first second : Turn)
      (firsts seconds : List Turn) (flags : ℕ) (s t : Station)
      → bit_istrue s.machine.settings_flags bitflag_soft_limit_enable ≡ true
      → (s.machine.sys.state == state_jog) ≡ false
      → system_check_travel_limits arithmetic planning.max_travel target ≡ true
      → stop_cycle speeds spindle_speed moments s ≡ some (p ∷ q ∷ left, t)
      → t.machine.sys.abort ≡ false
      → p.turns ≡ first ∷ firsts
      → IsReleased first flags
      → q.turns ≡ second ∷ seconds
      → KeepsReset second
      → (v : Station) × (mc_line speeds spindle_speed arithmetic planning target pl_data moments s
          ≡ some (left, v))
        × (v.machine.sys.abort ≡ true)
        × (v.planner ≡ q.settle (p.settle t.planner))
  unfolding mc_line limits_soft_check
  mc_line-aborts arithmetic planning target pl_data moments left p q first second firsts seconds
        flags s t enabled jogs outside stops runs turns_p releases turns_q keeps =
      let (u, raised, planner, locked, aborted) =
        raise_soft_limit-IsAborted p first firsts flags (q ∷ left) t turns_p releases in
      let (v, awaited, settled, aborts) =
        await_room-aborts q second seconds left u turns_q keeps aborted in
      (
        v,
        ground (arith, enabled, jogs, outside, stops, runs, raised, locked, awaited, aborts),
        aborts,
        settled ∙ ap q.settle planner,
      )
