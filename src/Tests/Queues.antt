-- ===== src/Tests/Queues.antt =====
-- Examples for the lines of grbl/motion_control.c.
use tele_handwriter.Base.{ℕ, ◌≡◌, refl, true, false, not, ◌||◌, none, some, [], ◌∷◌}
use tele_handwriter.Base.Bits.{bit_istrue}
use tele_handwriter.System.{Machine, bitflag_laser_mode}
use tele_handwriter.Planner.{plan_check_full_buffer}
use tele_handwriter.Planner.Blocks.{IsValid, planned_blocks}
use tele_handwriter.Protocol.Realtime.Frame.{IsQuiet, exec_rt_system-quiet}
use tele_handwriter.Protocol.Realtime.{refill}
use tele_handwriter.Protocol.Suspend.Loops.Door.{calm}
use tele_handwriter.Protocol.Suspend.Loops.{protocol_execute_realtime-turn}
use tele_handwriter.Gcode.Events.{PlanData}
use tele_handwriter.Motion.{Moment, Station, Planning, checkpoint, mc_line}
use tele_handwriter.Motion.Queue.{ready, queued_blocks, checkpoint-returns, mc_line-queues}
use tele_handwriter.Motion.SoftLimits.{IsReleased, mc_line-aborts}
use tele_handwriter.Protocol.Suspend.{Turn}
use tele_handwriter.Tests.{machine, whole_speeds}
use tele_handwriter.Tests.Motion.{planner, planner-IsValid, goal}
use tele_handwriter.Tests.Programs.{arithmetic, vector}

abbrev planning : Planning ℕ
planning = record { to_steps = λ target. goal; planned = λ pl. 14; max_travel = vector 0 0 0 }

abbrev plan_data : PlanData ℕ
plan_data = record { spindle_speed = 0; feed_rate = 200; condition = 0 }

-- Nothing happens at the call of protocol_execute_realtime.
abbrev moment : Moment ℕ
moment = record { turns = calm ∷ []; block = none; settle = λ pl. pl }

abbrev station : Station
station = record { machine = machine 8 0; planner = planner }

abbrev refilled : Station
refilled = record { machine = refill (machine 8 0); planner = planner }

machine-IsQuiet : IsQuiet (machine 8 0)
machine-IsQuiet = record { no_flags = refl; no_alarm = refl; no_motion = refl; no_accessory = refl }

moment_passes : checkpoint whole_speeds 0 moment station ≡ some refilled
unfolding refill
moment_passes =
    let done =
      protocol_execute_realtime-turn whole_speeds none 0 calm [] (machine 8 0)
        (refill (machine 8 0)) (exec_rt_system-quiet true [] (machine 8 0) machine-IsQuiet) refl in
    checkpoint-returns whole_speeds 0 moment station [] (refill (machine 8 0)) done

room : (refilled.machine.sys.abort || not (plan_check_full_buffer planner)) ≡ true
unfolding refill plan_check_full_buffer
room = refl

no_laser : bit_istrue refilled.machine.settings_flags bitflag_laser_mode ≡ false
unfolding refill
no_laser = refl

mc_line-queues_example :
    (v : Station) × (mc_line whole_speeds 0 arithmetic planning
        (vector 2 2 0)
        plan_data
        (moment ∷ [])
        station
      ≡ some ([], v))
    × (v.machine ≡ refill (machine 8 0))
    × IsValid v.planner
    × (planned_blocks v.planner ≡ queued_blocks whole_speeds 0 planning (vector 2 2 0) refilled)
    × (refilled.machine.sys.abort ≡ false → v.planner.position ≡ goal)
mc_line-queues_example =
    mc_line-queues whole_speeds 0 arithmetic planning (vector 2 2 0) plan_data moment [] refilled
      refl refl ready moment_passes room no_laser planner-IsValid

-- An idle machine with the soft limits on.
abbrev limited : Machine
limited = record (machine 0 0) { settings_flags = 0x20 }

-- The user answers the alarm with a reset at the second poll.
abbrev reset_turn : Turn
reset_turn = record { interrupts = λ m. m; has_block = true; polls = 0 ∷ 16 ∷ [] }

reset_turn-IsReleased : IsReleased reset_turn 16
reset_turn-IsReleased = record {
  before = 0 ∷ [];
  after = [];
  polled = refl;
  none_before = (refl, tt);
  is_reset = refl;
  stays_critical = λ m c. c;
}

abbrev reset_moment : Moment ℕ
reset_moment = record { turns = reset_turn ∷ []; block = none; settle = λ pl. pl }

mc_line-aborts_example :
    (v : Station) × (mc_line whole_speeds 0 arithmetic planning
        (vector 2 2 0)
        plan_data
        (reset_moment ∷ moment ∷ [])
        (record { machine = limited; planner = planner })
      ≡ some ([], v))
    × (v.machine.sys.abort ≡ true)
    × (v.planner ≡ planner)
mc_line-aborts_example =
    mc_line-aborts whole_speeds 0 arithmetic planning (vector 2 2 0) plan_data
      (reset_moment ∷ moment ∷ []) [] reset_moment moment reset_turn calm [] [] 16
      (record { machine = limited; planner = planner })
      (record {
        machine = record limited { sys = record limited.sys { soft_limit = true } };
        planner = planner;
      })
      refl refl refl refl refl refl reset_turn-IsReleased refl (λ m a r. (a, r))
