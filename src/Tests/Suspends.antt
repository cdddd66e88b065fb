-- ===== src/Tests/Suspends.antt =====
-- Examples for the suspend loop of grbl/protocol.c and the spindle.
use tele_handwriter.Base.{ℕ, ◌≡◌, refl, true, false, none, some, [], ◌∷◌, arith}
use tele_handwriter.System.{Machine}
use tele_handwriter.Spindle.Level.{IsGraded}
use tele_handwriter.Protocol.Realtime.Frame.{GoesOn}
use tele_handwriter.Protocol.Suspend.{Turn}
use tele_handwriter.Protocol.Suspend.Loops.{suspend_loop}
use tele_handwriter.Protocol.Suspend.Loops.Sleep.{sleep_awaits_reset}
use tele_handwriter.Protocol.Suspend.Loops.Door.{calm, AtDoor}
use tele_handwriter.Protocol.Suspend.Loops.Resume.{HasResumed, resume_turns, door_resumes}
use tele_handwriter.Tests.{machine, whole_speeds}

-- A machine in a state, with its suspend flags.
abbrev suspended : ℕ → ℕ → Machine
suspended state suspend =
    let m = machine state 0 in record m { sys = record m.sys { suspend = suspend } }

abbrev reset_turn : Turn
reset_turn = record {
  interrupts = λ m. record m { exec = record m.exec { state = 16; alarm = 0 } };
  has_block = false;
  polls = [];
}

asleep-GoesOn : GoesOn (suspended 128 5)
asleep-GoesOn = record { no_abort = refl; no_alarm = refl; no_reset = refl }

sleep_awaits_reset_example :
    (suspend_loop whole_speeds 1 0 0 (calm ∷ []) (suspended 128 5) ≡ none)
    × ((n : Machine) × (n.sys.abort ≡ true)
        × (suspend_loop whole_speeds 1 0 0 (calm ∷ reset_turn ∷ []) (suspended 128 5)
            ≡ some ([], n)))
sleep_awaits_reset_example =
    sleep_awaits_reset whole_speeds 0 0 (calm ∷ []) [] reset_turn 0 (suspended 128 5) asleep-GoesOn
      refl ((λ m g. g), tt) (λ m g. (refl, refl))

-- Spindle and coolant were on when the door opened.
abbrev door : Machine
door = record (suspended 64 13) { modal_spindle = 16; modal_coolant = 64 }

door-AtDoor : AtDoor door door
door-AtDoor = record {
  no_abort = refl;
  state = refl;
  suspend = refl;
  quiet = record { no_flags = refl; no_alarm = refl; no_motion = refl; no_accessory = refl };
  same_spindle = refl;
  same_coolant = refl;
  same_flags = refl;
  same_ovr = refl;
}

door_resumes_example :
    (n : Machine) × (suspend_loop whole_speeds 2 80 500 (resume_turns whole_speeds 80 500 door) door
      ≡ some ([], n))
    × HasResumed whole_speeds 80 500 door n
door_resumes_example = door_resumes whole_speeds 80 500 0 door door-AtDoor

whole_speeds-IsGraded : IsGraded whole_speeds
whole_speeds-IsGraded rpm below above = ground (arith, below)
