-- ===== src/Protocol/Suspend/Loops/Door.antt =====
-- Waiting at the closed door in `protocol_exec_rt_suspend` of grbl/protocol.c.
use tele_handwriter.Base.{
  ℕ, zero, suc, ◌≡◌, ap, refl, ◌∙◌, true, false, if◌then◌else◌, List, [], ◌∷◌, ◌++◌, Option, none,
  some, replicate, bit_or,
}
use tele_handwriter.Base.Bits.{bit_istrue}
use tele_handwriter.System.{
  Machine, Sys, Exec, state_safety_door, suspend_hold_complete, suspend_restart_retract,
  suspend_retract_complete, suspend_initiate_restore,
}
use tele_handwriter.Protocol.Realtime.{refill}
use tele_handwriter.Protocol.Realtime.Frame.{IsQuiet, refill-core, exec_rt_system-quiet}
use tele_handwriter.Protocol.Suspend.{Turn, Stop, exec_turn, delay_sec}

-- A turn without interrupts, with a block to run.
abbrev pub calm : Turn
calm = record { interrupts = λ m. m; has_block = true; polls = [] }

-- HOLD_COMPLETE, RETRACT_COMPLETE and INITIATE_RESTORE.
abbrev pub closed_door : ℕ
closed_door =
    bit_or (bit_or suspend_hold_complete suspend_retract_complete) suspend_initiate_restore

-- The machine waits at the closed door, is asked to resume, and nothing else is pending. `m₀` gives
-- the settings and the modes.
pub record AtDoor (m₀ m : Machine) : Type 0 where
  pub no_abort : m.sys.abort ≡ false
  pub state : m.sys.state ≡ state_safety_door
  pub suspend : m.sys.suspend ≡ closed_door
  pub quiet : IsQuiet m
  pub same_spindle : m.modal_spindle ≡ m₀.modal_spindle
  pub same_coolant : m.modal_coolant ≡ m₀.modal_coolant
  pub same_flags : m.settings_flags ≡ m₀.settings_flags
  pub same_ovr : m.sys.spindle_speed_ovr ≡ m₀.sys.spindle_speed_ovr

-- A change of the calls, the pins, the report counter or the step control leaves it there.
pub AtDoor-keep :
    (m₀ m n : Machine)
    → AtDoor m₀ m
    → n.sys.abort ≡ m.sys.abort
    → n.sys.state ≡ m.sys.state
    → n.sys.suspend ≡ m.sys.suspend
    → n.exec ≡ m.exec
    → n.modal_spindle ≡ m.modal_spindle
    → n.modal_coolant ≡ m.modal_coolant
    → n.settings_flags ≡ m.settings_flags
    → n.sys.spindle_speed_ovr ≡ m.sys.spindle_speed_ovr
    → AtDoor m₀ n
AtDoor-keep m₀ m n d a b c e f g h i = record {
  no_abort = a ∙ d.no_abort;
  state = b ∙ d.state;
  suspend = c ∙ d.suspend;
  quiet = subst_quiet;
  same_spindle = f ∙ d.same_spindle;
  same_coolant = g ∙ d.same_coolant;
  same_flags = h ∙ d.same_flags;
  same_ovr = i ∙ d.same_ovr;
}
  where
    subst_quiet : IsQuiet n
    subst_quiet =
        let q = d.quiet in
        record {
          no_flags = ap (λ (x : Exec). x.state) e ∙ q.no_flags;
          no_alarm = ap (λ (x : Exec). x.alarm) e ∙ q.no_alarm;
          no_motion = ap (λ (x : Exec). x.motion_override) e ∙ q.no_motion;
          no_accessory = ap (λ (x : Exec). x.accessory_override) e ∙ q.no_accessory;
        }

refill-AtDoor : (m₀ m : Machine) → AtDoor m₀ m → AtDoor m₀ (refill m) × ((refill m).pins ≡ m.pins)
refill-AtDoor m₀ m d =
    let (sys, exec, pins, spindle, coolant, flags) = refill-core m in
    (
      AtDoor-keep m₀ m (refill m) d (ap (λ (s : Sys). s.abort) sys) (ap (λ (s : Sys). s.state) sys)
          (ap (λ (s : Sys). s.suspend) sys) exec spindle coolant flags
          (ap (λ (s : Sys). s.spindle_speed_ovr) sys),
      pins,
    )

abbrev wait_on : ℕ → List Turn → Option Machine → Stop
wait_on i turns o = elim o [
  | none ↦ none
  | some n ↦
      if bit_istrue n.sys.suspend suspend_restart_retract
      then some (turns, n)
      else delay_sec i turns n
]

delay_sec-turn :
    (i : ℕ) (turn : Turn) (turns : List Turn) (m : Machine)
    → m.sys.abort ≡ false
    → delay_sec (suc i) (turn ∷ turns) m ≡ wait_on i turns (exec_turn turn m)
unfolding delay_sec
delay_sec-turn i turn turns m a = simp a

-- A delay at the door takes as many turns as it has steps, and changes nothing but the calls.
pub delay_sec-AtDoor :
    (i : ℕ) (rest : List Turn) (m₀ m : Machine)
    → AtDoor m₀ m
    → (n : Machine) × (delay_sec i (replicate i calm ++ rest) m ≡ some (rest, n))
      × AtDoor m₀ n
      × (n.pins ≡ m.pins)
unfolding delay_sec
delay_sec-AtDoor zero rest m₀ m d = (m, refl, d, refl)
delay_sec-AtDoor (suc i) rest m₀ m d =
    let turns = replicate i calm ++ rest in
    let (door, same) = refill-AtDoor m₀ m d in
    let (n, e, f, g) = delay_sec-AtDoor i rest m₀ (refill m) door in
    let stays : bit_istrue (refill m).sys.suspend suspend_restart_retract ≡ false =
      ap (λ s. bit_istrue s suspend_restart_retract) door.suspend in
    (
      n,
      delay_sec-turn i calm turns m d.no_abort
          ∙ ap (wait_on i turns) (exec_rt_system-quiet true [] m d.quiet)
          ∙ ap (λ b. if b then some (turns, refill m) else delay_sec i turns (refill m)) stays
          ∙ e,
      f,
      g ∙ same,
    )
