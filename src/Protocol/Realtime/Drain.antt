-- ===== src/Protocol/Realtime/Drain.antt =====
-- How the executor of grbl/protocol.c clears the flags of sys_rt_exec_state.
use tele_handwriter.Base.{ℕ, ◌≡◌, refl, ◌∙◌, Bool, true, false, if◌then◌else◌, arith, bit_and}
use tele_handwriter.Base.Bits.{bit_istrue, bit_not8}
use tele_handwriter.Base.Bits.Laws.{test-bit_and_keep, test-bit_and_drop}
use tele_handwriter.System.{
  Machine, with_sys, exec_status_report, exec_cycle_start, exec_cycle_stop, exec_reset,
}
use tele_handwriter.Protocol.Realtime.{
  exec_report, exec_holds, exec_start, exec_stop, exec_state_flags, hold_flags, hold_calls,
  start_cycle, begin_cycle, flush_jog, resume_door,
}

abbrev clear_if : Bool → ℕ → ℕ → ℕ
clear_if test mask flags = if test then bit_and flags (bit_not8 mask) else flags

clear_if_keep :
    (test : Bool) (mask flags n : ℕ)
    → bit_and (bit_not8 mask) n ≡ n
    → bit_and (clear_if test mask flags) n ≡ bit_and flags n
clear_if_keep true mask flags n h = test-bit_and_keep flags (bit_not8 mask) n h
clear_if_keep false mask flags n h = refl

clear_if_drop :
    (test : Bool) (mask flags : ℕ)
    → bit_and (bit_not8 mask) mask ≡ 0
    → (test ≡ false → bit_and flags mask ≡ 0)
    → bit_and (clear_if test mask flags) mask ≡ 0
clear_if_drop true mask flags h k = test-bit_and_drop flags (bit_not8 mask) mask h
clear_if_drop false mask flags h k = k refl

hold_calls-exec : (rt_exec : ℕ) (m : Machine) → (hold_calls rt_exec m).exec ≡ m.exec
unfolding hold_calls
hold_calls-exec rt_exec m = ground arith

exec_holds-exec :
    (rt_exec : ℕ) (m : Machine)
    → (exec_holds rt_exec m).exec.state
      ≡ clear_if (bit_istrue rt_exec hold_flags) hold_flags m.exec.state
unfolding exec_holds
exec_holds-exec rt_exec m = ground (arith, hold_calls-exec rt_exec m)

start_cycle-exec : (has_block : Bool) (m : Machine) → (start_cycle has_block m).exec ≡ m.exec
unfolding start_cycle begin_cycle
start_cycle-exec has_block m = ground arith

exec_start-exec :
    (has_block : Bool) (rt_exec : ℕ) (m : Machine)
    → (exec_start has_block rt_exec m).exec.state
      ≡ clear_if (bit_istrue rt_exec exec_cycle_start) exec_cycle_start m.exec.state
unfolding exec_start
exec_start-exec has_block rt_exec m =
    ground (arith, start_cycle-exec has_block (with_sys resume_door m))

flush_jog-exec : (m : Machine) → (flush_jog m).exec ≡ m.exec
unfolding flush_jog
flush_jog-exec m = ground arith

exec_stop-exec :
    (rt_exec : ℕ) (m : Machine)
    → (exec_stop rt_exec m).exec.state
      ≡ clear_if (bit_istrue rt_exec exec_cycle_stop) exec_cycle_stop m.exec.state
unfolding exec_stop
exec_stop-exec rt_exec m = ground (arith, flush_jog-exec m)

exec_report-exec :
    (rt_exec : ℕ) (m : Machine)
    → (exec_report rt_exec m).exec.state
      ≡ clear_if (bit_istrue rt_exec exec_status_report) exec_status_report m.exec.state
unfolding exec_report
exec_report-exec rt_exec m = ground arith

-- The flags after each of the four parts.
module _ (rt_exec : ℕ) where
  abbrev reported : ℕ
  reported = clear_if (bit_istrue rt_exec exec_status_report) exec_status_report rt_exec

  abbrev held : ℕ
  held = clear_if (bit_istrue rt_exec hold_flags) hold_flags reported

  abbrev started : ℕ
  started = clear_if (bit_istrue rt_exec exec_cycle_start) exec_cycle_start held

  abbrev stopped : ℕ
  stopped = clear_if (bit_istrue rt_exec exec_cycle_stop) exec_cycle_stop started

  stopped_keep :
      (n : ℕ) → bit_and (bit_not8 exec_cycle_stop) n ≡ n → bit_and stopped n ≡ bit_and started n
  stopped_keep n = clear_if_keep (bit_istrue rt_exec exec_cycle_stop) exec_cycle_stop started n

  started_keep :
      (n : ℕ) → bit_and (bit_not8 exec_cycle_start) n ≡ n → bit_and started n ≡ bit_and held n
  started_keep n = clear_if_keep (bit_istrue rt_exec exec_cycle_start) exec_cycle_start held n

  held_keep : (n : ℕ) → bit_and (bit_not8 hold_flags) n ≡ n → bit_and held n ≡ bit_and reported n
  held_keep n = clear_if_keep (bit_istrue rt_exec hold_flags) hold_flags reported n

  reported_keep :
      (n : ℕ) → bit_and (bit_not8 exec_status_report) n ≡ n → bit_and reported n ≡ bit_and rt_exec n
  reported_keep n =
      clear_if_keep (bit_istrue rt_exec exec_status_report) exec_status_report rt_exec n

  drop :
      (mask flags : ℕ)
      → bit_and (bit_not8 mask) mask ≡ 0
      → bit_and flags mask ≡ bit_and rt_exec mask
      → bit_and (clear_if (bit_istrue rt_exec mask) mask flags) mask ≡ 0
  drop mask flags h e = clear_if_drop (bit_istrue rt_exec mask) mask flags h (λ unset. ground arith)

  drained :
      (bit_and stopped exec_status_report ≡ 0)
      × (bit_and stopped hold_flags ≡ 0)
      × (bit_and stopped exec_cycle_start ≡ 0)
      × (bit_and stopped exec_cycle_stop ≡ 0)
      × (bit_and stopped exec_reset ≡ bit_and rt_exec exec_reset)
  drained = (
    stopped_keep exec_status_report refl
        ∙ started_keep exec_status_report refl
        ∙ held_keep exec_status_report refl
        ∙ drop exec_status_report rt_exec refl refl,
    stopped_keep hold_flags refl
        ∙ started_keep hold_flags refl
        ∙ drop hold_flags reported refl (reported_keep hold_flags refl),
    stopped_keep exec_cycle_start refl
        ∙ drop exec_cycle_start held refl
            (held_keep exec_cycle_start refl ∙ reported_keep exec_cycle_start refl),
    drop exec_cycle_stop started refl (
        started_keep exec_cycle_stop refl
        ∙ held_keep exec_cycle_stop refl
        ∙ reported_keep exec_cycle_stop refl),
    stopped_keep exec_reset refl
        ∙ started_keep exec_reset refl
        ∙ held_keep exec_reset refl
        ∙ reported_keep exec_reset refl,
  )

exec_state_flags-exec :
    (has_block : Bool) (m : Machine)
    → (exec_state_flags has_block m).exec.state ≡ stopped m.exec.state
unfolding exec_state_flags
exec_state_flags-exec has_block m =
    simp (exec_stop-exec, exec_start-exec, exec_holds-exec, exec_report-exec)

-- No served flag of `before` is set in `after`, and a reset is pending in both or in neither.
abbrev pub IsDrained : ℕ → ℕ → Type 0
IsDrained before after =
    (bit_and after exec_status_report ≡ 0)
    × (bit_and after hold_flags ≡ 0)
    × (bit_and after exec_cycle_start ≡ 0)
    × (bit_and after exec_cycle_stop ≡ 0)
    × (bit_and after exec_reset ≡ bit_and before exec_reset)

-- After the realtime flags are served, none of the flags that were read is still set, and a pending
-- reset is neither raised nor lost.
pub exec_state_flags-drains :
    (has_block : Bool) (m : Machine)
    → IsDrained m.exec.state (exec_state_flags has_block m).exec.state
exec_state_flags-drains has_block m = rw (exec_state_flags-exec has_block m) (drained m.exec.state)
