-- ===== src/Stepper/Segments.antt =====
-- The interrupts that execute one segment, and the axes that they move.
use tele_handwriter.Base.{
  ℕ, zero, suc, ◌<◌, ◌≡◌, ◌≢◌, ap, ap₂, ◌∙◌, true, false, not, ◌==◌, if◌then◌else◌, get_or, arith,
}
use tele_handwriter.Base.Bits.{bit_istrue}
use tele_handwriter.Base.Ring.{next}
use tele_handwriter.System.{Sys}
use tele_handwriter.Stepper.{
  Stepper, StBlock, Axis, exec_block, exec_segment, axis_step, load_segment, set_ports, step_axes,
  end_tick, tick, timer1_compa, segment_buffer_size, x_direction_mask, y_direction_mask,
  z_direction_mask, shift_axis, start_axis, no_block,
}
use tele_handwriter.Stepper.Bresenham.{run_axis}

-- `n` timer interrupts, with the same system state and no active probe.
pub interrupts : Sys → ℕ → Stepper → Stepper
interrupts s zero st = st
interrupts s (suc n) st = interrupts s n (timer1_compa s false st)

-- The parts of the stepper that a segment in progress leaves alone.
abbrev pub IsSame : Stepper → Stepper → Type 0
IsSame st n =
    (n.exec_block_index ≡ st.exec_block_index)
    × (n.st_block_buffer ≡ st.st_block_buffer)
    × (n.segment_buffer ≡ st.segment_buffer)
    × (n.segment_buffer_head ≡ st.segment_buffer_head)

-- The three axes after `n` ticks of the block in execution.
abbrev pub HasRun : ℕ → Stepper → Stepper → Type 0
HasRun k st n =
    let block = exec_block st in
    let events = block.step_event_count in
    let bits = block.direction_bits in
    (n.x ≡ run_axis (bit_istrue bits x_direction_mask) events k st.x)
    × (n.y ≡ run_axis (bit_istrue bits y_direction_mask) events k st.y)
    × (n.z ≡ run_axis (bit_istrue bits z_direction_mask) events k st.z)

step_lem :
    (s : Sys) (st : Stepper) (c : ℕ)
    → st.busy ≡ false
    → st.is_loaded ≡ true
    → st.step_count ≡ suc c
    → c < 65535
    → let n = timer1_compa s false st in
      HasRun 1 st n
      × IsSame st n
      × (n.busy ≡ false)
      × (n.step_count ≡ c)
      × (n.is_loaded ≡ not (c == 0))
      × (n.segment_buffer_tail ≡ (
          if c == 0
          then next segment_buffer_size st.segment_buffer_tail
          else st.segment_buffer_tail))
unfolding timer1_compa tick set_ports end_tick step_axes run_axis
step_lem s st c b l e h = ground arith

load_lem :
    (s : Sys) (st : Stepper) (c : ℕ)
    → st.busy ≡ false
    → st.is_loaded ≡ false
    → st.segment_buffer_head ≢ st.segment_buffer_tail
    → (exec_segment st).n_step ≡ suc c
    → c < 65535
    → let n = timer1_compa s false st in
      HasRun 1 (load_segment st) n
      × IsSame (load_segment st) n
      × (n.busy ≡ false)
      × (n.step_count ≡ c)
      × (n.is_loaded ≡ not (c == 0))
      × (n.segment_buffer_tail ≡ (
          if c == 0
          then next segment_buffer_size st.segment_buffer_tail
          else st.segment_buffer_tail))
unfolding timer1_compa tick set_ports end_tick step_axes run_axis load_segment start_axis shift_axis
load_lem s st c b l d e h = ground arith

run_axis-next :
    (block other : StBlock) (mask k : ℕ) (a b d : Axis)
    → other ≡ block
    → b ≡ axis_step (bit_istrue block.direction_bits mask) block.step_event_count a
    → d ≡ run_axis (bit_istrue other.direction_bits mask) other.step_event_count k b
    → d ≡ run_axis (bit_istrue block.direction_bits mask) block.step_event_count (suc k) a
unfolding run_axis
run_axis-next block other mask k a b d same first rest =
    rest
    ∙ ap (λ (o : StBlock). run_axis (bit_istrue o.direction_bits mask) o.step_event_count k b) same
    ∙ ap (run_axis (bit_istrue block.direction_bits mask) block.step_event_count k) first

HasRun-next :
    (k : ℕ) (st m n : Stepper) → IsSame st m → HasRun 1 st m → HasRun k m n → HasRun (suc k) st n
unfolding run_axis
HasRun-next k st m n same (x, y, z) (rx, ry, rz) =
    let block : exec_block m ≡ exec_block st =
      ap₂ (λ buffer i. get_or buffer i no_block) same.1 same.0 in
    (
      run_axis-next (exec_block st) (exec_block m) x_direction_mask k st.x m.x n.x block x rx,
      run_axis-next (exec_block st) (exec_block m) y_direction_mask k st.y m.y n.y block y ry,
      run_axis-next (exec_block st) (exec_block m) z_direction_mask k st.z m.z n.z block z rz,
    )

IsSame-trans : (a b c : Stepper) → IsSame a b → IsSame b c → IsSame a c
IsSame-trans a b c (p, q, r, t) (u, v, w, x) = (u ∙ p, v ∙ q, w ∙ r, x ∙ t)

-- The end of a segment, after its last tick.
abbrev pub IsDone : ℕ → Stepper → Stepper → Type 0
IsDone k st n =
    HasRun k st n
    × IsSame st n
    × (n.busy ≡ false)
    × (n.is_loaded ≡ false)
    × (n.segment_buffer_tail ≡ next segment_buffer_size st.segment_buffer_tail)

rest_of_segment :
    (s : Sys) (c : ℕ) (st : Stepper)
    → st.busy ≡ false
    → st.is_loaded ≡ true
    → st.step_count ≡ suc c
    → c < 65535
    → IsDone (suc c) st (interrupts s (suc c) st)
unfolding interrupts
rest_of_segment s zero st b l e h =
    let stepped = step_lem s st zero b l e h in
    (stepped.0, stepped.1, stepped.2, stepped.4, stepped.5)
rest_of_segment s (suc c) st b l e h =
    let m = timer1_compa s false st in
    let stepped = step_lem s st (suc c) b l e h in
    let rest =
      rest_of_segment s c m stepped.2 (ground (arith, stepped.4)) stepped.3 (omega arith) in
    let n = interrupts s (suc c) m in
    (
      HasRun-next (suc c) st m n stepped.1 stepped.0 rest.0,
      IsSame-trans st m n stepped.1 rest.1,
      rest.2,
      rest.3,
      rest.4 ∙ ap (next segment_buffer_size) (ground (arith, stepped.5)),
    )

-- A segment of `c + 1` ticks is executed by as many timer interrupts: each axis makes that many ticks
-- of Bresenham's line with the block of the segment, then the segment is released and its slot freed.
pub segment_executes :
    (s : Sys) (st : Stepper) (c : ℕ)
    → st.busy ≡ false
    → st.is_loaded ≡ false
    → st.segment_buffer_head ≢ st.segment_buffer_tail
    → (exec_segment st).n_step ≡ suc c
    → c < 65535
    → IsDone (suc c) (load_segment st) (interrupts s (suc c) st)
unfolding interrupts load_segment
segment_executes s st zero b l d e h =
    let first = load_lem s st zero b l d e h in (first.0, first.1, first.2, first.4, first.5)
segment_executes s st (suc c) b l d e h =
    let m = timer1_compa s false st in
    let first = load_lem s st (suc c) b l d e h in
    let rest = rest_of_segment s c m first.2 (ground (arith, first.4)) first.3 (omega arith) in
    let n = interrupts s (suc c) m in
    (
      HasRun-next (suc c) (load_segment st) m n first.1 first.0 rest.0,
      IsSame-trans (load_segment st) m n first.1 rest.1,
      rest.2,
      rest.3,
      rest.4 ∙ ap (next segment_buffer_size) (ground (arith, first.5)),
    )
