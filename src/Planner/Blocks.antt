-- ===== src/Planner/Blocks.antt =====
-- The block ring of grbl/planner.c beside the list of its blocks.
use tele_handwriter.Base.{
  ℕ, ◌+◌, ◌-◌, ◌<◌, ◌≡◌, ◌≢◌, sym, ap, ap₂, ◌∙◌, true, false, List, [], ◌∷◌, ◌++◌, Option, none,
  some, ◌==◌, if◌then◌else◌, set, length, length-set, arith, Bool-cases, inl, inr,
}
use tele_handwriter.Base.Ring.{
  contents-set_head, contents, count, next, contents-push, contents-pop, contents-empty,
  length-window,
}
use tele_handwriter.Planner.{
  Planner, PlanBlock, Position, no_plan_block, block_buffer_size, plan_next_block_index,
  plan_discard_current_block, plan_get_current_block, plan_check_full_buffer,
  plan_get_block_buffer_available, plan_get_block_buffer_count, block_steps, plan_buffer_line,
}

pub record IsValid (pl : Planner) : Type 0 where
  pub slots : length pl.block_buffer ≡ block_buffer_size
  pub head_in : pl.block_buffer_head < block_buffer_size
  pub tail_in : pl.block_buffer_tail < block_buffer_size
  pub next_head : pl.next_buffer_head ≡ next block_buffer_size pl.block_buffer_head

-- The blocks that are planned and not yet discarded, oldest first.
abbrev pub planned_blocks : Planner → List PlanBlock
planned_blocks pl =
    contents no_plan_block block_buffer_size pl.block_buffer pl.block_buffer_head
      pl.block_buffer_tail

length-planned :
    (pl : Planner)
    → length (planned_blocks pl) ≡ count block_buffer_size pl.block_buffer_head pl.block_buffer_tail
length-planned pl =
    length-window no_plan_block block_buffer_size pl.block_buffer pl.block_buffer_tail
      (count block_buffer_size pl.block_buffer_head pl.block_buffer_tail)

-- The counts are those of the blocks in the buffer, of which there are at most 15, and the buffer is
-- full exactly when no slot is available.
pub buffer_counts :
    (pl : Planner)
    → IsValid pl
    → (plan_get_block_buffer_count pl ≡ length (planned_blocks pl))
      × (plan_get_block_buffer_available pl + length (planned_blocks pl) ≡ block_buffer_size - 1)
      × (plan_check_full_buffer pl ≡ (plan_get_block_buffer_available pl == 0))
unfolding plan_get_block_buffer_count plan_get_block_buffer_available plan_check_full_buffer
buffer_counts pl v =
    (ground (arith, length-planned pl), ground (arith, length-planned pl), ground arith)

plan_buffer_line-IsValid :
    (target : Position) (planned : ℕ) (pl : Planner)
    → IsValid pl
    → IsValid (plan_buffer_line target planned pl).1
unfolding plan_buffer_line plan_next_block_index
plan_buffer_line-IsValid target planned pl v =
    ground (arith, length-set pl.block_buffer pl.block_buffer_head (block_steps target pl.position))

plan_discard-IsValid : (pl : Planner) → IsValid pl → IsValid (plan_discard_current_block pl)
unfolding plan_discard_current_block plan_next_block_index
plan_discard-IsValid pl v = ground arith

buffer_open :
    (pl : Planner)
    → IsValid pl
    → plan_check_full_buffer pl ≡ false
    → next block_buffer_size pl.block_buffer_head ≢ pl.block_buffer_tail
unfolding plan_check_full_buffer
buffer_open pl v h e = ground arith

plan_buffer_line-blocks :
    (target : Position) (planned : ℕ) (pl : Planner)
    → IsValid pl
    → plan_check_full_buffer pl ≡ false
    → planned_blocks (plan_buffer_line target planned pl).1 ≡ (
        if (block_steps target pl.position).step_event_count == 0
        then planned_blocks pl
        else planned_blocks pl ++ block_steps target pl.position ∷ [])
unfolding plan_buffer_line
plan_buffer_line-blocks target planned pl v room =
    let block = block_steps target pl.position in
    let head = pl.block_buffer_head in
    let tail = pl.block_buffer_tail in
    let kept =
      contents-set_head no_plan_block block_buffer_size pl.block_buffer block head tail v.head_in
        v.tail_in in
    let pushed =
      contents-push no_plan_block block_buffer_size pl.block_buffer block head tail
        (omega (arith, v.slots)) v.head_in v.tail_in (buffer_open pl v room) in
    let moved =
      ap (λ h. contents no_plan_block block_buffer_size (set pl.block_buffer head block) h tail)
        v.next_head in
    elim (Bool-cases (block.step_event_count == 0)) [
      | inl e ↦ simp e kept
      | inr e ↦ simp e (moved ∙ pushed)
    ]

-- Adding a line to a buffer that is not full appends its block, or adds nothing where the line has no
-- steps; the buffer stays valid.
pub plan_buffer_line_refines :
    (target : Position) (planned : ℕ) (pl : Planner)
    → IsValid pl
    → plan_check_full_buffer pl ≡ false
    → let block = block_steps target pl.position in
      let result = plan_buffer_line target planned pl in
      (planned_blocks result.1 ≡ (
        if block.step_event_count == 0 then planned_blocks pl else planned_blocks pl ++ block ∷ []))
      × IsValid result.1
plan_buffer_line_refines target planned pl v room =
    (plan_buffer_line-blocks target planned pl v room, plan_buffer_line-IsValid target planned pl v)

abbrev pub front : Option PlanBlock → List PlanBlock
front none = []
front (some block) = block ∷ []

discard_empty :
    (pl : Planner)
    → (pl.block_buffer_head == pl.block_buffer_tail) ≡ true
    → (plan_get_current_block pl ≡ none)
      × (plan_discard_current_block pl ≡ pl)
      × (planned_blocks pl ≡ [])
unfolding plan_get_current_block plan_discard_current_block
discard_empty pl e =
    let same : pl.block_buffer_head ≡ pl.block_buffer_tail = ground arith in
    (
      simp e,
      simp e,
      rw same (contents-empty no_plan_block block_buffer_size pl.block_buffer pl.block_buffer_tail),
    )

current_some :
    (pl : Planner)
    → (pl.block_buffer_head == pl.block_buffer_tail) ≡ false
    → plan_get_current_block pl ≢ none
unfolding plan_get_current_block
current_some pl e h = ground arith

discard_more :
    (pl : Planner)
    → IsValid pl
    → (pl.block_buffer_head == pl.block_buffer_tail) ≡ false
    → planned_blocks pl
      ≡ front (plan_get_current_block pl) ++ planned_blocks (plan_discard_current_block pl)
unfolding plan_get_current_block plan_discard_current_block plan_next_block_index
discard_more pl v e = simp e (
    contents-pop no_plan_block block_buffer_size pl.block_buffer pl.block_buffer_head
      pl.block_buffer_tail v.head_in v.tail_in (ground arith))

-- The current block is the oldest one in the buffer, and discarding it leaves the others; in an empty
-- buffer there is no current block and discarding does nothing. The buffer stays valid.
pub plan_discard_refines :
    (pl : Planner)
    → IsValid pl
    → IsValid (plan_discard_current_block pl)
      × (planned_blocks pl
          ≡ front (plan_get_current_block pl) ++ planned_blocks (plan_discard_current_block pl))
      × (plan_get_current_block pl ≡ none → planned_blocks pl ≡ [])
plan_discard_refines pl v = elim (Bool-cases (pl.block_buffer_head == pl.block_buffer_tail)) [
  | inl e ↦
      let empty = discard_empty pl e in
      (
        plan_discard-IsValid pl v,
        sym (ap₂ (λ current rest. front current ++ planned_blocks rest) empty.0 empty.1),
        λ h. empty.2,
      )
  | inr e ↦ (plan_discard-IsValid pl v, discard_more pl v e, λ h. absurd (current_some pl e h))
]
