-- ===== src/Serial/Transmit.antt =====
-- The transmit ring of serial.c: `serial_write` with the interrupts that come while it waits, and
-- the SERIAL_UDRE handler that sends.
use tele_handwriter.Base.{
  ℕ, ◌<◌, ◌≡◌, refl, Bool, true, false, List, [], ◌∷◌, ◌++◌, inl, inr, if◌then◌else◌, arith,
  length-set, get_or, append_assoc, Bool-cases, ap, sym, ◌∙◌,
}
use tele_handwriter.Base.Bits.{bit_istrue}
use tele_handwriter.Base.Ring.{contents, contents-push, contents-pop, next}
use tele_handwriter.Serial.{
  Serial, Event, udre, exec_state, Outcome, wrote, dropped, waiting, tx_ring_buffer, exec_reset,
  step_index, tx_full, tx_store, tx_enable, serial_udre, fire_udre, between_polls, write_loop,
  serial_write,
}
use tele_handwriter.Serial.Rings.{IsValid, unsent}

step_index-next : (ring i : ℕ) → ring < 256 → i < ring → next ring i ≡ step_index ring i
step_index-next ring i small h = ground arith

-- In a valid state the transmit interrupt fires only with a byte to send: it sends the oldest one,
-- leaves the rest, and disables itself exactly when nothing is left.
pub serial_udre_lem :
    (s : Serial)
    → IsValid s
    → s.udrie ≡ true
    → (unsent s ≡ (serial_udre s).0 ∷ unsent (serial_udre s).1) × IsValid (serial_udre s).1
unfolding serial_udre
serial_udre_lem s v on = (
  contents-pop 0 tx_ring_buffer s.tx_buffer s.tx_buffer_head s.tx_buffer_tail (ground arith)
        (ground arith) (λ e. ground (arith, v.udrie_idle e))
      ∙ ap
          (λ i.
            get_or s.tx_buffer s.tx_buffer_tail 0
            ∷ contents 0 tx_ring_buffer s.tx_buffer s.tx_buffer_head i)
          (step_index-next tx_ring_buffer s.tx_buffer_tail (omega arith) v.tx_tail_in),
  ground arith,
)

store-enable-IsValid :
    (s : Serial) (byte : ℕ)
    → IsValid s
    → tx_full s ≡ false
    → IsValid (tx_enable (tx_store s byte))
      × (unsent (tx_enable (tx_store s byte)) ≡ unsent s ++ (byte ∷ []))
store-enable-IsValid s byte v room = (
  ground (arith, length-set s.tx_buffer s.tx_buffer_head byte),
  ground (arith, contents-push 0 tx_ring_buffer s.tx_buffer byte s.tx_buffer_head s.tx_buffer_tail),
)

fire_udre-on :
    (s : Serial) (exec : ℕ)
    → s.udrie ≡ true
    → fire_udre s exec ≡ (exec, (serial_udre s).1, (serial_udre s).0 ∷ [])
unfolding fire_udre
fire_udre-on s exec on = ground arith

fire_udre-off : (s : Serial) (exec : ℕ) → s.udrie ≡ false → fire_udre s exec ≡ (exec, s, [])
unfolding fire_udre
fire_udre-off s exec off = ground arith

between_polls_lem :
    (e : Event) (s : Serial) (exec : ℕ)
    → IsValid s
    → let (exec', s', out) = between_polls e s exec in (out ++ unsent s' ≡ unsent s) × IsValid s'
unfolding between_polls
between_polls_lem udre s exec v = elim (Bool-cases s.udrie) [
  | inl on ↦ rw (fire_udre-on s exec on) (let (p, w) = serial_udre_lem s v on in (sym p, w))
  | inr off ↦ rw (fire_udre-off s exec off) (refl, v)
]
between_polls_lem (exec_state flags) s exec v = (refl, v)

-- What a call of `serial_write` may do, for the bytes that were unsent when it was made, with
-- `sent` sent before.
abbrev pub Accounts : List ℕ → ℕ → Outcome → Type 0
Accounts before byte (wrote s sent) = (sent ++ unsent s ≡ before ++ (byte ∷ [])) × IsValid s
Accounts before byte (dropped s sent) = (sent ++ unsent s ≡ before) × IsValid s
Accounts before byte (waiting s sent) = (sent ++ unsent s ≡ before) × IsValid s

Accounts-if :
    (before : List ℕ) (byte : ℕ) (b : Bool) (x y : Outcome)
    → (b ≡ true → Accounts before byte x)
    → (b ≡ false → Accounts before byte y)
    → Accounts before byte (if b then x else y)
Accounts-if before byte true x y p q = p refl
Accounts-if before byte false x y p q = q refl

store-Accounts :
    (before : List ℕ) (byte : ℕ) (s : Serial) (sent : List ℕ)
    → IsValid s
    → sent ++ unsent s ≡ before
    → tx_full s ≡ false
    → Accounts before byte (wrote (tx_enable (tx_store s byte)) sent)
store-Accounts before byte s sent v e room =
    let (w, q) = store-enable-IsValid s byte v room in
    (
      ap (λ l. sent ++ l) q
          ∙ sym (append_assoc sent (unsent s) (byte ∷ []))
          ∙ ap (λ l. l ++ (byte ∷ [])) e,
      w,
    )

write_loop-Accounts :
    (before : List ℕ) (byte : ℕ) (es : List Event) (exec : ℕ) (s : Serial) (sent : List ℕ)
    → IsValid s
    → sent ++ unsent s ≡ before
    → Accounts before byte (write_loop byte es exec s sent)
unfolding write_loop
write_loop-Accounts before byte [] exec s sent v e =
    Accounts-if before byte (tx_full s) _ _
      (λ full. Accounts-if before byte (bit_istrue exec exec_reset) _ _ (λ _. (e, v)) (λ _. (e, v)))
      (λ room. store-Accounts before byte s sent v e room)
write_loop-Accounts before byte (ev ∷ es) exec s sent v e =
    Accounts-if before byte (tx_full s) _ _
      (λ full.
        Accounts-if before byte (bit_istrue exec exec_reset) _ _ (λ _. (e, v))
          (λ _.
            let (p, w) = between_polls_lem ev s exec v in
            write_loop-Accounts before byte es _ _ _ w
              (append_assoc sent _ _ ∙ ap (λ l. sent ++ l) p ∙ e)))
      (λ room. store-Accounts before byte s sent v e room)

-- Whatever happens while `serial_write` waits, from a valid state no byte is lost, repeated or
-- reordered: the bytes sent meanwhile and those still unsent make up those that were unsent before,
-- followed by the new byte if and only if the call wrote it, and the state stays valid.
pub serial_write-Accounts :
    (byte : ℕ) (es : List Event) (exec : ℕ) (s : Serial)
    → IsValid s
    → Accounts (unsent s) byte (serial_write byte es exec s)
unfolding serial_write
serial_write-Accounts byte es exec s v = write_loop-Accounts (unsent s) byte es exec s [] v refl

-- One of the events is the transmit interrupt.
abbrev pub HasUdre : List Event → Type 0
HasUdre [] = ⊥
HasUdre (udre ∷ es) = Unit {0}
HasUdre (exec_state flags ∷ es) = HasUdre es

abbrev pub IsSettled : Outcome → Type 0
IsSettled (wrote s sent) = Unit {0}
IsSettled (dropped s sent) = Unit {0}
IsSettled (waiting s sent) = ⊥

IsSettled-if :
    (b : Bool) (x y : Outcome)
    → IsSettled x
    → (b ≡ false → IsSettled y)
    → IsSettled (if b then x else y)
IsSettled-if true x y p q = p
IsSettled-if false x y p q = q refl

write_loop_room :
    (byte : ℕ) (es : List Event) (exec : ℕ) (s : Serial) (sent : List ℕ)
    → tx_full s ≡ false
    → IsSettled (write_loop byte es exec s sent)
unfolding write_loop
write_loop_room byte [] exec s sent room = simp room tt
write_loop_room byte (e ∷ es) exec s sent room = simp room tt

-- A full ring keeps its interrupt enabled, and has room once that has fired.
udre-tx_full :
    (s : Serial)
    → IsValid s
    → tx_full s ≡ true
    → (s.udrie ≡ true) × (tx_full (serial_udre s).1 ≡ false)
unfolding serial_udre
udre-tx_full s v full = ground arith

write_loop_udre :
    (byte : ℕ) (es : List Event) (exec : ℕ) (s : Serial) (sent : List ℕ)
    → IsValid s
    → tx_full s ≡ true
    → let (exec', s', out) = between_polls udre s exec in
      IsSettled (write_loop byte es exec' s' (sent ++ out))
unfolding between_polls
write_loop_udre byte es exec s sent v full =
    let (on, room) = udre-tx_full s v full in
    rw (fire_udre-on s exec on) (write_loop_room byte es exec (serial_udre s).1 _ room)

write_loop-IsSettled :
    (byte : ℕ) (es : List Event) (exec : ℕ) (s : Serial) (sent : List ℕ)
    → IsValid s
    → HasUdre es
    → IsSettled (write_loop byte es exec s sent)
unfolding write_loop between_polls
write_loop-IsSettled byte [] exec s sent v h = absurd h
write_loop-IsSettled byte (udre ∷ es) exec s sent v h = elim (Bool-cases (tx_full s)) [
  | inl full ↦ simp full (
      IsSettled-if (bit_istrue exec exec_reset) _ _ tt
        (λ _. write_loop_udre byte es exec s sent v full))
  | inr room ↦ simp room tt
]
write_loop-IsSettled byte (exec_state flags ∷ es) exec s sent v h = elim (Bool-cases (tx_full s)) [
  | inl full ↦ simp full (
      IsSettled-if (bit_istrue exec exec_reset) _ _ tt
        (λ _. write_loop-IsSettled byte es flags s (sent ++ []) v h))
  | inr room ↦ simp room tt
]

-- The wait in `serial_write` ends: from a valid state, a call during which the transmit interrupt
-- gets to run returns, with the byte written or given up on a reset.
pub serial_write-IsSettled :
    (byte : ℕ) (es : List Event) (exec : ℕ) (s : Serial)
    → IsValid s
    → HasUdre es
    → IsSettled (serial_write byte es exec s)
unfolding serial_write
serial_write-IsSettled byte es exec s v h = write_loop-IsSettled byte es exec s [] v h
