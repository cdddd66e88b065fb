-- ===== src/Serial.antt =====
-- grbl/serial.c: the receive and transmit rings, the functions that the main program calls and
-- the two interrupt handlers. A byte read out of range is 0, which `Serial.Rings.IsValid` rules out.
-- The set of bits in UCSR0B that matters is UDRIE0, the enable bit of the transmit interrupt.
pub mod Rings
pub mod Receive
pub mod Transmit
pub mod Race
use tele_handwriter.Base.{
  ℕ, suc, ◌+◌, ◌-◌, ◌≡◌, Bool, true, false, List, [], ◌∷◌, ◌++◌, leb, ◌==◌, if◌then◌else◌, u8, sub8,
  get_or, set,
}
use tele_handwriter.Base.Bits.{bit_istrue}

abbrev pub rx_buffer_size : ℕ
rx_buffer_size = 128

abbrev pub tx_buffer_size : ℕ
tx_buffer_size = 104

abbrev pub rx_ring_buffer : ℕ
rx_ring_buffer = rx_buffer_size + 1

abbrev pub tx_ring_buffer : ℕ
tx_ring_buffer = tx_buffer_size + 1

abbrev pub serial_no_data : ℕ
serial_no_data = 0xff

abbrev pub exec_reset : ℕ
exec_reset = 0x10

pub record Serial : Type 0 where
  pub rx_buffer : List ℕ
  pub rx_buffer_head : ℕ
  pub rx_buffer_tail : ℕ
  pub tx_buffer : List ℕ
  pub tx_buffer_head : ℕ
  pub tx_buffer_tail : ℕ
  pub udrie : Bool

-- `i++; if (i == ring) { i = 0; }` on a uint8_t.
abbrev pub step_index : ℕ → ℕ → ℕ
step_index ring i = if u8 (i + 1) == ring then 0 else u8 (i + 1)

unfoldable pub serial_get_rx_buffer_available : Serial → ℕ
serial_get_rx_buffer_available s =
    if leb s.rx_buffer_tail s.rx_buffer_head
    then sub8 rx_buffer_size (s.rx_buffer_head - s.rx_buffer_tail)
    else sub8 (s.rx_buffer_tail - s.rx_buffer_head) 1

unfoldable pub serial_get_rx_buffer_count : Serial → ℕ
serial_get_rx_buffer_count s =
    if leb s.rx_buffer_tail s.rx_buffer_head
    then s.rx_buffer_head - s.rx_buffer_tail
    else sub8 rx_buffer_size (s.rx_buffer_tail - s.rx_buffer_head)

unfoldable pub serial_get_tx_buffer_count : Serial → ℕ
serial_get_tx_buffer_count s =
    if leb s.tx_buffer_tail s.tx_buffer_head
    then s.tx_buffer_head - s.tx_buffer_tail
    else sub8 tx_ring_buffer (s.tx_buffer_tail - s.tx_buffer_head)

-- The byte stored and the head advanced, before the interrupt is enabled.
abbrev pub tx_store : Serial → ℕ → Serial
tx_store s byte = record s {
  tx_buffer = set s.tx_buffer s.tx_buffer_head byte;
  tx_buffer_head = step_index tx_ring_buffer s.tx_buffer_head;
}

-- `UCSR0B |= (1 << UDRIE0)`
abbrev pub tx_enable : Serial → Serial
tx_enable s = record s { udrie = true }

-- The handler of SERIAL_UDRE: the byte sent, and the state after it.
unfoldable pub serial_udre : Serial → ℕ × Serial
serial_udre s =
    let tail = step_index tx_ring_buffer s.tx_buffer_tail in
    (
      get_or s.tx_buffer s.tx_buffer_tail 0,
      record s {
        tx_buffer_tail = tail;
        udrie = if tail == s.tx_buffer_head then false else s.udrie;
      },
    )

-- What can happen between two polls of the wait loop in `serial_write`: the transmit interrupt,
-- which fires only while it is enabled, or another interrupt that leaves sys_rt_exec_state so.
pub data Event : Type 0 where
  udre : Event
  exec_state : ℕ → Event

-- How a call of `serial_write` stands: it wrote, it gave up on a reset, or it still waits. The
-- list holds the bytes that were sent meanwhile.
pub data Outcome : Type 0 where
  wrote : Serial → List ℕ → Outcome
  dropped : Serial → List ℕ → Outcome
  waiting : Serial → List ℕ → Outcome

abbrev tx_full : Serial → Bool
tx_full s = step_index tx_ring_buffer s.tx_buffer_head == s.tx_buffer_tail

-- `udre` while the interrupt is disabled does not happen.
fire_udre : Serial → ℕ → ℕ × Serial × List ℕ
fire_udre s exec =
    if s.udrie then (let (byte, s') = serial_udre s in (exec, s', byte ∷ [])) else (exec, s, [])

-- The state that the next poll sees, and the bytes sent.
between_polls : Event → Serial → ℕ → ℕ × Serial × List ℕ
unfolding fire_udre
between_polls udre s exec = fire_udre s exec
between_polls (exec_state flags) s exec = (flags, s, [])

-- The loop of `serial_write`, with the events that come while it waits.
write_loop : ℕ → List Event → ℕ → Serial → List ℕ → Outcome
write_loop byte [] exec s sent =
    if tx_full s
    then (if bit_istrue exec exec_reset then dropped s sent else waiting s sent)
    else wrote (tx_enable (tx_store s byte)) sent
write_loop byte (e ∷ es) exec s sent =
    let (exec', s', out) = between_polls e s exec in
    let again = write_loop byte es exec' s' (sent ++ out) in
    if tx_full s
    then (if bit_istrue exec exec_reset then dropped s sent else again)
    else wrote (tx_enable (tx_store s byte)) sent

unfoldable pub serial_write : ℕ → List Event → ℕ → Serial → Outcome
unfolding write_loop between_polls
serial_write byte events exec s = write_loop byte events exec s []

unfoldable pub serial_read : Serial → ℕ × Serial
serial_read s = if s.rx_buffer_head == s.rx_buffer_tail then (serial_no_data, s) else (
  get_or s.rx_buffer s.rx_buffer_tail 0,
  record s { rx_buffer_tail = step_index rx_ring_buffer s.rx_buffer_tail },
)

-- The part of the SERIAL_RX handler that stores a character that is no realtime command.
unfoldable pub rx_store : Serial → ℕ → Serial
rx_store s byte =
    let next_head = step_index rx_ring_buffer s.rx_buffer_head in
    if next_head == s.rx_buffer_tail
    then s
    else record s { rx_buffer = set s.rx_buffer s.rx_buffer_head byte; rx_buffer_head = next_head }

unfoldable pub serial_reset_read_buffer : Serial → Serial
serial_reset_read_buffer s = record s { rx_buffer_tail = s.rx_buffer_head }
