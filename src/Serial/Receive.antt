-- ===== src/Serial/Receive.antt =====
-- The receive ring of serial.c as a bounded queue: the SERIAL_RX handler's store on one side,
-- `serial_read` and `serial_reset_read_buffer` on the other.
use tele_handwriter.Base.{
  ℕ, ◌≡◌, refl, List, [], ◌∷◌, ◌++◌, ◌==◌, if◌then◌else◌, arith, length, length-set,
}
use tele_handwriter.Base.Ring.{contents-push, contents-pop, contents-empty}
use tele_handwriter.Serial.{
  Serial, serial_no_data, rx_buffer_size, rx_ring_buffer, rx_store, serial_read,
  serial_reset_read_buffer,
}
use tele_handwriter.Serial.Rings.{IsValid, received, length-received}

pub rx_store-IsValid : (s : Serial) (byte : ℕ) → IsValid s → IsValid (rx_store s byte)
unfolding rx_store
rx_store-IsValid s byte v = ground (arith, length-set s.rx_buffer s.rx_buffer_head byte)

pub serial_read-IsValid : (s : Serial) → IsValid s → IsValid (serial_read s).1
unfolding serial_read
serial_read-IsValid s v = ground arith

pub serial_reset_read_buffer-IsValid :
    (s : Serial) → IsValid s → IsValid (serial_reset_read_buffer s)
unfolding serial_reset_read_buffer
serial_reset_read_buffer-IsValid s v = ground arith

-- The specification: a queue of at most RX_BUFFER_SIZE bytes that drops a byte when it is full,
-- and answers SERIAL_NO_DATA when it is empty.
abbrev pub Queue : Type 0
Queue = List ℕ

unfoldable pub enqueue : Queue → ℕ → Queue
enqueue q byte = if length q == rx_buffer_size then q else q ++ (byte ∷ [])

unfoldable pub dequeue : Queue → ℕ × Queue
dequeue [] = (serial_no_data, [])
dequeue (byte ∷ q) = (byte, q)

pub rx_store_refines :
    (s : Serial) (byte : ℕ) → IsValid s → received (rx_store s byte) ≡ enqueue (received s) byte
unfolding rx_store enqueue
rx_store_refines s byte v = ground (
  arith,
  length-received s,
  contents-push 0 rx_ring_buffer s.rx_buffer byte s.rx_buffer_head s.rx_buffer_tail,
)

pub serial_read_refines :
    (s : Serial)
    → IsValid s
    → let (byte, s') = serial_read s in (byte, received s') ≡ dequeue (received s)
unfolding serial_read dequeue
serial_read_refines s v = ground (
  arith,
  contents-empty 0 rx_ring_buffer s.rx_buffer s.rx_buffer_head,
  contents-pop 0 rx_ring_buffer s.rx_buffer s.rx_buffer_head s.rx_buffer_tail,
)

received-reset : (s : Serial) → received (serial_reset_read_buffer s) ≡ []
unfolding serial_reset_read_buffer
received-reset s = contents-empty 0 rx_ring_buffer s.rx_buffer s.rx_buffer_head

-- The calls that reach the receive ring, from the interrupt and from the main program.
pub data Op : Type 0 where
  store : ℕ → Op
  read : Op
  reset : Op

pub run : Serial → List Op → List ℕ
run s [] = []
run s (store byte ∷ ops) = run (rx_store s byte) ops
run s (read ∷ ops) = let (byte, s') = serial_read s in byte ∷ run s' ops
run s (reset ∷ ops) = run (serial_reset_read_buffer s) ops

pub run_queue : Queue → List Op → List ℕ
run_queue q [] = []
run_queue q (store byte ∷ ops) = run_queue (enqueue q byte) ops
run_queue q (read ∷ ops) = let (byte, q') = dequeue q in byte ∷ run_queue q' ops
run_queue q (reset ∷ ops) = run_queue [] ops

-- From a valid state no interleaving of received characters, reads and buffer resets tells the
-- receive ring from the bounded queue of the bytes that it holds: the reads return the same bytes.
pub run_refines : (ops : List Op) (s : Serial) → IsValid s → run s ops ≡ run_queue (received s) ops
unfolding run run_queue
run_refines [] s v = refl
run_refines (store byte ∷ ops) s v =
    rw (run_refines ops (rx_store s byte) (rx_store-IsValid s byte v), rx_store_refines s byte v)
run_refines (read ∷ ops) s v =
    rw (run_refines ops (serial_read s).1 (serial_read-IsValid s v), ← serial_read_refines s v)
run_refines (reset ∷ ops) s v = rw (
  run_refines ops (serial_reset_read_buffer s) (serial_reset_read_buffer-IsValid s v),
  received-reset s,
)
