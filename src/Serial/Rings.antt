-- ===== src/Serial/Rings.antt =====
-- The invariant of serial.c's rings, and what the free and used counts return.
use tele_handwriter.Base.{ℕ, ◌+◌, ◌≤◌, ◌<◌, ◌≡◌, ◌≢◌, true, false, List, arith, length}
use tele_handwriter.Base.Ring.{contents, count, length-window}
use tele_handwriter.Serial.{
  Serial, rx_ring_buffer, tx_ring_buffer, rx_buffer_size, serial_get_rx_buffer_available,
  serial_get_rx_buffer_count, serial_get_tx_buffer_count,
}

pub record IsValid (s : Serial) : Type 0 where
  pub rx_slots : length s.rx_buffer ≡ rx_ring_buffer
  pub rx_head_in : s.rx_buffer_head < rx_ring_buffer
  pub rx_tail_in : s.rx_buffer_tail < rx_ring_buffer
  pub tx_slots : length s.tx_buffer ≡ tx_ring_buffer
  pub tx_head_in : s.tx_buffer_head < tx_ring_buffer
  pub tx_tail_in : s.tx_buffer_tail < tx_ring_buffer
  pub udrie_busy : s.tx_buffer_head ≢ s.tx_buffer_tail → s.udrie ≡ true
  pub udrie_idle : s.tx_buffer_head ≡ s.tx_buffer_tail → s.udrie ≡ false

-- The received bytes that are not yet read, and the bytes that are not yet sent, oldest first.
abbrev pub received : Serial → List ℕ
received s = contents 0 rx_ring_buffer s.rx_buffer s.rx_buffer_head s.rx_buffer_tail

abbrev pub unsent : Serial → List ℕ
unsent s = contents 0 tx_ring_buffer s.tx_buffer s.tx_buffer_head s.tx_buffer_tail

pub length-received :
    (s : Serial) → length (received s) ≡ count rx_ring_buffer s.rx_buffer_head s.rx_buffer_tail
length-received s =
    length-window 0 rx_ring_buffer s.rx_buffer s.rx_buffer_tail
      (count rx_ring_buffer s.rx_buffer_head s.rx_buffer_tail)

pub length-unsent :
    (s : Serial) → length (unsent s) ≡ count tx_ring_buffer s.tx_buffer_head s.tx_buffer_tail
length-unsent s =
    length-window 0 tx_ring_buffer s.tx_buffer s.tx_buffer_tail
      (count tx_ring_buffer s.tx_buffer_head s.tx_buffer_tail)

-- In a valid state the free count of the receive ring and the bytes that it holds add up to
-- RX_BUFFER_SIZE, and the count of the transmit ring is the number of bytes that it holds.
pub counts-length :
    (s : Serial)
    → IsValid s
    → (serial_get_rx_buffer_available s + length (received s) ≡ rx_buffer_size)
      × (serial_get_tx_buffer_count s ≡ length (unsent s))
unfolding serial_get_rx_buffer_available serial_get_tx_buffer_count
counts-length s v = ground (arith, length-received s, length-unsent s)

-- Where the receive ring wraps round, `serial_get_rx_buffer_count` is one less than the number of
-- bytes that the ring holds; elsewhere it is that number.
pub rx_count-length :
    (s : Serial)
    → IsValid s
    → (s.rx_buffer_head < s.rx_buffer_tail → serial_get_rx_buffer_count s + 1 ≡ length (received s))
      × (s.rx_buffer_tail ≤ s.rx_buffer_head → serial_get_rx_buffer_count s ≡ length (received s))
unfolding serial_get_rx_buffer_count
rx_count-length s v =
    (λ h. ground (arith, length-received s), λ h. ground (arith, length-received s))
