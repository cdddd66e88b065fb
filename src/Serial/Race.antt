-- ===== src/Serial/Race.antt =====
-- `serial_write` advances the head and enables the transmit interrupt in two separate steps, with
-- interrupts on. What can come of an interrupt between them.
use tele_handwriter.Base.{ℕ, ◌≡◌, true, [], arith, length}
use tele_handwriter.Base.Ring.{contents-empty}
use tele_handwriter.Serial.{
  Serial, tx_ring_buffer, tx_buffer_size, tx_store, tx_enable, serial_udre,
  serial_get_tx_buffer_count,
}
use tele_handwriter.Serial.Rings.{IsValid, unsent, length-unsent}

-- With one byte unsent, let the enabled transmit interrupt fire twice between the two steps.
abbrev pub interrupted_write : Serial → ℕ → Serial
interrupted_write s byte = tx_enable (serial_udre (serial_udre (tx_store s byte)).1).1

-- From a valid state with one byte unsent, a transmit interrupt that fires twice, each time while
-- it is enabled, between the store and the enable of one `serial_write`, leaves the ring empty and
-- the interrupt enabled, against the invariant; when it fires again it sends a byte that was never
-- queued, and the ring then passes for full: it holds TX_BUFFER_SIZE stale bytes to be sent.
pub interrupted_write_stale :
    (s : Serial) (byte : ℕ)
    → IsValid s
    → serial_get_tx_buffer_count s ≡ 1
    → ((tx_store s byte).udrie ≡ true)
      × ((serial_udre (tx_store s byte)).1.udrie ≡ true)
      × (unsent (interrupted_write s byte) ≡ [])
      × ((interrupted_write s byte).udrie ≡ true)
      × (length (unsent (serial_udre (interrupted_write s byte)).1) ≡ tx_buffer_size)
unfolding serial_udre serial_get_tx_buffer_count
interrupted_write_stale s byte v one = (
  ground arith,
  ground arith,
  ground (
    arith,
    contents-empty 0 tx_ring_buffer (interrupted_write s byte).tx_buffer
        (interrupted_write s byte).tx_buffer_head,
  ),
  ground arith,
  ground (arith, length-unsent (serial_udre (interrupted_write s byte)).1),
)
