-- ===== src/System/Interrupts/Text.antt =====
-- What the SERIAL_RX handler of grbl/serial.c stores in the receive ring.
use tele_handwriter.Base.{
  ℕ, ◌≡◌, ◌↔◌, refl, Bool, true, false, not, ◌&&◌, List, [], ◌∷◌, leb, ◌==◌, arith, All, All-snoc,
  length, inl, inr, Bool-cases, ap,
}
use tele_handwriter.Serial.{Serial, rx_store, serial_read, serial_no_data, rx_buffer_size}
use tele_handwriter.Serial.Rings.{IsValid, received}
use tele_handwriter.Serial.Receive.{
  Queue, enqueue, dequeue, rx_store_refines, serial_read_refines, rx_store-IsValid,
}
use tele_handwriter.System.{Machine}
use tele_handwriter.System.Reset.{mc_reset}
use tele_handwriter.System.Interrupts.{
  serial_rx, cmd_reset, cmd_status_report, cmd_cycle_start, cmd_feed_hold,
}

-- A character of a line: 7-bit, and none of the four commands among those.
abbrev pub is_text : ℕ → Bool
is_text byte =
    leb byte 0x7f
    && not (byte == cmd_reset)
    && not (byte == cmd_status_report)
    && not (byte == cmd_cycle_start)
    && not (byte == cmd_feed_hold)

mc_reset-serial : (m : Machine) → (mc_reset m).serial ≡ m.serial
unfolding mc_reset
mc_reset-serial m = ground arith

-- A text character is stored in the receive ring, as far as there is room, and changes nothing
-- else; a realtime command, or a byte above 0x7F that is none, leaves both rings as they are.
pub serial_rx_split :
    (byte : ℕ) (m : Machine)
    → (is_text byte ≡ true → serial_rx byte m ≡ record m { serial = rx_store m.serial byte })
      × (is_text byte ≡ false → (serial_rx byte m).serial ≡ m.serial)
unfolding serial_rx
serial_rx_split byte m = (λ h. ground arith, λ h. ground (arith, mc_reset-serial m))

abbrev pub IsText : List ℕ → Type 0
IsText = All (λ byte. is_text byte ≡ true)

enqueue-IsText : (q : Queue) (byte : ℕ) → is_text byte ≡ true → IsText q → IsText (enqueue q byte)
unfolding enqueue
enqueue-IsText q byte h t = elim (Bool-cases (length q == rx_buffer_size)) [
  | inl full ↦ rw full t
  | inr room ↦ rw room (All-snoc (λ b. is_text b ≡ true) q byte t h)
]

-- Whatever bytes arrive, the receive ring of a valid state holds text characters only.
pub serial_rx-IsText :
    (byte : ℕ) (m : Machine)
    → IsValid m.serial
    → IsText (received m.serial)
    → IsText (received (serial_rx byte m).serial) × IsValid (serial_rx byte m).serial
serial_rx-IsText byte m v t = elim (Bool-cases (is_text byte)) [
  | inl text ↦ rw ((serial_rx_split byte m).0 text) (
    rw (rx_store_refines m.serial byte v) (enqueue-IsText (received m.serial) byte text t),
    rx_store-IsValid m.serial byte v,
  )
  | inr command ↦ rw ((serial_rx_split byte m).1 command) (t, v)
]

dequeue-no_data : (q : Queue) → IsText q → ((dequeue q).0 ≡ serial_no_data) ↔ (q ≡ [])
unfolding dequeue
dequeue-no_data [] t = (λ _. refl, λ _. refl)
dequeue-no_data (byte ∷ q) t = (λ e. absurd (ground arith), λ e. cc)

-- While the ring holds text only, SERIAL_NO_DATA is never a byte of the stream: `serial_read`
-- returns it exactly when there is nothing to read.
pub serial_read-no_data :
    (s : Serial)
    → IsValid s
    → IsText (received s)
    → ((serial_read s).0 ≡ serial_no_data) ↔ (received s ≡ [])
serial_read-no_data s v t =
    rw (ap (λ (p : ℕ × Queue). p.0) (serial_read_refines s v)) (dequeue-no_data (received s) t)
