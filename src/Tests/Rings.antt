-- ===== src/Tests/Rings.antt =====
-- Examples for the rings of grbl/serial.c.
use tele_handwriter.Base.{◌≡◌, refl, [], ◌∷◌, arith}
use tele_handwriter.Serial.{serial_get_tx_buffer_count, serial_write, udre, exec_state}
use tele_handwriter.Serial.Rings.{IsValid, received, unsent}
use tele_handwriter.Serial.Receive.{store, read, run, run_queue, run_refines}
use tele_handwriter.Serial.Transmit.{
  Accounts, IsSettled, serial_write-Accounts, serial_write-IsSettled,
}
use tele_handwriter.Tests.{serial_busy, serial_wrapped, serial_full}

pub serial_busy-IsValid : IsValid serial_busy
serial_busy-IsValid = record {
  rx_slots = refl;
  rx_head_in = omega arith;
  rx_tail_in = omega arith;
  tx_slots = refl;
  tx_head_in = omega arith;
  tx_tail_in = omega arith;
  udrie_busy = λ h. refl;
  udrie_idle = λ e. absurd (omega (arith, e));
}

serial_wrapped-IsValid : IsValid serial_wrapped
serial_wrapped-IsValid = record {
  rx_slots = refl;
  rx_head_in = omega arith;
  rx_tail_in = omega arith;
  tx_slots = refl;
  tx_head_in = omega arith;
  tx_tail_in = omega arith;
  udrie_busy = λ h. refl;
  udrie_idle = λ e. absurd (omega (arith, e));
}

serial_full-IsValid : IsValid serial_full
serial_full-IsValid = record {
  rx_slots = refl;
  rx_head_in = omega arith;
  rx_tail_in = omega arith;
  tx_slots = refl;
  tx_head_in = omega arith;
  tx_tail_in = omega arith;
  udrie_busy = λ h. refl;
  udrie_idle = λ e. absurd (omega (arith, e));
}

run_refines_example :
    run serial_busy (store 67 ∷ read ∷ read ∷ read ∷ [])
    ≡ run_queue (received serial_busy) (store 67 ∷ read ∷ read ∷ read ∷ [])
run_refines_example =
    run_refines (store 67 ∷ read ∷ read ∷ read ∷ []) serial_busy serial_busy-IsValid

serial_write-Accounts_example :
    Accounts (unsent serial_full) 68 (serial_write 68 (udre ∷ []) 0 serial_full)
serial_write-Accounts_example =
    serial_write-Accounts 68 (udre ∷ []) 0 serial_full serial_full-IsValid

serial_write-IsSettled_example :
    IsSettled (serial_write 68 (exec_state 1 ∷ udre ∷ []) 0 serial_full)
serial_write-IsSettled_example =
    serial_write-IsSettled 68 (exec_state 1 ∷ udre ∷ []) 0 serial_full serial_full-IsValid tt

count_one : serial_get_tx_buffer_count serial_busy ≡ 1
unfolding serial_get_tx_buffer_count
count_one = refl
