-- ===== src/System/Interrupts/Commands.antt =====
-- What a received byte can do to the realtime flags.
use tele_handwriter.Base.{ℕ, ◌<◌, ◌≡◌, ◌≢◌, refl, arith, bit_and}
use tele_handwriter.Base.Bits.Laws.{test-bit_or_stays, test-bit_or_miss}
use tele_handwriter.System.{
  Machine, Exec, exec_reset, exec_status_report, exec_cycle_start, exec_feed_hold, exec_safety_door,
  exec_motion_cancel,
}
use tele_handwriter.System.Reset.{mc_reset}
use tele_handwriter.System.Interrupts.{serial_rx, cmd_reset, override_command}

override_command-state :
    (byte : ℕ) (e : Exec)
    → ((override_command byte e).state ≡ e.state) × ((override_command byte e).alarm ≡ e.alarm)
unfolding override_command
override_command-state byte e = ground arith

mc_reset-stays :
    (m : Machine) (mask : ℕ)
    → 0 < bit_and m.exec.state mask
    → 0 < bit_and (mc_reset m).exec.state mask
unfolding mc_reset
mc_reset-stays m mask h = ground (arith, test-bit_or_stays m.exec.state exec_reset mask h)

-- No received byte takes back a pending realtime flag.
pub serial_rx-stays :
    (byte : ℕ) (m : Machine) (mask : ℕ)
    → 0 < bit_and m.exec.state mask
    → 0 < bit_and (serial_rx byte m).exec.state mask
unfolding serial_rx
serial_rx-stays byte m mask h = ground (
  arith,
  mc_reset-stays m mask h,
  test-bit_or_stays m.exec.state exec_status_report mask h,
  test-bit_or_stays m.exec.state exec_cycle_start mask h,
  test-bit_or_stays m.exec.state exec_feed_hold mask h,
  test-bit_or_stays m.exec.state exec_safety_door mask h,
  test-bit_or_stays m.exec.state exec_motion_cancel mask h,
  override_command-state byte m.exec,
)

-- Only CMD_RESET reaches `mc_reset`: any other byte leaves the outputs, the alarm, the system
-- variables and EXEC_RESET as they are.
pub serial_rx_no_reset :
    (byte : ℕ) (m : Machine)
    → byte ≢ cmd_reset
    → let m' = serial_rx byte m in
      (m'.pins ≡ m.pins)
      × (m'.exec.alarm ≡ m.exec.alarm)
      × (m'.sys ≡ m.sys)
      × (bit_and m'.exec.state exec_reset ≡ bit_and m.exec.state exec_reset)
unfolding serial_rx
serial_rx_no_reset byte m h = ground (
  arith,
  test-bit_or_miss m.exec.state exec_status_report exec_reset refl,
  test-bit_or_miss m.exec.state exec_cycle_start exec_reset refl,
  test-bit_or_miss m.exec.state exec_feed_hold exec_reset refl,
  test-bit_or_miss m.exec.state exec_safety_door exec_reset refl,
  test-bit_or_miss m.exec.state exec_motion_cancel exec_reset refl,
  override_command-state byte m.exec,
)
