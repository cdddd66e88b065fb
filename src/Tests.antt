-- ===== src/Tests.antt =====
-- Concrete states for the examples, and the examples by component.
mod Rings
mod Machines
mod Lines
mod Motion
mod Storage
mod Suspends
mod Commands
mod Blocks
mod Programs
mod Queues
use tele_handwriter.Spindle.{Speeds}
use tele_handwriter.Number.{Floats}
use tele_handwriter.System.Commands.{Services}
use tele_handwriter.Base.{
  ◌+◌, ◌*◌, ◌/◌, ◌%◌, leb, ltb, ◌==◌, ℕ, Bool, true, false, List, [], replicate, set,
}
use tele_handwriter.Serial.{Serial, rx_ring_buffer, tx_ring_buffer}
use tele_handwriter.System.{Machine, Sys, Exec, Pins}

-- One byte to read and one byte to send.
abbrev serial_busy : Serial
serial_busy = record {
  rx_buffer = set (replicate rx_ring_buffer 0) 0 65;
  rx_buffer_head = 1;
  rx_buffer_tail = 0;
  tx_buffer = set (replicate tx_ring_buffer 0) 0 66;
  tx_buffer_head = 1;
  tx_buffer_tail = 0;
  udrie = true;
}

-- The receive ring wraps round: its two bytes stand in the slots 128 and 0.
abbrev serial_wrapped : Serial
serial_wrapped = record serial_busy { rx_buffer_head = 1; rx_buffer_tail = 128 }

-- The transmit ring is full.
abbrev serial_full : Serial
serial_full = record serial_busy { tx_buffer_head = 0; tx_buffer_tail = 1 }

-- A machine in a state with realtime flags pending.
abbrev machine : ℕ → ℕ → Machine
machine state flags = record {
  sys = record {
    state = state;
    abort = false;
    suspend = 0;
    soft_limit = false;
    step_control = 0;
    probe_succeeded = false;
    homing_axis_lock = 0;
    f_override = 100;
    r_override = 100;
    spindle_speed_ovr = 100;
    spindle_stop_ovr = 0;
    report_ovr_counter = 0;
    report_wco_counter = 0;
  };
  exec = record { state = flags; alarm = 0; motion_override = 0; accessory_override = 0 };
  serial = serial_busy;
  pins = record {
    spindle_pwm = true;
    spindle_level = 7;
    spindle_direction = false;
    coolant_flood = false;
    steppers_disable = false;
    step_interrupt = true;
    busy = false;
  };
  settings_flags = 0;
  stepper_idle_lock_time = 25;
  modal_coolant = 0;
  modal_spindle = 0;
  calls = [];
}

-- The same with an alarm code pending.
abbrev alarmed : ℕ → Machine
alarmed code = let m = machine 0 0 in record m { exec = record m.exec { alarm = code } }

-- Speeds as whole numbers, up to 1000.
abbrev whole_speeds : Speeds ℕ
whole_speeds = record {
  rpm_min = 0;
  rpm_max = 1000;
  of_nat = λ n. n;
  scale = λ spindle_speed_ovr rpm. rpm * spindle_speed_ovr / 100;
  le = leb;
  eq = λ a b. a == b;
  above_min = λ rpm. rpm * 31 / 1000;
}

-- Numbers in hundredths, without a sign.
abbrev hundredths : Floats ℕ
hundredths = record {
  of_nat = λ n. n * 100;
  times_hundredth = λ x. x / 100;
  times_tenth = λ x. x / 10;
  times_ten = λ x. x * 10;
  negate = λ x. x;
  is_zero = λ x. x == 0;
}

-- Services that change nothing.
abbrev idle_services : Services ℕ
idle_services = record {
  gc_execute_line = λ line m. (0, m);
  mc_homing_cycle = λ m. m;
  settings_read_startup_line = λ n. (true, []);
  settings_store_startup_line = λ n line m. m;
  settings_store_build_info = λ line m. m;
  settings_store_global_setting = λ n value m. (0, m);
  settings_restore = λ flags m. m;
  above_byte = λ x. ltb 25500 x;
  trunc = λ x. x / 100;
}
