-- ===== src/Lib.antt =====
-- Verification library for the Grbl 1.1 firmware of the handwriting plotter: the copy of Grbl in
-- grbl1_1/grbl-master-coreXY-servo/grbl, built for a CoreXY machine with a servo on the spindle pin.
-- File names below are relative to that directory.
--
-- The program and the modules. Bytes arrive in the interrupt of serial.c: realtime commands set
-- flags, text goes to the receive ring. The main loop of protocol.c filters the ring into lines and
-- hands them to the g-code parser or the $ commands. At each checkpoint it runs the realtime
-- executor, a state machine over the flags, and after it, in a suspended state, the suspend executor,
-- which halts and restores spindle and coolant. The planner keeps motion blocks in a ring; the stepper
-- interrupt executes them. A reset ends the program and main.c starts it again.
--   Serial: serial.c, both rings, serial_read, serial_write and the two handlers. `Event` lists what
--     happens while serial_write waits.
--   System: the globals of system.h and main.c as the record `Machine`, and the flag handlers at the
--     end of system.c. A call of a component that is not part of the record is kept in `calls`.
--     System.Reset: mc_reset of motion_control.c with spindle_stop, coolant_stop and st_go_idle.
--     System.Interrupts: the handlers of received bytes, control pins and limit pins.
--     System.Commands: system_execute_line and system_execute_startup of system.c.
--     System.Corexy: the conversion between motor and axis steps.
--   Spindle: spindle_control.c. Limits: the state of the pins of limits.c.
--   Protocol.Realtime and Protocol.Overrides: protocol_exec_rt_system, cut in the parts that its
--     comments name. Protocol.Suspend: protocol_exec_rt_suspend and protocol_execute_realtime.
--     Protocol.Lines: the line filter and the dispatch of protocol_main_loop.
--   Motion: mc_line and mc_dwell of motion_control.c, limits_soft_check of limits.c, and the waits of
--     protocol.c for the planner, over a machine and the ring of the planner.
--   Gcode: gcode.c. Gcode.Words and Gcode.Commands: the first two steps of gc_execute_line, which read
--     the words of a block. Gcode.Check, with Gcode.Offsets and Gcode.Arcs: the third step, the error
--     check. Gcode.Execute, with Gcode.Modes: the fourth step, and jog_execute of jog.c; the calls
--     that it makes are the list of `Event`s of Gcode.Events. Gcode.Line: gc_execute_line as a whole.
--     Gcode.State: `parser_state_t`.
--   Number: read_float of nuts_bolts.c. Delay: delay_us of nuts_bolts.c.
--   Main: main.c, and the checks at the start of protocol_main_loop.
--   Planner: the block ring of planner.c and the steps of a block. Stepper: the two timer interrupts
--     of stepper.c. Eeprom: eeprom.c. Print: print.c.
--   Settings: the records of settings.c. Settings.Global: settings_store_global_setting.
--   Base: shared lists, bits, widths, integers and rings. Tests: concrete states and examples.
--
-- Bounds and fuel. A uint8_t, uint16_t or uint32_t wraps where the code can make it wrap (`u8`, `u16`,
-- `u32`). print_uint32_base10 fills at most 10 digits, enough for 32 bits. The wait loops of
-- serial_write and of a critical alarm run over the list of what their polls see. The suspend
-- executor runs over a list of `Turn`s, one for each protocol_exec_rt_system that it calls; where the
-- list ends it is still waiting, and the result is none. Its loop counts passes as well, as many as
-- turns and one more, since every pass takes a turn at its end. The waits of `Motion` run in the
-- same way over `Moment`s, each a call of protocol_execute_realtime. delay_sec takes 80 and 20 steps
-- of 50 ms for the spindle and the coolant. The search for an axis setting has 4 sets; the loop over
-- the words of a block has as many rounds as characters and one more, since every round takes a
-- letter.
-- The exponent of read_float wraps as an int8_t (`i8`). A stepper position is an unbounded integer,
-- since overflow of an int32_t is undefined.
--
-- Parameters. What the EEPROM hardware does to a cell in each programming mode is the record
-- `Programming`, with the data sheet's description in `IsDocumented`. Whether the planner holds a
-- block is an argument of the executor. What the code does with a `float` are the records `Speeds`,
-- `Floats`, `Numbers`, `Arithmetic` and `Settings.Global.Values`, over a type of floats; where a
-- theorem needs sums and differences to be exact, `IsExact` says so. What the $ commands call in other
-- components is the record `Services`, what the execution of a block finds outside the parser is the
-- record `Surroundings`. What interrupts do to the blocks of the planner during a `Moment` is its
-- field `settle`, and what plan_buffer_line does with floats is the record `Planning`. What the
-- calls of a block do to the parser, as a reset during one of them does, is left out.
--
-- Not modelled: the tracing of arcs in motion_control.c, the speeds of the planner and
-- st_prep_buffer, homing and probing, the reports but for the work position, the hardware set-up, the
-- Processing sketch in TH_DIS2018 and the second copy of Grbl in grbl1_1/grbl-master.
pub mod Base
pub mod Serial
pub mod System
pub mod Protocol
pub mod Print
pub mod Eeprom
pub mod Settings
pub mod Spindle
pub mod Stepper
pub mod Gcode
pub mod Limits
pub mod Main
pub mod Motion
pub mod Number
pub mod Planner
pub mod Delay
pub mod Tests
