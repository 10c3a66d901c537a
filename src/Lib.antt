-- ===== src/Lib.antt =====
-- A verification library of the real-time motion controller (firmware/): a single axis with an
-- encoder, a PWM motor, limit switches and an E-stop, run by four tasks.
--
-- How the parts interact. The communications task parses lines into commands and sends them over
-- the command bus to the motion task, which owns the motion controller (PID, moves, homing). The
-- safety task evaluates the inputs, the heartbeats and the feedback into a latched safety state.
-- All output passes the gate of the motor driver, which the safety runtime inhibits. The tasks
-- share `runtime_data`, in critical sections.
--
-- What is modelled where:
--   Base            names that all files share, 32-bit words, integers, lists
--   Float           the arithmetic of `float`, and for printing of `double`, abstract: the operations of
--                   <math.h> and C that the code uses are parameters; Float/Laws is what some theorems
--                   assume of the order, Float/Fixed an instance in thousandths that meets it
--   Health          firmware/health/task_health.c
--   Fault           firmware/safety/fault_manager.c
--   Application     firmware/app/application.c
--   Drivers         firmware/drivers and firmware/platform/host: motor, encoder, gpio, timer, watchdog;
--                   a driver's static variables are a record that its operations take and return
--   Command         firmware/protocol/command.c; Command/Print is the writer's side
--   Pid             firmware/control/pid.c
--   Motion          firmware/control/motion_controller.c
--   Homing          firmware/control/homing.c
--   Safety          firmware/safety/safety_manager.c
--   Runtime         firmware/rtos/safety_runtime.c, and `runtime_data` of firmware/rtos/runtime.h with
--                   the drivers' state in one record
--   Queue           the kernel's queue, abstract: Queue/Defs has its operations and documented laws,
--                   Queue/Bounded an instance that meets them
--   Bus             firmware/rtos/command_bus.c
--   Diagnostics     firmware/rtos/diagnostics.c
--   Tasks           firmware/tasks, and of firmware/rtos/runtime.c and periodic.c the services that the
--                   tasks call, with Tasks/Stepping the hand-over of single cycles: each critical
--                   section and each part between two of them is a function on the shared state, and
--                   Tasks/Interleaving lets them run in any order
--   TinyFormat      firmware/platform/stm32/tiny_format.c: the writer and integers, in Real the
--                   floating-point numbers, in Format `tiny_vformat`; in Pieces a format as the list of
--                   the pieces it is written from
--   Target          firmware/platform/stm32: the motor and encoder drivers, against the host's;
--                   their operations are called `bridge_...` and `quadrature_...`; Target/Uart is
--                   uart.c, with the interrupt as a function of what it sees, and Target/Telemetry
--                   telemetry.c, with each call of `uart_print` as its format and arguments;
--                   Target/Inputs and Target/Watchdog are peripherals.c
--   Host            firmware/platform/host: input_host.c, uart_host.c and telemetry_host.c
--   Plant           simulator/plant_model.c
--   Metrics         simulator/control_metrics.c
--   Examples        concrete inputs at which the theorems are applied; Examples/Extended has numbers with
--                   two infinities, for the theorems about the printing of `double`
--
-- Conventions. An operation has the name of its C function. An output parameter and a `bool` result
-- are an Option where the function writes only on success, and otherwise a flag beside the new state.
-- A `uint32_t` is a natural number, reduced modulo 2 ^ 32 by `u32` where the code can wrap; an
-- `int32_t` is an integer, with `IsInt32` for its range. Texts are lists of bytes. NULL pointers have
-- no counterpart.
--
-- Bounds and fuel. The command bus holds 8 commands, the diagnostics 32 records of 80 bytes, a line is
-- shorter than 64 bytes, a homing search ends at 40000 ms, a stall is 500 ms, heartbeats are stale
-- after 150 ms: the constants of the code. Every loop is structural recursion on the bytes or the
-- items left, except the digits of a number, which recur on the ten places of the code's array; a
-- number below 10 ^ 10 needs no more; the polls of a UART flag, which end after 100000 as in the code;
-- the loop of `tiny_vformat`, whose fuel is the length of the format; and the two loops of `real`,
-- with fuel for 400 turns each, where a finite `double` takes at most 324 (an infinite one
-- takes none, as the code writes it as a word). The waits for the watchdog's flags end after 1000000
-- reads, as in the code. A received line has at most 64 bytes and a written text 256; 16 lines wait
-- at most.
--
-- Not modelled: rounding (arithmetic is abstract); the scheduler beyond the order of the sections; the
-- critical sections and the console of the host; all set-up of clocks and pins of the STM32; the
-- simulator's programs; the kernel, `vsnprintf` and the vendor's headers, which are third-party.
pub mod Base
pub mod Float
pub mod Health
pub mod Fault
pub mod Application
pub mod Drivers
pub mod Command
pub mod Pid
pub mod Motion
pub mod Homing
pub mod Safety
pub mod Runtime
pub mod Queue
pub mod Bus
pub mod Diagnostics
pub mod Tasks
pub mod TinyFormat
pub mod Examples
pub mod Target
pub mod Host
pub mod Metrics
pub mod Plant
