-- ===== src/Examples.antt =====
-- Concrete controllers, on thousandths and bounded lists, at which the theorems are applied.
pub mod Control
pub mod Supervision
pub mod Messages
pub mod Schedule
pub mod Board
pub mod Extended
pub mod Wire
pub mod Text
pub mod Script
use real_time_embedded_motio.Base.{ℕ, true, false, [], ◌∷◌, some, none, ℤ, pos}
use real_time_embedded_motio.Float.{nought}
use real_time_embedded_motio.Float.Fixed.{Fixed, fixed_float}
use real_time_embedded_motio.Application.{AppState}
use real_time_embedded_motio.Command.{CommandType, MotionCommand}
use real_time_embedded_motio.Drivers.Motor.{Motor}
use real_time_embedded_motio.Drivers.Encoder.{Encoder}
use real_time_embedded_motio.Drivers.Gpio.{Gpio, GpioInputs, no_inputs}
use real_time_embedded_motio.Drivers.Timer.{Timer}
use real_time_embedded_motio.Drivers.Watchdog.{Watchdog}
use real_time_embedded_motio.Motion.{
  MotionSnapshot, MotionController, HomingResult, motion_default_config, idle_snapshot,
}
use real_time_embedded_motio.Pid.{PidController}
use real_time_embedded_motio.Safety.{SafetyManager}
use real_time_embedded_motio.Fault.{no_record}
use real_time_embedded_motio.Runtime.{Runtime, initial_data}

abbrev pub thousandths : ℕ → Fixed
thousandths n = some (pos n)

abbrev pub running_motor : Motor Fixed
running_motor = record {
  initialized = true;
  output = nought;
  requested = nought;
  inhibited = false;
  negative_blocked = false;
}

abbrev pub raw_encoder : ℕ → Encoder
raw_encoder n = record { initialized = true; raw_count = n; reference_offset = 0 }

abbrev pub estop_inputs : GpioInputs
estop_inputs = record { estop = true; negative_limit = false; positive_limit = false }

abbrev pub home_inputs : GpioInputs
home_inputs = record { estop = false; negative_limit = true; positive_limit = false }

abbrev pub default_pid : PidController Fixed
default_pid = record {
  config = motion_default_config.pid;
  integral = nought;
  previous_measurement = nought;
  initialized = true;
  sampled = false;
}

-- The default controller at rest at a position, with valid feedback.
abbrev pub resting_at : ℤ → MotionController Fixed
resting_at position = record {
  config = motion_default_config;
  pid = default_pid;
  snapshot = record (idle_snapshot) {
    position = position;
    target = position;
    feedback_valid = true;
  };
  previous_count = position;
  initialized = true;
  sampled = true;
}

-- The same on its way to a target.
abbrev pub moving_to : ℤ → ℤ → MotionController Fixed
moving_to target position =
    let m = resting_at position in
    record m { snapshot = record (m.snapshot) { target = target; state = AppState.moving } }

-- The same in a search for the switch that started at time 1000.
abbrev pub searching_at : ℤ → MotionController Fixed
searching_at position =
    let m = resting_at position in
    record m {
      snapshot = record (m.snapshot) {
        state = AppState.homing;
        homing = record (m.snapshot.homing) { result = HomingResult.running; started_ms = 1000 };
      };
    }

abbrev pub calm : SafetyManager Fixed
calm = (initial_data 0).safety

abbrev pub powered : Runtime Fixed
powered = record {
  runtime_data = initial_data 0;
  motor = running_motor;
  encoder = raw_encoder 0;
  gpio = record { initialized = true; state = no_inputs };
  timer = record {
    logical_ms = 0;
    resolution = 1;
    source = some (λ tick. tick);
    initialized = true;
  };
  watchdog = record {
    initialized = true;
    timeout_ms = 1000;
    refresh_count = 0;
    last_refresh_ms = 0;
  };
  tick = 0;
}

abbrev pub move_command : ℕ → MotionCommand
move_command n = record { type = CommandType.move_abs; value = pos n }
