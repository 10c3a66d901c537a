-- ===== src/Runtime/Types.antt =====
-- firmware/rtos/runtime.h: the shared record `runtime_data`, with the drivers that the runtime calls.
use real_time_embedded_motio.Base.{ℕ, zero, suc, Bool, false, List, [], ◌∷◌, ℤ, pos}
use real_time_embedded_motio.Float.{Float, nought}
use real_time_embedded_motio.Application.{AppState}
use real_time_embedded_motio.Health.{TaskHealth, unseen}
use real_time_embedded_motio.Command.{CommandType, MotionCommand}
use real_time_embedded_motio.Drivers.Motor.{Motor}
use real_time_embedded_motio.Drivers.Encoder.{Encoder}
use real_time_embedded_motio.Drivers.Gpio.{Gpio, GpioInputs, no_inputs}
use real_time_embedded_motio.Drivers.Timer.{Timer}
use real_time_embedded_motio.Drivers.Watchdog.{Watchdog}
use real_time_embedded_motio.Motion.{MotionSnapshot, MotionResult, no_homing}
use real_time_embedded_motio.Safety.{SafetyManager, safety_init}

-- `runtime_snapshot_t`. `health` has an entry for each `task_health_id_t`, and `received_by_type`
-- one for each `command_type_t`.
pub record RuntimeSnapshot (F : Type 0) : Type 0 where
  pub state : AppState
  pub timestamp_ms : ℕ
  pub health : List TaskHealth
  pub tasks_started : ℕ
  pub tasks_parked : ℕ
  pub queued : ℕ
  pub consumed : ℕ
  pub rejected : ℕ
  pub queue_used : ℕ
  pub queue_high_water : ℕ
  pub parse_errors : ℕ
  pub input_notifications : ℕ
  pub received_by_type : List ℕ
  pub last_command : MotionCommand
  pub motion_min_gap_ms : ℕ
  pub motion_max_gap_ms : ℕ
  pub motion_overruns : ℕ
  pub safety_overruns : ℕ
  pub telemetry_cycles : ℕ
  pub diagnostic_drops : ℕ
  pub uart_rx_errors : ℕ
  pub encoder_count : ℤ
  pub encoder_valid : Bool
  pub motor_output : F
  pub gpio : GpioInputs
  pub gpio_valid : Bool
  pub motion : MotionSnapshot F
  pub last_motion_result : MotionResult
  pub motion_accepted : ℕ
  pub motion_rejected : ℕ
  pub control_errors : ℕ
  pub safety : SafetyManager F

-- `runtime_data`, the drivers' state, and the kernel's tick count.
pub record Runtime (F : Type 0) : Type 0 where
  pub runtime_data : RuntimeSnapshot F
  pub motor : Motor F
  pub encoder : Encoder
  pub gpio : Gpio
  pub timer : Timer
  pub watchdog : Watchdog
  pub tick : ℕ

abbrev pub health_maximum_age_ms : ℕ
health_maximum_age_ms = 150

abbrev zeros : ℕ → List ℕ
zeros zero = []
zeros (suc n) = 0 ∷ zeros n

module _ {F : Type 0} ⦃f : Float F⦄ where
  -- A zeroed `motion_snapshot_t`, whose state is then APP_BOOT.
  abbrev zeroed_motion : MotionSnapshot F
  zeroed_motion = record {
    state = AppState.boot;
    position = pos 0;
    target = pos 0;
    velocity = nought;
    error = nought;
    pid_output = nought;
    pwm = nought;
    stable_cycles = 0;
    completed_moves = 0;
    feedback_valid = false;
    homing = no_homing;
  }

  -- `runtime_data` after the `memset` of `runtime_init`, with its state and its safety manager set.
  abbrev pub initial_data : ℕ → RuntimeSnapshot F
  initial_data now = record {
    state = AppState.boot;
    timestamp_ms = 0;
    health = unseen ∷ unseen ∷ unseen ∷ [];
    tasks_started = 0;
    tasks_parked = 0;
    queued = 0;
    consumed = 0;
    rejected = 0;
    queue_used = 0;
    queue_high_water = 0;
    parse_errors = 0;
    input_notifications = 0;
    received_by_type = zeros 9;
    last_command = record { type = CommandType.move_abs; value = pos 0 };
    motion_min_gap_ms = 0;
    motion_max_gap_ms = 0;
    motion_overruns = 0;
    safety_overruns = 0;
    telemetry_cycles = 0;
    diagnostic_drops = 0;
    uart_rx_errors = 0;
    encoder_count = pos 0;
    encoder_valid = false;
    motor_output = nought;
    gpio = no_inputs;
    gpio_valid = false;
    motion = zeroed_motion;
    last_motion_result = MotionResult.accepted;
    motion_accepted = 0;
    motion_rejected = 0;
    control_errors = 0;
    safety = safety_init now;
  }
