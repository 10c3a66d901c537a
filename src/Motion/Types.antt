-- ===== src/Motion/Types.antt =====
-- The data of motion_controller.h.
use Prim.Native.String.{String}
use real_time_embedded_motio.Base.{ℕ, Bool, false, ℤ}
use real_time_embedded_motio.Application.{AppState}
use real_time_embedded_motio.Pid.{PidConfig, PidController}

-- `motion_config_t`.
pub record MotionConfig (F : Type 0) : Type 0 where
  pub pid : PidConfig F
  pub minimum : ℤ
  pub maximum : ℤ
  pub tolerance : F
  pub completion_velocity : F
  pub dwell_cycles : ℕ

-- `motion_result_t`.
pub data MotionResult : Type 0 where
  accepted invalid_state out_of_range not_implemented input_error : MotionResult

-- `homing_result_t`.
pub data HomingResult : Type 0 where
  none running complete stopped estopped faulted timeout : HomingResult

-- `homing_snapshot_t`.
pub record HomingSnapshot : Type 0 where
  pub result : HomingResult
  pub started_ms : ℕ
  pub elapsed_ms : ℕ
  pub completed : ℕ
  pub referenced : Bool

-- `motion_snapshot_t`.
pub record MotionSnapshot (F : Type 0) : Type 0 where
  pub state : AppState
  pub position : ℤ
  pub target : ℤ
  pub velocity : F
  pub error : F
  pub pid_output : F
  pub pwm : F
  pub stable_cycles : ℕ
  pub completed_moves : ℕ
  pub feedback_valid : Bool
  pub homing : HomingSnapshot

-- `motion_controller_t`.
pub record MotionController (F : Type 0) : Type 0 where
  pub config : MotionConfig F
  pub pid : PidController F
  pub snapshot : MotionSnapshot F
  pub previous_count : ℤ
  pub initialized : Bool
  pub sampled : Bool

unfoldable pub motion_result_name : MotionResult → String
motion_result_name MotionResult.accepted = "ACK ACCEPTED"
motion_result_name MotionResult.invalid_state = "ERR INVALID_STATE"
motion_result_name MotionResult.out_of_range = "ERR OUT_OF_RANGE"
motion_result_name MotionResult.not_implemented = "ERR NOT_IMPLEMENTED"
motion_result_name MotionResult.input_error = "ERR CONTROL_INPUT"

abbrev pub no_homing : HomingSnapshot
no_homing = record {
  result = HomingResult.none;
  started_ms = 0;
  elapsed_ms = 0;
  completed = 0;
  referenced = false;
}
