-- ===== src/Fault.antt =====
-- firmware/safety/fault_manager.h and fault_manager.c: the retained fault and its predecessor.
use Prim.Native.String.{String}
use real_time_embedded_motio.Base.{ℕ, Bool, true, false, ◌&&◌, not, if◌then◌else◌}

-- `fault_code_t`.
pub data FaultCode : Type 0 where
  none positive_limit negative_limit no_motion_under_command watchdog : FaultCode
  internal homing_timeout : FaultCode

abbrev pub is_none : FaultCode → Bool
is_none FaultCode.none = true
is_none _ = false

-- `fault_record_t`.
pub record FaultRecord : Type 0 where
  pub code : FaultCode
  pub timestamp_ms : ℕ
  pub source : ℕ
  pub condition_active : Bool

-- `(fault_record_t){0}`.
abbrev pub no_record : FaultRecord
no_record = record { code = FaultCode.none; timestamp_ms = 0; source = 0; condition_active = false }

-- `fault_manager_t`.
pub record FaultManager : Type 0 where
  pub active : FaultRecord
  pub history : FaultRecord

unfoldable pub fault_raise : FaultManager → FaultCode → ℕ → ℕ → FaultManager
fault_raise m code now source =
    if is_none m.active.code && not (is_none code)
    then record m {
      active = record { code = code; timestamp_ms = now; source = source; condition_active = true };
    }
    else m

-- The flag is the C function's result; on `false` the manager is unchanged.
unfoldable pub fault_reset : FaultManager → FaultManager × Bool
fault_reset m = if m.active.condition_active then (m, false) else (
  record { active = no_record; history = if is_none m.active.code then m.history else m.active },
  true,
)

unfoldable pub fault_name : FaultCode → String
fault_name FaultCode.none = "NONE"
fault_name FaultCode.positive_limit = "POSITIVE_LIMIT"
fault_name FaultCode.negative_limit = "NEGATIVE_LIMIT"
fault_name FaultCode.no_motion_under_command = "NO_MOTION_UNDER_COMMAND"
fault_name FaultCode.watchdog = "WATCHDOG"
fault_name FaultCode.homing_timeout = "HOMING_TIMEOUT"
fault_name FaultCode.internal = "INTERNAL"
