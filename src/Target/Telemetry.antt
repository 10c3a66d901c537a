-- ===== src/Target/Telemetry.antt =====
-- firmware/platform/stm32/telemetry.c: the lines that the telemetry task writes. A text that the other
-- modules name is the list of its bytes.
pub mod Records
pub mod Lines
pub mod Replies
use real_time_embedded_motio.Base.{
  ℕ, zero, suc, ◌+◌, Bool, true, false, ◌&&◌, Option, none, some, List, [], ◌∷◌, if◌then◌else◌,
  codes, ℤ,
}
use real_time_embedded_motio.Float.{Float}
use real_time_embedded_motio.Application.{application_state_name}
use real_time_embedded_motio.Fault.{fault_name}
use real_time_embedded_motio.Health.{TaskHealth, unseen, task_health_fresh}
use real_time_embedded_motio.Homing.{homing_result_name}
use real_time_embedded_motio.Motion.{motion_result_name}
use real_time_embedded_motio.Command.{CommandType}
use real_time_embedded_motio.Bus.{command_queue_capacity}
use real_time_embedded_motio.Diagnostics.{Diagnostic, DiagnosticKind}
use real_time_embedded_motio.Runtime.{RuntimeSnapshot, health_maximum_age_ms}
use real_time_embedded_motio.TinyFormat.Format.{
  Argument, text_argument, unsigned_argument, signed_argument, real_argument, Formatted,
  tiny_vformat,
}
use real_time_embedded_motio.Target.Uart.{Transmitter, uart_tx_max_write, uart_write}

-- A call of `uart_print`.
pub record Call (R : Type 0) : Type 0 where
  pub format : List ℕ
  pub args : List (Argument R)

abbrev pub flag : {R : Type 0} → Bool → Argument R
flag b = unsigned_argument (if b then 1 else 0)

abbrev pub word : {R : Type 0} → List ℕ → Argument R
word s = text_argument (some s)

-- `fresh[i]`.
unfoldable pub fresh_at : ℕ → ℕ → List TaskHealth → Bool
fresh_at now i [] = false
fresh_at now zero (h ∷ hs) = task_health_fresh h now health_maximum_age_ms
fresh_at now (suc i) (h ∷ hs) = fresh_at now i hs

-- `healthy` after the loop.
unfoldable pub all_fresh : ℕ → List TaskHealth → Bool
all_fresh now [] = true
all_fresh now (h ∷ hs) = task_health_fresh h now health_maximum_age_ms && all_fresh now hs

-- `to_double` is the conversion of a `float`.
module _ {F R : Type 0} (to_double : F → R) where
  unfoldable pub motion_call : List ℕ → RuntimeSnapshot F → Call R
  motion_call kind v = record {
    format =
        codes
          "%s t_ms=%lu motion state=%s target_counts=%ld position_counts=%ld velocity_counts_s=%.6g error_counts=%.6g feedback_valid=%u\n";
    args =
        word kind
        ∷ unsigned_argument v.timestamp_ms
        ∷ word (codes (application_state_name v.state))
        ∷ signed_argument v.motion.target
        ∷ signed_argument v.motion.position
        ∷ real_argument (to_double v.motion.velocity)
        ∷ real_argument (to_double v.motion.error)
        ∷ flag v.motion.feedback_valid
        ∷ [];
  }

  unfoldable pub safety_call : List ℕ → RuntimeSnapshot F → Call R
  safety_call kind v = record {
    format =
        codes
          "%s t_ms=%lu safety requested_pwm=%.6g applied_pwm=%.6g fault=%s fault_ms=%lu estop=%u limit_neg=%u limit_pos=%u inputs_valid=%u\n";
    args =
        word kind
        ∷ unsigned_argument v.timestamp_ms
        ∷ real_argument (to_double v.safety.requested_pwm)
        ∷ real_argument (to_double v.safety.applied_pwm)
        ∷ word (codes (fault_name v.safety.faults.active.code))
        ∷ unsigned_argument v.safety.faults.active.timestamp_ms
        ∷ flag v.gpio.estop
        ∷ flag v.gpio.negative_limit
        ∷ flag v.gpio.positive_limit
        ∷ flag v.gpio_valid
        ∷ [];
  }

  unfoldable pub health_call : List ℕ → RuntimeSnapshot F → Call R
  health_call kind v = record {
    format =
        codes
          "%s t_ms=%lu health motion_fresh=%u safety_fresh=%u comms_fresh=%u watchdog_supervision=%s refreshes=%lu\n";
    args =
        word kind
        ∷ unsigned_argument v.timestamp_ms
        ∷ flag (fresh_at v.timestamp_ms 0 v.health)
        ∷ flag (fresh_at v.timestamp_ms 1 v.health)
        ∷ flag (fresh_at v.timestamp_ms 2 v.health)
        ∷ word (if all_fresh v.timestamp_ms v.health then codes "HEALTHY" else codes "UNHEALTHY")
        ∷ unsigned_argument v.safety.watchdog_refreshes
        ∷ [];
  }

  unfoldable pub home_call : List ℕ → RuntimeSnapshot F → Call R
  home_call kind v = record {
    format =
        codes
          "%s t_ms=%lu home result=%s referenced=%u elapsed_ms=%lu completed=%lu contact_allowance=%u\n";
    args =
        word kind
        ∷ unsigned_argument v.timestamp_ms
        ∷ word (codes (homing_result_name v.motion.homing.result))
        ∷ flag v.motion.homing.referenced
        ∷ unsigned_argument v.motion.homing.elapsed_ms
        ∷ unsigned_argument v.motion.homing.completed
        ∷ flag v.safety.home_contact
        ∷ [];
  }

  unfoldable pub counters_call : List ℕ → RuntimeSnapshot F → Call R
  counters_call kind v = record {
    format =
        codes
          "%s t_ms=%lu counters queue_used=%lu queue_capacity=%u queue_high_water=%lu diagnostic_drops=%lu moves_completed=%lu aborted=%lu\n";
    args =
        word kind
        ∷ unsigned_argument v.timestamp_ms
        ∷ unsigned_argument v.queue_used
        ∷ unsigned_argument command_queue_capacity
        ∷ unsigned_argument v.queue_high_water
        ∷ unsigned_argument v.diagnostic_drops
        ∷ unsigned_argument v.motion.completed_moves
        ∷ unsigned_argument v.safety.aborted_moves
        ∷ [];
  }

  -- The calls of `emit_snapshot`, in order.
  unfoldable pub snapshot_calls : List ℕ → RuntimeSnapshot F → List (Call R)
  snapshot_calls kind v =
      motion_call kind v
      ∷ safety_call kind v
      ∷ health_call kind v
      ∷ home_call kind v
      ∷ counters_call kind v
      ∷ []

-- The UART's flags TXE and TC, and whether it has been initialized; `to_u32` converts a `double`.
module _ {R : Type 0} ⦃r : Float R⦄ (to_u32 : R → ℕ) (txe tc : ℕ → Bool) (ready : Bool) where
  -- The end of `uart_print`.
  write_formatted : Formatted → Transmitter → Transmitter
  write_formatted (Formatted.written text) t = (uart_write txe tc ready text t).0
  write_formatted _ t = t

  unfoldable pub uart_print : Call R → Transmitter → Transmitter
  unfolding write_formatted
  uart_print call t =
      write_formatted (tiny_vformat to_u32 (uart_tx_max_write + 1) call.format call.args) t

  -- The calls one after another.
  unfoldable pub uart_print_all : List (Call R) → Transmitter → Transmitter
  uart_print_all [] t = t
  uart_print_all (call ∷ calls) t = uart_print_all calls (uart_print call t)

module _ {F R : Type 0} ⦃r : Float R⦄ (to_double : F → R) (to_u32 : R → ℕ) (txe tc : ℕ → Bool)
    (ready : Bool) where
  unfoldable pub emit_snapshot : List ℕ → RuntimeSnapshot F → Transmitter → Transmitter
  emit_snapshot kind v t = uart_print_all to_u32 txe tc ready (snapshot_calls to_double kind v) t

  unfoldable pub platform_telemetry_emit : RuntimeSnapshot F → Transmitter → Transmitter
  platform_telemetry_emit v t = emit_snapshot (codes "TEL") v t
