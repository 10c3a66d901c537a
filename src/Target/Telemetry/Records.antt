-- ===== src/Target/Telemetry/Records.antt =====
-- firmware/platform/stm32/telemetry.c: the lines for a diagnostic record.
use real_time_embedded_motio.Base.{ℕ, Bool, List, [], ◌∷◌, codes}
use real_time_embedded_motio.Float.{Float}
use real_time_embedded_motio.Motion.{motion_result_name}
use real_time_embedded_motio.Command.{CommandType, command_name, command_parse_error}
use real_time_embedded_motio.Diagnostics.{Diagnostic, DiagnosticKind}
use real_time_embedded_motio.Runtime.{RuntimeSnapshot}
use real_time_embedded_motio.TinyFormat.Format.{unsigned_argument, signed_argument}
use real_time_embedded_motio.Target.Uart.{Transmitter}
use real_time_embedded_motio.Target.Telemetry.{Call, word, snapshot_calls, uart_print_all}

-- A call without arguments.
abbrev pub constant : {R : Type 0} → List ℕ → Call R
constant text = record { format = text; args = [] }

unfoldable pub help_calls : {R : Type 0} → List (Call R)
help_calls =
    constant (codes "ACK HELP\n")
    ∷ constant (codes "HELP MOVE <position_counts> : absolute position move\n")
    ∷ constant (codes "HELP MOVE_REL <offset_counts> : move relative to sampled position\n")
    ∷ constant (codes "HELP HOME : seek negative switch and establish logical zero\n")
    ∷ constant (codes "HELP STOP : remove drive and wait for rest\n")
    ∷ constant (codes "HELP ESTOP : latch stop when this queued command executes\n")
    ∷ constant (codes "HELP RESET : validate safety conditions and clear recoverable latch\n")
    ∷ constant (codes "HELP STATUS : coherent snapshot at telemetry service time\n")
    ∷ constant (codes "HELP HELP : command syntax; SPEED <integer> : deferred, NOT_IMPLEMENTED\n")
    ∷ []

-- `snapshot` is what `runtime_snapshot` copies at the time of the call.
module _ {F R : Type 0} (to_double : F → R) (snapshot : RuntimeSnapshot F) where
  -- The case DIAG_RECEIVED.
  unfoldable pub received_calls : CommandType → List (Call R)
  received_calls CommandType.status =
      record {
        format = codes "ACK STATUS snapshot_ms=%lu\n";
        args = unsigned_argument snapshot.timestamp_ms ∷ [];
      }
      ∷ snapshot_calls to_double (codes "STATUS") snapshot
  received_calls CommandType.help = help_calls
  received_calls _ = constant (codes "ERR DIAGNOSTIC_KIND\n") ∷ []

  -- The `switch` on a record's kind.
  unfoldable pub kind_calls : DiagnosticKind → Diagnostic → List (Call R)
  kind_calls DiagnosticKind.text d =
      record { format = codes "%s\n"; args = word d.message ∷ [] } ∷ []
  kind_calls DiagnosticKind.queued d =
      record {
        format = codes "ACK QUEUED command=%s value=%ld\n";
        args = word (command_name d.command.type) ∷ signed_argument d.command.value ∷ [];
      }
      ∷ []
  kind_calls DiagnosticKind.queue_full d =
      record {
        format = codes "ERR QUEUE_FULL command=%s\n";
        args = word (command_name d.command.type) ∷ [];
      }
      ∷ []
  kind_calls DiagnosticKind.parse_error d =
      record {
        format = codes "ERR %s\n";
        args = word (codes (command_parse_error d.parse_result)) ∷ [];
      }
      ∷ []
  kind_calls DiagnosticKind.received d = received_calls d.command.type
  kind_calls DiagnosticKind.motion d =
      record {
        format = codes "MOTION command=%s value=%ld %s\n";
        args =
            word (command_name d.command.type)
            ∷ signed_argument d.command.value
            ∷ word (codes (motion_result_name d.motion_result))
            ∷ [];
      }
      ∷ []

  -- The calls of `platform_diagnostic_emit`, in order.
  unfoldable pub diagnostic_calls : Diagnostic → List (Call R)
  diagnostic_calls d =
      record { format = codes "[%06lu] "; args = unsigned_argument d.timestamp_ms ∷ [] }
      ∷ kind_calls d.kind d

-- As for `uart_print`.
module _ {F R : Type 0} ⦃r : Float R⦄ (to_double : F → R) (to_u32 : R → ℕ) (txe tc : ℕ → Bool)
    (ready : Bool) where
  unfoldable pub platform_diagnostic_emit :
      RuntimeSnapshot F → Diagnostic → Transmitter → Transmitter
  platform_diagnostic_emit snapshot d t =
      uart_print_all to_u32 txe tc ready (diagnostic_calls to_double snapshot d) t
