-- ===== src/Host/Telemetry.antt =====
-- firmware/platform/host/telemetry_host.c: the lines of the board's telemetry through `vsnprintf`, and
-- a switch that silences them. The calls of `uart_print` are those of stm32/telemetry.c.
use real_time_embedded_motio.Base.{ℕ, Bool, Option, none, some, List, [], ◌∷◌, if◌then◌else◌, codes}
use real_time_embedded_motio.Diagnostics.{Diagnostic}
use real_time_embedded_motio.Runtime.{RuntimeSnapshot}
use real_time_embedded_motio.Target.Telemetry.{Call, snapshot_calls}
use real_time_embedded_motio.Target.Telemetry.Records.{diagnostic_calls}
use real_time_embedded_motio.Host.Uart.{UartHost, uart_write}

-- The flag `silent`, and the UART that the lines go to.
pub record TelemetryHost : Type 0 where
  pub silent : Bool
  pub uart : UartHost

unfoldable pub host_telemetry_quiet : Bool → TelemetryHost → TelemetryHost
host_telemetry_quiet quiet t = record t { silent = quiet }

-- `vsnprintf` gives the whole text, or `none` for a negative result; of a text that is too long for
-- the buffer, `uart_write` uses the length alone.
module _ {R : Type 0} (vsnprintf : Call R → Option (List ℕ)) (sink : List ℕ → Bool) where
  unfoldable pub uart_print : Call R → UartHost → UartHost
  uart_print call u = elim (vsnprintf call) [ none ↦ u | some text ↦ (uart_write sink text u).0 ]

  unfoldable pub uart_print_all : List (Call R) → UartHost → UartHost
  uart_print_all [] u = u
  uart_print_all (call ∷ calls) u = uart_print_all calls (uart_print call u)

-- `to_double` converts a `float`, and `snapshot` is what `runtime_snapshot` copies.
module _ {F R : Type 0} (vsnprintf : Call R → Option (List ℕ)) (sink : List ℕ → Bool)
    (to_double : F → R) where
  unfoldable pub emit_snapshot : List ℕ → RuntimeSnapshot F → UartHost → UartHost
  emit_snapshot kind v u = uart_print_all vsnprintf sink (snapshot_calls to_double kind v) u

  unfoldable pub platform_diagnostic_emit :
      RuntimeSnapshot F → Diagnostic → TelemetryHost → TelemetryHost
  platform_diagnostic_emit snapshot d t =
      let calls = diagnostic_calls to_double snapshot d in
      if t.silent then t else record t { uart = uart_print_all vsnprintf sink calls t.uart }

  unfoldable pub platform_telemetry_emit : RuntimeSnapshot F → TelemetryHost → TelemetryHost
  platform_telemetry_emit v t =
      if t.silent then t else record t { uart = emit_snapshot (codes "TEL") v t.uart }
