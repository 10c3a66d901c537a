-- ===== src/Tasks/Comms.antt =====
-- firmware/tasks/comms_task.c: one received line, and the counters of the loop.
use real_time_embedded_motio.Base.{ℕ, ◌+◌, ◌≡◌, refl, List, if◌then◌else◌, u32, pos, codes}
use real_time_embedded_motio.Float.{Float}
use real_time_embedded_motio.Command.{CommandType, MotionCommand, ParseResult, command_parse}
use real_time_embedded_motio.Queue.{Queue}
use real_time_embedded_motio.Bus.{command_bus_send}
use real_time_embedded_motio.Diagnostics.{
  Diagnostic, DiagnosticKind, diagnostics_command, diagnostics_text,
}
use real_time_embedded_motio.Runtime.{platform_time_ms}
use real_time_embedded_motio.Tasks.Types.{System, set_runtime_data}

-- The command before parsing, which a parse error leaves.
abbrev pub default_command : MotionCommand
default_command = record { type = CommandType.status; value = pos 0 }

module _ {F Q D : Type 0} ⦃f : Float F⦄ ⦃q : Queue Q MotionCommand⦄ ⦃d : Queue D Diagnostic⦄ where
  reject_line : ParseResult → System F Q D → System F Q D
  reject_line result s = record s {
    runtime =
        set_runtime_data (λ v. record v { parse_errors = u32 (v.parse_errors + 1) }) s.runtime;
    diagnostics =
        diagnostics_command (platform_time_ms s.runtime) DiagnosticKind.parse_error default_command
          result s.diagnostics;
  }

  accept_line : MotionCommand → System F Q D → System F Q D
  accept_line command s =
      let (bus, accepted) = command_bus_send s.commands command in
      let kind = if accepted then DiagnosticKind.queued else DiagnosticKind.queue_full in
      record s {
        commands = bus;
        diagnostics =
            diagnostics_command (platform_time_ms s.runtime) kind command (ParseResult.ok command)
              s.diagnostics;
      }

  route_line : ParseResult → System F Q D → System F Q D
  unfolding reject_line accept_line
  route_line (ParseResult.ok command) s = accept_line command s
  route_line result s = reject_line result s

  -- A line that `uart_try_read_line` has delivered.
  unfoldable pub line_step : List ℕ → System F Q D → System F Q D
  unfolding route_line
  line_step text s = route_line (command_parse text) s

  -- The commands after a line that parses.
  pub commands-line_step :
      (text : List ℕ) (c : MotionCommand) (s : System F Q D)
      → command_parse text ≡ ParseResult.ok c
      → (line_step text s).commands ≡ (command_bus_send s.commands c).0
  unfolding line_step route_line accept_line
  commands-line_step text c s h = rw h refl

  -- A failed read.
  unfoldable pub receive_error_step : System F Q D → System F Q D
  receive_error_step s = record s {
    runtime =
        set_runtime_data (λ v. record v { uart_rx_errors = u32 (v.uart_rx_errors + 1) }) s.runtime;
    diagnostics =
        (diagnostics_text (platform_time_ms s.runtime) (codes "ERR UART_RX") s.diagnostics).0;
  }

  -- The notifications that woke the task.
  unfoldable pub notified_step : ℕ → System F Q D → System F Q D
  notified_step notifications s = record s {
    runtime =
        set_runtime_data
          (λ v. record v { input_notifications = u32 (v.input_notifications + notifications) })
          s.runtime;
  }
