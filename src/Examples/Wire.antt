-- ===== src/Examples/Wire.antt =====
-- The theorems about the UART at concrete inputs.
use real_time_embedded_motio.Base.{
  ℕ, refl, true, some, none, List, [], ◌∷◌, arith, codes, negsuc, pos, ltb,
}
use real_time_embedded_motio.Float.Fixed.{Fixed, fixed_float}
use real_time_embedded_motio.Application.{AppState}
use real_time_embedded_motio.Command.{CommandType, MotionCommand}
use real_time_embedded_motio.Command.Print.{print}
use real_time_embedded_motio.Queue.Bounded.{Bounded, bounded_queue, Bounded-IsFifo}
use real_time_embedded_motio.Bus.{command_bus_init}
use real_time_embedded_motio.Diagnostics.{Diagnostic, diagnostics_init}
use real_time_embedded_motio.Tasks.{System}
use real_time_embedded_motio.Tasks.Init.{runtime_init}
use real_time_embedded_motio.Target.Uart.{Receiver, Transmitter, receiver_init, uart_write}
use real_time_embedded_motio.Target.Uart.Framing.{
  Seen, symbols, lines, receive_all, deliver_all, Holds, SameOutput,
}
use real_time_embedded_motio.Target.Uart.Framing.Stream.{receive_all-deliver_all}
use real_time_embedded_motio.Target.Uart.Sending.{Writes, uart_write-Writes}
use real_time_embedded_motio.Target.Uart.Commands.{seen_line, Arrives, receive_all-line_step}
use real_time_embedded_motio.Examples.{powered, resting_at}

abbrev quiet : Receiver (Bounded (List ℕ))
quiet = receiver_init

quiet-Holds : Holds (some []) quiet
unfolding receiver_init
quiet-Holds = record { discards = refl; holds = λ h. refl }

-- A line with CR LF, a damaged one, and one with LF.
abbrev stream : List Seen
stream =
    some b'S'
    ∷ some 13
    ∷ some 10
    ∷ some b'X'
    ∷ none
    ∷ some b'Y'
    ∷ some 10
    ∷ some b'H'
    ∷ some 10
    ∷ []

framing_example :
    SameOutput
      (receive_all stream quiet)
      (deliver_all (lines (some []) (symbols quiet.skip_lf stream)) quiet)
framing_example = receive_all-deliver_all stream (some []) quiet quiet-Holds

-- A transmitter; its flag TXE is clear at the first read alone.
abbrev still : Transmitter
still = record { sent = []; polls = 0; tx_errors = 0 }

write_example :
    let (t', result) = uart_write (λ n. ltb 0 n) (λ n. true) true (codes "TEL") still in
    Writes (λ n. ltb 0 n) (λ n. true) (codes "TEL") still t' result
write_example = uart_write-Writes (λ n. ltb 0 n) (λ n. true) (codes "TEL") still (omega arith)

abbrev waiting : System Fixed (Bounded MotionCommand) (Bounded Diagnostic)
waiting = record {
  runtime = runtime_init powered;
  commands = command_bus_init;
  diagnostics = diagnostics_init;
  app = record { state = AppState.idle; last_transition_ms = 0 };
  motion = resting_at (pos 0);
}

command_example :
    Arrives
      (print CommandType.move_rel (negsuc 41))
      (record { type = CommandType.move_rel; value = negsuc 41 })
      (receive_all (seen_line (print CommandType.move_rel (negsuc 41))) quiet)
      waiting
unfolding receiver_init Bounded-IsFifo
command_example =
    receive_all-line_step Bounded-IsFifo CommandType.move_rel (negsuc 41) quiet waiting
      (omega arith) quiet-Holds refl refl (omega arith)
