-- ===== src/Examples/Messages.antt =====
-- The theorems about commands, queues and texts at concrete inputs.
use real_time_embedded_motio.Base.{
  ℕ, ◌+◌, ◌≡◌, refl, true, ◌&&◌, ◌<◌, arith, some, none, List, [], ◌∷◌, negsuc, u32, leb, length,
  if◌then◌else◌, codes,
}
use real_time_embedded_motio.Command.{
  CommandType, MotionCommand, ParseResult, parse_digits, command_parse,
}
use real_time_embedded_motio.Command.Digits.{parse_digits_lem}
use real_time_embedded_motio.Command.Print.{print}
use real_time_embedded_motio.Command.RoundTrip.{command_parse-print}
use real_time_embedded_motio.TinyFormat.Digits.{decimal, all_digits, Spells, digits-Spells}
use real_time_embedded_motio.Health.{task_health_beat, task_health_fresh, fresh-beat}
use real_time_embedded_motio.Queue.Bounded.{Bounded, push, bounded_queue, Bounded-IsFifo}
use real_time_embedded_motio.Bus.{
  CommandBus, command_bus_init, command_bus_send, command_bus_receive,
}
use real_time_embedded_motio.Bus.Fifo.{
  IsCounted, command_bus_init-IsCounted, command_bus_send_lem, command_bus_receive_cons,
}
use real_time_embedded_motio.Diagnostics.{
  Diagnostic, DiagnosticKind, Diagnostics, send_record, copy_text, no_command,
}
use real_time_embedded_motio.Diagnostics.Accounts.{copy_text_fits, send_record_lem}
use real_time_embedded_motio.Motion.{MotionResult}
use real_time_embedded_motio.Examples.{move_command}

command_line_example :
    command_parse (print CommandType.move_rel (negsuc 2147483647))
    ≡ ParseResult.ok (record { type = CommandType.move_rel; value = negsuc 2147483647 })
command_line_example = command_parse-print CommandType.move_rel (negsuc 2147483647) (omega arith)

parse_digits_example : parse_digits 2147483647 0 (codes "2147483648") ≡ (
    if all_digits (codes "2147483648") && leb (decimal 0 (codes "2147483648")) 2147483647
    then some (decimal 0 (codes "2147483648"))
    else none)
parse_digits_example =
    parse_digits_lem 2147483647 0 (codes "2147483648") (omega arith) (omega arith) (omega arith)

digits_example : (ds : List ℕ) × Spells 10 4294967295 ds
digits_example = digits-Spells 10 4294967295 (omega arith) (omega arith)

fresh_example :
    task_health_fresh
      (task_health_beat (record { count = 3; last_ms = 5; seen = true }) 4294967290)
      (u32 (4294967290 + 100))
      150
    ≡ leb 100 150
fresh_example =
    fresh-beat (record { count = 3; last_ms = 5; seen = true }) 4294967290 100 150 (omega arith)
      (omega arith)

-- A bus with one command waiting.
abbrev empty_bus : CommandBus (Bounded MotionCommand)
empty_bus = command_bus_init

abbrev waiting_bus : CommandBus (Bounded MotionCommand)
waiting_bus = (command_bus_send empty_bus (move_command 500)).0

empty-IsCounted : IsCounted Bounded-IsFifo empty_bus
empty-IsCounted = command_bus_init-IsCounted Bounded-IsFifo

waiting-IsCounted : IsCounted Bounded-IsFifo waiting_bus
waiting-IsCounted =
    (command_bus_send_lem Bounded-IsFifo empty_bus (move_command 500) empty-IsCounted).4

command_bus_send_example : (command_bus_send waiting_bus (move_command 7)).1 ≡ true
unfolding command_bus_init command_bus_send Bounded-IsFifo push
command_bus_send_example =
    (command_bus_send_lem Bounded-IsFifo waiting_bus (move_command 7) waiting-IsCounted).0

command_bus_receive_example :
    (bus : CommandBus (Bounded MotionCommand)) × (command_bus_receive waiting_bus
      ≡ some (move_command 500, bus))
    × (bus.queue.items ≡ [])
    × IsCounted Bounded-IsFifo bus
unfolding command_bus_init command_bus_send Bounded-IsFifo push
command_bus_receive_example =
    command_bus_receive_cons Bounded-IsFifo waiting_bus (move_command 500) [] waiting-IsCounted refl

abbrev greeting : Diagnostic
greeting = record {
  timestamp_ms = 1;
  kind = DiagnosticKind.text;
  command = no_command;
  parse_result = ParseResult.ok no_command;
  motion_result = MotionResult.accepted;
  message = codes "OK";
}

-- A queue of diagnostics with no room.
abbrev full_diagnostics : Diagnostics (Bounded Diagnostic)
full_diagnostics = record {
  queue = record { items = greeting ∷ []; room = 1 };
  dropped = 4294967295;
}

send_record_example :
    ((send_record full_diagnostics greeting).0.queue.items ≡ greeting ∷ [])
    × ((send_record full_diagnostics greeting).0.dropped ≡ u32 (4294967295 + 1))
unfolding send_record Bounded-IsFifo push
send_record_example = (send_record_lem Bounded-IsFifo full_diagnostics greeting).2 refl

copy_text_example : length (copy_text 0 (codes "OK")) < 80
copy_text_example = copy_text_fits (codes "OK")
