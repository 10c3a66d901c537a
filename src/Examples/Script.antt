-- ===== src/Examples/Script.antt =====
-- The theorems about the host's input at concrete inputs.
use real_time_embedded_motio.Base.{ℕ, ◌*◌, refl, true, List, [], ◌∷◌, codes, u32}
use real_time_embedded_motio.Queue.Bounded.{Bounded, bounded_queue, Bounded-IsFifo}
use real_time_embedded_motio.Host.Uart.{UartHost, uart_host_bind_rx}
use real_time_embedded_motio.Host.Input.{
  HostInput, HostInputEvent, script_valid, host_input_init, host_input_tick_isr, uart_try_read_line,
}
use real_time_embedded_motio.Host.Release.Ticks.{Ticks, host_input_tick_isr-Ticks}
use real_time_embedded_motio.Host.Frames.{
  ticked, Reachable, initialized, stepped, ReadsShort, Reachable-ReadsShort,
}

abbrev events : List HostInputEvent
events =
    record { at_ms = 5; line = codes "STATUS" }
    ∷ record { at_ms = 5; line = codes "HOME" }
    ∷ record { at_ms = 90; line = codes "STOP" }
    ∷ []

-- A script on a queue with room for one frame.
abbrev scripted : HostInput (Bounded (List ℕ))
scripted = record {
  rx_queue = record { items = []; room = 1 };
  script = events;
  active = true;
  counters = record { released = 0; accepted = 0; dropped = 0; irq_notifications = 0 };
  ready_calls = 0;
}

tick_example : Ticks Bounded-IsFifo (u32 (40 * 1)) scripted (host_input_tick_isr 1 40 scripted)
tick_example = host_input_tick_isr-Ticks Bounded-IsFifo 1 40 scripted refl

abbrev uart : UartHost
uart = record {
  stats = record {
    initialized = true;
    baud_rate = 115200;
    tx_calls = 0;
    tx_bytes = 0;
    tx_errors = 0;
  };
  bound = true;
}

abbrev begun : HostInput (Bounded (List ℕ))
begun = (host_input_init 1 events uart scripted).1

begun-Reachable : Reachable (host_input_tick_isr 1 40 begun)
unfolding host_input_init script_valid uart_host_bind_rx
begun-Reachable =
    stepped begun (host_input_tick_isr 1 40 begun) (initialized 1 events uart scripted refl)
      (ticked 1 40 begun)

read_example : ReadsShort Bounded-IsFifo (uart_try_read_line uart (host_input_tick_isr 1 40 begun))
read_example =
    Reachable-ReadsShort Bounded-IsFifo uart (host_input_tick_isr 1 40 begun) begun-Reachable
