-- ===== src/Host/Input.antt =====
-- firmware/platform/host/input_host.h and input_host.c: the script of frames and their release.
use real_time_embedded_motio.Base.{
  ℕ, zero, suc, ◌+◌, ◌*◌, ◌%◌, Bool, true, false, not, ◌&&◌, ◌||◌, Option, none, some, List, [],
  ◌∷◌, if◌then◌else◌, ◌==◌, ltb, length, u32,
}
use real_time_embedded_motio.Queue.{Queue}
use real_time_embedded_motio.Target.Uart.{UartResult, uart_rx_line_capacity}
use real_time_embedded_motio.Host.Uart.{UartHost, uart_host_bind_rx, frame_result}

abbrev pub host_input_queue_capacity : ℕ
host_input_queue_capacity = 16

abbrev pub host_script_capacity : ℕ
host_script_capacity = 32

-- `host_input_event_t`.
pub record HostInputEvent : Type 0 where
  pub at_ms : ℕ
  pub line : List ℕ

-- `host_input_stats_t`.
pub record HostInputStats : Type 0 where
  pub released : ℕ
  pub accepted : ℕ
  pub dropped : ℕ
  pub irq_notifications : ℕ

-- The static variables: `script` is the events from `next_event` to `event_count`, and `ready_calls`
-- counts the calls of `input_ready`.
pub record HostInput (Q : Type 0) : Type 0 where
  pub rx_queue : Q
  pub script : List HostInputEvent
  pub active : Bool
  pub counters : HostInputStats
  pub ready_calls : ℕ

abbrev no_counters : HostInputStats
no_counters = record { released = 0; accepted = 0; dropped = 0; irq_notifications = 0 }

-- The loop of `host_input_init` over the events: lengths, whole ticks of `period` milliseconds, and
-- times not before `previous`.
unfoldable pub script_valid : ℕ → ℕ → List HostInputEvent → Bool
script_valid period previous [] = true
script_valid period previous (e ∷ es) =
    not (ltb uart_rx_line_capacity (length e.line))
    && e.at_ms % period == 0
    && not (ltb e.at_ms previous)
    && script_valid period e.at_ms es

-- The counters after a frame that the queue has accepted or not.
unfoldable pub count_release : Bool → HostInputStats → HostInputStats
count_release sent c =
    if sent
    then record c { released = u32 (c.released + 1); accepted = u32 (c.accepted + 1) }
    else record c { released = u32 (c.released + 1); dropped = u32 (c.dropped + 1) }

module _ {Q : Type 0} ⦃q : Queue Q (List ℕ)⦄ where
  -- `host_input_init` with a callback and a queue that could be created.
  unfoldable pub host_input_init :
      ℕ → List HostInputEvent → UartHost → HostInput Q → UartHost × HostInput Q × Bool
  host_input_init period events u s =
      let (bound, active) = uart_host_bind_rx u in
      let ready : HostInput Q = record {
        rx_queue = q.create host_input_queue_capacity;
        script = events;
        active = active;
        counters = no_counters;
        ready_calls = 0;
      } in
      if ltb host_script_capacity (length events) || not (script_valid period 0 events)
      then (u, s, false)
      else (bound, ready, active)

  -- The body of the loop of `host_input_tick_isr` past its `break`, for the next event.
  unfoldable pub release_event : HostInputEvent → HostInput Q → HostInput Q × Bool
  release_event e s =
      let (queue, sent) = q.send s.rx_queue e.line in
      (record s { rx_queue = queue; counters = count_release sent s.counters }, sent)

  -- The loop, from a `budget` left on: `events` are those from `next_event` on.
  unfoldable pub release_events :
      ℕ → ℕ → List HostInputEvent → Bool → HostInput Q → HostInput Q × Bool
  release_events zero now events delivered s = (record s { script = events }, delivered)
  release_events (suc budget) now [] delivered s = (record s { script = [] }, delivered)
  release_events (suc budget) now (e ∷ es) delivered s =
      let (after, sent) = release_event e s in
      let rest = release_events budget now es (delivered || sent) after in
      if ltb now e.at_ms then (record s { script = e ∷ es }, delivered) else rest

  -- The block under `if (delivered)`.
  unfoldable pub notify : HostInput Q → HostInput Q
  notify s =
      let c = s.counters in
      record s {
        counters = record c { irq_notifications = u32 (c.irq_notifications + 1) };
        ready_calls = s.ready_calls + 1;
      }

  -- `tick` is what `xTaskGetTickCountFromISR` returns.
  unfoldable pub host_input_tick_isr : ℕ → ℕ → HostInput Q → HostInput Q
  host_input_tick_isr period tick s =
      let now = u32 (tick * period) in
      let (after, delivered) = release_events host_input_queue_capacity now s.script false s in
      if not s.active then s else if delivered then notify after else after

  -- `host_input_submit` of a line that is not null.
  unfoldable pub host_input_submit : List ℕ → HostInput Q → HostInput Q × Bool
  host_input_submit line s =
      let (queue, sent) = q.send s.rx_queue line in
      if ltb uart_rx_line_capacity (length line)
      then (s, false)
      else if s.active
      then (record s { rx_queue = queue; counters = count_release sent s.counters }, sent)
      else (s, false)

  unfoldable pub host_input_stop : HostInput Q → HostInput Q
  host_input_stop s = record s { active = false }

  unfoldable pub frames_pending : HostInput Q → Bool
  frames_pending s = not (q.waiting s.rx_queue == 0)

  -- `uart_try_read_line` of uart_host.c, with `receive_frame` bound to the one of input_host.c.
  unfoldable pub uart_try_read_line :
      UartHost → HostInput Q → HostInput Q × (UartResult × Option (List ℕ))
  uart_try_read_line u s =
      if not u.stats.initialized
      then (s, (UartResult.not_initialized, none))
      else if not u.bound
      then (s, (UartResult.empty, none))
      else elim (q.receive s.rx_queue) [
        | none ↦ (s, frame_result none)
        | some (frame, queue) ↦ (record s { rx_queue = queue }, frame_result (some frame))
      ]
