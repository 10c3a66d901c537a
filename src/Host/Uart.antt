-- ===== src/Host/Uart.antt =====
-- firmware/platform/host/uart_host.c: the states and results of the host's UART. The bound receiver
-- and the sink are other code: what they answer is an argument.
use real_time_embedded_motio.Base.{
  ℕ, ◌+◌, Bool, true, false, not, ◌&&◌, Option, none, some, List, if◌then◌else◌, ◌==◌, ltb, length,
  u32,
}
use real_time_embedded_motio.Target.Uart.{UartResult, uart_rx_line_capacity, uart_tx_max_write}

-- `uart_host_stats_t`.
pub record UartHostStats : Type 0 where
  pub initialized : Bool
  pub baud_rate : ℕ
  pub tx_calls : ℕ
  pub tx_bytes : ℕ
  pub tx_errors : ℕ

-- The static variables; `bound` tells whether `receive_frame` and `rx_pending` are set.
pub record UartHost : Type 0 where
  pub stats : UartHostStats
  pub bound : Bool

-- `none` is a null pointer.
unfoldable pub uart_init : Option ℕ → UartHost → UartHost × UartResult
uart_init none u = (u, UartResult.invalid_argument)
uart_init (some baud_rate) u =
    let ready : UartHost = record {
      stats = record {
        initialized = true;
        baud_rate = baud_rate;
        tx_calls = 0;
        tx_bytes = 0;
        tx_errors = 0;
      };
      bound = false;
    } in
    if baud_rate == 0 then (u, UartResult.invalid_argument) else (ready, UartResult.ok)

-- With functions that are not null.
unfoldable pub uart_host_bind_rx : UartHost → UartHost × Bool
uart_host_bind_rx u = if u.stats.initialized then (record u { bound = true }, true) else (u, false)

-- What `uart_try_read_line` answers to a frame, or to none.
unfoldable pub frame_result : Option (List ℕ) → UartResult × Option (List ℕ)
frame_result none = (UartResult.empty, none)
frame_result (some frame) =
    if ltb uart_rx_line_capacity (length frame)
    then (UartResult.too_long, none)
    else (UartResult.ok, some frame)

unfoldable pub uart_rx_pending : UartHost → Bool → Bool
uart_rx_pending u pending = u.stats.initialized && u.bound && pending

-- The result of `uart_write` before the counters; `sink` is what `tx_sink` answers.
unfoldable pub write_result : (List ℕ → Bool) → List ℕ → UartResult
write_result sink bytes =
    if ltb uart_tx_max_write (length bytes)
    then UartResult.too_long
    else if not (length bytes == 0) && not (sink bytes)
    then UartResult.io_error
    else UartResult.ok

count_write : ℕ → UartHostStats → UartResult → UartHostStats
count_write n s UartResult.ok = record s {
  tx_calls = u32 (s.tx_calls + 1);
  tx_bytes = u32 (s.tx_bytes + u32 n);
}
count_write n s _ = record s { tx_errors = u32 (s.tx_errors + 1) }

-- `uart_write` of a pointer that is not null.
unfoldable pub uart_write : (List ℕ → Bool) → List ℕ → UartHost → UartHost × UartResult
unfolding count_write
uart_write sink bytes u =
    let result = write_result sink bytes in
    if not u.stats.initialized
    then (u, UartResult.not_initialized)
    else (record u { stats = count_write (length bytes) u.stats result }, result)
