-- ===== src/Target/Uart.antt =====
-- firmware/drivers/uart.h and firmware/platform/stm32/uart.c: the receive interrupt, which frames the
-- bytes into lines, and the polled transmitter.
pub mod Framing
pub mod Sending
pub mod Commands
use real_time_embedded_motio.Base.{
  ℕ, zero, suc, ◌+◌, Bool, true, false, not, ◌&&◌, ◌||◌, Option, none, some, List, [], ◌∷◌, ◌++◌,
  if◌then◌else◌, ◌==◌, ltb, length, u32,
}
use real_time_embedded_motio.Queue.{Queue}

-- `uart_result_t`.
pub data UartResult : Type 0 where
  ok empty not_initialized invalid_argument too_long io_error : UartResult

abbrev pub uart_rx_line_capacity : ℕ
uart_rx_line_capacity = 64

abbrev pub uart_tx_max_write : ℕ
uart_tx_max_write = 256

abbrev pub rx_frames : ℕ
rx_frames = 16

-- The static variables of the receiver. A `uart_line_t` is the list of its bytes; `notified` counts
-- the calls of `runtime_input_ready_from_isr`. The interrupt is enabled once the queue exists.
pub record Receiver (Q : Type 0) : Type 0 where
  pub rx_queue : Q
  pub partial : List ℕ
  pub skip_lf : Bool
  pub discard : Bool
  pub rx_drops : ℕ
  pub rx_errors : ℕ
  pub notified : ℕ

-- The bits of the status register that the interrupt reads: RXNE, and any of ORE, NE, FE and PE.
pub record UartStatus : Type 0 where
  pub received : Bool
  pub failed : Bool

module _ {Q : Type 0} ⦃q : Queue Q (List ℕ)⦄ where
  -- `uart_init` for an accepted configuration and a queue that could be created.
  unfoldable pub receiver_init : Receiver Q
  receiver_init = record {
    rx_queue = q.create rx_frames;
    partial = [];
    skip_lf = false;
    discard = false;
    rx_drops = 0;
    rx_errors = 0;
    notified = 0;
  }

  -- The block under `if (!discard)` at the end of a line.
  unfoldable pub deliver : List ℕ → Receiver Q → Receiver Q
  deliver line r =
      let (queue, sent) = q.send r.rx_queue line in
      if sent
      then record r { rx_queue = queue; notified = r.notified + 1 }
      else record r { rx_queue = queue; rx_drops = u32 (r.rx_drops + 1) }

  unfoldable pub end_line : Receiver Q → Receiver Q
  end_line r =
      let delivered = if r.discard then r else deliver r.partial r in
      record delivered { partial = []; discard = false }

  unfoldable pub store_byte : ℕ → Receiver Q → Receiver Q
  store_byte byte r =
      if not r.discard && ltb (length r.partial) uart_rx_line_capacity
      then record r { partial = r.partial ++ (byte ∷ []) }
      else r

  -- The interrupt for a byte without an error.
  unfoldable pub receive_byte : ℕ → Receiver Q → Receiver Q
  receive_byte byte r =
      let after = record r { skip_lf = byte == 13 } in
      if byte == 10 && r.skip_lf
      then record r { skip_lf = false }
      else if byte == 13 || byte == 10
      then end_line after
      else store_byte byte after

  unfoldable pub receive_error : Receiver Q → Receiver Q
  receive_error r = record r { rx_errors = u32 (r.rx_errors + 1); partial = []; discard = true }

  unfoldable pub usart2_irq_handler : UartStatus → ℕ → Receiver Q → Receiver Q
  usart2_irq_handler status byte r =
      if not (status.received || status.failed)
      then r
      else if status.failed
      then receive_error r
      else receive_byte byte r

  -- `none` is UART_EMPTY.
  with_rest : Receiver Q → Option (List ℕ × Q) → Option (List ℕ × Receiver Q)
  with_rest r none = none
  with_rest r (some (line, queue)) = some (line, record r { rx_queue = queue })

  unfoldable pub uart_try_read_line : Receiver Q → Option (List ℕ × Receiver Q)
  unfolding with_rest
  uart_try_read_line r = with_rest r (q.receive r.rx_queue)

  unfoldable pub uart_rx_pending : Receiver Q → Bool
  uart_rx_pending r = not (q.waiting r.rx_queue == 0)

-- The transmitter: the bytes written to the data register, the reads of the status register so far,
-- and the error counter.
pub record Transmitter : Type 0 where
  pub sent : List ℕ
  pub polls : ℕ
  pub tx_errors : ℕ

abbrev pub poll_limit : ℕ
poll_limit = 100000

-- `wait_flag`, from `limit` on; `flag` is what the register's bit is at each of its reads.
unfoldable pub wait_flag : ℕ → (ℕ → Bool) → ℕ → Bool × ℕ
wait_flag zero flag polls = (false, polls)
wait_flag (suc limit) flag polls =
    let rest = wait_flag limit flag (polls + 1) in
    if flag polls then (true, polls + 1) else if limit == 0 then (false, polls + 1) else rest

-- The flags TXE and TC.
module _ (txe tc : ℕ → Bool) where
  unfoldable pub send_byte : ℕ → Transmitter → Transmitter × Bool
  send_byte byte t =
      let (ready, polls) = wait_flag poll_limit txe t.polls in
      if ready
      then (record t { polls = polls; sent = t.sent ++ (byte ∷ []) }, true)
      else (record t { polls = polls; tx_errors = u32 (t.tx_errors + 1) }, false)

  -- The loop over the bytes.
  unfoldable pub send_bytes : List ℕ → Transmitter → Transmitter × Bool
  send_bytes [] t = (t, true)
  send_bytes (b ∷ bs) t =
      let (t', done) = send_byte b t in
      let rest = send_bytes bs t' in if done then rest else (t', false)

  -- The wait for the end of the transmission.
  unfoldable pub finish_write : Transmitter → Transmitter × UartResult
  finish_write t =
      let (ready, polls) = wait_flag poll_limit tc t.polls in
      if ready
      then (record t { polls = polls }, UartResult.ok)
      else (record t { polls = polls; tx_errors = u32 (t.tx_errors + 1) }, UartResult.io_error)

  -- `ready` is `rx_queue != NULL`.
  unfoldable pub uart_write : Bool → List ℕ → Transmitter → Transmitter × UartResult
  uart_write ready bytes t =
      let (t', done) = send_bytes bytes t in
      if not ready
      then (t, UartResult.not_initialized)
      else if ltb uart_tx_max_write (length bytes)
      then (t, UartResult.too_long)
      else if not done
      then (t', UartResult.io_error)
      else if length bytes == 0
      then (t', UartResult.ok)
      else finish_write t'
