-- ===== src/Bus.antt =====
-- firmware/rtos/command_bus.h and command_bus.c: the queue of commands from Communications to Motion.
pub mod Fifo
use real_time_embedded_motio.Base.{
  ℕ, ◌+◌, Bool, true, false, Option, none, some, if◌then◌else◌, ltb, u32,
}
use real_time_embedded_motio.Command.{MotionCommand}
use real_time_embedded_motio.Queue.{Queue}

-- `command_bus_t`: the queue's handle, control block and storage are one state `Q`.
pub record CommandBus (Q : Type 0) : Type 0 where
  pub queue : Q
  pub sent : ℕ
  pub received : ℕ
  pub rejected : ℕ
  pub high_water : ℕ

abbrev pub command_queue_capacity : ℕ
command_queue_capacity = 8

module _ {Q : Type 0} ⦃q : Queue Q MotionCommand⦄ where
  unfoldable pub command_bus_init : CommandBus Q
  command_bus_init = record {
    queue = q.create command_queue_capacity;
    sent = 0;
    received = 0;
    rejected = 0;
    high_water = 0;
  }

  unfoldable pub command_bus_send : CommandBus Q → MotionCommand → CommandBus Q × Bool
  command_bus_send bus command =
      let (queue, accepted) = q.send bus.queue command in
      let used = u32 (q.waiting queue) in
      if accepted
      then (
        record bus {
          queue = queue;
          sent = u32 (bus.sent + 1);
          high_water = if ltb bus.high_water used then used else bus.high_water;
        },
        true,
      )
      else (record bus { queue = queue; rejected = u32 (bus.rejected + 1) }, false)

  -- `none` is the C function's `false`.
  take_received : Option (MotionCommand × Q) → CommandBus Q → Option (MotionCommand × CommandBus Q)
  take_received none bus = none
  take_received (some (command, queue)) bus =
      some (command, record bus { queue = queue; received = u32 (bus.received + 1) })

  unfoldable pub command_bus_receive : CommandBus Q → Option (MotionCommand × CommandBus Q)
  unfolding take_received
  command_bus_receive bus = take_received (q.receive bus.queue) bus
