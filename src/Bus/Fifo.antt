-- ===== src/Bus/Fifo.antt =====
-- The bus is a FIFO of at most 8 commands, and its counters account for every command.
use real_time_embedded_motio.Base.{
  ◌+◌, ◌≤◌, ◌≡◌, true, false, none, some, List, [], ◌∷◌, ◌++◌, arith, length, length-append, u32,
  ltb,
}
use real_time_embedded_motio.Command.{MotionCommand}
use real_time_embedded_motio.Queue.{Queue, IsFifo}
use real_time_embedded_motio.Bus.{
  CommandBus, command_queue_capacity, command_bus_init, command_bus_send, command_bus_receive,
}

module _ {Q : Type 0} ⦃q : Queue Q MotionCommand⦄ (fifo : IsFifo Q MotionCommand) where
  open fifo use {
    contents, capacity, contents-create, capacity-create, waiting_lem, send_room, send_full,
    contents-send, contents-send_full, capacity-send, receive_nil, receive_cons,
  }

  -- What is held is what was sent and not received, modulo 2 ^ 32, and the high water mark lies
  -- between it and the capacity.
  pub record IsCounted (bus : CommandBus Q) : Type 0 where
    pub size : capacity bus.queue ≡ command_queue_capacity
    pub fits : length (contents bus.queue) ≤ command_queue_capacity
    pub held : u32 (bus.received + length (contents bus.queue)) ≡ bus.sent
    pub above : length (contents bus.queue) ≤ bus.high_water
    pub below : bus.high_water ≤ command_queue_capacity

  -- The empty bus satisfies the invariant.
  pub command_bus_init-IsCounted : IsCounted command_bus_init
  unfolding command_bus_init
  command_bus_init-IsCounted =
      ground (arith, contents-create command_queue_capacity, capacity-create command_queue_capacity)

  -- A send is accepted exactly while fewer than 8 commands wait; an accepted command goes to the
  -- end, a refused one leaves the queue's contents and counts as rejected; the invariant is kept.
  pub command_bus_send_lem :
      (bus : CommandBus Q) (c : MotionCommand)
      → IsCounted bus
      → let (bus', accepted) = command_bus_send bus c in
        (accepted ≡ ltb (length (contents bus.queue)) 8)
        × (accepted ≡ true → contents bus'.queue ≡ contents bus.queue ++ (c ∷ []))
        × (accepted ≡ false → contents bus'.queue ≡ contents bus.queue)
        × (accepted ≡ false → bus'.rejected ≡ u32 (bus.rejected + 1))
        × IsCounted bus'
  unfolding command_bus_send
  command_bus_send_lem bus c i = ground (
    arith,
    send_room bus.queue c,
    send_full bus.queue c,
    contents-send bus.queue c,
    contents-send_full bus.queue c,
    capacity-send bus.queue c,
    waiting_lem (q.send bus.queue c).0,
    length-append (contents bus.queue) (c ∷ []),
  )

  -- A receive from an empty bus gives nothing.
  pub command_bus_receive_nil :
      (bus : CommandBus Q) → contents bus.queue ≡ [] → command_bus_receive bus ≡ none
  unfolding command_bus_receive
  command_bus_receive_nil bus e = rw (receive_nil bus.queue e)

  -- A receive from a bus that is not empty gives the oldest command, leaves the others in order, and
  -- keeps the invariant.
  pub command_bus_receive_cons :
      (bus : CommandBus Q) (c : MotionCommand) (rest : List MotionCommand)
      → IsCounted bus
      → contents bus.queue ≡ c ∷ rest
      → (bus' : CommandBus Q) × (command_bus_receive bus ≡ some (c, bus'))
        × (contents bus'.queue ≡ rest)
        × IsCounted bus'
  unfolding command_bus_receive
  command_bus_receive_cons bus c rest i e =
      let (s', took, left, size) = receive_cons bus.queue c rest e in
      (record bus { queue = s'; received = u32 (bus.received + 1) }, rw took, left, ground arith)
