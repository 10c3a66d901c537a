-- ===== src/Target/Uart/Commands.antt =====
-- From the wire to the command bus: the bytes of a printed command reach the motion task.
use real_time_embedded_motio.Base.{
  ℕ, ◌≤◌, ◌<◌, ◌≡◌, refl, sym, ap, Bool, true, false, not, ◌&&◌, ◌||◌, some, List, [], ◌∷◌, ◌++◌,
  arith, length, take_whole, if◌then◌else◌, ◌==◌, ℤ, pos, IsInt32,
}
use mathlib.Core.List.{append-nil, append_assoc}
use real_time_embedded_motio.Float.{Float}
use real_time_embedded_motio.Command.{CommandType, MotionCommand, command_name}
use real_time_embedded_motio.Command.Print.{print, print_value}
use real_time_embedded_motio.Command.RoundTrip.{
  solid, print_value-Readable, takes_value, command_parse-print,
}
use real_time_embedded_motio.Queue.{Queue, IsFifo}
use real_time_embedded_motio.Bus.{command_bus_send}
use real_time_embedded_motio.Diagnostics.{Diagnostic}
use real_time_embedded_motio.Tasks.{System, line_step, commands-line_step}
use real_time_embedded_motio.Target.Uart.{Receiver, deliver, uart_try_read_line}
use real_time_embedded_motio.Target.Uart.Framing.{
  Seen, symbols, lines, receive_all, deliver_all, Holds,
}
use real_time_embedded_motio.Target.Uart.Framing.Stream.{receive_all-deliver_all}

-- Bytes that end no line.
unfoldable plain : List ℕ → Bool
plain [] = true
plain (c ∷ cs) = not (c == 13 || c == 10) && plain cs

plain_of_solid : (cs : List ℕ) → solid cs ≡ true → plain cs ≡ true
unfolding solid plain
plain_of_solid [] h = refl
plain_of_solid (c ∷ cs) h = ground (arith, plain_of_solid cs)

plain-append : (xs ys : List ℕ) → plain (xs ++ ys) ≡ (plain xs && plain ys)
unfolding plain
plain-append [] ys = refl
plain-append (x ∷ xs) ys = ground (arith, plain-append xs ys)

-- A received text with its line end.
unfoldable pub seen_line : List ℕ → List Seen
seen_line [] = some 13 ∷ some 10 ∷ []
seen_line (c ∷ cs) = some c ∷ seen_line cs

seen_line_lem :
    (begun cs : List ℕ)
    → plain cs ≡ true
    → lines (some begun) (symbols false (seen_line cs)) ≡ (begun ++ cs) ∷ []
unfolding seen_line symbols lines plain
seen_line_lem begun [] h = ap (λ (l : List ℕ). l ∷ []) (sym (append-nil begun))
seen_line_lem begun (c ∷ cs) h =
    let rest = seen_line_lem (begun ++ (c ∷ [])) cs in
    ground (arith, rest, append_assoc begun (c ∷ []) cs)

-- What is printed is one line, and fits in it.
record OneLine (text : List ℕ) : Type 0 where
  pub no_end : plain text ≡ true
  pub fits : length text ≤ 64

print-OneLine : (t : CommandType) (z : ℤ) → IsInt32 z → OneLine (print t z)
unfolding plain print command_name
print-OneLine CommandType.move_abs z h =
    let o = print_value-Readable z h in
    record { no_end = plain_of_solid (print_value z) o.is_solid; fits = omega (arith, o.fits) }
print-OneLine CommandType.move_rel z h =
    let o = print_value-Readable z h in
    record { no_end = plain_of_solid (print_value z) o.is_solid; fits = omega (arith, o.fits) }
print-OneLine CommandType.set_speed z h =
    let o = print_value-Readable z h in
    record { no_end = plain_of_solid (print_value z) o.is_solid; fits = omega (arith, o.fits) }
print-OneLine CommandType.home z h = record { no_end = refl; fits = omega arith }
print-OneLine CommandType.stop z h = record { no_end = refl; fits = omega arith }
print-OneLine CommandType.estop z h = record { no_end = refl; fits = omega arith }
print-OneLine CommandType.reset z h = record { no_end = refl; fits = omega arith }
print-OneLine CommandType.status z h = record { no_end = refl; fits = omega arith }
print-OneLine CommandType.help z h = record { no_end = refl; fits = omega arith }

module _ {R : Type 0} ⦃u : Queue R (List ℕ)⦄ (fifo : IsFifo R (List ℕ)) where
  read_after :
      (line : List ℕ) (r : Receiver R)
      → fifo.contents r.rx_queue ≡ line ∷ []
      → (rest : Receiver R) × (uart_try_read_line r ≡ some (line, rest))
  unfolding uart_try_read_line
  read_after line r h =
      let (queue, received, left, same) = fifo.receive_cons r.rx_queue line [] h in
      (record r { rx_queue = queue }, rw received refl)

  contents-deliver :
      (line : List ℕ) (r : Receiver R)
      → fifo.contents r.rx_queue ≡ []
      → 0 < fifo.capacity r.rx_queue
      → fifo.contents (deliver line r).rx_queue ≡ line ∷ []
  unfolding deliver
  contents-deliver line r h room =
      let sent = fifo.send_room r.rx_queue line (rw h (omega (arith, room))) in
      let after = fifo.contents-send r.rx_queue line sent in ground (arith, sent, after, h)

module _ {R F Q D : Type 0} ⦃f : Float F⦄ ⦃q : Queue Q MotionCommand⦄ ⦃d : Queue D Diagnostic⦄
    ⦃u : Queue R (List ℕ)⦄ where
  -- What `uart_try_read_line` gives after the bytes of a line, and what the communication task does
  -- with it.
  pub record Arrives (text : List ℕ) (c : MotionCommand) (r : Receiver R) (s : System F Q D)
      : Type 0 where
    pub rest : Receiver R
    pub line_read : uart_try_read_line r ≡ some (text, rest)
    pub command_sent : (line_step text s).commands ≡ (command_bus_send s.commands c).0

module _ {R F Q D : Type 0} ⦃f : Float F⦄ ⦃q : Queue Q MotionCommand⦄ ⦃d : Queue D Diagnostic⦄
    ⦃u : Queue R (List ℕ)⦄ (fifo : IsFifo R (List ℕ)) where
  -- From a receiver between two lines with an empty queue, the bytes of any printed command with CR LF
  -- make `uart_try_read_line` give the command's line, and the communication task sends exactly that
  -- command, with the number printed, to the command bus.
  pub receive_all-line_step :
      (t : CommandType) (z : ℤ) (r : Receiver R) (s : System F Q D)
      → IsInt32 z
      → Holds (some []) r
      → r.skip_lf ≡ false
      → fifo.contents r.rx_queue ≡ []
      → 0 < fifo.capacity r.rx_queue
      → Arrives
          (print t z)
          (record { type = t; value = if takes_value t then z else pos 0 })
          (receive_all (seen_line (print t z)) r)
          s
  unfolding deliver_all
  receive_all-line_step t z r s int held skip nothing room =
      let text = print t z in
      let c : MotionCommand = record { type = t; value = if takes_value t then z else pos 0 } in
      let one = print-OneLine t z int in
      let same = receive_all-deliver_all (seen_line text) (some []) r held in
      let described : lines (some []) (symbols r.skip_lf (seen_line text)) ≡ text ∷ [] =
        rw skip (seen_line_lem [] text one.no_end) in
      let stored : fifo.contents (receive_all (seen_line text) r).rx_queue ≡ text ∷ [] =
        rw (same.same_queue, described, take_whole 64 text one.fits)
          (contents-deliver fifo text r nothing room) in
      let (rest, line_read) = read_after fifo text (receive_all (seen_line text) r) stored in
      record {
        rest = rest;
        line_read = line_read;
        command_sent = commands-line_step text c s (command_parse-print t z int);
      }
