-- ===== src/Target/Uart/Framing.antt =====
-- The receive interrupt against a description of the stream: end-of-line conventions first, then
-- lines, then their truncation.
pub mod Steps
pub mod Stream
use real_time_embedded_motio.Base.{
  ℕ, ◌+◌, ◌≡◌, refl, sym, ap, ◌∙◌, inl, inr, Bool, true, false, not, ◌&&◌, ◌||◌, Option, none, some,
  List, [], ◌∷◌, ◌++◌, if◌then◌else◌, ◌==◌, arith, ltb, length, take, take-snoc_room,
  take-snoc_full, Bool-cases, u32,
}
use real_time_embedded_motio.Queue.{Queue}
use real_time_embedded_motio.Target.Uart.{
  Receiver, UartStatus, deliver, end_line, store_byte, receive_byte, receive_error,
  usart2_irq_handler,
}

-- What an interrupt sees: a byte, or a line error (`none`).
abbrev pub Seen : Type 0
Seen = Option ℕ

pub data Symbol : Type 0 where
  ended damaged : Symbol
  letter : ℕ → Symbol

-- CR, LF and CR LF each end a line; `after_cr` tells that a CR ended the last one.
unfoldable pub symbols : Bool → List Seen → List Symbol
symbols after_cr [] = []
symbols after_cr (none ∷ es) = damaged ∷ symbols after_cr es
symbols after_cr (some c ∷ es) =
    let swallowed = symbols false es in
    let broken = ended ∷ symbols (c == 13) es in
    let kept = letter c ∷ symbols false es in
    if c == 10 && after_cr then swallowed else if c == 13 || c == 10 then broken else kept

-- The complete lines, after a line begun with `begun`, or damaged (`none`). Damaged lines are left out.
unfoldable pub lines : Option (List ℕ) → List Symbol → List (List ℕ)
lines begun [] = []
lines begun (damaged ∷ ss) = lines none ss
lines none (ended ∷ ss) = lines (some []) ss
lines (some line) (ended ∷ ss) = line ∷ lines (some []) ss
lines none (letter c ∷ ss) = lines none ss
lines (some line) (letter c ∷ ss) = lines (some (line ++ (c ∷ []))) ss

-- The status and the data register for what is seen.
abbrev pub status_of : Seen → UartStatus
status_of none = record { received = true; failed = true }
status_of (some c) = record { received = true; failed = false }

abbrev pub byte_of : Seen → ℕ
byte_of none = 0
byte_of (some c) = c

abbrev pub is_damaged : Option (List ℕ) → Bool
is_damaged none = true
is_damaged (some line) = false

abbrev pub line_of : Option (List ℕ) → List ℕ
line_of none = []
line_of (some line) = line

module _ {Q : Type 0} ⦃q : Queue Q (List ℕ)⦄ where
  -- An interrupt for each.
  unfoldable pub receive_all : List Seen → Receiver Q → Receiver Q
  receive_all [] r = r
  receive_all (e ∷ es) r = receive_all es (usart2_irq_handler (status_of e) (byte_of e) r)

  -- The lines, cut to 64 bytes, offered to the queue in order.
  unfoldable pub deliver_all : List (List ℕ) → Receiver Q → Receiver Q
  deliver_all [] r = r
  deliver_all (l ∷ ls) r = deliver_all ls (deliver (take 64 l) r)

  -- The receiver has the line begun so far, cut to 64 bytes.
  pub record Holds (begun : Option (List ℕ)) (r : Receiver Q) : Type 0 where
    pub discards : r.discard ≡ is_damaged begun
    pub holds : r.discard ≡ false → r.partial ≡ take 64 (line_of begun)

  -- The queue and the counters that the lines change.
  pub record SameOutput (r s : Receiver Q) : Type 0 where
    pub same_queue : r.rx_queue ≡ s.rx_queue
    pub same_drops : r.rx_drops ≡ s.rx_drops
    pub same_notified : r.notified ≡ s.notified
