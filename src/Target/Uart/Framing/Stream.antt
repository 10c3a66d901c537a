-- ===== src/Target/Uart/Framing/Stream.antt =====
-- The receiver over a whole stream.
use real_time_embedded_motio.Base.{
  ℕ, ◌≡◌, refl, sym, ap, ◌∙◌, inl, inr, Bool, true, false, ◌&&◌, ◌||◌, Option, none, some, List, [],
  ◌∷◌, ◌++◌, ◌==◌, arith, take, Bool-cases,
}
use real_time_embedded_motio.Queue.{Queue}
use real_time_embedded_motio.Target.Uart.{
  Receiver, deliver, end_line, store_byte, receive_byte, receive_error, usart2_irq_handler,
}
use real_time_embedded_motio.Target.Uart.Framing.{
  Seen, ended, letter, symbols, lines, status_of, byte_of, receive_all, deliver_all, Holds,
  SameOutput,
}
use real_time_embedded_motio.Target.Uart.Framing.Steps.{
  SameOutput-refl, SameOutput-trans, deliver-SameOutput, deliver_all-SameOutput, store_byte_others,
  store_byte-Steps, store_byte-Steps_damaged, end_line-Holds, end_line-deliver, end_line-skip_lf,
}

-- The three kinds of byte, for the description.
symbols_swallowed :
    (c : ℕ) (after_cr : Bool) (es : List Seen)
    → (c == 10 && after_cr) ≡ true
    → symbols after_cr (some c ∷ es) ≡ symbols false es
unfolding symbols
symbols_swallowed c after_cr es h = ground arith

symbols_ended :
    (c : ℕ) (after_cr : Bool) (es : List Seen)
    → (c == 10 && after_cr) ≡ false
    → (c == 13 || c == 10) ≡ true
    → symbols after_cr (some c ∷ es) ≡ ended ∷ symbols (c == 13) es
unfolding symbols
symbols_ended c after_cr es h e = ground arith

symbols_letter :
    (c : ℕ) (after_cr : Bool) (es : List Seen)
    → (c == 10 && after_cr) ≡ false
    → (c == 13 || c == 10) ≡ false
    → symbols after_cr (some c ∷ es) ≡ letter c ∷ symbols false es
unfolding symbols
symbols_letter c after_cr es h e = ground arith

module _ {Q : Type 0} ⦃q : Queue Q (List ℕ)⦄ where
  -- After the first event `e` of a stream, the receiver has what the description of the rest needs.
  pub record Follows (e : Seen) (begun : Option (List ℕ)) (r s : Receiver Q) : Type 0 where
    pub rest_begun : Option (List ℕ)
    pub delivered : List (List ℕ)
    pub rest_holds : Holds rest_begun s
    pub output_follows : SameOutput s (deliver_all delivered r)
    pub described :
        (es : List Seen)
        → lines begun (symbols r.skip_lf (e ∷ es))
          ≡ delivered ++ lines rest_begun (symbols s.skip_lf es)

  error-Follows :
      (begun : Option (List ℕ)) (r : Receiver Q)
      → Holds begun r
      → Follows none begun r (receive_error r)
  unfolding receive_error symbols lines deliver_all
  error-Follows begun r h = record {
    rest_begun = none;
    delivered = [];
    rest_holds = record { discards = refl; holds = λ e. cc };
    output_follows = record { same_queue = refl; same_drops = refl; same_notified = refl };
    described = λ es. refl;
  }

  -- The three kinds of byte, for the receiver.
  receive_byte_swallowed :
      (c : ℕ) (r : Receiver Q)
      → (c == 10 && r.skip_lf) ≡ true
      → receive_byte c r ≡ record r { skip_lf = false }
  unfolding receive_byte
  receive_byte_swallowed c r h = ground arith

  receive_byte_end :
      (c : ℕ) (r : Receiver Q)
      → (c == 10 && r.skip_lf) ≡ false
      → (c == 13 || c == 10) ≡ true
      → receive_byte c r ≡ end_line (record r { skip_lf = c == 13 })
  unfolding receive_byte
  receive_byte_end c r h e = ground arith

  receive_byte_letter :
      (c : ℕ) (r : Receiver Q)
      → (c == 10 && r.skip_lf) ≡ false
      → (c == 13 || c == 10) ≡ false
      → receive_byte c r ≡ store_byte c (record r { skip_lf = false })
  unfolding receive_byte
  receive_byte_letter c r h e = ground arith

  swallowed-Follows :
      (c : ℕ) (begun : Option (List ℕ)) (r : Receiver Q)
      → Holds begun r
      → (c == 10 && r.skip_lf) ≡ true
      → Follows (some c) begun r (record r { skip_lf = false })
  unfolding deliver_all
  swallowed-Follows c begun r h e = record {
    rest_begun = begun;
    delivered = [];
    rest_holds = record { discards = h.discards; holds = h.holds };
    output_follows = record { same_queue = refl; same_drops = refl; same_notified = refl };
    described = λ es. ap (lines begun) (symbols_swallowed c r.skip_lf es e);
  }

  end_line_damaged : (r : Receiver Q) → r.discard ≡ true → SameOutput (end_line r) r
  unfolding end_line
  end_line_damaged r h = ground arith

  ended-Follows :
      (c : ℕ) (begun : Option (List ℕ)) (r : Receiver Q)
      → Holds begun r
      → (c == 10 && r.skip_lf) ≡ false
      → (c == 13 || c == 10) ≡ true
      → Follows (some c) begun r (end_line (record r { skip_lf = c == 13 }))
  unfolding deliver_all lines
  ended-Follows c none r h e t =
      let marked = record r { skip_lf = c == 13 } in
      let skip = sym (end_line-skip_lf marked) in
      record {
        rest_begun = some [];
        delivered = [];
        rest_holds = end_line-Holds marked;
        output_follows =
            SameOutput-trans _ marked r (end_line_damaged marked h.discards)
              (record { same_queue = refl; same_drops = refl; same_notified = refl });
        described = λ es.
            ap (lines none) (symbols_ended c r.skip_lf es e t)
            ∙ ap (λ (b : Bool). lines (some []) (symbols b es)) skip;
      }
  ended-Follows c (some line) r h e t =
      let marked = record r { skip_lf = c == 13 } in
      let skip = sym (end_line-skip_lf marked) in
      let held : Holds (some line) marked = record { discards = h.discards; holds = h.holds } in
      record {
        rest_begun = some [];
        delivered = line ∷ [];
        rest_holds = end_line-Holds marked;
        output_follows = SameOutput-trans _ _ _ (end_line-deliver line marked held) (
            deliver-SameOutput (take 64 line) marked r
              (record { same_queue = refl; same_drops = refl; same_notified = refl }));
        described = λ es.
            ap (lines (some line)) (symbols_ended c r.skip_lf es e t)
            ∙ ap (λ (b : Bool). line ∷ lines (some []) (symbols b es)) skip;
      }

  letter-Follows :
      (c : ℕ) (begun : Option (List ℕ)) (r : Receiver Q)
      → Holds begun r
      → (c == 10 && r.skip_lf) ≡ false
      → (c == 13 || c == 10) ≡ false
      → Follows (some c) begun r (store_byte c (record r { skip_lf = false }))
  unfolding deliver_all lines
  letter-Follows c none r h e t =
      let marked = record r { skip_lf = false } in
      let held : Holds none marked = record { discards = h.discards; holds = h.holds } in
      let stored = store_byte-Steps_damaged c marked held in
      let (discard, skip, output) = store_byte_others c marked in
      record {
        rest_begun = none;
        delivered = [];
        rest_holds = stored.holds_next;
        output_follows =
            SameOutput-trans _ marked r output
              (record { same_queue = refl; same_drops = refl; same_notified = refl });
        described = λ es.
            ap (lines none) (symbols_letter c r.skip_lf es e t)
            ∙ ap (λ (b : Bool). lines none (symbols b es)) (sym skip);
      }
  letter-Follows c (some line) r h e t =
      let marked = record r { skip_lf = false } in
      let held : Holds (some line) marked = record { discards = h.discards; holds = h.holds } in
      let stored = store_byte-Steps c line marked held in
      let (discard, skip, output) = store_byte_others c marked in
      let longer = line ++ (c ∷ []) in
      record {
        rest_begun = some longer;
        delivered = [];
        rest_holds = stored.holds_next;
        output_follows =
            SameOutput-trans _ marked r output
              (record { same_queue = refl; same_drops = refl; same_notified = refl });
        described = λ es.
            ap (lines (some line)) (symbols_letter c r.skip_lf es e t)
            ∙ ap (λ (b : Bool). lines (some longer) (symbols b es)) (sym skip);
      }

  byte-Follows :
      (c : ℕ) (begun : Option (List ℕ)) (r : Receiver Q)
      → Holds begun r
      → Follows (some c) begun r (receive_byte c r)
  byte-Follows c begun r h = elim (Bool-cases (c == 10 && r.skip_lf)) [
    | inl e ↦ rw (receive_byte_swallowed c r e) (swallowed-Follows c begun r h e)
    | inr e ↦ elim (Bool-cases (c == 13 || c == 10)) [
      | inl t ↦ rw (receive_byte_end c r e t) (ended-Follows c begun r h e t)
      | inr t ↦ rw (receive_byte_letter c r e t) (letter-Follows c begun r h e t)
    ]
  ]

  event-Follows :
      (e : Seen) (begun : Option (List ℕ)) (r : Receiver Q)
      → Holds begun r
      → Follows e begun r (usart2_irq_handler (status_of e) (byte_of e) r)
  unfolding usart2_irq_handler
  event-Follows none begun r h = error-Follows begun r h
  event-Follows (some c) begun r h = byte-Follows c begun r h

  deliver_all-append :
      (xs ys : List (List ℕ)) (r : Receiver Q)
      → deliver_all (xs ++ ys) r ≡ deliver_all ys (deliver_all xs r)
  unfolding deliver_all
  deliver_all-append [] ys r = refl
  deliver_all-append (x ∷ xs) ys r = deliver_all-append xs ys (deliver (take 64 x) r)

  -- From a receiver that holds a line begun, any stream of bytes and line errors changes the queue,
  -- the drops and the notifications as offering the complete lines of the stream does, cut to 64
  -- bytes: CR, LF and CR LF end a line, and a line with an error is left out.
  pub receive_all-deliver_all :
      (es : List Seen) (begun : Option (List ℕ)) (r : Receiver Q)
      → Holds begun r
      → SameOutput (receive_all es r) (deliver_all (lines begun (symbols r.skip_lf es)) r)
  unfolding receive_all symbols deliver_all lines
  receive_all-deliver_all [] none r h = SameOutput-refl r
  receive_all-deliver_all [] (some line) r h = SameOutput-refl r
  receive_all-deliver_all (e ∷ es) begun r h =
      let s = usart2_irq_handler (status_of e) (byte_of e) r in
      let f = event-Follows e begun r h in
      let rest = lines f.rest_begun (symbols s.skip_lf es) in
      rw (f.described es, deliver_all-append f.delivered rest r)
        (SameOutput-trans _ _ _ (receive_all-deliver_all es f.rest_begun s f.rest_holds)
          (deliver_all-SameOutput rest s _ f.output_follows))
