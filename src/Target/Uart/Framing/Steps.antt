-- ===== src/Target/Uart/Framing/Steps.antt =====
-- What one byte does to the receiver: the line begun, the queue and the counters.
use real_time_embedded_motio.Base.{
  ℕ, ◌≡◌, refl, ap, ◌∙◌, false, Option, none, some, List, [], ◌∷◌, ◌++◌, if◌then◌else◌, arith, ltb,
  length, take, take-snoc_room, take-snoc_full,
}
use real_time_embedded_motio.Queue.{Queue}
use real_time_embedded_motio.Target.Uart.{Receiver, deliver, end_line, store_byte}
use real_time_embedded_motio.Target.Uart.Framing.{deliver_all, Holds, SameOutput}

-- A byte more, while there is room.
take-snoc :
    (n : ℕ) (line : List ℕ) (c : ℕ)
    → (if ltb (length (take n line)) n then take n line ++ (c ∷ []) else take n line)
      ≡ take n (line ++ (c ∷ []))
take-snoc n line c = ground (arith, take-snoc_room n line c, take-snoc_full n line c)

module _ {Q : Type 0} ⦃q : Queue Q (List ℕ)⦄ where
  pub SameOutput-refl : (r : Receiver Q) → SameOutput r r
  SameOutput-refl r = record { same_queue = refl; same_drops = refl; same_notified = refl }

  pub deliver-SameOutput :
      (l : List ℕ) (r s : Receiver Q) → SameOutput r s → SameOutput (deliver l r) (deliver l s)
  unfolding deliver
  deliver-SameOutput l r s h =
      let e : q.send r.rx_queue l ≡ q.send s.rx_queue l = ap (λ (x : Q). q.send x l) h.same_queue in
      ground (arith, e)

  pub deliver_all-SameOutput :
      (ls : List (List ℕ)) (r s : Receiver Q)
      → SameOutput r s
      → SameOutput (deliver_all ls r) (deliver_all ls s)
  unfolding deliver_all
  deliver_all-SameOutput [] r s h = h
  deliver_all-SameOutput (l ∷ ls) r s h =
      deliver_all-SameOutput ls (deliver (take 64 l) r) (deliver (take 64 l) s)
        (deliver-SameOutput (take 64 l) r s h)

  pub SameOutput-trans : (a b c : Receiver Q) → SameOutput a b → SameOutput b c → SameOutput a c
  SameOutput-trans a b c p q = record {
    same_queue = p.same_queue ∙ q.same_queue;
    same_drops = p.same_drops ∙ q.same_drops;
    same_notified = p.same_notified ∙ q.same_notified;
  }

  -- What one interrupt does to a receiver that holds a line begun.
  pub record Steps (begun : Option (List ℕ)) (r s : Receiver Q) : Type 0 where
    pub holds_next : Holds begun s
    pub same_output : SameOutput s r

  pub store_byte_partial :
      (c : ℕ) (line : List ℕ) (r : Receiver Q)
      → r.discard ≡ false
      → r.partial ≡ take 64 line
      → (store_byte c r).partial ≡ take 64 (line ++ (c ∷ []))
  unfolding store_byte
  store_byte_partial c line r open_line h =
      let stored : (store_byte c r).partial
          ≡ (if ltb (length r.partial) 64 then r.partial ++ (c ∷ []) else r.partial) =
        ground arith in
      stored
      ∙ ap (λ (p : List ℕ). if ltb (length p) 64 then p ++ (c ∷ []) else p) h
      ∙ take-snoc 64 line c

  pub store_byte_others :
      (c : ℕ) (r : Receiver Q)
      → ((store_byte c r).discard ≡ r.discard)
        × ((store_byte c r).skip_lf ≡ r.skip_lf)
        × SameOutput (store_byte c r) r
  unfolding store_byte
  store_byte_others c r = ground arith

  pub store_byte-Steps :
      (c : ℕ) (line : List ℕ) (r : Receiver Q)
      → Holds (some line) r
      → Steps (some (line ++ (c ∷ []))) r (store_byte c r)
  store_byte-Steps c line r h =
      let (discard, skip, output) = store_byte_others c r in
      let stored = store_byte_partial c line r h.discards (h.holds h.discards) in
      record {
        holds_next = record { discards = discard ∙ h.discards; holds = λ e. stored };
        same_output = output;
      }

  pub store_byte-Steps_damaged :
      (c : ℕ) (r : Receiver Q) → Holds none r → Steps none r (store_byte c r)
  unfolding store_byte
  store_byte-Steps_damaged c r h = ground arith

  pub end_line-Holds : (r : Receiver Q) → Holds (some []) (end_line r)
  unfolding end_line
  end_line-Holds r = record { discards = refl; holds = λ e. refl }

  pub end_line-deliver :
      (line : List ℕ) (r : Receiver Q)
      → Holds (some line) r
      → SameOutput (end_line r) (deliver (take 64 line) r)
  unfolding end_line
  end_line-deliver line r h =
      let e : deliver r.partial r ≡ deliver (take 64 line) r =
        ap (λ (l : List ℕ). deliver l r) (h.holds h.discards) in
      ground (arith, e)

  pub end_line-skip_lf : (r : Receiver Q) → (end_line r).skip_lf ≡ r.skip_lf
  unfolding end_line deliver
  end_line-skip_lf r = ground arith
