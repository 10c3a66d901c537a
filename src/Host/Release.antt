-- ===== src/Host/Release.antt =====
-- The release of the script's frames at a tick, against the FIFO behaviour of the queue.
pub mod Ticks
use real_time_embedded_motio.Base.{
  ℕ, zero, suc, ◌+◌, ◌-◌, ◌≤◌, ◌<◌, ◌≡◌, refl, sym, ap, ◌∙◌, Bool, true, false, List, [], ◌∷◌, ◌++◌,
  arith, length, length-append, take, u32,
}
use mathlib.Core.List.{append-nil, append_assoc}
use real_time_embedded_motio.Queue.{Queue, IsFifo}
use real_time_embedded_motio.Host.Input.{
  HostInputEvent, HostInputStats, HostInput, count_release, release_event,
}

-- The lines of some events.
unfoldable pub lines_of : List HostInputEvent → List (List ℕ)
lines_of [] = []
lines_of (e ∷ es) = e.line ∷ lines_of es

take_nil {ℓ} : {A : Type ℓ} (n : ℕ) → take {A = A} n [] ≡ []
take_nil zero = refl
take_nil (suc n) = refl

-- The next event is in the future.
abbrev pub IsLater : ℕ → List HostInputEvent → Type 0
IsLater now [] = Unit
IsLater now (e ∷ es) = now < e.at_ms

module _ {Q : Type 0} ⦃q : Queue Q (List ℕ)⦄ (fifo : IsFifo Q (List ℕ)) where
  -- From `s` to `t`, `released` was taken from the events, and `stored` is what the queue had room for.
  pub record Releases (released : List HostInputEvent) (stored : List (List ℕ)) (s t : HostInput Q)
      : Type 0 where
    pub stored_first :
        stored
        ≡ take (fifo.capacity s.rx_queue - length (fifo.contents s.rx_queue)) (lines_of released)
    pub contents_after : fifo.contents t.rx_queue ≡ fifo.contents s.rx_queue ++ stored
    pub capacity_same : fifo.capacity t.rx_queue ≡ fifo.capacity s.rx_queue
    pub all_counted : u32 t.counters.released ≡ u32 (s.counters.released + length released)
    pub stored_counted : u32 t.counters.accepted ≡ u32 (s.counters.accepted + length stored)
    pub lost_counted :
        u32 (t.counters.dropped + length stored) ≡ u32 (s.counters.dropped + length released)
    pub active_same : t.active ≡ s.active

  abbrev room_of : HostInput Q → ℕ
  room_of s = fifo.capacity s.rx_queue - length (fifo.contents s.rx_queue)

  pub Releases-nil :
      (s : HostInput Q) (events : List HostInputEvent)
      → Releases [] [] s (record s { script = events })
  unfolding lines_of
  Releases-nil s events = record {
    stored_first = sym (take_nil (room_of s));
    contents_after = sym (append-nil (fifo.contents s.rx_queue));
    capacity_same = refl;
    all_counted = omega arith;
    stored_counted = omega arith;
    lost_counted = omega arith;
    active_same = refl;
  }

  pub Releases-room :
      (e : HostInputEvent) (es : List HostInputEvent) (stored : List (List ℕ)) (s t : HostInput Q)
      → length (fifo.contents s.rx_queue) < fifo.capacity s.rx_queue
      → Releases es stored (release_event e s).0 t
      → Releases (e ∷ es) (e.line ∷ stored) s t
  unfolding release_event count_release lines_of
  Releases-room e es stored s t room rest =
      let (next, sent) = q.send s.rx_queue e.line in
      let accepted = fifo.send_room s.rx_queue e.line room in
      let after = fifo.contents-send s.rx_queue e.line accepted in
      let longer = ap length after ∙ length-append (fifo.contents s.rx_queue) (e.line ∷ []) in
      let same = fifo.capacity-send s.rx_queue e.line in
      let one : room_of s ≡ suc (fifo.capacity next - length (fifo.contents next)) =
        omega (arith, room, same, longer) in
      let counted : count_release sent s.counters ≡ count_release true s.counters =
        ap (λ (b : Bool). count_release b s.counters) accepted in
      let released = ap (λ (c : HostInputStats). c.released) counted in
      let kept = ap (λ (c : HostInputStats). c.accepted) counted in
      let lost = ap (λ (c : HostInputStats). c.dropped) counted in
      record {
        stored_first = rw one (ap (◌∷◌ e.line) rest.stored_first);
        contents_after =
            rest.contents_after
            ∙ rw after (append_assoc (fifo.contents s.rx_queue) (e.line ∷ []) stored);
        capacity_same = rest.capacity_same ∙ same;
        all_counted = omega (arith, rest.all_counted, released);
        stored_counted = omega (arith, rest.stored_counted, kept);
        lost_counted = omega (arith, rest.lost_counted, lost);
        active_same = rest.active_same;
      }

  pub Releases-full :
      (e : HostInputEvent) (es : List HostInputEvent) (stored : List (List ℕ)) (s t : HostInput Q)
      → fifo.capacity s.rx_queue ≤ length (fifo.contents s.rx_queue)
      → Releases es stored (release_event e s).0 t
      → Releases (e ∷ es) stored s t
  unfolding release_event count_release lines_of
  Releases-full e es stored s t full rest =
      let (next, sent) = q.send s.rx_queue e.line in
      let rejected = fifo.send_full s.rx_queue e.line full in
      let after = fifo.contents-send_full s.rx_queue e.line rejected in
      let long = ap length after in
      let same = fifo.capacity-send s.rx_queue e.line in
      let none_now : room_of s ≡ 0 = omega (arith, full) in
      let none_next : fifo.capacity next - length (fifo.contents next) ≡ 0 =
        omega (arith, full, same, long) in
      let counted : count_release sent s.counters ≡ count_release false s.counters =
        ap (λ (b : Bool). count_release b s.counters) rejected in
      let released = ap (λ (c : HostInputStats). c.released) counted in
      let kept = ap (λ (c : HostInputStats). c.accepted) counted in
      let lost = ap (λ (c : HostInputStats). c.dropped) counted in
      record {
        stored_first = rw none_now (rest.stored_first ∙ rw none_next refl);
        contents_after = rest.contents_after ∙ ap (λ (c : List (List ℕ)). c ++ stored) after;
        capacity_same = rest.capacity_same ∙ same;
        all_counted = omega (arith, rest.all_counted, released);
        stored_counted = omega (arith, rest.stored_counted, kept);
        lost_counted = omega (arith, rest.lost_counted, lost);
        active_same = rest.active_same;
      }
