-- ===== src/Host/Release/Ticks.antt =====
-- The loop of `host_input_tick_isr` over the script, and the whole tick.
use real_time_embedded_motio.Base.{
  ℕ, zero, suc, ◌+◌, ◌*◌, ◌≤◌, ◌≡◌, refl, ap, ◌∙◌, ◌⊎◌, inl, inr, Bool, true, false, not, ◌||◌,
  List, [], ◌∷◌, ◌++◌, arith, if◌then◌else◌, if_true, if_false, ◌==◌, ltb, length, All, u32,
  Bool-cases,
}
use native.Mathlib.Decide.{dec_lt}
use real_time_embedded_motio.Queue.{Queue, IsFifo}
use real_time_embedded_motio.Host.Input.{
  HostInputEvent, HostInput, release_event, release_events, notify, host_input_tick_isr,
}
use real_time_embedded_motio.Host.Release.{
  IsLater, Releases, Releases-nil, Releases-room, Releases-full,
}

module _ {Q : Type 0} ⦃q : Queue Q (List ℕ)⦄ (fifo : IsFifo Q (List ℕ)) where
  -- What the loop does with a budget.
  pub record Runs (budget now : ℕ) (events : List HostInputEvent) (told : Bool) (s t : HostInput Q)
      (tells : Bool) : Type 0 where
    pub taken : List HostInputEvent
    pub stored : List (List ℕ)
    pub in_order : events ≡ taken ++ t.script
    pub few : length taken ≤ budget
    pub due : All (λ (e : HostInputEvent). e.at_ms ≤ now) taken
    pub stops : (length taken ≡ budget) ⊎ IsLater now t.script
    pub releases : Releases fifo taken stored s t
    pub calls_same : t.ready_calls ≡ s.ready_calls
    pub tells_stored : tells ≡ (told || not (length stored == 0))

  Runs-stop :
      (budget now : ℕ) (events : List HostInputEvent) (told : Bool) (s : HostInput Q)
      → (0 ≡ budget) ⊎ IsLater now events
      → Runs budget now events told s (record s { script = events }) told
  Runs-stop budget now events told s stop = record {
    taken = [];
    stored = [];
    in_order = refl;
    few = omega arith;
    due = tt;
    stops = stop;
    releases = Releases-nil fifo s events;
    calls_same = refl;
    tells_stored = ground arith;
  }

  release_events-Runs :
      (budget now : ℕ) (events : List HostInputEvent) (told : Bool) (s : HostInput Q)
      → let (t, tells) = release_events budget now events told s in
        Runs budget now events told s t tells
  unfolding release_events release_event
  release_events-Runs zero now events told s = Runs-stop zero now events told s (inl refl)
  release_events-Runs (suc budget) now [] told s = Runs-stop (suc budget) now [] told s (inr tt)
  release_events-Runs (suc budget) now (e ∷ es) told s = elim (dec_lt now e.at_ms) [
    | yes later ↦
        let test : ltb now e.at_ms ≡ true = ground (arith, later) in
        rw test (Runs-stop (suc budget) now (e ∷ es) told s (inr later))
    | no due ↦
        let test : ltb now e.at_ms ≡ false = ground (arith, due) in
        let (after, sent) = release_event e s in
        let rest = release_events-Runs budget now es (told || sent) after in
        let now_due : e.at_ms ≤ now = omega (arith, due) in
        let in_order = ap (◌∷◌ e) rest.in_order in
        let stops : (suc (length rest.taken) ≡ suc budget) ⊎ IsLater now _ = elim rest.stops [
          | inl spent ↦ inl (ap suc spent)
          | inr later ↦ inr later
        ] in
        elim (dec_lt (length (fifo.contents s.rx_queue)) (fifo.capacity s.rx_queue)) [
          | yes room ↦
              let accepted = fifo.send_room s.rx_queue e.line room in
              rw test (record {
                taken = e ∷ rest.taken;
                stored = e.line ∷ rest.stored;
                in_order = in_order;
                few = omega (arith, rest.few);
                due = (now_due, rest.due);
                stops = stops;
                releases = Releases-room fifo e rest.taken rest.stored s _ room rest.releases;
                calls_same = rest.calls_same;
                tells_stored = ground (arith, rest.tells_stored, accepted);
              })
          | no full ↦
              let rejected = fifo.send_full s.rx_queue e.line (omega (arith, full)) in
              rw test (record {
                taken = e ∷ rest.taken;
                stored = rest.stored;
                in_order = in_order;
                few = omega (arith, rest.few);
                due = (now_due, rest.due);
                stops = stops;
                releases =
                    Releases-full fifo e rest.taken rest.stored s _ (omega (arith, full))
                      rest.releases;
                calls_same = rest.calls_same;
                tells_stored = ground (arith, rest.tells_stored, rejected);
              })
        ]
  ]

  -- What a tick does.
  pub record Ticks (now : ℕ) (s t : HostInput Q) : Type 0 where
    pub taken : List HostInputEvent
    pub stored : List (List ℕ)
    pub in_order : s.script ≡ taken ++ t.script
    pub few : length taken ≤ 16
    pub due : All (λ (e : HostInputEvent). e.at_ms ≤ now) taken
    pub stops : (length taken ≡ 16) ⊎ IsLater now t.script
    pub releases : Releases fifo taken stored s t
    pub notifies : t.ready_calls ≡ s.ready_calls + (if length stored == 0 then 0 else 1)

  -- For an active input, a tick takes the events that are due from the front of the script, in order
  -- and at most 16, and stops at an event in the future, at the end, or after 16. Their lines, as far as
  -- the queue has room, are appended to it in order; the counters count all, stored and lost lines
  -- modulo 2 ^ 32; and the callback is called once if a line was stored, and otherwise not.
  pub host_input_tick_isr-Ticks :
      (period tick : ℕ) (s : HostInput Q)
      → s.active ≡ true
      → Ticks (u32 (tick * period)) s (host_input_tick_isr period tick s)
  unfolding host_input_tick_isr notify
  host_input_tick_isr-Ticks period tick s active =
      let (after, delivered) = release_events 16 (u32 (tick * period)) s.script false s in
      let r = release_events-Runs 16 (u32 (tick * period)) s.script false s in
      let x = r.releases in
      let runs = ap not active in
      elim (Bool-cases delivered) [
        | inl d ↦
            rw
              (if_false (not s.active) s (if delivered then notify after else after) runs
                ∙ if_true delivered (notify after) after d)
              (record {
                taken = r.taken;
                stored = r.stored;
                in_order = r.in_order;
                few = r.few;
                due = r.due;
                stops = r.stops;
                releases = record {
                  stored_first = x.stored_first;
                  contents_after = x.contents_after;
                  capacity_same = x.capacity_same;
                  all_counted = x.all_counted;
                  stored_counted = x.stored_counted;
                  lost_counted = x.lost_counted;
                  active_same = x.active_same;
                };
                notifies = ground (arith, r.tells_stored, r.calls_same, d);
              })
        | inr d ↦
            rw
              (if_false (not s.active) s (if delivered then notify after else after) runs
                ∙ if_false delivered (notify after) after d)
              (record {
                taken = r.taken;
                stored = r.stored;
                in_order = r.in_order;
                few = r.few;
                due = r.due;
                stops = r.stops;
                releases = x;
                notifies = ground (arith, r.tells_stored, r.calls_same, d);
              })
      ]
