-- ===== src/Diagnostics/Accounts.antt =====
-- What a full diagnostics queue costs: records are dropped and counted, and nothing else changes.
use real_time_embedded_motio.Base.{
  ℕ, ◌+◌, ◌<◌, ◌≡◌, true, false, List, [], ◌∷◌, ◌++◌, arith, length, ltb, u32,
}
use real_time_embedded_motio.Queue.{Queue, IsFifo}
use real_time_embedded_motio.Diagnostics.{
  Diagnostic, Diagnostics, copy_text, diagnostic_text_capacity, send_record,
}

length-copy_text : (i : ℕ) (text : List ℕ) → i < 80 → length (copy_text i text) + i < 80
unfolding copy_text
length-copy_text i [] h = omega arith
length-copy_text i (c ∷ cs) h = ground (arith, length-copy_text (i + 1) cs)

-- A text leaves room for its terminating NUL in the record's 80 bytes.
pub copy_text_fits : (text : List ℕ) → length (copy_text 0 text) < diagnostic_text_capacity
copy_text_fits text = omega (arith, length-copy_text 0 text (omega arith))

module _ {D : Type 0} ⦃d : Queue D Diagnostic⦄ (fifo : IsFifo D Diagnostic) where
  open fifo use {contents, capacity, send_room, send_full, contents-send, contents-send_full}

  -- A record is queued at the end while there is room; otherwise the queued records stay and the
  -- drop counter goes up by one, modulo 2 ^ 32.
  pub send_record_lem :
      (s : Diagnostics D) (r : Diagnostic)
      → let (s', sent) = send_record s r in
        (sent ≡ ltb (length (contents s.queue)) (capacity s.queue))
        × (sent ≡ true
            → (contents s'.queue ≡ contents s.queue ++ (r ∷ [])) × (s'.dropped ≡ s.dropped))
        × (sent ≡ false
            → (contents s'.queue ≡ contents s.queue) × (s'.dropped ≡ u32 (s.dropped + 1)))
  unfolding send_record
  send_record_lem s r = ground (
    arith,
    send_room s.queue r,
    send_full s.queue r,
    contents-send s.queue r,
    contents-send_full s.queue r,
  )
