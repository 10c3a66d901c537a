-- ===== src/Target/Uart/Sending.antt =====
-- What the polled transmitter sends, and in how many reads of its status register.
use real_time_embedded_motio.Base.{
  ℕ, zero, suc, ◌+◌, ◌*◌, ◌≤◌, ◌≡◌, ◌∙◌, refl, sym, inl, inr, ◌⊎◌, Bool, true, false, List, [], ◌∷◌,
  ◌++◌, arith, length, take, u32, Bool-cases,
}
use mathlib.Core.List.{append-nil, append_assoc}
use real_time_embedded_motio.Target.Uart.{
  UartResult, Transmitter, poll_limit, wait_flag, send_byte, send_bytes, finish_write, uart_write,
}

-- A wait ends after at most `limit` reads of the register.
wait_flag_polls :
    (limit : ℕ) (flag : ℕ → Bool) (polls : ℕ) → (wait_flag limit flag polls).1 ≤ polls + limit
unfolding wait_flag
wait_flag_polls zero flag polls = omega arith
wait_flag_polls (suc limit) flag polls = ground (arith, wait_flag_polls limit flag (polls + 1))

-- What a run of the loop over `bytes` has sent.
pub record Sends (bytes : List ℕ) (done : Bool) (t t' : Transmitter) : Type 0 where
  pub count : ℕ
  pub sent_prefix : t'.sent ≡ t.sent ++ take count bytes
  pub all_sent : done ≡ true → t'.sent ≡ t.sent ++ bytes
  pub no_error : done ≡ true → t'.tx_errors ≡ t.tx_errors
  pub one_error : done ≡ false → t'.tx_errors ≡ u32 (t.tx_errors + 1)
  pub bounded : t'.polls ≤ t.polls + 100000 * length bytes

module _ (txe tc : ℕ → Bool) where
  send_byte_lem :
      (b : ℕ) (t : Transmitter)
      → let (t', done) = send_byte txe tc b t in
        (done ≡ true → (t'.sent ≡ t.sent ++ (b ∷ [])) × (t'.tx_errors ≡ t.tx_errors))
        × (done ≡ false → (t'.sent ≡ t.sent) × (t'.tx_errors ≡ u32 (t.tx_errors + 1)))
        × (t'.polls ≤ t.polls + 100000)
  unfolding send_byte
  send_byte_lem b t = ground (arith, wait_flag_polls poll_limit txe t.polls)

  send_bytes-Sends :
      (bytes : List ℕ) (t : Transmitter)
      → let (t', done) = send_bytes txe tc bytes t in Sends bytes done t t'
  unfolding send_bytes
  send_bytes-Sends [] t = record {
    count = 0;
    sent_prefix = sym (append-nil t.sent);
    all_sent = λ h. sym (append-nil t.sent);
    no_error = λ h. refl;
    one_error = λ h. cc;
    bounded = omega arith;
  }
  send_bytes-Sends (b ∷ bs) t = elim (Bool-cases (send_byte txe tc b t).1) [
    | inl more ↦
        let t' = (send_byte txe tc b t).0 in
        let (went, failed, polls) = send_byte_lem b t in
        let (one, same) = went more in
        let rest = send_bytes-Sends bs t' in
        let joined = append_assoc t.sent (b ∷ []) in
        rw more (record {
          count = suc rest.count;
          sent_prefix = ground (arith, one, rest.sent_prefix, joined (take rest.count bs));
          all_sent = λ h. ground (arith, one, rest.all_sent h, joined bs);
          no_error = λ h. rest.no_error h ∙ same;
          one_error = λ h. ground (arith, same, rest.one_error h);
          bounded = omega (arith, polls, rest.bounded);
        })
    | inr stop ↦
        let (went, failed, polls) = send_byte_lem b t in
        let (none_sent, error) = failed stop in
        rw stop (record {
          count = 0;
          sent_prefix = none_sent ∙ sym (append-nil t.sent);
          all_sent = λ h. cc;
          no_error = λ h. cc;
          one_error = λ h. error;
          bounded = omega (arith, polls);
        })
  ]

  finish_write_lem :
      (t : Transmitter)
      → let (t', result) = finish_write txe tc t in
        (t'.sent ≡ t.sent)
        × (t'.polls ≤ t.polls + 100000)
        × (((result ≡ UartResult.ok) × (t'.tx_errors ≡ t.tx_errors))
            ⊎ ((result ≡ UartResult.io_error) × (t'.tx_errors ≡ u32 (t.tx_errors + 1))))
  unfolding finish_write
  finish_write_lem t = ground (arith, wait_flag_polls poll_limit tc t.polls)

  -- The outcome of a write.
  pub record Writes (bytes : List ℕ) (t t' : Transmitter) (result : UartResult) : Type 0 where
    pub sent_count : ℕ
    pub sent_part : t'.sent ≡ t.sent ++ take sent_count bytes
    pub outcome :
        ((result ≡ UartResult.ok) × (t'.sent ≡ t.sent ++ bytes) × (t'.tx_errors ≡ t.tx_errors))
        ⊎ ((result ≡ UartResult.io_error) × (t'.tx_errors ≡ u32 (t.tx_errors + 1)))
    pub bounded_reads : t'.polls ≤ t.polls + 100000 * (length bytes + 1)

  -- Whatever the status register shows, a write of at most 256 bytes ends within 100000 reads of it
  -- for each byte and for the end. It has then sent all bytes in order with UART_OK, or counted one
  -- error with UART_IO_ERROR; what it sent is a prefix of the bytes either way.
  pub uart_write-Writes :
      (bytes : List ℕ) (t : Transmitter)
      → length bytes ≤ 256
      → let (t', result) = uart_write txe tc true bytes t in Writes bytes t t' result
  unfolding uart_write
  uart_write-Writes bytes t h =
      let s = send_bytes-Sends bytes t in
      let (sent, polls, end) = finish_write_lem (send_bytes txe tc bytes t).0 in
      record {
        sent_count = s.count;
        sent_part = ground (arith, s.sent_prefix, sent);
        outcome = ground (arith, s.all_sent, s.no_error, s.one_error, sent, end);
        bounded_reads = ground (arith, s.bounded, polls);
      }
