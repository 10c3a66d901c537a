-- ===== src/Host/Frames.antt =====
-- Every frame that the host's input holds is at most 64 bytes long, so that `UART_TOO_LONG` is never
-- the answer to a read.
use real_time_embedded_motio.Base.{
  ℕ, zero, suc, ◌≤◌, ◌≡◌, ◌≢◌, refl, ap, inl, inr, true, false, not, ◌||◌, Option, List, [], ◌∷◌,
  ◌++◌, arith, if_true, ltb, length, take, All, Bool-cases,
}
use real_time_embedded_motio.Queue.{Queue, IsFifo}
use real_time_embedded_motio.Target.Uart.{UartResult}
use real_time_embedded_motio.Host.Uart.{UartHost, frame_result}
use real_time_embedded_motio.Host.Input.{
  HostInputEvent, HostInput, script_valid, host_input_init, host_input_tick_isr, host_input_submit,
  host_input_stop, uart_try_read_line,
}
use real_time_embedded_motio.Host.Release.{lines_of}
use real_time_embedded_motio.Host.Release.Ticks.{host_input_tick_isr-Ticks}

abbrev pub IsShort : List ℕ → Type 0
IsShort line = length line ≤ 64

abbrev pub HasShort : HostInputEvent → Type 0
HasShort e = length e.line ≤ 64

All-split {ℓ κ} :
    {A : Type ℓ} (P : A → Type κ) (xs ys : List A) → All P (xs ++ ys) → All P xs × All P ys
All-split P [] ys h = (tt, h)
All-split P (x ∷ xs) ys (p, h) = let (a, b) = All-split P xs ys h in ((p, a), b)

All-append {ℓ κ} :
    {A : Type ℓ} (P : A → Type κ) (xs ys : List A) → All P xs → All P ys → All P (xs ++ ys)
All-append P [] ys a b = b
All-append P (x ∷ xs) ys (p, a) b = (p, All-append P xs ys a b)

All-take {ℓ κ} : {A : Type ℓ} (P : A → Type κ) (n : ℕ) (xs : List A) → All P xs → All P (take n xs)
All-take P zero xs h = tt
All-take P (suc n) [] h = tt
All-take P (suc n) (x ∷ xs) (p, h) = (p, All-take P n xs h)

All-lines_of : (es : List HostInputEvent) → All HasShort es → All IsShort (lines_of es)
unfolding lines_of
All-lines_of [] h = tt
All-lines_of (e ∷ es) (p, h) = (p, All-lines_of es h)

script_valid-HasShort :
    (period previous : ℕ) (es : List HostInputEvent)
    → script_valid period previous es ≡ true
    → All HasShort es
unfolding script_valid
script_valid-HasShort period previous [] h = tt
script_valid-HasShort period previous (e ∷ es) h =
    (ground (arith, h), script_valid-HasShort period e.at_ms es (ground (arith, h)))

module _ {Q : Type 0} ⦃q : Queue Q (List ℕ)⦄ where
  -- The calls that other code makes, in any order.
  pub data HostStep : HostInput Q → HostInput Q → Type 0 where
    ticked : (period tick : ℕ) (s : HostInput Q) → HostStep s (host_input_tick_isr period tick s)
    submitted : (line : List ℕ) (s : HostInput Q) → HostStep s (host_input_submit line s).0
    stopped : (s : HostInput Q) → HostStep s (host_input_stop s)
    read : (u : UartHost) (s : HostInput Q) → HostStep s (uart_try_read_line u s).0

  -- The states after an accepted initialization.
  pub data Reachable : HostInput Q → Type 0 where
    initialized :
        (period : ℕ) (events : List HostInputEvent) (u : UartHost) (s : HostInput Q)
        → (host_input_init period events u s).2 ≡ true
        → Reachable (host_input_init period events u s).1
    stepped : (s t : HostInput Q) → Reachable s → HostStep s t → Reachable t

module _ {Q : Type 0} ⦃q : Queue Q (List ℕ)⦄ (fifo : IsFifo Q (List ℕ)) where
  pub record AllShort (s : HostInput Q) : Type 0 where
    pub script_short : All HasShort s.script
    pub queue_short : All IsShort (fifo.contents s.rx_queue)

  init-AllShort :
      (period : ℕ) (events : List HostInputEvent) (u : UartHost) (s : HostInput Q)
      → (host_input_init period events u s).2 ≡ true
      → AllShort (host_input_init period events u s).1
  unfolding host_input_init
  init-AllShort period events u s h =
      let refused = ltb 32 (length events) || not (script_valid period 0 events) in
      let accepted : refused ≡ false = ground (arith, h) in
      let valid : script_valid period 0 events ≡ true = ground (arith, accepted) in
      rw accepted (record {
        script_short = script_valid-HasShort period 0 events valid;
        queue_short = rw (fifo.contents-create 16) tt;
      })

  tick-AllShort :
      (period tick : ℕ) (s : HostInput Q)
      → AllShort s
      → AllShort (host_input_tick_isr period tick s)
  unfolding host_input_tick_isr
  tick-AllShort period tick s a = elim (Bool-cases s.active) [
    | inl active ↦
        let t = host_input_tick_isr-Ticks fifo period tick s active in
        let (taken, left) = All-split HasShort t.taken _ (rw⁻¹ t.in_order a.script_short) in
        let stored : All IsShort t.stored =
          rw t.releases.stored_first
            (All-take IsShort _ (lines_of t.taken) (All-lines_of t.taken taken)) in
        record {
          script_short = left;
          queue_short =
              rw t.releases.contents_after (All-append IsShort _ t.stored a.queue_short stored);
        }
    | inr idle ↦ rw (if_true (not s.active) s _ (ap not idle)) a
  ]

  send-AllShort :
      (line : List ℕ) (s : HostInput Q)
      → IsShort line
      → All IsShort (fifo.contents s.rx_queue)
      → All IsShort (fifo.contents (q.send s.rx_queue line).0)
  send-AllShort line s h a = elim (Bool-cases (q.send s.rx_queue line).1) [
    | inl sent ↦
        rw (fifo.contents-send s.rx_queue line sent) (All-append IsShort _ (line ∷ []) a (h, tt))
    | inr lost ↦ rw (fifo.contents-send_full s.rx_queue line lost) a
  ]

  submit-AllShort :
      (line : List ℕ) (s : HostInput Q) → AllShort s → AllShort (host_input_submit line s).0
  unfolding host_input_submit
  submit-AllShort line s a = elim (Bool-cases (ltb 64 (length line))) [
    | inl long ↦ rw long a
    | inr short ↦
        let sent = send-AllShort line s (ground (arith, short)) a.queue_short in
        elim (Bool-cases s.active) [
          | inl active ↦
              rw (short, active) (record { script_short = a.script_short; queue_short = sent })
          | inr idle ↦
              rw (short, idle)
                (record { script_short = a.script_short; queue_short = a.queue_short })
        ]
  ]

  -- What a read leaves and answers.
  pub record ReadsShort (outcome : HostInput Q × (UartResult × Option (List ℕ))) : Type 0 where
    pub after_short : AllShort outcome.0
    pub never_too_long : outcome.1.0 ≢ UartResult.too_long

  received-ReadsShort :
      (items : List (List ℕ)) (u : UartHost) (s : HostInput Q)
      → u.stats.initialized ≡ true
      → u.bound ≡ true
      → fifo.contents s.rx_queue ≡ items
      → All HasShort s.script
      → All IsShort items
      → ReadsShort (uart_try_read_line u s)
  unfolding uart_try_read_line frame_result
  received-ReadsShort [] u s i b e script h =
      rw (i, b, fifo.receive_nil s.rx_queue e)
        (record {
          after_short = record { script_short = script; queue_short = rw e tt };
          never_too_long = λ x. cc;
        })
  received-ReadsShort (frame ∷ rest) u s i b e script (short, h) =
      let (queue, received, left, same) = fifo.receive_cons s.rx_queue frame rest e in
      let test : ltb 64 (length frame) ≡ false = ground (arith, short) in
      rw (i, b, received, test)
        (record {
          after_short = record { script_short = script; queue_short = rw left h };
          never_too_long = λ x. cc;
        })

  read-ReadsShort :
      (u : UartHost) (s : HostInput Q) → AllShort s → ReadsShort (uart_try_read_line u s)
  unfolding uart_try_read_line
  read-ReadsShort u s a = elim (Bool-cases u.stats.initialized) [
    | inr fresh ↦ rw fresh (record { after_short = a; never_too_long = λ x. cc })
    | inl ready ↦ elim (Bool-cases u.bound) [
      | inr free ↦ rw (ready, free) (record { after_short = a; never_too_long = λ x. cc })
      | inl bound ↦
          received-ReadsShort (fifo.contents s.rx_queue) u s ready bound refl a.script_short
            a.queue_short
    ]
  ]

  step-AllShort : (s t : HostInput Q) → HostStep s t → AllShort s → AllShort t
  unfolding host_input_stop
  step-AllShort s _ (ticked period tick _) a = tick-AllShort period tick s a
  step-AllShort s _ (submitted line _) a = submit-AllShort line s a
  step-AllShort s _ (stopped _) a = record {
    script_short = a.script_short;
    queue_short = a.queue_short;
  }
  step-AllShort s _ (read u _) a = (read-ReadsShort u s a).after_short

  Reachable-AllShort : (s : HostInput Q) → Reachable s → AllShort s
  Reachable-AllShort _ (initialized period events u s h) = init-AllShort period events u s h
  Reachable-AllShort t (stepped s _ r step) = step-AllShort s t step (Reachable-AllShort s r)

  -- After an accepted initialization and any ticks, submissions, reads and stops, in any order, a read
  -- never answers UART_TOO_LONG, and it leaves only frames of at most 64 bytes.
  pub Reachable-ReadsShort :
      (u : UartHost) (s : HostInput Q) → Reachable s → ReadsShort (uart_try_read_line u s)
  Reachable-ReadsShort u s r = read-ReadsShort u s (Reachable-AllShort s r)
