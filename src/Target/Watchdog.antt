-- ===== src/Target/Watchdog.antt =====
-- firmware/platform/stm32/peripherals.c: the independent watchdog. The registers that are written are
-- kept in order, and what the two status flags are at each of their reads is an argument.
use real_time_embedded_motio.Base.{
  ℕ, ◌+◌, ◌-◌, ◌*◌, ◌/◌, ◌≤◌, ◌<◌, ◌≡◌, Bool, true, false, not, ◌||◌, List, [], ◌∷◌, ◌++◌,
  if◌then◌else◌, ltb, ◌==◌,
}
use real_time_embedded_motio.Target.Uart.{wait_flag}

-- The registers of the peripheral, and the bit LSION of RCC->CSR.
pub data Register : Type 0 where
  key prescaler reload oscillator : Register

-- `watchdog_ready`, the writes, and the reads of a status flag so far.
pub record WatchdogDevice : Type 0 where
  pub ready : Bool
  pub writes : List (Register × ℕ)
  pub reads : ℕ

abbrev pub wait_limit : ℕ
wait_limit = 1000000

unfoldable pub reload_of : ℕ → ℕ
reload_of timeout_ms = (timeout_ms + 7) / 8 - 1

-- The writes before the second wait, and those after it.
unfoldable pub unlock_writes : ℕ → List (Register × ℕ)
unlock_writes timeout_ms =
    (Register.key, 21845) ∷ (Register.prescaler, 6) ∷ (Register.reload, reload_of timeout_ms) ∷ []

unfoldable pub start_writes : List (Register × ℕ)
start_writes = (Register.key, 43690) ∷ (Register.key, 52428) ∷ []

-- From the second wait on.
unfoldable pub start_device : (ℕ → Bool) → WatchdogDevice → WatchdogDevice × Bool
start_device settled d =
    let (done, reads) = wait_flag wait_limit settled d.reads in
    if done
    then (record { ready = true; writes = d.writes ++ start_writes; reads = reads }, true)
    else (record d { reads = reads }, false)

-- `oscillating` is LSIRDY, and `settled` that SR is 0.
unfoldable pub watchdog_init : (ℕ → Bool) → (ℕ → Bool) → ℕ → WatchdogDevice → WatchdogDevice × Bool
watchdog_init oscillating settled timeout_ms d =
    let (done, reads) = wait_flag wait_limit oscillating d.reads in
    let powered = d.writes ++ ((Register.oscillator, 1) ∷ []) in
    let unlocked = record d { writes = powered ++ unlock_writes timeout_ms; reads = reads } in
    if d.ready || ltb timeout_ms 8 || ltb 32768 timeout_ms
    then (d, false)
    else if not done
    then (record d { writes = powered; reads = reads }, false)
    else start_device settled unlocked

unfoldable pub watchdog_refresh : WatchdogDevice → WatchdogDevice × Bool
watchdog_refresh d =
    if d.ready
    then (record d { writes = d.writes ++ ((Register.key, 43690) ∷ []) }, true)
    else (d, false)

-- The watchdog counts at 125 Hz, 8 ms for each step, from the reload value to 0.
pub record Covers (timeout_ms : ℕ) : Type 0 where
  pub register_width : reload_of timeout_ms < 4096
  pub not_early : timeout_ms ≤ (reload_of timeout_ms + 1) * 8
  pub not_late : (reload_of timeout_ms + 1) * 8 < timeout_ms + 8

-- How often the start key 0xCCCC is among the writes.
abbrev start_of : ℕ → ℕ
start_of value = if value == 52428 then 1 else 0

pub starts_in : List (Register × ℕ) → ℕ
starts_in [] = 0
starts_in ((Register.key, value) ∷ rest) = start_of value + starts_in rest
starts_in ((Register.prescaler, value) ∷ rest) = starts_in rest
starts_in ((Register.reload, value) ∷ rest) = starts_in rest
starts_in ((Register.oscillator, value) ∷ rest) = starts_in rest

abbrev pub is_refused : ℕ → WatchdogDevice → Bool
is_refused timeout_ms d = d.ready || ltb timeout_ms 8 || ltb 32768 timeout_ms

-- The outcome of an initialization: started with a period that covers the timeout, or refused with the
-- device as ready as before and the start key not written.
pub record Starts (oscillating settled : ℕ → Bool) (timeout_ms : ℕ) (d e : WatchdogDevice)
    (accepted : Bool) : Type 0 where
  pub device_ready : e.ready ≡ (d.ready || accepted)
  pub covers : accepted ≡ true → Covers timeout_ms
  pub sequence :
      accepted ≡ true
      → e.writes
        ≡ ((d.writes ++ ((Register.oscillator, 1) ∷ [])) ++ unlock_writes timeout_ms)
          ++ start_writes
  pub started : starts_in e.writes ≡ starts_in d.writes + (if accepted then 1 else 0)
  pub refused : is_refused timeout_ms d ≡ true → (accepted ≡ false) × (e ≡ d)
  -- Both flags in time.
  pub accepts :
      (n k : ℕ)
      → is_refused timeout_ms d ≡ false
      → n < wait_limit
      → oscillating (d.reads + n) ≡ true
      → k < wait_limit
      → ((p : ℕ) → d.reads + k ≤ p → settled p ≡ true)
      → accepted ≡ true
