-- ===== src/Drivers/Timer.antt =====
-- firmware/drivers/timer.h and firmware/platform/host/timer_host.c: the millisecond clock.
use real_time_embedded_motio.Base.{
  ℕ, ◌+◌, Bool, true, false, ◌&&◌, ◌||◌, not, Option, none, some, if◌then◌else◌, ◌==◌, u32,
}

-- The static variables of timer_host.c. The function that `source` points to is outside the
-- driver: it is a function of the kernel's tick count.
pub record Timer : Type 0 where
  pub logical_ms : ℕ
  pub resolution : ℕ
  pub source : Option (ℕ → ℕ)
  pub initialized : Bool

unfoldable pub timer_init : Timer
timer_init = record { logical_ms = 0; resolution = 1; source = none; initialized = true }

read_source : Option (ℕ → ℕ) → ℕ → ℕ → ℕ
read_source none tick logical = logical
read_source (some clock) tick logical = clock tick

unfoldable pub timer_now_ms : Timer → ℕ → ℕ
unfolding read_source
timer_now_ms t tick = read_source t.source tick t.logical_ms

abbrev is_some : Option (ℕ → ℕ) → Bool
is_some none = false
is_some (some _) = true

unfoldable pub timer_host_set_source : Timer → Option (ℕ → ℕ) → ℕ → Timer × Bool
timer_host_set_source t clock_ms resolution_ms =
    if not t.initialized
      || not (is_some clock_ms)
      || resolution_ms == 0
      || not (t.logical_ms == 0)
      || is_some t.source
    then (t, false)
    else (record t { source = clock_ms; resolution = resolution_ms }, true)

unfoldable pub timer_host_advance_ms : Timer → ℕ → Timer × Bool
timer_host_advance_ms t milliseconds =
    if t.initialized && not (is_some t.source)
    then (record t { logical_ms = u32 (t.logical_ms + milliseconds) }, true)
    else (t, false)
