-- ===== src/Drivers/Watchdog.antt =====
-- firmware/drivers/watchdog.h and firmware/platform/host/watchdog_host.c.
use real_time_embedded_motio.Base.{
  ℕ, ◌+◌, Bool, true, false, ◌||◌, if◌then◌else◌, ◌==◌, ltb, u32, int32_max,
}

-- `watchdog_host_state_t`.
pub record Watchdog : Type 0 where
  pub initialized : Bool
  pub timeout_ms : ℕ
  pub refresh_count : ℕ
  pub last_refresh_ms : ℕ

-- `resolution` and `now` are what `timer_resolution_ms` and `timer_now_ms` return.
unfoldable pub watchdog_init : Watchdog → ℕ → ℕ → ℕ → Watchdog × Bool
watchdog_init w timeout_ms resolution now =
    if timeout_ms == 0 || ltb int32_max timeout_ms || resolution == 0 then (w, false) else (
      record {
        initialized = true;
        timeout_ms = timeout_ms;
        refresh_count = 0;
        last_refresh_ms = now;
      },
      true,
    )

unfoldable pub watchdog_refresh : Watchdog → ℕ → Watchdog × Bool
watchdog_refresh w now =
    if w.initialized
    then (record w { refresh_count = u32 (w.refresh_count + 1); last_refresh_ms = now }, true)
    else (w, false)
