-- ===== src/Health.antt =====
-- firmware/health/task_health.h and task_health.c: the heartbeat record of one task.
use real_time_embedded_motio.Base.{
  ℕ, ◌+◌, ◌<◌, ◌≡◌, Bool, true, false, ◌&&◌, arith, leb, u32, sub_u32,
}

-- `task_health_t`.
pub record TaskHealth : Type 0 where
  pub count : ℕ
  pub last_ms : ℕ
  pub seen : Bool

-- The record of a zeroed `runtime_data`.
abbrev pub unseen : TaskHealth
unseen = record { count = 0; last_ms = 0; seen = false }

unfoldable pub task_health_beat : TaskHealth → ℕ → TaskHealth
task_health_beat h now_ms = record { count = u32 (h.count + 1); last_ms = now_ms; seen = true }

unfoldable pub task_health_fresh : TaskHealth → ℕ → ℕ → Bool
task_health_fresh h now_ms maximum_age_ms = h.seen && leb (sub_u32 now_ms h.last_ms) maximum_age_ms

-- After a beat at time `t`, `d` milliseconds later (fewer than 2 ^ 32, the clock wrapping on the
-- way or not) the record is fresh exactly when `d` is at most the maximum age.
pub fresh-beat :
    (h : TaskHealth) (t d age : ℕ)
    → t < 4294967296
    → d < 4294967296
    → task_health_fresh (task_health_beat h t) (u32 (t + d)) age ≡ leb d age
unfolding task_health_fresh task_health_beat
fresh-beat h t d age ht hd = ground arith
