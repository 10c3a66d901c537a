-- ===== src/Tasks/Feed.antt =====
-- When the safety task feeds the watchdog.
use real_time_embedded_motio.Base.{
  ℕ, zero, suc, ◌+◌, ◌*◌, ◌^◌, ◌≡◌, ◌∙◌, ◌<◌, refl, Bool, true, ◌&&◌, List, [], ◌∷◌, if◌then◌else◌,
  ◌==◌, arith,
}
use native.Mathlib.Numerals.{unary_clauses}
use real_time_embedded_motio.Float.{Float}
use real_time_embedded_motio.Health.{TaskHealth, task_health_fresh}
use real_time_embedded_motio.Drivers.Watchdog.{watchdog_refresh}
use real_time_embedded_motio.Safety.Reset.{safety_evaluate-Reading}
use real_time_embedded_motio.Runtime.{
  Runtime, stale_mask, platform_time_ms, runtime_safety_enforce, note_gate, evaluate_inputs,
  runtime_safety_evaluate, inputs_or_none, is_read, feedback_of,
}
use real_time_embedded_motio.Drivers.Gpio.{gpio_read_inputs}
use real_time_embedded_motio.Tasks.Safety.{safety_section}

-- Every task has beaten within the last 150 ms.
unfoldable pub all_fresh : ℕ → List TaskHealth → Bool
all_fresh now [] = true
all_fresh now (h ∷ hs) = task_health_fresh h now 150 && all_fresh now hs

power_positive : (n : ℕ) → 0 < 2 ^ n
power_positive zero = omega arith
power_positive (suc n) =
    let step : 2 ^ suc n ≡ 2 ^ n * 2 = simp unary_clauses refl in
    omega (arith, step, power_positive n)

no_bit-all_fresh :
    (now i : ℕ) (hs : List TaskHealth) → (stale_mask now i hs == 0) ≡ all_fresh now hs
unfolding stale_mask all_fresh
no_bit-all_fresh now i [] = refl
no_bit-all_fresh now i (h ∷ hs) = ground (arith, power_positive i, no_bit-all_fresh now (i + 1) hs)

module _ {F : Type 0} ⦃f : Float F⦄ where
  healthy_lem :
      (w : Runtime F)
      → (runtime_safety_evaluate w).runtime_data.safety.healthy
        ≡ all_fresh (platform_time_ms w) w.runtime_data.health
  unfolding runtime_safety_evaluate runtime_safety_enforce evaluate_inputs note_gate
  healthy_lem w =
      let now = platform_time_ms w in
      let read = gpio_read_inputs w.gpio in
      let (reading, condition) =
        safety_evaluate-Reading now (inputs_or_none read) (is_read read)
          (feedback_of w.encoder w.runtime_data.motion) w.motor.output
          (stale_mask now 0 w.runtime_data.health) w.runtime_data.safety in
      reading.healthy_read ∙ no_bit-all_fresh now 0 w.runtime_data.health

  -- A cycle of the safety task refreshes the watchdog at the present time if each task's heartbeat
  -- is fresh, and leaves it unchanged if one is stale.
  pub safety_section-watchdog :
      (w : Runtime F)
      → (safety_section w).watchdog ≡ (
          if all_fresh (platform_time_ms w) w.runtime_data.health
          then (watchdog_refresh w.watchdog (platform_time_ms w)).0
          else w.watchdog)
  unfolding safety_section watchdog_refresh runtime_safety_evaluate runtime_safety_enforce
      evaluate_inputs platform_time_ms
  safety_section-watchdog w = ground (arith, healthy_lem w)
