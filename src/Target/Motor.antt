-- ===== src/Target/Motor.antt =====
-- firmware/platform/stm32/motor.c: the PWM driver, with the registers that it writes to drive the
-- motor. Clocks, pins and the timer's period are set once, by `motor_init`.
pub mod Refines
use real_time_embedded_motio.Base.{ℕ, Bool, true, false, not, ◌&&◌, ◌||◌, if◌then◌else◌, pos}
use real_time_embedded_motio.Float.{Float, nought, one, minus_one}
use real_time_embedded_motio.Drivers.Motor.{MotorResult}

-- The static variables; `channel` is TIM3->CCER, `duty` TIM3->CCR1, `forward` the pin PC0.
pub record Bridge (F : Type 0) : Type 0 where
  pub initialized : Bool
  pub inhibited : Bool
  pub negative_blocked : Bool
  pub requested : F
  pub output : F
  pub channel : Bool
  pub duty : ℕ
  pub forward : Bool

module _ {F : Type 0} ⦃f : Float F⦄ where
  -- The two saturating tests, one after the other.
  unfoldable pub limit_duty : F → F × MotorResult
  limit_duty duty =
      let (high, result) =
        if f.lt one duty then (one, MotorResult.clamped) else (duty, MotorResult.ok) in
      if f.lt high minus_one then (minus_one, MotorResult.clamped) else (high, result)

  abbrev pub is_gated : Bridge F → F → Bool
  is_gated m duty = m.inhibited || (m.negative_blocked && f.lt duty nought)

-- `truncate` is C's conversion of a float to `uint32_t`.
module _ {F : Type 0} ⦃f : Float F⦄ (truncate : F → ℕ) where
  unfoldable pub apply_output : Bridge F → Bridge F
  apply_output m =
      let driven = not (f.eq m.output nought) in
      record m {
        channel = driven;
        duty = if driven then truncate (f.mul (f.fabs m.output) (f.literal (pos 800) 0)) else 0;
        forward = not (f.lt m.output nought);
      }

  unfoldable pub apply_if_ready : Bridge F → Bridge F
  apply_if_ready m = if m.initialized then apply_output m else m

  unfoldable pub bridge_set_output : Bridge F → F → Bridge F × MotorResult
  bridge_set_output m duty =
      let (limited, result) = limit_duty duty in
      let off = record m { requested = nought; output = nought } in
      let closed = record m { requested = limited; output = nought } in
      let passed = record m { requested = limited; output = limited } in
      if not m.initialized
      then (m, MotorResult.not_initialized)
      else if not (f.is_finite duty)
      then (apply_output off, MotorResult.invalid)
      else if is_gated m limited
      then (apply_output closed, MotorResult.inhibited)
      else (apply_output passed, result)

  unfoldable pub bridge_disable : Bridge F → Bridge F
  bridge_disable m = apply_if_ready (record m { requested = nought; output = nought })

  unfoldable pub bridge_safety_inhibit : Bridge F → Bool → Bridge F
  bridge_safety_inhibit m inhibit =
      apply_if_ready (record m { inhibited = inhibit; output = nought })

  unfoldable pub bridge_safety_block_negative : Bridge F → Bool → Bridge F
  bridge_safety_block_negative m block =
      let blocked = record m { negative_blocked = block } in
      if block && f.lt m.output nought
      then apply_if_ready (record blocked { output = nought })
      else blocked
