-- ===== src/Drivers/Motor.antt =====
-- firmware/drivers/motor.h and firmware/platform/host/motor_host.c: the gate of the motor's output.
pub mod Bounds
use real_time_embedded_motio.Base.{Bool, true, false, not, ◌&&◌, ◌||◌, if◌then◌else◌}
use real_time_embedded_motio.Float.{Float, nought, one, minus_one}

-- `motor_result_t`.
pub data MotorResult : Type 0 where
  ok clamped invalid not_initialized inhibited : MotorResult

-- The static variables of motor_host.c.
pub record Motor (F : Type 0) : Type 0 where
  pub initialized : Bool
  pub output : F
  pub requested : F
  pub inhibited : Bool
  pub negative_blocked : Bool

module _ {F : Type 0} ⦃f : Float F⦄ where
  unfoldable pub motor_init : Motor F
  motor_init = record {
    initialized = true;
    output = nought;
    requested = nought;
    inhibited = false;
    negative_blocked = false;
  }

  -- The saturation of a finite duty cycle to [-1, 1].
  unfoldable pub saturate : F → F × MotorResult
  saturate duty =
      if f.lt one duty
      then (one, MotorResult.clamped)
      else if f.lt duty minus_one
      then (minus_one, MotorResult.clamped)
      else (duty, MotorResult.ok)

  abbrev pub is_blocked : Motor F → F → Bool
  is_blocked m duty = m.inhibited || (m.negative_blocked && f.lt duty nought)

  unfoldable pub motor_set_output : Motor F → F → Motor F × MotorResult
  motor_set_output m duty_cycle =
      if not m.initialized
      then (m, MotorResult.not_initialized)
      else if not (f.is_finite duty_cycle)
      then (record m { output = nought; requested = nought }, MotorResult.invalid)
      else let (duty, result) = saturate duty_cycle in
        if is_blocked m duty
        then (record m { output = nought; requested = duty }, MotorResult.inhibited)
        else (record m { output = duty; requested = duty }, result)

  unfoldable pub motor_disable : Motor F → Motor F
  motor_disable m = record m { output = nought; requested = nought }

  unfoldable pub motor_safety_inhibit : Motor F → Bool → Motor F
  motor_safety_inhibit m inhibit = record m { output = nought; inhibited = inhibit }

  unfoldable pub motor_safety_block_negative : Motor F → Bool → Motor F
  motor_safety_block_negative m block = record m {
    output = if block && f.lt m.output nought then nought else m.output;
    negative_blocked = block;
  }
