-- ===== src/Drivers/Motor/Bounds.antt =====
-- What the gate of motor_host.c guarantees of the output.
use real_time_embedded_motio.Base.{◌≡◌, Bool, true, arith}
use real_time_embedded_motio.Float.{Float, nought, one, minus_one, IsOrdered}
use real_time_embedded_motio.Drivers.Motor.{
  Motor, saturate, motor_set_output, motor_disable, motor_safety_inhibit,
  motor_safety_block_negative,
}

module _ {F : Type 0} ⦃f : Float F⦄ where
  -- An inhibited motor has no output.
  pub record IsGated (m : Motor F) : Type 0 where
    pub inhibited_off : m.inhibited ≡ true → m.output ≡ nought

  pub motor_set_output-IsGated :
      (m : Motor F) (duty : F) → IsGated m → IsGated (motor_set_output m duty).0
  unfolding motor_set_output
  motor_set_output-IsGated m duty g = ground arith

  pub inhibited-motor_set_output :
      (m : Motor F) (duty : F) → (motor_set_output m duty).0.inhibited ≡ m.inhibited
  unfolding motor_set_output
  inhibited-motor_set_output m duty = ground arith

  pub block_negative-IsGated :
      (m : Motor F) (b : Bool) → IsGated m → IsGated (motor_safety_block_negative m b)
  unfolding motor_safety_block_negative
  block_negative-IsGated m b g = ground arith

  pub motor_disable-IsGated : (m : Motor F) → IsGated (motor_disable m)
  unfolding motor_disable
  motor_disable-IsGated m = ground arith

  pub motor_safety_inhibit-IsGated : (m : Motor F) (b : Bool) → IsGated (motor_safety_inhibit m b)
  unfolding motor_safety_inhibit
  motor_safety_inhibit-IsGated m b = ground arith

  module _ (laws : IsOrdered F) where
    open laws use {
      le_refl, le_of_lt, le_of_not_lt, le_trans, nought_finite, one_finite, minus_one_finite,
      minus_one-le-nought, nought-le-one,
    }

    pub record IsBounded (m : Motor F) : Type 0 where
      pub output_low : f.le minus_one m.output ≡ true
      pub output_high : f.le m.output one ≡ true
      pub requested_low : f.le minus_one m.requested ≡ true
      pub requested_high : f.le m.requested one ≡ true

    saturate_bounds :
        (duty : F)
        → f.is_finite duty ≡ true
        → (f.le minus_one (saturate duty).0 ≡ true) × (f.le (saturate duty).0 one ≡ true)
    unfolding saturate
    saturate_bounds duty h = ground (
      arith,
      le_refl one one_finite,
      le_refl minus_one minus_one_finite,
      le_trans minus_one nought one minus_one-le-nought nought-le-one,
      le_of_not_lt one duty one_finite h,
      le_of_not_lt duty minus_one h minus_one_finite,
    )

    -- `motor_set_output` keeps the output and the request within [-1, 1], whatever it is called
    -- with, NaN and infinities included.
    pub motor_set_output-IsBounded :
        (m : Motor F) (duty : F) → IsBounded m → IsBounded (motor_set_output m duty).0
    unfolding motor_set_output
    motor_set_output-IsBounded m duty b =
        ground (arith, saturate_bounds duty, minus_one-le-nought, nought-le-one)
