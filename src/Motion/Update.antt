-- ===== src/Motion/Update.antt =====
-- What one control update leaves: in the motor, in the published PWM, and in the dwell count.
use real_time_embedded_motio.Base.{◌≡◌, true, false, Bool}
use real_time_embedded_motio.Float.{Float, nought}
use real_time_embedded_motio.Application.{is_moving}
use real_time_embedded_motio.Drivers.Motor.{Motor}
use real_time_embedded_motio.Motion.Types.{MotionController}

module _ {F : Type 0} ⦃f : Float F⦄ where
  -- What the motor and the published PWM are after an update with the given result.
  pub record Agrees (done : Bool) (motor : Motor F) (m : MotionController F) : Type 0 where
    pub failed_off : done ≡ false → motor.output ≡ nought
    pub resting_off : is_moving m.snapshot.state ≡ false → motor.output ≡ nought
    pub resting_pwm : done ≡ true → is_moving m.snapshot.state ≡ false → m.snapshot.pwm ≡ nought
    pub driven_as_published :
        done ≡ true → is_moving m.snapshot.state ≡ true → motor.output ≡ m.snapshot.pwm
