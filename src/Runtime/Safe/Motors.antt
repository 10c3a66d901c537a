-- ===== src/Runtime/Safe/Motors.antt =====
-- What the controllers do to the motor: they leave the inhibit alone and never drive through it.
use real_time_embedded_motio.Base.{ℕ, ◌≡◌, Option, none, some, arith}
use real_time_embedded_motio.Float.{Float}
use real_time_embedded_motio.Command.{MotionCommand}
use real_time_embedded_motio.Drivers.Motor.{Motor, motor_disable, motor_set_output}
use real_time_embedded_motio.Drivers.Motor.Bounds.{
  IsGated, motor_set_output-IsGated, inhibited-motor_set_output,
}
use real_time_embedded_motio.Drivers.Encoder.{Encoder}
use real_time_embedded_motio.Drivers.Gpio.{GpioInputs}
use real_time_embedded_motio.Pid.{PidController}
use real_time_embedded_motio.Motion.{
  MotionController, fail, sample_count, motion_sample, stop_motion, motion_command, track,
  apply_update, drive, rest, motion_update,
}
use real_time_embedded_motio.Homing.{
  homing_begin, homing_abort, homing_pwm, reach_limit, seek, homing_update,
}

module _ {F : Type 0} ⦃f : Float F⦄ where
  pub record Keeps (before after : Motor F) : Type 0 where
    pub same_inhibit : after.inhibited ≡ before.inhibited
    pub still_gated : IsGated before → IsGated after

  pub motor_disable-Keeps : (m : Motor F) → Keeps m (motor_disable m)
  unfolding motor_disable
  motor_disable-Keeps m = ground arith

  motor_set_output-Keeps : (m : Motor F) (duty : F) → Keeps m (motor_set_output m duty).0
  motor_set_output-Keeps m duty = record {
    same_inhibit = inhibited-motor_set_output m duty;
    still_gated = motor_set_output-IsGated m duty;
  }

  pub motion_sample-Keeps :
      (e : Encoder) (dt : F) (motor : Motor F) (m : MotionController F)
      → Keeps motor (motion_sample e dt motor m).1
  unfolding motion_sample sample_count fail
  motion_sample-Keeps e dt motor m = ground (arith, motor_disable-Keeps motor)

  pub motion_command-Keeps :
      (c : MotionCommand) (motor : Motor F) (m : MotionController F)
      → Keeps motor (motion_command c motor m).1
  unfolding motion_command stop_motion
  motion_command-Keeps c motor m = ground (arith, motor_disable-Keeps motor)

  apply_update-Keeps :
      (o : Option (PidController F × F)) (motor : Motor F) (m : MotionController F)
      → Keeps motor (apply_update o motor m).1
  unfolding apply_update fail
  apply_update-Keeps none motor m = motor_disable-Keeps motor
  apply_update-Keeps (some (pid, output)) motor m = ground (
    arith,
    motor_set_output-Keeps motor output,
    motor_disable-Keeps (motor_set_output motor output).0,
  )

  drive-Keeps :
      (dt : F) (motor : Motor F) (m : MotionController F) → Keeps motor (drive dt motor m).1
  unfolding drive
  drive-Keeps dt motor m = apply_update-Keeps _ motor m

  pub motion_update-Keeps :
      (dt : F) (motor : Motor F) (m : MotionController F) → Keeps motor (motion_update dt motor m).1
  unfolding motion_update rest fail
  motion_update-Keeps dt motor m =
      ground (arith, motor_disable-Keeps motor, drive-Keeps dt motor (track m))

  pub homing_begin-Keeps :
      (now : ℕ) (motor : Motor F) (m : MotionController F)
      → Keeps motor (homing_begin now motor m).1
  unfolding homing_begin
  homing_begin-Keeps now motor m = ground (arith, motor_disable-Keeps motor)

  pub homing_update-Keeps :
      (i : GpioInputs) (now : ℕ) (motor : Motor F) (e : Encoder) (m : MotionController F)
      → Keeps motor (homing_update i now motor e m).1
  unfolding homing_update reach_limit seek homing_abort
  homing_update-Keeps i now motor e m =
      ground (arith, motor_disable-Keeps motor, motor_set_output-Keeps motor homing_pwm)
