-- ===== src/Motion/Commands.antt =====
-- What a command does to the controller.
use real_time_embedded_motio.Base.{◌≡◌, ◌≢◌, true, arith, ◌≤ℤ◌}
use real_time_embedded_motio.Float.{Float, nought}
use real_time_embedded_motio.Application.{AppState, is_moving}
use real_time_embedded_motio.Command.{MotionCommand}
use real_time_embedded_motio.Drivers.Motor.{Motor}
use real_time_embedded_motio.Motion.Types.{MotionController, MotionResult}
use real_time_embedded_motio.Motion.Defs.{
  is_move, target_of, stop_motion, start_move, motion_command,
}

module _ {F : Type 0} ⦃f : Float F⦄ where
  -- A command that is not accepted leaves the motor and the controller as they were.
  pub motion_command_rejected :
      (c : MotionCommand) (motor : Motor F) (m : MotionController F)
      → (motion_command c motor m).0 ≢ MotionResult.accepted
      → ((motion_command c motor m).1 ≡ motor) × ((motion_command c motor m).2 ≡ m)
  unfolding motion_command
  motion_command_rejected c motor m h = ground arith

  -- A move is accepted exactly by an initialized controller with valid feedback, in IDLE, for a
  -- target within the travel. It then moves to that target, with PWM and dwell count 0, the motor
  -- as it was.
  pub motion_command_move :
      (c : MotionCommand) (motor : Motor F) (m : MotionController F)
      → is_move c.type ≡ true
      → let target = target_of c m.snapshot.position in
        let (result, motor', m') = motion_command c motor m in
        (result ≡ MotionResult.accepted
          → (m.initialized ≡ true)
            × (m.snapshot.feedback_valid ≡ true)
            × (m.snapshot.state ≡ AppState.idle)
            × (m.config.minimum ≤ℤ target)
            × (target ≤ℤ m.config.maximum)
            × (m'.snapshot.state ≡ AppState.moving)
            × (m'.snapshot.target ≡ target)
            × (m'.snapshot.pwm ≡ nought)
            × (m'.snapshot.stable_cycles ≡ 0)
            × (motor' ≡ motor))
        × (m.initialized ≡ true
            → m.snapshot.feedback_valid ≡ true
            → m.snapshot.state ≡ AppState.idle
            → m.config.minimum ≤ℤ target
            → target ≤ℤ m.config.maximum
            → result ≡ MotionResult.accepted)
  unfolding motion_command start_move
  motion_command_move c motor m h = ground arith

  -- A move in progress has its target within the travel.
  pub record InTravel (m : MotionController F) : Type 0 where
    pub above : is_moving m.snapshot.state ≡ true → m.config.minimum ≤ℤ m.snapshot.target
    pub below : is_moving m.snapshot.state ≡ true → m.snapshot.target ≤ℤ m.config.maximum

  pub motion_command-InTravel :
      (c : MotionCommand) (motor : Motor F) (m : MotionController F)
      → InTravel m
      → InTravel (motion_command c motor m).2
  unfolding motion_command start_move stop_motion
  motion_command-InTravel c motor m h = ground arith
