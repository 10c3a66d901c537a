-- ===== src/Runtime/Safe/Commands.antt =====
-- The commands and the control cycle keep the gate closed over a tripped or unhealthy controller.
use real_time_embedded_motio.Base.{ℕ, ◌≡◌, true, false, if_both, arith}
use real_time_embedded_motio.Float.{Float}
use real_time_embedded_motio.Application.{is_idle}
use real_time_embedded_motio.Command.{MotionCommand}
use real_time_embedded_motio.Drivers.Motor.{motor_safety_inhibit, motor_disable}
use real_time_embedded_motio.Drivers.Motor.Bounds.{IsGated}
use real_time_embedded_motio.Drivers.Gpio.{GpioInputs, gpio_read_inputs}
use real_time_embedded_motio.Fault.{fault_reset}
use real_time_embedded_motio.Motion.{MotionController}
use real_time_embedded_motio.Homing.{homing_begin, homing_abort, homing_update}
use real_time_embedded_motio.Safety.{SafetyManager, safety_reset}
use real_time_embedded_motio.Runtime.Types.{Runtime}
use real_time_embedded_motio.Runtime.Gate.{
  runtime_safety_enforce, runtime_safety_evaluate, platform_time_ms, inputs_or_none,
}
use real_time_embedded_motio.Runtime.Control.{
  Outcome, Cycle, publish, evaluate_and_sync, enforce_and_sync, command_estop, command_reset,
  stop_homing, command_home, command_motion, command_departure, command_open,
  runtime_safety_command, update_motion, finish_homing, search_home, search_if_idle, update_homing,
  runtime_control_update,
}
use real_time_embedded_motio.Runtime.Safe.{IsSafe, enforce-IsSafe, evaluate-IsSafe, sync-IsSafe}
use real_time_embedded_motio.Runtime.Safe.Motors.{
  motion_command-Keeps, motion_update-Keeps, homing_begin-Keeps, homing_update-Keeps,
}

module _ {F : Type 0} ⦃f : Float F⦄ where
  motor-IsGated : {w : Runtime F} → IsSafe w → IsGated w.motor
  motor-IsGated s = record { inhibited_off = s.gated }

  evaluate_and_sync-IsSafe :
      (w : Runtime F) (m : MotionController F) → IsGated w.motor → IsSafe (evaluate_and_sync w m).0
  unfolding evaluate_and_sync
  evaluate_and_sync-IsSafe w m g = sync-IsSafe (runtime_safety_evaluate w) m (evaluate-IsSafe w g)

  enforce_and_sync-IsSafe :
      (w : Runtime F) (m : MotionController F) → IsGated w.motor → IsSafe (enforce_and_sync w m).0
  unfolding enforce_and_sync
  enforce_and_sync-IsSafe w m g = sync-IsSafe (runtime_safety_enforce w) m (enforce-IsSafe w g)

  -- What a successful `safety_reset` has checked and set.
  pub safety_reset_lem :
      (s : SafetyManager F)
      → (safety_reset s).1 ≡ true
      → (is_idle (safety_reset s).0.state ≡ true) × ((safety_reset s).0.healthy ≡ true)
  unfolding safety_reset fault_reset
  safety_reset_lem s h = ground arith

  pub safety_reset_refused :
      (s : SafetyManager F) → (safety_reset s).1 ≡ false → (safety_reset s).0 ≡ s
  unfolding safety_reset fault_reset
  safety_reset_refused s h = ground arith

  command_estop-IsSafe :
      (w : Runtime F) (m : MotionController F) → IsSafe w → IsSafe (command_estop w m).1
  unfolding command_estop
  command_estop-IsSafe w m s = enforce_and_sync-IsSafe _ m (motor-IsGated s)

  command_reset-IsSafe :
      (w : Runtime F) (m : MotionController F) → IsSafe w → IsSafe (command_reset w m).1
  unfolding command_reset motor_safety_inhibit motor_disable
  command_reset-IsSafe w m s =
      let evaluated = runtime_safety_evaluate w in
      ground (
        arith,
        evaluate-IsSafe w (motor-IsGated s),
        safety_reset_lem evaluated.runtime_data.safety,
        safety_reset_refused evaluated.runtime_data.safety,
      )

  stop_homing-IsSafe :
      (w : Runtime F) (m : MotionController F) → IsSafe w → IsSafe (stop_homing w m).1
  unfolding stop_homing homing_abort motor_disable
  stop_homing-IsSafe w m s = ground arith

  command_home-IsSafe :
      (w : Runtime F) (m : MotionController F) → IsSafe w → IsSafe (command_home w m).1
  unfolding command_home
  command_home-IsSafe w m s =
      let (result, motor, m') = homing_begin (platform_time_ms w) w.motor m in
      ground (
        arith,
        homing_begin-Keeps (platform_time_ms w) w.motor m,
        evaluate_and_sync-IsSafe (publish m' (record w { motor = motor })) m',
      )

  command_motion-IsSafe :
      (c : MotionCommand) (w : Runtime F) (m : MotionController F)
      → IsSafe w
      → IsSafe (command_motion c w m).1
  unfolding command_motion
  command_motion-IsSafe c w m s = ground (arith, motion_command-Keeps c w.motor m)

  command_departure-IsSafe :
      (c : MotionCommand) (w : Runtime F) (m : MotionController F)
      → IsSafe w
      → IsSafe (command_departure c w m).1
  unfolding command_departure
  command_departure-IsSafe c w m s =
      let (result, moved, m') = command_motion c w m in
      let gated = motor-IsGated (command_motion-IsSafe c w m s) in
      if_both (λ (o : Outcome F). IsSafe o.1) _ s
        (evaluate_and_sync-IsSafe (publish m' moved) m' gated)

  command_open-IsSafe :
      (c : MotionCommand) (w : Runtime F) (m : MotionController F)
      → IsSafe w
      → IsSafe (command_open c w m).1
  unfolding command_open
  command_open-IsSafe c w m s = ground (
    arith,
    command_home-IsSafe w m s,
    command_departure-IsSafe c w m s,
    command_motion-IsSafe c w m s,
  )

  -- Every command, in every state, keeps the gate.
  pub runtime_safety_command-IsSafe :
      (c : MotionCommand) (w : Runtime F) (m : MotionController F)
      → IsSafe w
      → IsSafe (runtime_safety_command c w m).1
  unfolding runtime_safety_command
  runtime_safety_command-IsSafe c w m s = ground (
    arith,
    command_estop-IsSafe w m s,
    command_reset-IsSafe w m s,
    stop_homing-IsSafe w m s,
    command_open-IsSafe c w m s,
  )

  update_motion-IsSafe :
      (dt : F) (w : Runtime F) (m : MotionController F) → IsSafe w → IsSafe (update_motion dt w m).1
  unfolding update_motion
  update_motion-IsSafe dt w m s =
      let (synced, held) = evaluate_and_sync (publish m w) m in
      ground (
        arith,
        evaluate_and_sync-IsSafe (publish m w) m (motor-IsGated s),
        motion_update-Keeps dt synced.motor held,
        motion_update-Keeps dt w.motor m,
      )

  finish_homing-IsSafe :
      (now : ℕ) (w : Runtime F) (m : MotionController F)
      → IsSafe w
      → IsSafe (finish_homing now w m).0
  unfolding finish_homing
  finish_homing-IsSafe now w m s =
      let P = λ (o : Runtime F × MotionController F). IsSafe o.0 in
      if_both P _ (enforce_and_sync-IsSafe _ m (motor-IsGated s))
        (if_both P _ (evaluate-IsSafe _ (motor-IsGated s)) s)

  search_home-IsSafe :
      (i : GpioInputs) (now : ℕ) (w : Runtime F) (m : MotionController F)
      → IsSafe w
      → IsSafe (search_home i now w m).1
  unfolding search_home
  search_home-IsSafe i now w m s =
      let (done, motor, encoder, m') = homing_update i now w.motor w.encoder m in
      ground (
        arith,
        homing_update-Keeps i now w.motor w.encoder m,
        finish_homing-IsSafe now (record w { motor = motor; encoder = encoder }) m',
      )

  search_if_idle-IsSafe :
      (i : GpioInputs) (now : ℕ) (w : Runtime F) (m : MotionController F)
      → IsSafe w
      → IsSafe (search_if_idle i now w m).1
  unfolding search_if_idle
  search_if_idle-IsSafe i now w m s = ground (arith, search_home-IsSafe i now w m s)

  update_homing-IsSafe :
      (now : ℕ) (w : Runtime F) (m : MotionController F)
      → IsSafe w
      → IsSafe (update_homing now w m).1
  unfolding update_homing
  update_homing-IsSafe now w m s =
      let inputs = inputs_or_none (gpio_read_inputs w.gpio) in
      let (synced, held) = evaluate_and_sync (publish m w) m in
      let safe = evaluate_and_sync-IsSafe (publish m w) m (motor-IsGated s) in
      if_both (λ (o : Cycle F). IsSafe o.1) _ (search_if_idle-IsSafe inputs now synced held safe)
        (search_home-IsSafe inputs now w m s)

  -- Every control cycle, while homing and otherwise, keeps the gate.
  pub runtime_control_update-IsSafe :
      (dt : F) (now : ℕ) (w : Runtime F) (m : MotionController F)
      → IsSafe w
      → IsSafe (runtime_control_update dt now w m).1
  unfolding runtime_control_update
  runtime_control_update-IsSafe dt now w m s =
      ground (arith, update_motion-IsSafe dt w m s, update_homing-IsSafe now w m s)
