-- ===== src/Runtime/Control.antt =====
-- firmware/rtos/safety_runtime.c, second part: the commands and the control cycle under the gate.
use real_time_embedded_motio.Base.{ℕ, Bool, true, false, not, ◌&&◌, ◌||◌, if◌then◌else◌, leb_ℤ}
use real_time_embedded_motio.Float.{Float}
use real_time_embedded_motio.Application.{AppState, is_idle, is_homing}
use real_time_embedded_motio.Command.{CommandType, MotionCommand}
use real_time_embedded_motio.Drivers.Motor.{motor_disable, motor_safety_inhibit}
use real_time_embedded_motio.Drivers.Gpio.{GpioInputs, gpio_read_inputs}
use real_time_embedded_motio.Motion.{
  MotionController, MotionResult, HomingResult, motion_command, motion_update, target_of, is_move,
  is_stop,
}
use real_time_embedded_motio.Homing.{homing_begin, homing_abort, homing_update, set_elapsed}
use real_time_embedded_motio.Safety.{safety_estop, safety_homing_timeout, safety_reset}
use real_time_embedded_motio.Runtime.Types.{Runtime}
use real_time_embedded_motio.Runtime.Gate.{
  platform_time_ms, set_safety, runtime_safety_enforce, runtime_safety_evaluate,
  runtime_safety_sync, hold, count_aborted, inputs_or_none, is_read,
}

abbrev pub is_estop_command : CommandType → Bool
is_estop_command CommandType.estop = true
is_estop_command _ = false

abbrev pub is_reset_command : CommandType → Bool
is_reset_command CommandType.reset = true
is_reset_command _ = false

abbrev pub is_home_command : CommandType → Bool
is_home_command CommandType.home = true
is_home_command _ = false

abbrev pub is_accepted : MotionResult → Bool
is_accepted MotionResult.accepted = true
is_accepted _ = false

abbrev pub is_timeout : HomingResult → Bool
is_timeout HomingResult.timeout = true
is_timeout _ = false

abbrev pub is_complete : HomingResult → Bool
is_complete HomingResult.complete = true
is_complete _ = false

abbrev pub stop_only : CommandType → MotionResult
stop_only t = if is_stop t then MotionResult.accepted else MotionResult.invalid_state

-- A command's result, and the runtime and the controller after it.
abbrev pub Outcome : Type 0 → Type 0
Outcome F = MotionResult × Runtime F × MotionController F

-- The result of a control cycle, and the runtime and the controller after it.
abbrev pub Cycle : Type 0 → Type 0
Cycle F = Bool × Runtime F × MotionController F

abbrev pub is_alarmed : GpioInputs → Bool
is_alarmed inputs = inputs.estop || inputs.positive_limit || inputs.negative_limit

module _ {F : Type 0} ⦃f : Float F⦄ where
  -- `runtime_data.motion = m->data`.
  abbrev pub publish : MotionController F → Runtime F → Runtime F
  publish m w = record w { runtime_data = record (w.runtime_data) { motion = m.snapshot } }

  unfoldable pub evaluate_and_sync : Runtime F → MotionController F → Runtime F × MotionController F
  evaluate_and_sync w m = runtime_safety_sync (runtime_safety_evaluate w) m

  unfoldable pub enforce_and_sync : Runtime F → MotionController F → Runtime F × MotionController F
  enforce_and_sync w m = runtime_safety_sync (runtime_safety_enforce w) m

  -- `runtime_safety_command` for CMD_ESTOP.
  unfoldable pub command_estop : Runtime F → MotionController F → Outcome F
  command_estop w m =
      let (w', m') = enforce_and_sync (set_safety (safety_estop (platform_time_ms w)) w) m in
      (MotionResult.accepted, w', m')

  -- `runtime_safety_command` for CMD_RESET.
  unfoldable pub command_reset : Runtime F → MotionController F → Outcome F
  command_reset w m =
      let evaluated = runtime_safety_evaluate w in
      let (s, done) = safety_reset evaluated.runtime_data.safety in
      if is_idle w.runtime_data.safety.state && not (is_idle m.snapshot.state)
      then (MotionResult.invalid_state, w, m)
      else if not done
      then (MotionResult.invalid_state, set_safety (λ _. s) evaluated, m)
      else (
        MotionResult.accepted,
        record (set_safety (λ _. s) evaluated) {
          motor = motor_safety_inhibit (motor_disable evaluated.motor) false;
        },
        hold AppState.idle m,
      )

  -- CMD_STOP while homing.
  unfoldable pub stop_homing : Runtime F → MotionController F → Outcome F
  stop_homing w m =
      let (motor, aborted) =
        homing_abort HomingResult.stopped w.motor (set_elapsed (platform_time_ms w) m) in
      let stopping = record aborted {
        snapshot = record (aborted.snapshot) { state = AppState.stopping };
      } in
      (
        MotionResult.accepted,
        publish stopping (set_safety count_aborted (record w { motor = motor })),
        stopping,
      )

  -- CMD_HOME.
  unfoldable pub command_home : Runtime F → MotionController F → Outcome F
  command_home w m =
      let (result, motor, m') = homing_begin (platform_time_ms w) w.motor m in
      let published = publish m' (record w { motor = motor }) in
      let (synced, held) = evaluate_and_sync published m' in
      if is_accepted result then (result, synced, held) else (result, published, m')

  -- The call of `motion_command`.
  unfoldable pub command_motion : MotionCommand → Runtime F → MotionController F → Outcome F
  command_motion command w m =
      let (result, motor, m') = motion_command command w.motor m in
      (result, record w { motor = motor }, m')

  -- A move away from the home switch.
  unfoldable pub command_departure : MotionCommand → Runtime F → MotionController F → Outcome F
  command_departure command w m =
      let (result, moved, m') = command_motion command w m in
      let (synced, held) = evaluate_and_sync (publish m' moved) m' in
      if leb_ℤ (target_of command m.snapshot.position) m.snapshot.position
      then (MotionResult.invalid_state, w, m)
      else (result, synced, held)

  -- `parked_home`: the one inhibited state in which a command still goes on.
  abbrev pub parked_home : Runtime F → MotionController F → Bool
  parked_home w m =
      is_idle w.runtime_data.safety.state
      && w.runtime_data.safety.healthy
      && w.runtime_data.safety.home_contact
      && is_idle m.snapshot.state

  abbrev pub is_closed : Runtime F → MotionController F → Bool
  is_closed w m =
      (not (is_idle w.runtime_data.safety.state) || w.motor.inhibited) && not (parked_home w m)

  -- `runtime_safety_command` past the gate.
  unfoldable pub command_open : MotionCommand → Runtime F → MotionController F → Outcome F
  command_open command w m =
      if is_home_command command.type
      then command_home w m
      else if is_homing m.snapshot.state
      then (MotionResult.invalid_state, w, m)
      else if w.runtime_data.safety.home_contact && is_move command.type
      then command_departure command w m
      else command_motion command w m

  unfoldable pub runtime_safety_command : MotionCommand → Runtime F → MotionController F → Outcome F
  runtime_safety_command command w m =
      if is_estop_command command.type
      then command_estop w m
      else if is_reset_command command.type
      then command_reset w m
      else if is_idle w.runtime_data.safety.state
          && is_homing m.snapshot.state
          && is_stop command.type
      then stop_homing w m
      else if is_closed w m
      then (stop_only command.type, w, m)
      else command_open command w m

  -- `runtime_control_update` outside homing.
  unfoldable pub update_motion : F → Runtime F → MotionController F → Cycle F
  update_motion dt w m =
      let (synced, held) = evaluate_and_sync (publish m w) m in
      let (start, m') = if w.runtime_data.safety.home_contact then (synced, held) else (w, m) in
      let (done, motor, moved) = motion_update dt start.motor m' in
      (done, record start { motor = motor }, moved)

  -- What follows a successful `homing_update`.
  unfoldable pub finish_homing : ℕ → Runtime F → MotionController F → Runtime F × MotionController F
  finish_homing now w m =
      let contact = set_safety (λ s. record s { home_contact = true }) w in
      if is_timeout m.snapshot.homing.result
      then enforce_and_sync (set_safety (safety_homing_timeout now) w) m
      else if is_complete m.snapshot.homing.result
      then (runtime_safety_evaluate (publish m contact), m)
      else (w, m)

  -- The call of `homing_update`.
  unfoldable pub search_home : GpioInputs → ℕ → Runtime F → MotionController F → Cycle F
  search_home inputs now w m =
      let (done, motor, encoder, m') = homing_update inputs now w.motor w.encoder m in
      let after = record w { motor = motor; encoder = encoder } in
      let (finished, held) = finish_homing now after m' in
      if done then (true, finished, held) else (false, after, m')

  -- After the evaluation that a limit, the E-stop or an unreadable input calls for.
  unfoldable pub search_if_idle : GpioInputs → ℕ → Runtime F → MotionController F → Cycle F
  search_if_idle inputs now w m =
      if not (is_idle w.runtime_data.safety.state) then (true, w, m) else search_home inputs now w m

  -- `runtime_control_update` while homing.
  unfoldable pub update_homing : ℕ → Runtime F → MotionController F → Cycle F
  update_homing now w m =
      let read = gpio_read_inputs w.gpio in
      let inputs = inputs_or_none read in
      let (synced, held) = evaluate_and_sync (publish m w) m in
      if not (is_read read) || is_alarmed inputs
      then search_if_idle inputs now synced held
      else search_home inputs now w m

  unfoldable pub runtime_control_update : F → ℕ → Runtime F → MotionController F → Cycle F
  runtime_control_update dt now w m =
      if not (is_homing m.snapshot.state) then update_motion dt w m else update_homing now w m
