-- ===== src/Runtime/Permanent.antt =====
-- An internal fault is permanent: no operation of safety_runtime.c leaves the latched state again.
use real_time_embedded_motio.Base.{ℕ, ◌≡◌, true, false, if_both, arith}
use real_time_embedded_motio.Float.{Float}
use real_time_embedded_motio.Command.{MotionCommand}
use real_time_embedded_motio.Drivers.Gpio.{GpioInputs, gpio_read_inputs}
use real_time_embedded_motio.Motion.{MotionController}
use real_time_embedded_motio.Homing.{homing_begin, homing_update}
use real_time_embedded_motio.Safety.{
  SafetyManager, is_latched, safety_reset, safety_estop, safety_homing_timeout,
  safety_internal_fault, trip,
}
use real_time_embedded_motio.Safety.Latch.{safety_evaluate-Escalates}
use real_time_embedded_motio.Safety.Reset.{safety_evaluate-Reading}
use real_time_embedded_motio.Runtime.Types.{Runtime}
use real_time_embedded_motio.Runtime.Gate.{
  runtime_safety_enforce, runtime_safety_evaluate, runtime_safety_sync, evaluate_inputs, note_gate,
  abort_motion, platform_time_ms, inputs_or_none, is_read, feedback_of, stale_mask, set_safety,
}
use real_time_embedded_motio.Runtime.Control.{
  Outcome, publish, evaluate_and_sync, enforce_and_sync, command_estop, command_reset, stop_homing,
  command_home, command_motion, command_departure, command_open, runtime_safety_command,
  update_motion, finish_homing, search_home, search_if_idle, update_homing, runtime_control_update,
}

module _ {F : Type 0} ⦃f : Float F⦄ where
  -- The internal fault is latched, and the state is FAULT or ESTOP.
  pub record IsDown (s : SafetyManager F) : Type 0 where
    pub internal : s.internal_active ≡ true
    pub latched : is_latched s.state ≡ true

  abbrev pub IsDownRuntime : Runtime F → Type 0
  IsDownRuntime w = IsDown w.runtime_data.safety

  pub internal_fault-IsDown : (now : ℕ) (s : SafetyManager F) → IsDown (safety_internal_fault now s)
  unfolding safety_internal_fault trip
  internal_fault-IsDown now s = ground arith

  pub enforce-IsDown : (w : Runtime F) → IsDownRuntime w → IsDownRuntime (runtime_safety_enforce w)
  unfolding runtime_safety_enforce note_gate
  enforce-IsDown w h = ground arith

  inputs-IsDown : (w : Runtime F) → IsDownRuntime w → IsDownRuntime (evaluate_inputs w)
  unfolding evaluate_inputs
  inputs-IsDown w h =
      let now = platform_time_ms w in
      let read = gpio_read_inputs w.gpio in
      let seen = feedback_of w.encoder w.runtime_data.motion in
      let mask = stale_mask now 0 w.runtime_data.health in
      let s = w.runtime_data.safety in
      let (reading, condition) =
        safety_evaluate-Reading now (inputs_or_none read) (is_read read) seen w.motor.output mask
          s in
      ground (
        arith,
        reading.internal_latched,
        safety_evaluate-Escalates now (inputs_or_none read) (is_read read) seen w.motor.output mask
            s,
      )

  pub evaluate-IsDown :
      (w : Runtime F) → IsDownRuntime w → IsDownRuntime (runtime_safety_evaluate w)
  unfolding runtime_safety_evaluate
  evaluate-IsDown w h = enforce-IsDown (evaluate_inputs w) (inputs-IsDown w h)

  pub sync-IsDown :
      (w : Runtime F) (m : MotionController F)
      → IsDownRuntime w
      → IsDownRuntime (runtime_safety_sync w m).0
  unfolding runtime_safety_sync abort_motion
  sync-IsDown w m h = ground arith

  evaluate_and_sync-IsDown :
      (w : Runtime F) (m : MotionController F)
      → IsDownRuntime w
      → IsDownRuntime (evaluate_and_sync w m).0
  unfolding evaluate_and_sync
  evaluate_and_sync-IsDown w m h = sync-IsDown (runtime_safety_evaluate w) m (evaluate-IsDown w h)

  enforce_and_sync-IsDown :
      (w : Runtime F) (m : MotionController F)
      → IsDownRuntime w
      → IsDownRuntime (enforce_and_sync w m).0
  unfolding enforce_and_sync
  enforce_and_sync-IsDown w m h = sync-IsDown (runtime_safety_enforce w) m (enforce-IsDown w h)

  estop-IsDown : (now : ℕ) (s : SafetyManager F) → IsDown s → IsDown (safety_estop now s)
  unfolding safety_estop
  estop-IsDown now s h = ground arith

  timeout-IsDown : (now : ℕ) (s : SafetyManager F) → IsDown s → IsDown (safety_homing_timeout now s)
  unfolding safety_homing_timeout trip
  timeout-IsDown now s h = ground arith

  reset-IsDown :
      (s : SafetyManager F) → IsDown s → IsDown (safety_reset s).0 × ((safety_reset s).1 ≡ false)
  unfolding safety_reset
  reset-IsDown s h = ground arith

  command_reset-IsDown :
      (w : Runtime F) (m : MotionController F)
      → IsDownRuntime w
      → IsDownRuntime (command_reset w m).1
  unfolding command_reset
  command_reset-IsDown w m h =
      let evaluated = runtime_safety_evaluate w in
      ground (arith, reset-IsDown evaluated.runtime_data.safety (evaluate-IsDown w h))

  command_home-IsDown :
      (w : Runtime F) (m : MotionController F)
      → IsDownRuntime w
      → IsDownRuntime (command_home w m).1
  unfolding command_home
  command_home-IsDown w m h =
      let (result, motor, m') = homing_begin (platform_time_ms w) w.motor m in
      ground (arith, evaluate_and_sync-IsDown (publish m' (record w { motor = motor })) m')

  command_departure-IsDown :
      (c : MotionCommand) (w : Runtime F) (m : MotionController F)
      → IsDownRuntime w
      → IsDownRuntime (command_departure c w m).1
  unfolding command_departure command_motion
  command_departure-IsDown c w m h =
      let (result, moved, m') = command_motion c w m in
      if_both (λ (o : Outcome F). IsDownRuntime o.1) _ h
        (evaluate_and_sync-IsDown (publish m' moved) m'
          (record { internal = h.internal; latched = h.latched }))

  command_open-IsDown :
      (c : MotionCommand) (w : Runtime F) (m : MotionController F)
      → IsDownRuntime w
      → IsDownRuntime (command_open c w m).1
  unfolding command_open command_motion
  command_open-IsDown c w m h =
      ground (arith, command_home-IsDown w m h, command_departure-IsDown c w m h)

  command_estop-IsDown :
      (w : Runtime F) (m : MotionController F)
      → IsDownRuntime w
      → IsDownRuntime (command_estop w m).1
  unfolding command_estop
  command_estop-IsDown w m h =
      enforce_and_sync-IsDown _ m (estop-IsDown (platform_time_ms w) w.runtime_data.safety h)

  pub command-IsDown :
      (c : MotionCommand) (w : Runtime F) (m : MotionController F)
      → IsDownRuntime w
      → IsDownRuntime (runtime_safety_command c w m).1
  unfolding runtime_safety_command stop_homing
  command-IsDown c w m h =
      ground
        (arith, command_estop-IsDown w m h, command_reset-IsDown w m h, command_open-IsDown c w m h)

  finish_homing-IsDown :
      (now : ℕ) (w : Runtime F) (m : MotionController F)
      → IsDownRuntime w
      → IsDownRuntime (finish_homing now w m).0
  unfolding finish_homing
  finish_homing-IsDown now w m h =
      let contact = set_safety (λ s. record s { home_contact = true }) w in
      ground (
        arith,
        enforce_and_sync-IsDown (set_safety (safety_homing_timeout now) w) m
            (timeout-IsDown now w.runtime_data.safety h),
        evaluate-IsDown (publish m contact),
      )

  search_home-IsDown :
      (i : GpioInputs) (now : ℕ) (w : Runtime F) (m : MotionController F)
      → IsDownRuntime w
      → IsDownRuntime (search_home i now w m).1
  unfolding search_home
  search_home-IsDown i now w m h =
      let (done, motor, encoder, m') = homing_update i now w.motor w.encoder m in
      ground (arith, finish_homing-IsDown now (record w { motor = motor; encoder = encoder }) m')

  update_homing-IsDown :
      (now : ℕ) (w : Runtime F) (m : MotionController F)
      → IsDownRuntime w
      → IsDownRuntime (update_homing now w m).1
  unfolding update_homing search_if_idle
  update_homing-IsDown now w m h =
      let inputs = inputs_or_none (gpio_read_inputs w.gpio) in
      let (synced, held) = evaluate_and_sync (publish m w) m in
      let later = evaluate_and_sync-IsDown (publish m w) m h in
      ground (
        arith,
        later,
        search_home-IsDown inputs now w m h,
        search_home-IsDown inputs now synced held later,
      )

  update_motion-IsDown :
      (dt : F) (w : Runtime F) (m : MotionController F)
      → IsDownRuntime w
      → IsDownRuntime (update_motion dt w m).1
  unfolding update_motion
  update_motion-IsDown dt w m h = ground (arith, evaluate_and_sync-IsDown (publish m w) m h)

  pub control-IsDown :
      (dt : F) (now : ℕ) (w : Runtime F) (m : MotionController F)
      → IsDownRuntime w
      → IsDownRuntime (runtime_control_update dt now w m).1
  unfolding runtime_control_update
  control-IsDown dt now w m h =
      ground (arith, update_motion-IsDown dt w m h, update_homing-IsDown now w m h)
