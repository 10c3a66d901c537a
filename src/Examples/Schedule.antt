-- ===== src/Examples/Schedule.antt =====
-- A schedule in which the E-stop is pressed and then the safety task runs.
use real_time_embedded_motio.Tasks.Stepping.{
  Stepping, step, cycle, is_other, hand_over, runtime_step, run_requests, runtime_step-one_owner,
}
use real_time_embedded_motio.Base.{◌≡◌, inl, refl, true, false, none, [], ◌∷◌, arith, pos}
use real_time_embedded_motio.Float.{nought}
use real_time_embedded_motio.Float.Fixed.{Fixed, fixed_float}
use real_time_embedded_motio.Application.{AppState}
use real_time_embedded_motio.Command.{MotionCommand}
use real_time_embedded_motio.Queue.Bounded.{Bounded, bounded_queue}
use real_time_embedded_motio.Bus.{command_bus_init}
use real_time_embedded_motio.Diagnostics.{Diagnostic, diagnostics_init}
use real_time_embedded_motio.Runtime.{
  runtime_safety_evaluate, runtime_safety_enforce, note_gate, evaluate_inputs, feedback_of,
  stale_mask, platform_time_ms,
}
use real_time_embedded_motio.Health.{task_health_fresh}
use real_time_embedded_motio.Drivers.Timer.{timer_now_ms}
use real_time_embedded_motio.Drivers.Gpio.{gpio_read_inputs}
use real_time_embedded_motio.Drivers.Watchdog.{watchdog_refresh}
use real_time_embedded_motio.Safety.{
  safety_evaluate, check_condition, check_stall, check_estop, check_health, check_inputs,
  check_negative, check_positive, check_recovery, check_release, check_valid, is_qualifying,
  safety_estop, safety_internal_fault, trip, safety_init,
}
use real_time_embedded_motio.Tasks.{System, TaskId, safety_step, safety_section}
use real_time_embedded_motio.Tasks.Init.{runtime_init}
use real_time_embedded_motio.Tasks.Interleaving.{Reach, here, next, supervise, environment}
use real_time_embedded_motio.Tasks.Interleaving.Gate.{Reach-motor_off}
use real_time_embedded_motio.Tasks.Interleaving.Permanent.{Reach-IsDown_for_good}
use real_time_embedded_motio.Runtime.Permanent.{IsDown}
use real_time_embedded_motio.Runtime.{runtime_safety_sync, abort_motion}
use real_time_embedded_motio.Tasks.{sampled_step, sampled_section}
use real_time_embedded_motio.Tasks.Interleaving.{sampled}
use real_time_embedded_motio.Examples.{estop_inputs, raw_encoder, resting_at, powered}

abbrev Model : Type 0
Model = System Fixed (Bounded MotionCommand) (Bounded Diagnostic)

abbrev started : Model
started = record {
  runtime = runtime_init powered;
  commands = command_bus_init;
  diagnostics = diagnostics_init;
  app = record { state = AppState.idle; last_transition_ms = 0 };
  motion = resting_at (pos 0);
}

abbrev pressed : Model
pressed = record started {
  runtime = record (started.runtime) {
    encoder = raw_encoder 3;
    gpio = record { initialized = true; state = estop_inputs };
    timer = powered.timer;
    tick = 40;
  };
}

abbrev stopped : Model
stopped = safety_step pressed

schedule : Reach started stopped
schedule =
    next
      (next here (
        environment (raw_encoder 3) (record { initialized = true; state = estop_inputs })
          powered.timer 40 started))
      (supervise pressed)

motor_off_example :
    (stopped.runtime.motor.inhibited ≡ true) × (stopped.runtime.motor.output ≡ nought)
unfolding safety_step safety_section runtime_safety_evaluate runtime_safety_enforce note_gate
    evaluate_inputs safety_evaluate check_condition check_stall check_estop check_health
    check_inputs check_negative check_positive check_recovery check_release check_valid
    is_qualifying safety_estop safety_internal_fault gpio_read_inputs trip runtime_init feedback_of
    watchdog_refresh stale_mask task_health_fresh platform_time_ms timer_now_ms safety_init
motor_off_example = Reach-motor_off started stopped powered refl schedule (inl refl)

-- A failed sample latches the internal fault, and the safety task runs afterwards.
abbrev broken : Model
broken = sampled_step false AppState.idle 5 started

broken-IsDown : IsDown broken.runtime.runtime_data.safety
unfolding sampled_step sampled_section runtime_safety_sync runtime_safety_enforce note_gate
    safety_internal_fault trip runtime_init abort_motion safety_init
broken-IsDown = record { internal = refl; latched = refl }

permanent_fault_example :
    IsDown (safety_step broken).runtime.runtime_data.safety
    × ((safety_step broken).runtime.motor.inhibited ≡ true)
    × ((safety_step broken).runtime.motor.output ≡ nought)
permanent_fault_example =
    Reach-IsDown_for_good started broken (safety_step broken) powered refl
      (next here (sampled false AppState.idle 5 started)) broken-IsDown
      (next here (supervise broken))

abbrev stepped : Stepping
stepped = record { stepped_motion = true; stopping = false; step_owner = none; given = [] }

stepping_example :
    let after =
      run_requests
        (cycle ∷ step TaskId.safety 7 1 ∷ [])
        (runtime_step TaskId.motion 7 1 stepped).0 in
    runtime_step TaskId.safety 9 1 after ≡ (after, false)
unfolding runtime_step hand_over is_other
stepping_example =
    runtime_step-one_owner TaskId.motion 7 1 stepped (cycle ∷ step TaskId.safety 7 1 ∷ []) refl
      TaskId.safety 9 1 (λ e. omega (arith, e))
