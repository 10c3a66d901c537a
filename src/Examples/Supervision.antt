-- ===== src/Examples/Supervision.antt =====
-- The theorems about the safety supervision at concrete inputs.
use real_time_embedded_motio.Base.{◌+◌, ◌≡◌, refl, true, false, arith, pos, u32, if◌then◌else◌}
use real_time_embedded_motio.Float.Fixed.{Fixed, fixed_float}
use real_time_embedded_motio.Application.{AppState, is_estop}
use real_time_embedded_motio.Drivers.Gpio.{no_inputs}
use real_time_embedded_motio.Drivers.Motor.{motor_safety_inhibit}
use real_time_embedded_motio.Drivers.Watchdog.{watchdog_refresh}
use real_time_embedded_motio.Fault.{FaultCode, no_record}
use real_time_embedded_motio.Safety.{
  SafetyManager, safety_evaluate, safety_reset, safety_init, is_latched, check_stall, check_inputs,
  check_valid, check_estop, check_positive, check_release, check_negative, check_health,
  check_recovery, check_condition, is_qualifying,
}
use real_time_embedded_motio.Safety.Latch.{Escalates, safety_evaluate-Escalates}
use real_time_embedded_motio.Safety.Reset.{safety_reset-evaluate}
use real_time_embedded_motio.Safety.Stall.{check_stall_lem}
use real_time_embedded_motio.Safety.Hazards.{
  IsClear, safety_evaluate-IsClear, safety_evaluate_estop,
}
use real_time_embedded_motio.Runtime.{platform_time_ms, runtime_safety_command}
use real_time_embedded_motio.Runtime.Safe.{IsSafe}
use real_time_embedded_motio.Runtime.Safe.Commands.{runtime_safety_command-IsSafe}
use real_time_embedded_motio.Tasks.{safety_section}
use real_time_embedded_motio.Tasks.Init.{runtime_init}
use real_time_embedded_motio.Tasks.Feed.{all_fresh, safety_section-watchdog}
use real_time_embedded_motio.Examples.{
  thousandths, estop_inputs, home_inputs, resting_at, moving_to, calm, powered, move_command,
}

-- The first evaluation after the start, within the grace period.
first_evaluation_example :
    IsClear 100 no_inputs true (resting_at (pos 0)).snapshot (thousandths 0) 7 calm
unfolding safety_evaluate safety_init check_inputs check_valid check_estop check_positive
    check_release check_negative check_health check_recovery check_stall check_condition
    is_qualifying
first_evaluation_example =
    safety_evaluate-IsClear 100 no_inputs true (resting_at (pos 0)).snapshot (thousandths 0) 7 calm
      refl

safety_estop_example :
    is_estop
      (safety_evaluate 100 estop_inputs true
        (resting_at (pos 0)).snapshot
        (thousandths 0)
        7
        calm).state
    ≡ true
safety_estop_example =
    safety_evaluate_estop 100 estop_inputs true (resting_at (pos 0)).snapshot (thousandths 0) 7 calm
      refl

limit_evaluation_example : Escalates calm (
    safety_evaluate 300 home_inputs true
      (moving_to (pos 9) (pos 0)).snapshot
      (thousandths 500)
      0
      calm)
limit_evaluation_example =
    safety_evaluate-Escalates 300 home_inputs true (moving_to (pos 9) (pos 0)).snapshot
      (thousandths 500) 0 calm

-- A manager in FAULT, whose cause is gone.
abbrev faulted : SafetyManager Fixed
faulted = record (calm) {
  state = AppState.fault;
  faults = record {
    active = record {
      code = FaultCode.positive_limit;
      timestamp_ms = 50;
      source = 0;
      condition_active = true;
    };
    history = no_record;
  };
}

safety_reset_example :
    (safety_reset (
      safety_evaluate 300 no_inputs true (resting_at (pos 0)).snapshot (thousandths 0) 0 faulted)).1
    ≡ true
unfolding safety_evaluate safety_init check_inputs check_valid check_estop check_positive
    check_release check_negative check_health check_recovery check_stall check_condition
    is_qualifying
safety_reset_example =
    (safety_reset-evaluate 300 no_inputs true (resting_at (pos 0)).snapshot (thousandths 0) 0
      faulted).0

-- Driven with 0.5 since 400 ms before the clock wraps, without motion.
abbrev stalling : SafetyManager Fixed
stalling = record (calm) { candidate = true; candidate_start_ms = 4294966896 }

stall_example :
    let t =
      check_stall
        (u32 (4294966896 + 500))
        no_inputs
        (moving_to (pos 500) (pos 100)).snapshot
        (thousandths 500)
        false
        stalling in
    (is_latched t.state ≡ true)
    × (t.encoder_recovery_required ≡ true)
    × (t.fault_position ≡ pos 100)
    × (true ≡ true → t.faults.active.code ≡ FaultCode.no_motion_under_command)
unfolding is_qualifying safety_init
stall_example =
    (check_stall_lem 4294966896 500 no_inputs (moving_to (pos 500) (pos 100)).snapshot
        (thousandths 500) false stalling (omega arith) (omega arith)
        (record { pending = refl; started = refl })).1
      refl (omega arith)

watchdog_example : (safety_section powered).watchdog ≡ (
    if all_fresh (platform_time_ms powered) powered.runtime_data.health
    then (watchdog_refresh powered.watchdog (platform_time_ms powered)).0
    else powered.watchdog)
watchdog_example = safety_section-watchdog powered

-- The runtime before the scheduler starts.
initialized-IsSafe : IsSafe (runtime_init powered)
unfolding runtime_init motor_safety_inhibit
initialized-IsSafe = record { gated = λ h. refl; tripped = λ h. refl; unhealthy = λ h. refl }

runtime_command_example :
    IsSafe (runtime_safety_command (move_command 500) (runtime_init powered) (resting_at (pos 0))).1
runtime_command_example =
    runtime_safety_command-IsSafe (move_command 500) (runtime_init powered) (resting_at (pos 0))
      initialized-IsSafe
