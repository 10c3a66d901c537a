-- ===== src/Examples/Control.antt =====
-- The theorems about the control path at concrete inputs.
use real_time_embedded_motio.Base.{
  ◌+◌, ◌≡◌, refl, true, false, [], ◌∷◌, ℤ, arith, some, pos, negsuc, ◌-ℤ◌, ◌+ℤ◌, u32, to_u32,
}
use real_time_embedded_motio.Float.{nought}
use real_time_embedded_motio.Float.Fixed.{Fixed, fixed_float, Fixed-IsOrdered}
use real_time_embedded_motio.Application.{AppState}
use real_time_embedded_motio.Drivers.Motor.{Motor, motor_set_output, motor_disable, saturate}
use real_time_embedded_motio.Drivers.Motor.Bounds.{IsBounded, motor_set_output-IsBounded}
use real_time_embedded_motio.Drivers.Encoder.{encoder_get_count, encoder_set_reference}
use real_time_embedded_motio.Drivers.Encoder.Reference.{encoder_get_count-set_reference}
use real_time_embedded_motio.Pid.{
  is_refused, pid_update, pid_reset, clamp, candidate_of, derivative_of, sum_of,
}
use real_time_embedded_motio.Pid.Bounds.{pid_update_bounds}
use real_time_embedded_motio.Motion.{
  MotionController, MotionResult, HomingResult, motion_command, motion_update, velocity_of,
  target_of, track, settle, in_band, drive, rest, apply_update,
}
use real_time_embedded_motio.Motion.Commands.{motion_command_move, motion_command_rejected}
use real_time_embedded_motio.Motion.Velocity.{velocity_of_lem}
use real_time_embedded_motio.Motion.Dwell.{
  Progress, Cycles, Cycles-Progress, IsUnsettled, trailing, observed, start, cycle,
}
use real_time_embedded_motio.Homing.{homing_update, homing_pwm}
use real_time_embedded_motio.Homing.Search.{IsNegativeDuty, homing_update_outcome}
use real_time_embedded_motio.Examples.{
  thousandths, running_motor, raw_encoder, home_inputs, default_pid, resting_at, moving_to,
  searching_at, move_command,
}

motor_set_output_example :
    IsBounded Fixed-IsOrdered (motor_set_output running_motor (thousandths 1500)).0
motor_set_output_example =
    motor_set_output-IsBounded Fixed-IsOrdered running_motor (thousandths 1500) (ground arith)

encoder_reference_example :
    let e = raw_encoder 4294967290 in
    let referenced = (encoder_set_reference e (pos 7)).0 in
    let moved = record referenced { raw_count = u32 (e.raw_count + to_u32 (pos 9)) } in
    (encoder_get_count referenced ≡ some (pos 7))
    × (encoder_get_count moved ≡ some (pos 7 +ℤ pos 9))
unfolding ◌+ℤ◌
encoder_reference_example =
    encoder_get_count-set_reference (raw_encoder 4294967290) (pos 7) (pos 9) refl (omega arith)
      (omega arith) (omega arith) (omega arith)

-- An output of 3000 * 0.006 and a small integral, clamped to 0.8.
pid_update_example :
    (fixed_float.le (fixed_float.neg (thousandths 800)) (thousandths 800) ≡ true)
    × (fixed_float.le (thousandths 800) (thousandths 800) ≡ true)
    × (fixed_float.le (fixed_float.neg (thousandths 5)) (thousandths 5) ≡ true)
    × (fixed_float.le (thousandths 5) (thousandths 5) ≡ true)
    × (default_pid.config ≡ default_pid.config)
    × (thousandths 0 ≡ thousandths 0)
unfolding pid_update is_refused clamp candidate_of derivative_of sum_of ◌+ℤ◌ ◌-ℤ◌
pid_update_example =
    pid_update_bounds Fixed-IsOrdered default_pid (thousandths 3000000) nought (thousandths 20) refl
      refl

velocity_example :
    velocity_of (resting_at (pos 100)) (pos 90) (thousandths 10) ≡ some (some (negsuc 999999))
unfolding velocity_of ◌-ℤ◌
velocity_example =
    velocity_of_lem (resting_at (pos 100)) (pos 90) (thousandths 10) refl (omega arith)
      (omega arith) (ground arith) (ground arith)

motion_rejected_example :
    let r = motion_command (move_command 6000) running_motor (resting_at (pos 100)) in
    (r.1 ≡ running_motor) × (r.2 ≡ resting_at (pos 100))
unfolding motion_command target_of
motion_rejected_example =
    motion_command_rejected (move_command 6000) running_motor (resting_at (pos 100)) cc

-- From 100 to 500, within the travel.
motion_move_example :
    (motion_command (move_command 500) running_motor (resting_at (pos 100))).0
    ≡ MotionResult.accepted
unfolding target_of
motion_move_example =
    (motion_command_move (move_command 500) running_motor (resting_at (pos 100)) refl).1 refl refl
      refl (omega arith) (omega arith)

homing_pwm-IsNegativeDuty : IsNegativeDuty (homing_pwm {F = Fixed})
homing_pwm-IsNegativeDuty = record {
  finite = refl;
  not_above = refl;
  not_below = refl;
  negative = refl;
}

-- 25 s into a search, on the switch at raw count 4294967000.
homing_complete_example :
    let r =
      homing_update home_inputs
        (u32 (1000 + 25000))
        running_motor
        (raw_encoder 4294967000)
        (searching_at (pos 40)) in
    (r.0 ≡ true)
    × (r.1.output ≡ nought)
    × (r.3.snapshot.homing.result ≡ HomingResult.complete)
    × (r.3.snapshot.homing.referenced ≡ true)
    × (r.3.snapshot.state ≡ AppState.idle)
    × (r.3.snapshot.position ≡ pos 0)
    × (r.3.snapshot.target ≡ pos 0)
    × (encoder_get_count r.2 ≡ some (pos 0))
homing_complete_example =
    (homing_update_outcome home_inputs 1000 25000 running_motor (raw_encoder 4294967000)
        (searching_at (pos 40))
        (record { ready = refl; valid = refl; searching = refl; running = refl }) (omega arith)
        (omega arith) refl refl (omega arith) homing_pwm-IsNegativeDuty).2
      refl (omega arith) refl

-- A controller on its target that dwells for two cycles.
abbrev on_target : MotionController Fixed
on_target =
    let m = moving_to (pos 500) (pos 500) in
    record m { config = record (m.config) { dwell_cycles = 2 } }

abbrev cycled : ℤ → MotionController Fixed → MotionController Fixed
cycled position m =
    (motion_update (thousandths 10) running_motor (observed m position (thousandths 0))).2

-- One cycle in the band, one out of it, and two in it.
abbrev excursion : MotionController Fixed
excursion = cycled (pos 900) (cycled (pos 500) on_target)

abbrev arrived : MotionController Fixed
arrived = cycled (pos 500) (cycled (pos 500) excursion)

abbrev excursion_motor : Motor Fixed
excursion_motor =
    (motion_update (thousandths 10) running_motor
      (observed (cycled (pos 500) on_target) (pos 900) (thousandths 0))).1

dwell_run : Cycles on_target (true ∷ true ∷ false ∷ true ∷ []) arrived
unfolding motion_update track settle in_band drive rest apply_update pid_update motor_set_output
    saturate motor_disable clamp candidate_of derivative_of sum_of pid_reset ◌+ℤ◌ ◌-ℤ◌
dwell_run =
    cycle (pos 500) (thousandths 0) (thousandths 10) running_motor running_motor
      (cycle (pos 500) (thousandths 0) (thousandths 10) running_motor _
        (cycle (pos 900) (thousandths 0) (thousandths 10) running_motor excursion_motor
          (cycle (pos 500) (thousandths 0) (thousandths 10) running_motor running_motor start refl)
          refl)
        refl)
      refl

dwell_run-IsUnsettled : IsUnsettled 2 (true ∷ true ∷ false ∷ true ∷ [])
unfolding IsUnsettled trailing
dwell_run-IsUnsettled = (omega arith, (omega arith, (omega arith, (omega arith, tt))))

dwell_example : Progress on_target (true ∷ true ∷ false ∷ true ∷ []) arrived
dwell_example =
    Cycles-Progress refl refl (omega arith) (omega arith) dwell_run dwell_run-IsUnsettled
