-- ===== src/Homing/Defs.antt =====
-- The operations of homing.c on a motion controller, the motor and the encoder.
use Prim.Native.String.{String}
use real_time_embedded_motio.Base.{
  ℕ, ◌+◌, Bool, true, false, not, ◌||◌, if◌then◌else◌, leb, u32, sub_u32, pos,
}
use real_time_embedded_motio.Float.{Float, nought}
use real_time_embedded_motio.Application.{AppState, is_idle, is_homing}
use real_time_embedded_motio.Drivers.Motor.{Motor, motor_disable, motor_set_output}
use real_time_embedded_motio.Drivers.Encoder.{Encoder, encoder_set_reference}
use real_time_embedded_motio.Drivers.Gpio.{GpioInputs}
use real_time_embedded_motio.Pid.{pid_reset}
use real_time_embedded_motio.Motion.{MotionController, MotionResult, HomingResult, motor_ok}

abbrev pub homing_timeout_ms : ℕ
homing_timeout_ms = 40000

abbrev pub is_running : HomingResult → Bool
is_running HomingResult.running = true
is_running _ = false

-- The default case is HOMING_FAULTED.
unfoldable pub homing_result_name : HomingResult → String
homing_result_name HomingResult.none = "NONE"
homing_result_name HomingResult.running = "RUNNING"
homing_result_name HomingResult.complete = "COMPLETE"
homing_result_name HomingResult.stopped = "STOPPED"
homing_result_name HomingResult.estopped = "ESTOPPED"
homing_result_name HomingResult.timeout = "TIMEOUT"
homing_result_name HomingResult.faulted = "FAULTED"

-- The result of `homing_update`, and the motor, the encoder and the controller after it.
abbrev pub HomingStep : Type 0 → Type 0
HomingStep F = Bool × Motor F × Encoder × MotionController F

module _ {F : Type 0} ⦃f : Float F⦄ where
  -- `HOMING_PWM`: -0.30f.
  abbrev pub homing_pwm : F
  homing_pwm = f.neg (f.literal (pos 30) 2)

  -- `clear_control` on the controller; its `motor_disable` stands in each caller.
  unfoldable pub clear_control : MotionController F → MotionController F
  clear_control m = record m {
    pid = pid_reset m.pid;
    snapshot = record (m.snapshot) {
      pwm = nought;
      pid_output = nought;
      error = nought;
      target = m.snapshot.position;
      stable_cycles = 0;
    };
  }

  -- The assignments of `homing_begin` after `clear_control`.
  unfoldable pub begin_homing : ℕ → MotionController F → MotionController F
  begin_homing now m = record m {
    snapshot = record (m.snapshot) {
      homing = record (m.snapshot.homing) {
        result = HomingResult.running;
        started_ms = now;
        elapsed_ms = 0;
        referenced = false;
      };
      state = AppState.homing;
    };
  }

  unfoldable pub homing_begin :
      ℕ → Motor F → MotionController F → MotionResult × Motor F × MotionController F
  homing_begin now motor m =
      if not m.initialized || not m.snapshot.feedback_valid
      then (MotionResult.input_error, motor, m)
      else if not (is_idle m.snapshot.state)
      then (MotionResult.invalid_state, motor, m)
      else (MotionResult.accepted, motor_disable motor, begin_homing now (clear_control m))

  unfoldable pub set_homing_result : HomingResult → MotionController F → MotionController F
  set_homing_result result m = record m {
    snapshot = record (m.snapshot) { homing = record (m.snapshot.homing) { result = result } };
  }

  unfoldable pub homing_abort :
      HomingResult → Motor F → MotionController F → Motor F × MotionController F
  homing_abort result motor m = (
    motor_disable motor,
    if is_running m.snapshot.homing.result
        then set_homing_result result (clear_control m)
        else clear_control m,
  )

  -- `m->data.homing.elapsed_ms = now - m->data.homing.started_ms`.
  unfoldable pub set_elapsed : ℕ → MotionController F → MotionController F
  set_elapsed now m = record m {
    snapshot = record (m.snapshot) {
      homing = record (m.snapshot.homing) { elapsed_ms = sub_u32 now m.snapshot.homing.started_ms };
    };
  }

  -- The assignments of `homing_update` once the reference is set.
  unfoldable pub complete_homing : MotionController F → MotionController F
  complete_homing m = record m {
    previous_count = pos 0;
    sampled = false;
    snapshot = record (m.snapshot) {
      position = pos 0;
      target = pos 0;
      velocity = nought;
      state = AppState.idle;
      homing = record (m.snapshot.homing) {
        result = HomingResult.complete;
        referenced = true;
        completed = u32 (m.snapshot.homing.completed + 1);
      };
    };
  }

  -- The block of the negative limit.
  unfoldable pub reach_limit : Motor F → Encoder → MotionController F → HomingStep F
  reach_limit motor encoder m =
      let cleared = clear_control m in
      let (encoder', done) = encoder_set_reference encoder (pos 0) in
      if done
      then (true, motor_disable motor, encoder', complete_homing cleared)
      else (false, motor_disable motor, encoder', cleared)

  -- The end of `homing_update`: the search goes on.
  unfoldable pub seek : Motor F → Encoder → MotionController F → HomingStep F
  seek motor encoder m =
      let (motor', result) = motor_set_output motor homing_pwm in
      (
        motor_ok result,
        motor',
        encoder,
        record m { snapshot = record (m.snapshot) { pwm = homing_pwm } },
      )

  unfoldable pub homing_update :
      GpioInputs → ℕ → Motor F → Encoder → MotionController F → HomingStep F
  homing_update inputs now motor encoder m =
      let timed = set_elapsed now m in
      let (stopped, aborted) = homing_abort HomingResult.timeout motor timed in
      if not m.initialized || not m.snapshot.feedback_valid || not (is_homing m.snapshot.state)
      then (false, motor, encoder, m)
      else if inputs.estop || inputs.positive_limit
      then (false, motor_disable motor, encoder, clear_control timed)
      else if leb homing_timeout_ms timed.snapshot.homing.elapsed_ms
      then (true, stopped, encoder, aborted)
      else if inputs.negative_limit
      then reach_limit motor encoder timed
      else seek motor encoder timed
