-- ===== src/Runtime/Gate.antt =====
-- firmware/rtos/safety_runtime.c, first part: the evaluation of the hazards, the gate of the motor,
-- and what a trip does to the motion controller. The callers hold the critical section.
use real_time_embedded_motio.Base.{
  ℕ, ◌+◌, ◌^◌, Bool, true, false, not, ◌&&◌, ◌||◌, Option, none, some, List, [], ◌∷◌, if◌then◌else◌,
  differ, ◌==◌, u32,
}
use real_time_embedded_motio.Float.{Float, nought}
use real_time_embedded_motio.Application.{
  AppState, is_idle, is_moving, is_stopping, is_homing, is_estop,
}
use real_time_embedded_motio.Health.{TaskHealth, task_health_fresh}
use real_time_embedded_motio.Drivers.Motor.{
  Motor, motor_safety_inhibit, motor_safety_block_negative,
}
use real_time_embedded_motio.Drivers.Encoder.{Encoder, encoder_get_count}
use real_time_embedded_motio.Drivers.Gpio.{GpioInputs, no_inputs, gpio_read_inputs}
use real_time_embedded_motio.Drivers.Timer.{timer_now_ms}
use real_time_embedded_motio.Motion.{MotionSnapshot, MotionController, HomingResult}
use real_time_embedded_motio.Homing.{homing_abort, set_elapsed}
use real_time_embedded_motio.Pid.{pid_reset}
use real_time_embedded_motio.Safety.{SafetyManager, safety_evaluate}
use real_time_embedded_motio.Runtime.Types.{Runtime, health_maximum_age_ms}

-- The bits `1U << i` of the tasks whose heartbeat is not fresh: the loop from task `i` on.
unfoldable pub stale_mask : ℕ → ℕ → List TaskHealth → ℕ
stale_mask now i [] = 0
stale_mask now i (h ∷ hs) =
    (if task_health_fresh h now health_maximum_age_ms then 0 else 2 ^ i) + stale_mask now (i + 1) hs

abbrev pub inputs_or_none : Option GpioInputs → GpioInputs
inputs_or_none none = no_inputs
inputs_or_none (some inputs) = inputs

abbrev pub is_read : Option GpioInputs → Bool
is_read none = false
is_read (some inputs) = true

abbrev pub is_active : AppState → Bool
is_active state = is_moving state || is_stopping state || is_homing state

module _ {F : Type 0} ⦃f : Float F⦄ where
  unfoldable pub platform_time_ms : Runtime F → ℕ
  platform_time_ms w = timer_now_ms w.timer w.tick

  abbrev pub set_safety : (SafetyManager F → SafetyManager F) → Runtime F → Runtime F
  set_safety g w = record w {
    runtime_data = record (w.runtime_data) { safety = g w.runtime_data.safety };
  }

  -- The locals `contact` and `unsafe` of `runtime_safety_enforce`.
  abbrev pub has_contact : SafetyManager F → Bool
  has_contact s = s.inputs_valid && s.inputs.negative_limit

  abbrev pub is_home_stop : SafetyManager F → AppState → Bool
  is_home_stop s state =
      has_contact s && (is_homing state || (s.home_contact && not (is_moving state)))

  unfoldable pub is_unsafe : SafetyManager F → AppState → Bool
  is_unsafe s state = not (is_idle s.state) || not s.healthy || is_home_stop s state

  -- The motor after `runtime_safety_enforce`.
  unfoldable pub gate_motor : Bool → Bool → Motor F → Motor F
  gate_motor block unsafe motor =
      let blocked = motor_safety_block_negative motor block in
      if differ unsafe blocked.inhibited then motor_safety_inhibit blocked unsafe else blocked

  -- The safety manager after it: `before` and `after` are the motor around the inhibit.
  unfoldable pub note_gate : ℕ → Bool → Motor F → Motor F → SafetyManager F → SafetyManager F
  note_gate now unsafe before after s = record s {
    requested_pwm = before.requested;
    requested_at_trip =
        if differ unsafe before.inhibited && unsafe then before.requested else s.requested_at_trip;
    applied_pwm = after.output;
    zero_ms = if not (is_idle s.state) && not (s.zero_ms == s.detection_ms) then now else s.zero_ms;
  }

  unfoldable pub runtime_safety_enforce : Runtime F → Runtime F
  runtime_safety_enforce w =
      let s = w.runtime_data.safety in
      let unsafe = is_unsafe s w.runtime_data.motion.state in
      let block = s.home_contact && has_contact s in
      let before = motor_safety_block_negative w.motor block in
      let after = gate_motor block unsafe w.motor in
      record w {
        motor = after;
        runtime_data = record (w.runtime_data) {
          safety = note_gate (platform_time_ms w) unsafe before after s;
          state = if is_idle s.state then w.runtime_data.state else s.state;
          motor_output = if is_idle s.state then w.runtime_data.motor_output else nought;
        };
      }

  -- `feedback`: the published motion with the encoder's present count.
  unfoldable pub feedback_of : Encoder → MotionSnapshot F → MotionSnapshot F
  feedback_of encoder m = elim (encoder_get_count encoder) [
    | none ↦ record m { feedback_valid = false }
    | some count ↦ record m { feedback_valid = true; position = count }
  ]

  -- `runtime_safety_evaluate` before its call of `runtime_safety_enforce`.
  unfoldable pub evaluate_inputs : Runtime F → Runtime F
  evaluate_inputs w =
      let read = gpio_read_inputs w.gpio in
      let now = platform_time_ms w in
      let mask = stale_mask now 0 w.runtime_data.health in
      let feedback = feedback_of w.encoder w.runtime_data.motion in
      record w {
        runtime_data = record (w.runtime_data) {
          safety =
              safety_evaluate now (inputs_or_none read) (is_read read) feedback w.motor.output mask
                w.runtime_data.safety;
          gpio = inputs_or_none read;
          gpio_valid = is_read read;
        };
      }

  unfoldable pub runtime_safety_evaluate : Runtime F → Runtime F
  runtime_safety_evaluate w = runtime_safety_enforce (evaluate_inputs w)

  abbrev pub count_aborted : SafetyManager F → SafetyManager F
  count_aborted s = record s { aborted_moves = u32 (s.aborted_moves + 1) }

  -- The assignments at the end of `runtime_safety_sync`, and those of an accepted RESET.
  unfoldable pub hold : AppState → MotionController F → MotionController F
  hold state m = record m {
    pid = pid_reset m.pid;
    snapshot = record (m.snapshot) {
      state = state;
      target = m.snapshot.position;
      pwm = nought;
      pid_output = nought;
      stable_cycles = 0;
    };
  }

  -- `runtime_safety_sync` in a tripped state: the motor is disabled by `homing_abort` alone.
  unfoldable pub abort_motion :
      AppState → Runtime F → MotionController F → Runtime F × MotionController F
  abort_motion state w m =
      let counted = if is_active m.snapshot.state then set_safety count_aborted w else w in
      let result = if is_estop state then HomingResult.estopped else HomingResult.faulted in
      let (motor, aborted) = homing_abort result w.motor (set_elapsed (platform_time_ms w) m) in
      if is_homing m.snapshot.state
      then (record counted { motor = motor }, hold state aborted)
      else (counted, hold state m)

  unfoldable pub runtime_safety_sync :
      Runtime F → MotionController F → Runtime F × MotionController F
  runtime_safety_sync w m =
      let state = w.runtime_data.safety.state in
      if is_idle state then (w, m) else abort_motion state w m
