-- ===== src/Motion/Defs.antt =====
-- The state and the operations of motion_controller.c. The motor and the encoder are arguments and
-- results; a pointer that is NULL has no counterpart.
use real_time_embedded_motio.Base.{
  ◌+◌, Bool, true, false, not, ◌&&◌, ◌||◌, Option, none, some, if◌then◌else◌, ◌==◌, leb, u32,
  sub_u32, to_u32, ℤ, pos, negsuc, ltb_ℤ, leb_ℤ, ◌+ℤ◌, ◌-ℤ◌,
}
use real_time_embedded_motio.Float.{Float, nought, one, minus_one}
use real_time_embedded_motio.Application.{AppState, is_idle, is_moving, is_stopping}
use real_time_embedded_motio.Command.{CommandType, MotionCommand}
use real_time_embedded_motio.Drivers.Motor.{Motor, MotorResult, motor_disable, motor_set_output}
use real_time_embedded_motio.Drivers.Encoder.{Encoder, encoder_get_count, signed_bits}
use real_time_embedded_motio.Pid.{PidController, pid_init, pid_reset, pid_update}
use real_time_embedded_motio.Motion.Types.{
  MotionConfig, MotionResult, MotionSnapshot, MotionController, no_homing,
}

abbrev pub is_move : CommandType → Bool
is_move CommandType.move_abs = true
is_move CommandType.move_rel = true
is_move _ = false

abbrev pub is_relative : CommandType → Bool
is_relative CommandType.move_rel = true
is_relative _ = false

abbrev pub is_stop : CommandType → Bool
is_stop CommandType.stop = true
is_stop _ = false

abbrev pub motor_ok : MotorResult → Bool
motor_ok MotorResult.ok = true
motor_ok _ = false

-- The `int64_t target` of a move: the sum fits, so it is the exact integer.
unfoldable pub target_of : MotionCommand → ℤ → ℤ
target_of command position =
    if is_relative command.type then position +ℤ command.value else command.value

module _ {F : Type 0} ⦃f : Float F⦄ where
  abbrev pub motion_default_config : MotionConfig F
  motion_default_config = record {
    pid = record {
      kp = f.literal (pos 6) 3;
      ki = f.literal (pos 2) 4;
      kd = f.literal (pos 15) 4;
      output_min = f.neg (f.literal (pos 8) 1);
      output_max = f.literal (pos 8) 1;
      integral_min = f.neg (f.literal (pos 5) 3);
      integral_max = f.literal (pos 5) 3;
    };
    minimum = pos 0;
    maximum = pos 5000;
    tolerance = f.literal (pos 3) 0;
    completion_velocity = f.literal (pos 25) 0;
    dwell_cycles = 20;
  }

  -- A zeroed `motion_snapshot_t` in the state APP_IDLE.
  abbrev pub idle_snapshot : MotionSnapshot F
  idle_snapshot = record {
    state = AppState.idle;
    position = pos 0;
    target = pos 0;
    velocity = nought;
    error = nought;
    pid_output = nought;
    pwm = nought;
    stable_cycles = 0;
    completed_moves = 0;
    feedback_valid = false;
    homing = no_homing;
  }

  -- `fail`: the motor is disabled whether or not the controller is initialized.
  unfoldable pub fail : Motor F → MotionController F → Motor F × MotionController F
  fail motor m = (
    motor_disable motor,
    if m.initialized
        then record m {
          snapshot = record (m.snapshot) {
            state = AppState.idle;
            feedback_valid = false;
            pwm = nought;
            pid_output = nought;
            stable_cycles = 0;
          };
          sampled = false;
          pid = pid_reset m.pid;
        }
        else m,
  )

  unfoldable pub is_refused : MotionConfig F → Bool
  is_refused c =
      leb_ℤ c.maximum c.minimum
      || ltb_ℤ c.minimum (negsuc 999999)
      || ltb_ℤ (pos 1000000) c.maximum
      || not (f.is_finite c.tolerance)
      || f.lt c.tolerance nought
      || not (f.is_finite c.completion_velocity)
      || f.lt c.completion_velocity nought
      || c.dwell_cycles == 0
      || f.lt c.pid.output_min minus_one
      || f.lt nought c.pid.output_min
      || f.lt one c.pid.output_max
      || f.lt c.pid.output_max nought

  -- `none` is the C function's `false`, with the controller and the motor unchanged.
  unfoldable pub motion_init : Motor F → MotionConfig F → Option (Motor F × MotionController F)
  motion_init motor c = if is_refused c then none else elim (pid_init c.pid) [
    | none ↦ none
    | some pid ↦ some (
      motor_disable motor,
      record {
        config = c;
        pid = pid;
        snapshot = idle_snapshot;
        previous_count = pos 0;
        initialized = true;
        sampled = false;
      },
    )
  ]

  abbrev pub dt_refused : F → Bool
  dt_refused dt = not (f.is_finite dt) || f.le dt nought || f.lt one dt

  -- The block under `if (m->sampled)`: `none` is `return fail(m)`.
  unfoldable pub velocity_of : MotionController F → ℤ → F → Option F
  velocity_of m count dt =
      let bits = sub_u32 (to_u32 count) (to_u32 m.previous_count) in
      let velocity = f.div (f.of_int (signed_bits bits)) dt in
      if not m.sampled
      then some nought
      else if bits == 2147483648
      then none
      else if not (f.is_finite velocity)
      then none
      else some velocity

  unfoldable pub record_sample : MotionController F → ℤ → F → MotionController F
  record_sample m count velocity = record m {
    previous_count = count;
    sampled = true;
    snapshot = record (m.snapshot) {
      position = count;
      velocity = velocity;
      error = f.of_int (m.snapshot.target -ℤ count);
      feedback_valid = true;
    };
  }

  -- `motion_sample` after a successful read of the encoder.
  unfoldable pub sample_count :
      ℤ → F → Motor F → MotionController F → Bool × Motor F × MotionController F
  sample_count count dt motor m = elim (velocity_of m count dt) [
    | none ↦ let (motor', m') = fail motor m in (false, motor', m')
    | some velocity ↦ (true, motor, record_sample m count velocity)
  ]

  unfoldable pub motion_sample :
      Encoder → F → Motor F → MotionController F → Bool × Motor F × MotionController F
  motion_sample encoder dt motor m =
      if not m.initialized || dt_refused dt
      then (let (motor', m') = fail motor m in (false, motor', m'))
      else elim (encoder_get_count encoder) [
        | none ↦ let (motor', m') = fail motor m in (false, motor', m')
        | some count ↦ sample_count count dt motor m
      ]

  -- `motion_command` for CMD_STOP.
  unfoldable pub stop_motion : Motor F → MotionController F → Motor F × MotionController F
  stop_motion motor m = (
    motor_disable motor,
    record m {
      pid = pid_reset m.pid;
      snapshot = record (m.snapshot) {
        pwm = nought;
        pid_output = nought;
        state = if is_moving m.snapshot.state then AppState.stopping else m.snapshot.state;
        stable_cycles = if is_moving m.snapshot.state then 0 else m.snapshot.stable_cycles;
      };
    },
  )

  -- `motion_command` for an accepted move.
  unfoldable pub start_move : ℤ → MotionController F → MotionController F
  start_move target m = record m {
    pid = record (pid_reset m.pid) {
      previous_measurement = f.of_int m.snapshot.position;
      sampled = true;
    };
    snapshot = record (m.snapshot) {
      target = target;
      error = f.of_int (target -ℤ m.snapshot.position);
      state = AppState.moving;
      stable_cycles = 0;
      pid_output = nought;
      pwm = nought;
    };
  }

  unfoldable pub motion_command :
      MotionCommand → Motor F → MotionController F → MotionResult × Motor F × MotionController F
  motion_command command motor m =
      let target = target_of command m.snapshot.position in
      if not m.initialized || not m.snapshot.feedback_valid
      then (MotionResult.input_error, motor, m)
      else if is_stop command.type
      then (let (motor', m') = stop_motion motor m in (MotionResult.accepted, motor', m'))
      else if not (is_move command.type)
      then (MotionResult.not_implemented, motor, m)
      else if not (is_idle m.snapshot.state)
      then (MotionResult.invalid_state, motor, m)
      else if ltb_ℤ target m.config.minimum || ltb_ℤ m.config.maximum target
      then (MotionResult.out_of_range, motor, m)
      else (MotionResult.accepted, motor, start_move target m)

  -- `in_band` of `motion_update`.
  unfoldable pub in_band : MotionConfig F → MotionSnapshot F → Bool
  in_band c s =
      f.le (f.fabs s.velocity) c.completion_velocity
      && (is_stopping s.state || f.le (f.fabs s.error) c.tolerance)

  -- The statement under `if (s->state == APP_MOVING || s->state == APP_STOPPING)`.
  unfoldable pub settle : MotionController F → MotionController F
  settle m =
      let s = m.snapshot in
      let stable = if in_band m.config s then u32 (s.stable_cycles + 1) else 0 in
      if leb m.config.dwell_cycles stable
      then record m {
        pid = pid_reset m.pid;
        snapshot = record s {
          stable_cycles = stable;
          completed_moves =
              if is_moving s.state then u32 (s.completed_moves + 1) else s.completed_moves;
          state = AppState.idle;
        };
      }
      else record m { snapshot = record s { stable_cycles = stable } }

  -- The error, and the dwell count of a move or a stop.
  unfoldable pub track : MotionController F → MotionController F
  track m =
      let m' = record m {
        snapshot = record (m.snapshot) {
          error = f.of_int (m.snapshot.target -ℤ m.snapshot.position);
        };
      } in
      if is_moving m.snapshot.state || is_stopping m.snapshot.state then settle m' else m'

  -- The branch of a move, after `pid_update`: the motor gets its output.
  unfoldable pub apply_update :
      Option (PidController F × F)
      → Motor F
      → MotionController F
      → Bool × Motor F × MotionController F
  apply_update none motor m = let (motor', m') = fail motor m in (false, motor', m')
  apply_update (some (pid, output)) motor m =
      let moved = record m {
        pid = pid;
        snapshot = record (m.snapshot) { pid_output = output; pwm = output };
      } in
      let (motor', result) = motor_set_output motor output in
      let (motor'', failed) = fail motor' moved in
      if motor_ok result then (true, motor', moved) else (false, motor'', failed)

  unfoldable pub drive : F → Motor F → MotionController F → Bool × Motor F × MotionController F
  drive dt motor m =
      apply_update (pid_update m.pid (f.of_int m.snapshot.target) (f.of_int m.snapshot.position) dt)
        motor m

  -- The branch of any other state.
  unfoldable pub rest : Motor F → MotionController F → Motor F × MotionController F
  rest motor m = (
    motor_disable motor,
    record m { snapshot = record (m.snapshot) { pwm = nought; pid_output = nought } },
  )

  unfoldable pub motion_update :
      F → Motor F → MotionController F → Bool × Motor F × MotionController F
  motion_update dt motor m =
      let tracked = track m in
      if not m.initialized || not m.snapshot.feedback_valid || dt_refused dt
      then (let (motor', m') = fail motor m in (false, motor', m'))
      else if is_moving tracked.snapshot.state
      then drive dt motor tracked
      else (let (motor', m') = rest motor tracked in (true, motor', m'))
