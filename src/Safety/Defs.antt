-- ===== src/Safety/Defs.antt =====
-- The state and the operations of safety_manager.c. `safety_evaluate` is the composition of the
-- functions `check_…` below, one for each group of its statements, in their order.
use real_time_embedded_motio.Base.{
  ℕ, ◌+◌, Bool, true, false, not, ◌&&◌, ◌||◌, if◌then◌else◌, ◌==◌, leb, sub_u32, ℤ, pos, pos_part,
  neg_part, ltb_ℤ, ◌-ℤ◌,
}
use real_time_embedded_motio.Float.{Float, nought}
use real_time_embedded_motio.Application.{
  AppState, is_idle, is_moving, is_stopping, is_homing, is_estop, is_fault,
}
use real_time_embedded_motio.Drivers.Gpio.{GpioInputs, no_inputs}
use real_time_embedded_motio.Fault.{
  FaultCode, FaultManager, no_record, is_none, fault_raise, fault_reset,
}
use real_time_embedded_motio.Motion.{MotionSnapshot}

-- `safety_manager_t`.
pub record SafetyManager (F : Type 0) : Type 0 where
  pub faults : FaultManager
  pub state : AppState
  pub inputs : GpioInputs
  pub inputs_valid : Bool
  pub healthy : Bool
  pub candidate : Bool
  pub encoder_recovery_required : Bool
  pub internal_active : Bool
  pub unhealthy_mask : ℕ
  pub candidate_ms : ℕ
  pub candidate_start_ms : ℕ
  pub detection_ms : ℕ
  pub zero_ms : ℕ
  pub startup_ms : ℕ
  pub watchdog_refreshes : ℕ
  pub aborted_moves : ℕ
  pub fault_position : ℤ
  pub requested_pwm : F
  pub applied_pwm : F
  pub requested_at_trip : F
  pub home_contact : Bool

abbrev pub safety_stall_timeout_ms : ℕ
safety_stall_timeout_ms = 500

abbrev pub safety_startup_grace_ms : ℕ
safety_startup_grace_ms = 200

abbrev pub is_latched : AppState → Bool
is_latched s = is_estop s || is_fault s

-- `llabs(a - b)`.
abbrev pub distance : ℤ → ℤ → ℕ
distance a b = pos_part (a -ℤ b) + neg_part (a -ℤ b)

module _ {F : Type 0} ⦃f : Float F⦄ where
  abbrev pub safety_stall_pwm : F
  safety_stall_pwm = f.literal (pos 3) 1

  abbrev pub safety_stall_velocity : F
  safety_stall_velocity = f.literal (pos 25) 0

  unfoldable pub safety_init : ℕ → SafetyManager F
  safety_init now = record {
    faults = record { active = no_record; history = no_record };
    state = AppState.idle;
    inputs = no_inputs;
    inputs_valid = false;
    healthy = false;
    candidate = false;
    encoder_recovery_required = false;
    internal_active = false;
    unhealthy_mask = 0;
    candidate_ms = 0;
    candidate_start_ms = 0;
    detection_ms = 0;
    zero_ms = 0;
    startup_ms = now;
    watchdog_refreshes = 0;
    aborted_moves = 0;
    fault_position = pos 0;
    requested_pwm = nought;
    applied_pwm = nought;
    requested_at_trip = nought;
    home_contact = false;
  }

  unfoldable pub trip : FaultCode → ℕ → ℕ → SafetyManager F → SafetyManager F
  trip code now source s = record s {
    home_contact = false;
    faults = fault_raise s.faults code now source;
    state = if is_latched s.state then s.state else AppState.fault;
    detection_ms = if is_latched s.state then s.detection_ms else now;
  }

  unfoldable pub safety_estop : ℕ → SafetyManager F → SafetyManager F
  safety_estop now s = record s {
    home_contact = false;
    detection_ms = if is_estop s.state then s.detection_ms else now;
    state = AppState.estop;
  }

  unfoldable pub safety_internal_fault : ℕ → SafetyManager F → SafetyManager F
  unfolding trip
  safety_internal_fault now s = trip FaultCode.internal now 0 (record s { internal_active = true })

  unfoldable pub safety_homing_timeout : ℕ → SafetyManager F → SafetyManager F
  unfolding trip
  safety_homing_timeout now s = trip FaultCode.homing_timeout now 0 s

  -- The first assignments, and `if (!valid)`.
  unfoldable pub check_valid : ℕ → GpioInputs → Bool → ℕ → SafetyManager F → SafetyManager F
  check_valid now inputs valid mask s =
      let read = record s {
        inputs = inputs;
        inputs_valid = valid;
        unhealthy_mask = mask;
        healthy = mask == 0;
      } in
      if valid then read else safety_internal_fault now read

  -- E-stop, the positive limit, and the release of the home switch.
  unfoldable pub check_estop : ℕ → GpioInputs → SafetyManager F → SafetyManager F
  check_estop now inputs s = if inputs.estop then safety_estop now s else s

  unfoldable pub check_positive : ℕ → GpioInputs → SafetyManager F → SafetyManager F
  check_positive now inputs s =
      if inputs.positive_limit then trip FaultCode.positive_limit now 0 s else s

  unfoldable pub check_release : GpioInputs → Bool → SafetyManager F → SafetyManager F
  check_release inputs valid s =
      if valid && not inputs.negative_limit then record s { home_contact = false } else s

  -- The locals `expected_home`, `departing` and `parked`.
  abbrev pub expected_home : MotionSnapshot F → SafetyManager F → Bool
  expected_home m s = is_homing m.state && is_idle s.state

  abbrev pub departing : MotionSnapshot F → F → Bool
  departing m pwm = is_moving m.state && ltb_ℤ m.position m.target && f.le nought pwm

  abbrev pub parked : MotionSnapshot F → F → Bool
  parked m pwm = (is_idle m.state || is_stopping m.state) && f.eq pwm nought

  -- The negative limit is a fault unless the axis was sent there and rests on it or leaves it.
  unfoldable pub check_negative :
      ℕ → GpioInputs → MotionSnapshot F → F → SafetyManager F → SafetyManager F
  check_negative now inputs m pwm s =
      if inputs.negative_limit
        && not (expected_home m s)
        && not (s.home_contact && (parked m pwm || departing m pwm))
      then trip FaultCode.negative_limit now 0 s
      else s

  unfoldable pub check_health : ℕ → ℕ → SafetyManager F → SafetyManager F
  check_health now mask s =
      if not s.healthy && leb safety_startup_grace_ms (sub_u32 now s.startup_ms)
      then trip FaultCode.watchdog now mask s
      else s

  unfoldable pub check_recovery : MotionSnapshot F → SafetyManager F → SafetyManager F
  check_recovery m s =
      if s.encoder_recovery_required
        && m.feedback_valid
        && leb 2 (distance m.position s.fault_position)
      then record s { encoder_recovery_required = false }
      else s

  -- `qualifying`: `expected` is the local `expected_home` from above.
  unfoldable pub is_qualifying : GpioInputs → MotionSnapshot F → F → Bool → SafetyManager F → Bool
  is_qualifying inputs m pwm expected s =
      is_idle s.state
      && (is_moving m.state || is_homing m.state)
      && not (expected && inputs.negative_limit)
      && m.feedback_valid
      && f.le safety_stall_pwm (f.fabs pwm)
      && f.le (f.fabs m.velocity) safety_stall_velocity

  -- The start and the age of a no-motion candidate.
  unfoldable pub time_candidate : ℕ → SafetyManager F → SafetyManager F
  time_candidate now s =
      let start = if s.candidate then s.candidate_start_ms else now in
      record s { candidate = true; candidate_start_ms = start; candidate_ms = sub_u32 now start }

  unfoldable pub check_stall :
      ℕ → GpioInputs → MotionSnapshot F → F → Bool → SafetyManager F → SafetyManager F
  check_stall now inputs m pwm expected s =
      let timed = time_candidate now s in
      if is_qualifying inputs m pwm expected s
      then (if leb safety_stall_timeout_ms timed.candidate_ms
          then trip FaultCode.no_motion_under_command now 0
              (record timed { encoder_recovery_required = true; fault_position = m.position })
          else timed)
      else record s { candidate = false; candidate_ms = 0 }

  -- The current hazards, of which any keeps the fault's condition active.
  abbrev pub has_hazard : GpioInputs → Bool → SafetyManager F → Bool
  has_hazard inputs valid s =
      not valid
      || inputs.positive_limit
      || inputs.negative_limit
      || not s.healthy
      || s.encoder_recovery_required
      || s.internal_active

  unfoldable pub check_condition : GpioInputs → Bool → SafetyManager F → SafetyManager F
  check_condition inputs valid s = record s {
    faults = record (s.faults) {
      active = record (s.faults.active) {
        condition_active = not (is_none s.faults.active.code) && has_hazard inputs valid s;
      };
    };
  }

  -- The statements up to the point where `expected_home` is computed.
  unfoldable pub check_inputs : ℕ → GpioInputs → Bool → ℕ → SafetyManager F → SafetyManager F
  check_inputs now inputs valid mask s =
      check_release inputs valid
        (check_positive now inputs (check_estop now inputs (check_valid now inputs valid mask s)))

  unfoldable pub safety_evaluate :
      ℕ → GpioInputs → Bool → MotionSnapshot F → F → ℕ → SafetyManager F → SafetyManager F
  safety_evaluate now inputs valid m pwm unhealthy_mask s =
      let read = check_inputs now inputs valid unhealthy_mask s in
      let expected = expected_home m read in
      check_condition inputs valid (
        check_stall now inputs m pwm expected (
          check_recovery m
            (check_health now unhealthy_mask (check_negative now inputs m pwm read))))

  abbrev pub is_hazardous : SafetyManager F → Bool
  is_hazardous s =
      not s.inputs_valid
      || s.inputs.estop
      || s.inputs.positive_limit
      || s.inputs.negative_limit
      || not s.healthy
      || s.encoder_recovery_required
      || s.internal_active

  -- The flag is the C function's result; on `false` the manager is unchanged.
  unfoldable pub safety_reset : SafetyManager F → SafetyManager F × Bool
  safety_reset s =
      if is_hazardous s
      then (s, false)
      else let (faults, done) = fault_reset s.faults in
        if done
        then (
          record s { faults = faults; state = AppState.idle; candidate = false; candidate_ms = 0 },
          true,
        )
        else (s, false)
