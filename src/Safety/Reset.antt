-- ===== src/Safety/Reset.antt =====
-- When a reset succeeds, and what it leaves.
use real_time_embedded_motio.Base.{ℕ, ◌≡◌, Bool, true, false, not, ◌&&◌, ◌||◌, arith, ◌==◌}
use real_time_embedded_motio.Float.{Float}
use real_time_embedded_motio.Application.{AppState}
use real_time_embedded_motio.Drivers.Gpio.{GpioInputs}
use real_time_embedded_motio.Fault.{no_record, is_none, fault_reset}
use real_time_embedded_motio.Motion.{MotionSnapshot}
use real_time_embedded_motio.Safety.Defs.{
  SafetyManager, trip, safety_estop, safety_internal_fault, check_valid, check_estop,
  check_positive, check_release, check_negative, check_health, check_recovery, time_candidate,
  check_stall, check_condition, check_inputs, safety_evaluate, is_hazardous, safety_reset,
  expected_home,
}

module _ {F : Type 0} ⦃f : Float F⦄ where
  -- What the later statements of an evaluation leave alone.
  record SameReading (s t : SafetyManager F) : Type 0 where
    inputs_same : t.inputs ≡ s.inputs
    valid_same : t.inputs_valid ≡ s.inputs_valid
    healthy_same : t.healthy ≡ s.healthy
    internal_same : t.internal_active ≡ s.internal_active

  SameReading-trans :
      {s t u : SafetyManager F} → SameReading s t → SameReading t u → SameReading s u
  SameReading-trans a b = ground arith

  check_negative-SameReading :
      (now : ℕ) (i : GpioInputs) (m : MotionSnapshot F) (pwm : F) (s : SafetyManager F)
      → SameReading s (check_negative now i m pwm s)
  unfolding check_negative trip
  check_negative-SameReading now i m pwm s = ground arith

  check_health-SameReading :
      (now mask : ℕ) (s : SafetyManager F) → SameReading s (check_health now mask s)
  unfolding check_health trip
  check_health-SameReading now mask s = ground arith

  check_recovery-SameReading :
      (m : MotionSnapshot F) (s : SafetyManager F) → SameReading s (check_recovery m s)
  unfolding check_recovery
  check_recovery-SameReading m s = ground arith

  check_stall-SameReading :
      (now : ℕ) (i : GpioInputs) (m : MotionSnapshot F) (pwm : F) (e : Bool) (s : SafetyManager F)
      → SameReading s (check_stall now i m pwm e s)
  unfolding check_stall time_candidate trip
  check_stall-SameReading now i m pwm e s = ground arith

  -- The reading and the internal latch after an evaluation.
  pub record Reading (i : GpioInputs) (valid : Bool) (mask : ℕ) (s t : SafetyManager F)
      : Type 0 where
    pub inputs_read : t.inputs ≡ i
    pub valid_read : t.inputs_valid ≡ valid
    pub healthy_read : t.healthy ≡ (mask == 0)
    pub internal_latched : t.internal_active ≡ (s.internal_active || not valid)

  check_inputs-Reading :
      (now : ℕ) (i : GpioInputs) (valid : Bool) (mask : ℕ) (s : SafetyManager F)
      → Reading i valid mask s (check_inputs now i valid mask s)
  unfolding check_inputs check_valid check_estop check_positive check_release trip safety_estop
      safety_internal_fault
  check_inputs-Reading now i valid mask s = ground arith

  -- The condition of a retained fault, from the reading.
  record Condition (i : GpioInputs) (valid : Bool) (s t : SafetyManager F) : Type 0 where
    same : SameReading s t
    recovery_same : t.encoder_recovery_required ≡ s.encoder_recovery_required
    condition_from :
        t.faults.active.condition_active ≡ true
        → is_hazardous (record s { inputs = i; inputs_valid = valid }) ≡ true

  check_condition_lem :
      (i : GpioInputs) (valid : Bool) (s : SafetyManager F)
      → Condition i valid s (check_condition i valid s)
  unfolding check_condition
  check_condition_lem i valid s = ground arith

  -- An evaluation records its inputs, their validity and the health, never clears the internal
  -- latch, and keeps a condition active only for a hazard that `safety_reset` itself refuses.
  pub safety_evaluate-Reading :
      (now : ℕ) (i : GpioInputs) (valid : Bool) (m : MotionSnapshot F) (pwm : F) (mask : ℕ)
      (s : SafetyManager F)
      → let t = safety_evaluate now i valid m pwm mask s in
        Reading i valid mask s t × (t.faults.active.condition_active ≡ true → is_hazardous t ≡ true)
  unfolding safety_evaluate
  safety_evaluate-Reading now i valid m pwm mask s =
      let a = check_inputs now i valid mask s in
      let b = check_negative now i m pwm a in
      let c = check_health now mask b in
      let d = check_recovery m c in
      let e = check_stall now i m pwm (expected_home m a) d in
      ground (
        arith,
        check_inputs-Reading now i valid mask s,
        check_negative-SameReading now i m pwm a,
        check_health-SameReading now mask b,
        check_recovery-SameReading m c,
        check_stall-SameReading now i m pwm (expected_home m a) d,
        check_condition_lem i valid e,
      )

  -- A reset right after an evaluation (as RESET makes it) succeeds exactly when the inputs were read
  -- and none is active, every heartbeat is fresh, no encoder recovery is outstanding and no
  -- internal fault has ever been latched. It then leaves IDLE with no active fault, the fault that
  -- was active as the history; otherwise it changes nothing.
  pub safety_reset-evaluate :
      (now : ℕ) (i : GpioInputs) (valid : Bool) (m : MotionSnapshot F) (pwm : F) (mask : ℕ)
      (s : SafetyManager F)
      → let t = safety_evaluate now i valid m pwm mask s in
        let (u, done) = safety_reset t in
        (done ≡ (
          valid
          && not i.estop
          && not i.positive_limit
          && not i.negative_limit
          && mask == 0
          && not t.encoder_recovery_required
          && not s.internal_active))
        × (done ≡ true → (u.state ≡ AppState.idle) × (u.faults.active ≡ no_record))
        × (done ≡ true → is_none t.faults.active.code ≡ false → u.faults.history ≡ t.faults.active)
        × (done ≡ false → u ≡ t)
  unfolding safety_reset fault_reset
  safety_reset-evaluate now i valid m pwm mask s =
      ground (arith, safety_evaluate-Reading now i valid m pwm mask s)
