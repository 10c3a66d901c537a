-- ===== src/Safety/Latch.antt =====
-- What an evaluation may do to the safety state and to the retained fault.
use real_time_embedded_motio.Base.{ℕ, ◌≡◌, ◌⊎◌, Bool, true, false, arith}
use real_time_embedded_motio.Float.{Float}
use real_time_embedded_motio.Application.{is_estop}
use real_time_embedded_motio.Drivers.Gpio.{GpioInputs}
use real_time_embedded_motio.Fault.{FaultCode, is_none, fault_raise}
use real_time_embedded_motio.Motion.{MotionSnapshot}
use real_time_embedded_motio.Safety.Defs.{
  SafetyManager, is_latched, trip, safety_estop, safety_internal_fault, check_valid, check_estop,
  check_positive, check_release, check_negative, check_health, check_recovery, time_candidate,
  check_stall, check_condition, check_inputs, safety_evaluate,
}

module _ {F : Type 0} ⦃f : Float F⦄ where
  -- How one group of statements may change the manager: the state only goes up in the order IDLE,
  -- FAULT, ESTOP, and a retained fault keeps its code, its time and its source.
  pub record Escalates (s t : SafetyManager F) : Type 0 where
    pub estop_stays : is_estop s.state ≡ true → is_estop t.state ≡ true
    pub latch_stays : is_latched s.state ≡ true → is_latched t.state ≡ true
    pub same_or_latched : (t.state ≡ s.state) ⊎ (is_latched t.state ≡ true)
    pub code_stays :
        is_none s.faults.active.code ≡ false → t.faults.active.code ≡ s.faults.active.code
    pub time_stays :
        is_none s.faults.active.code ≡ false
        → t.faults.active.timestamp_ms ≡ s.faults.active.timestamp_ms
    pub source_stays :
        is_none s.faults.active.code ≡ false → t.faults.active.source ≡ s.faults.active.source

  Escalates-trans : {s t u : SafetyManager F} → Escalates s t → Escalates t u → Escalates s u
  Escalates-trans a b = ground arith

  trip-Escalates :
      (code : FaultCode) (now source : ℕ) (s : SafetyManager F)
      → Escalates s (trip code now source s)
  unfolding trip fault_raise
  trip-Escalates code now source s = ground arith

  check_valid-Escalates :
      (now : ℕ) (i : GpioInputs) (valid : Bool) (mask : ℕ) (s : SafetyManager F)
      → Escalates s (check_valid now i valid mask s)
  unfolding check_valid safety_internal_fault fault_raise
  check_valid-Escalates now i valid mask s = ground arith

  check_estop-Escalates :
      (now : ℕ) (i : GpioInputs) (s : SafetyManager F) → Escalates s (check_estop now i s)
  unfolding check_estop safety_estop
  check_estop-Escalates now i s = ground arith

  check_positive-Escalates :
      (now : ℕ) (i : GpioInputs) (s : SafetyManager F) → Escalates s (check_positive now i s)
  unfolding check_positive trip fault_raise
  check_positive-Escalates now i s = ground arith

  check_release-Escalates :
      (i : GpioInputs) (valid : Bool) (s : SafetyManager F) → Escalates s (check_release i valid s)
  unfolding check_release
  check_release-Escalates i valid s = ground arith

  check_negative-Escalates :
      (now : ℕ) (i : GpioInputs) (m : MotionSnapshot F) (pwm : F) (s : SafetyManager F)
      → Escalates s (check_negative now i m pwm s)
  unfolding check_negative
  check_negative-Escalates now i m pwm s =
      ground (arith, trip-Escalates FaultCode.negative_limit now 0 s)

  check_health-Escalates :
      (now mask : ℕ) (s : SafetyManager F) → Escalates s (check_health now mask s)
  unfolding check_health
  check_health-Escalates now mask s = ground (arith, trip-Escalates FaultCode.watchdog now mask s)

  check_recovery-Escalates :
      (m : MotionSnapshot F) (s : SafetyManager F) → Escalates s (check_recovery m s)
  unfolding check_recovery
  check_recovery-Escalates m s = ground arith

  check_stall-Escalates :
      (now : ℕ) (i : GpioInputs) (m : MotionSnapshot F) (pwm : F) (e : Bool) (s : SafetyManager F)
      → Escalates s (check_stall now i m pwm e s)
  unfolding check_stall time_candidate trip fault_raise
  check_stall-Escalates now i m pwm e s = ground arith

  check_condition-Escalates :
      (i : GpioInputs) (valid : Bool) (s : SafetyManager F)
      → Escalates s (check_condition i valid s)
  unfolding check_condition
  check_condition-Escalates i valid s = ground arith

  pub check_inputs-Escalates :
      (now : ℕ) (i : GpioInputs) (valid : Bool) (mask : ℕ) (s : SafetyManager F)
      → Escalates s (check_inputs now i valid mask s)
  unfolding check_inputs
  check_inputs-Escalates now i valid mask s =
      let a = check_valid now i valid mask s in
      let b = check_estop now i a in
      let c = check_positive now i b in
      Escalates-trans (check_valid-Escalates now i valid mask s) (
        Escalates-trans (check_estop-Escalates now i a)
          (Escalates-trans (check_positive-Escalates now i b) (check_release-Escalates i valid c)))

  -- The statements of `safety_evaluate` after those of `check_health`, of `check_negative` and of
  -- `check_inputs`.
  pub after_health-Escalates :
      (now : ℕ) (i : GpioInputs) (valid : Bool) (m : MotionSnapshot F) (pwm : F) (e : Bool)
      (s : SafetyManager F)
      → Escalates s (check_condition i valid (check_stall now i m pwm e (check_recovery m s)))
  after_health-Escalates now i valid m pwm e s =
      let c = check_recovery m s in
      Escalates-trans (check_recovery-Escalates m s) (
        Escalates-trans (check_stall-Escalates now i m pwm e c)
          (check_condition-Escalates i valid _))

  pub after_negative-Escalates :
      (now : ℕ) (i : GpioInputs) (valid : Bool) (m : MotionSnapshot F) (pwm : F) (mask : ℕ)
      (e : Bool) (s : SafetyManager F)
      → Escalates s (
          check_condition i valid
            (check_stall now i m pwm e (check_recovery m (check_health now mask s))))
  after_negative-Escalates now i valid m pwm mask e s =
      Escalates-trans (check_health-Escalates now mask s)
        (after_health-Escalates now i valid m pwm e (check_health now mask s))

  pub check_rest-Escalates :
      (now : ℕ) (i : GpioInputs) (valid : Bool) (m : MotionSnapshot F) (pwm : F) (mask : ℕ)
      (e : Bool) (s : SafetyManager F)
      → Escalates s (
          check_condition i valid (
            check_stall now i m pwm e
              (check_recovery m (check_health now mask (check_negative now i m pwm s)))))
  check_rest-Escalates now i valid m pwm mask e s =
      Escalates-trans (check_negative-Escalates now i m pwm s)
        (after_negative-Escalates now i valid m pwm mask e (check_negative now i m pwm s))

  -- An evaluation, on any inputs, keeps ESTOP in ESTOP and a latched state latched, otherwise
  -- leaves the state as it is or latches it, and keeps a retained fault's code, time and source.
  pub safety_evaluate-Escalates :
      (now : ℕ) (i : GpioInputs) (valid : Bool) (m : MotionSnapshot F) (pwm : F) (mask : ℕ)
      (s : SafetyManager F)
      → Escalates s (safety_evaluate now i valid m pwm mask s)
  unfolding safety_evaluate
  safety_evaluate-Escalates now i valid m pwm mask s =
      Escalates-trans (check_inputs-Escalates now i valid mask s)
        (check_rest-Escalates now i valid m pwm mask _ (check_inputs now i valid mask s))
