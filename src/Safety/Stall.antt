-- ===== src/Safety/Stall.antt =====
-- The detection of a commanded axis that does not move.
use real_time_embedded_motio.Base.{ℕ, ◌+◌, ◌≤◌, ◌<◌, ◌≡◌, Bool, true, false, arith, u32}
use real_time_embedded_motio.Float.{Float}
use real_time_embedded_motio.Drivers.Gpio.{GpioInputs}
use real_time_embedded_motio.Fault.{FaultCode, is_none, fault_raise}
use real_time_embedded_motio.Motion.{MotionSnapshot}
use real_time_embedded_motio.Safety.Defs.{
  SafetyManager, is_latched, trip, is_qualifying, time_candidate, check_stall,
  safety_stall_timeout_ms,
}

module _ {F : Type 0} ⦃f : Float F⦄ where
  -- A candidate of the stall detector, `age` milliseconds old: nothing is latched yet.
  pub record IsPending (start : ℕ) (s : SafetyManager F) : Type 0 where
    pub pending : s.candidate ≡ true
    pub started : s.candidate_start_ms ≡ start

  -- A first qualifying evaluation starts the candidate and latches nothing.
  pub check_stall_start :
      (now : ℕ) (i : GpioInputs) (m : MotionSnapshot F) (pwm : F) (e : Bool) (s : SafetyManager F)
      → now < 4294967296
      → s.candidate ≡ false
      → is_qualifying i m pwm e s ≡ true
      → let t = check_stall now i m pwm e s in IsPending now t × (t.state ≡ s.state)
  unfolding check_stall time_candidate
  check_stall_start now i m pwm e s h c q = ground arith

  -- At an evaluation `d` milliseconds after the start of the candidate, the clock wrapping on the
  -- way or not: a qualifying axis is tripped exactly when `d` is at least 500, with
  -- NO_MOTION_UNDER_COMMAND retained unless a fault was before, and is pending otherwise; an axis
  -- that does not qualify is no candidate any more, and nothing is latched.
  pub check_stall_lem :
      (start d : ℕ) (i : GpioInputs) (m : MotionSnapshot F) (pwm : F) (e : Bool)
      (s : SafetyManager F)
      → start < 4294967296
      → d < 4294967296
      → IsPending start s
      → let t = check_stall (u32 (start + d)) i m pwm e s in
        (is_qualifying i m pwm e s ≡ true
          → d < safety_stall_timeout_ms
          → IsPending start t × (t.state ≡ s.state) × (t.faults ≡ s.faults))
        × (is_qualifying i m pwm e s ≡ true
            → safety_stall_timeout_ms ≤ d
            → (is_latched t.state ≡ true)
              × (t.encoder_recovery_required ≡ true)
              × (t.fault_position ≡ m.position)
              × (is_none s.faults.active.code ≡ true
                  → t.faults.active.code ≡ FaultCode.no_motion_under_command))
        × (is_qualifying i m pwm e s ≡ false
            → (t.candidate ≡ false) × (t.state ≡ s.state) × (t.faults ≡ s.faults))
  unfolding check_stall time_candidate trip fault_raise
  check_stall_lem start d i m pwm e s hs hd p = ground arith
