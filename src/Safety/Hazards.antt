-- ===== src/Safety/Hazards.antt =====
-- Which hazards an evaluation latches.
use real_time_embedded_motio.Base.{ℕ, ◌≤◌, ◌<◌, ◌≡◌, ◌⊎◌, Bool, true, false, arith, sub_u32, ◌==◌}
use real_time_embedded_motio.Float.{Float}
use real_time_embedded_motio.Application.{is_homing, is_estop}
use real_time_embedded_motio.Drivers.Gpio.{GpioInputs}
use real_time_embedded_motio.Motion.{MotionSnapshot}
use real_time_embedded_motio.Safety.Defs.{
  SafetyManager, is_latched, trip, safety_estop, safety_internal_fault, check_valid, check_estop,
  check_positive, check_release, check_negative, check_health, check_inputs, safety_evaluate,
  expected_home, parked, departing, safety_startup_grace_ms,
}
use real_time_embedded_motio.Safety.Latch.{
  check_rest-Escalates, after_negative-Escalates, after_health-Escalates,
}

module _ {F : Type 0} ⦃f : Float F⦄ where
  -- What the first statements read stays in the manager, and its state shows their hazards.
  pub record Reads (now : ℕ) (i : GpioInputs) (valid : Bool) (mask : ℕ) (s t : SafetyManager F)
      : Type 0 where
    pub inputs_kept : t.inputs ≡ i
    pub valid_kept : t.inputs_valid ≡ valid
    pub health_kept : t.healthy ≡ (mask == 0)
    pub startup_kept : t.startup_ms ≡ s.startup_ms
    pub estop_latches : i.estop ≡ true → is_estop t.state ≡ true
    pub positive_latches : i.positive_limit ≡ true → is_latched t.state ≡ true
    pub invalid_latches : valid ≡ false → is_latched t.state ≡ true

  check_inputs-Reads :
      (now : ℕ) (i : GpioInputs) (valid : Bool) (mask : ℕ) (s : SafetyManager F)
      → Reads now i valid mask s (check_inputs now i valid mask s)
  unfolding check_inputs check_valid check_estop check_positive check_release trip safety_estop
      safety_internal_fault
  check_inputs-Reads now i valid mask s = ground arith

  home_contact-check_inputs :
      (now : ℕ) (i : GpioInputs) (valid : Bool) (mask : ℕ) (s : SafetyManager F)
      → (check_inputs now i valid mask s).home_contact ≡ true
      → s.home_contact ≡ true
  unfolding check_inputs check_valid check_estop check_positive check_release trip safety_estop
      safety_internal_fault
  home_contact-check_inputs now i valid mask s h = ground arith

  -- Why a pressed negative switch is no fault: the axis seeks it, or rests on it or leaves it after
  -- a successful HOME.
  abbrev pub MayTouch : MotionSnapshot F → F → SafetyManager F → Type 0
  MayTouch m pwm s =
      (is_homing m.state ≡ true)
      ⊎ ((s.home_contact ≡ true) × ((parked m pwm ≡ true) ⊎ (departing m pwm ≡ true)))

  check_negative_latches :
      (now : ℕ) (i : GpioInputs) (m : MotionSnapshot F) (pwm : F) (s : SafetyManager F)
      → is_latched (check_negative now i m pwm s).state ≡ false
      → i.negative_limit ≡ true
      → MayTouch m pwm s
  unfolding check_negative trip
  check_negative_latches now i m pwm s h n = ground arith

  check_negative_keeps :
      (now : ℕ) (i : GpioInputs) (m : MotionSnapshot F) (pwm : F) (s : SafetyManager F)
      → let t = check_negative now i m pwm s in
        (t.healthy ≡ s.healthy) × (t.startup_ms ≡ s.startup_ms)
  unfolding check_negative trip
  check_negative_keeps now i m pwm s = ground arith

  check_health_latches :
      (now mask : ℕ) (s : SafetyManager F)
      → s.healthy ≡ false
      → safety_startup_grace_ms ≤ sub_u32 now s.startup_ms
      → is_latched (check_health now mask s).state ≡ true
  unfolding check_health trip
  check_health_latches now mask s h g = ground arith

  -- What holds where an evaluation ends in a state that is not latched.
  pub record IsClear (now : ℕ) (i : GpioInputs) (valid : Bool) (m : MotionSnapshot F) (pwm : F)
      (mask : ℕ) (s : SafetyManager F) : Type 0 where
    pub inputs_read : valid ≡ true
    pub no_estop : i.estop ≡ false
    pub no_positive : i.positive_limit ≡ false
    pub may_touch : i.negative_limit ≡ true → MayTouch m pwm s
    pub fresh_or_starting : (mask ≡ 0) ⊎ (sub_u32 now s.startup_ms < safety_startup_grace_ms)

  -- An evaluation that does not end in FAULT or ESTOP has read its inputs, found no E-stop and no
  -- positive limit, found the negative limit only where the axis may touch it, and found every
  -- heartbeat fresh unless fewer than 200 ms have passed since the start.
  pub safety_evaluate-IsClear :
      (now : ℕ) (i : GpioInputs) (valid : Bool) (m : MotionSnapshot F) (pwm : F) (mask : ℕ)
      (s : SafetyManager F)
      → is_latched (safety_evaluate now i valid m pwm mask s).state ≡ false
      → IsClear now i valid m pwm mask s
  unfolding safety_evaluate
  safety_evaluate-IsClear now i valid m pwm mask s h =
      let a = check_inputs now i valid mask s in
      let b = check_negative now i m pwm a in
      ground (
        arith,
        check_inputs-Reads now i valid mask s,
        home_contact-check_inputs now i valid mask s,
        check_rest-Escalates now i valid m pwm mask (expected_home m a) a,
        after_negative-Escalates now i valid m pwm mask (expected_home m a) b,
        after_health-Escalates now i valid m pwm (expected_home m a) (check_health now mask b),
        check_negative_latches now i m pwm a,
        check_negative_keeps now i m pwm a,
        check_health_latches now mask b,
      )

  -- An evaluation with the E-stop pressed ends in ESTOP.
  pub safety_evaluate_estop :
      (now : ℕ) (i : GpioInputs) (valid : Bool) (m : MotionSnapshot F) (pwm : F) (mask : ℕ)
      (s : SafetyManager F)
      → i.estop ≡ true
      → is_estop (safety_evaluate now i valid m pwm mask s).state ≡ true
  unfolding safety_evaluate
  safety_evaluate_estop now i valid m pwm mask s e = ground (
    arith,
    check_inputs-Reads now i valid mask s,
    check_rest-Escalates now i valid m pwm mask (expected_home m (check_inputs now i valid mask s))
        (check_inputs now i valid mask s),
  )
