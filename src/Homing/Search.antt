-- ===== src/Homing/Search.antt =====
-- The outcomes of one step of the search for the negative switch.
use real_time_embedded_motio.Base.{
  ℕ, ◌+◌, ◌≤◌, ◌<◌, ◌≡◌, true, false, some, ◌||◌, arith, u32, sub_u32, pos,
}
use real_time_embedded_motio.Float.{Float, nought, one, minus_one}
use real_time_embedded_motio.Application.{AppState}
use real_time_embedded_motio.Drivers.Motor.{Motor, motor_disable, motor_set_output, saturate}
use real_time_embedded_motio.Drivers.Encoder.{Encoder, encoder_set_reference, encoder_get_count}
use real_time_embedded_motio.Drivers.Gpio.{GpioInputs}
use real_time_embedded_motio.Motion.{MotionController, HomingResult}
use real_time_embedded_motio.Homing.Defs.{
  homing_update, homing_abort, clear_control, set_elapsed, set_homing_result, complete_homing,
  reach_limit, seek, homing_timeout_ms, homing_pwm, homing_begin, begin_homing,
}

-- The time since the start, across a wrap of the clock.
elapsed-eq :
    (start d : ℕ) → start < 4294967296 → d < 4294967296 → sub_u32 (u32 (start + d)) start ≡ d
elapsed-eq start d hs hd = omega arith

zero_reference :
    (e : Encoder)
    → e.initialized ≡ true
    → e.raw_count < 4294967296
    → (encoder_get_count (encoder_set_reference e (pos 0)).0 ≡ some (pos 0))
      × ((encoder_set_reference e (pos 0)).1 ≡ true)
unfolding encoder_get_count encoder_set_reference
zero_reference e i r = ground arith

module _ {F : Type 0} ⦃f : Float F⦄ where
  -- A controller in the state in which `homing_update` works.
  pub record IsSearching (m : MotionController F) : Type 0 where
    pub ready : m.initialized ≡ true
    pub valid : m.snapshot.feedback_valid ≡ true
    pub searching : m.snapshot.state ≡ AppState.homing
    pub running : m.snapshot.homing.result ≡ HomingResult.running

  -- `homing_begin` of an idle controller with valid feedback starts a search, and stops the motor.
  homing_begin-IsSearching :
      (now : ℕ) (motor : Motor F) (m : MotionController F)
      → m.initialized ≡ true
      → m.snapshot.feedback_valid ≡ true
      → m.snapshot.state ≡ AppState.idle
      → let (result, motor', m') = homing_begin now motor m in
        IsSearching m' × (m'.snapshot.homing.started_ms ≡ now) × (motor'.output ≡ nought)
  unfolding homing_begin begin_homing clear_control motor_disable
  homing_begin-IsSearching now motor m i v s = ground arith

  -- What a negative duty cycle of the firmware, such as -0.30f, is: finite, and not beyond -1 or 1.
  pub record IsNegativeDuty (x : F) : Type 0 where
    pub finite : f.is_finite x ≡ true
    pub not_above : f.lt one x ≡ false
    pub not_below : f.lt x minus_one ≡ false
    pub negative : f.lt x nought ≡ true

  -- The motor after a request for `duty` that it carries out, and after one that it refuses.
  abbrev pub driven : Motor F → F → Motor F
  driven motor duty = record motor { output = duty; requested = duty }

  abbrev pub held_back : Motor F → F → Motor F
  held_back motor duty = record motor { output = nought; requested = duty }

  seek_lem :
      (motor : Motor F) (e : Encoder) (m : MotionController F)
      → IsNegativeDuty homing_pwm
      → let (done, motor', e', m') = seek motor e m in
        (motor.initialized ≡ false → (done ≡ false) × (motor' ≡ motor))
        × (motor.initialized ≡ true
            → (motor.inhibited || motor.negative_blocked) ≡ true
            → (done ≡ false) × (motor' ≡ held_back motor homing_pwm))
        × (motor.initialized ≡ true
            → (motor.inhibited || motor.negative_blocked) ≡ false
            → (done ≡ true) × (motor' ≡ driven motor homing_pwm))
  unfolding seek motor_set_output saturate
  seek_lem motor e m h = ground arith

  -- `d` milliseconds into a search, the clock wrapping on the way or not, with an initialized
  -- encoder, and given that -0.30f is a finite negative number within -1 and 1: on the E-stop or the
  -- positive limit the motor stops and the step fails, still homing; otherwise from 40000 ms on the
  -- result is TIMEOUT and the motor stops, even on the switch; otherwise on the negative limit the
  -- search completes: the encoder reads 0, the position and the target are 0, the axis is idle,
  -- referenced and stopped. Otherwise the search goes on, with the encoder as it was: an initialized
  -- motor that is neither inhibited nor blocked in the negative direction runs with the homing PWM
  -- and the step succeeds; one that is has output zero, and the step fails, as it does for a motor
  -- that is not initialized, which stays as it is.
  pub homing_update_outcome :
      (inputs : GpioInputs) (start d : ℕ) (motor : Motor F) (e : Encoder) (m : MotionController F)
      → IsSearching m
      → start < 4294967296
      → d < 4294967296
      → m.snapshot.homing.started_ms ≡ start
      → e.initialized ≡ true
      → e.raw_count < 4294967296
      → IsNegativeDuty homing_pwm
      → let (done, motor', e', m') = homing_update inputs (u32 (start + d)) motor e m in
        ((inputs.estop || inputs.positive_limit) ≡ true
          → (done ≡ false)
            × (motor'.output ≡ nought)
            × (m'.snapshot.state ≡ AppState.homing)
            × (m'.snapshot.homing.result ≡ HomingResult.running))
        × ((inputs.estop || inputs.positive_limit) ≡ false
            → homing_timeout_ms ≤ d
            → (done ≡ true)
              × (motor'.output ≡ nought)
              × (m'.snapshot.homing.result ≡ HomingResult.timeout))
        × ((inputs.estop || inputs.positive_limit) ≡ false
            → d < homing_timeout_ms
            → inputs.negative_limit ≡ true
            → (done ≡ true)
              × (motor'.output ≡ nought)
              × (m'.snapshot.homing.result ≡ HomingResult.complete)
              × (m'.snapshot.homing.referenced ≡ true)
              × (m'.snapshot.state ≡ AppState.idle)
              × (m'.snapshot.position ≡ pos 0)
              × (m'.snapshot.target ≡ pos 0)
              × (encoder_get_count e' ≡ some (pos 0)))
        × ((inputs.estop || inputs.positive_limit) ≡ false
            → d < homing_timeout_ms
            → inputs.negative_limit ≡ false
            → (m'.snapshot.state ≡ AppState.homing)
              × (m'.snapshot.pwm ≡ homing_pwm)
              × (m'.snapshot.homing.result ≡ HomingResult.running)
              × (e' ≡ e)
              × (motor.initialized ≡ false → (done ≡ false) × (motor' ≡ motor))
              × (motor.initialized ≡ true
                  → (motor.inhibited || motor.negative_blocked) ≡ true
                  → (done ≡ false) × (motor' ≡ held_back motor homing_pwm))
              × (motor.initialized ≡ true
                  → (motor.inhibited || motor.negative_blocked) ≡ false
                  → (done ≡ true) × (motor' ≡ driven motor homing_pwm)))
  unfolding homing_update homing_abort clear_control set_elapsed set_homing_result complete_homing
      reach_limit seek motor_disable
  homing_update_outcome inputs start d motor e m s hs hd t i r h = ground (
    arith,
    elapsed-eq start d hs hd,
    zero_reference e i r,
    seek_lem motor e (set_elapsed (u32 (start + d)) m) h,
  )
