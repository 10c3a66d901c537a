-- ===== src/Runtime/Safe.antt =====
-- The gate over the shared state: no operation of safety_runtime.c leaves a tripped or unhealthy
-- controller with a driven motor.
pub mod Motors
pub mod Commands
use real_time_embedded_motio.Base.{◌≡◌, Bool, true, false, ◌&&◌, arith}
use real_time_embedded_motio.Float.{Float, nought}
use real_time_embedded_motio.Application.{AppState, is_idle}
use real_time_embedded_motio.Drivers.Motor.{
  Motor, motor_safety_block_negative, motor_safety_inhibit, motor_disable,
}
use real_time_embedded_motio.Drivers.Motor.Bounds.{
  IsGated, block_negative-IsGated, motor_safety_inhibit-IsGated,
}
use real_time_embedded_motio.Motion.{MotionController}
use real_time_embedded_motio.Homing.{homing_abort}
use real_time_embedded_motio.Safety.{SafetyManager}
use real_time_embedded_motio.Runtime.Types.{Runtime}
use real_time_embedded_motio.Runtime.Gate.{
  gate_motor, is_unsafe, runtime_safety_enforce, evaluate_inputs, runtime_safety_evaluate,
  abort_motion, runtime_safety_sync, note_gate, has_contact,
}

module _ {F : Type 0} ⦃f : Float F⦄ where
  -- The motor is inhibited while the safety state is not IDLE or a task is not healthy, and an
  -- inhibited motor has no output.
  pub record IsSafe (w : Runtime F) : Type 0 where
    pub gated : w.motor.inhibited ≡ true → w.motor.output ≡ nought
    pub tripped : is_idle w.runtime_data.safety.state ≡ false → w.motor.inhibited ≡ true
    pub unhealthy : w.runtime_data.safety.healthy ≡ false → w.motor.inhibited ≡ true

  inhibited-gate_motor :
      (block unsafe : Bool) (m : Motor F) → (gate_motor block unsafe m).inhibited ≡ unsafe
  unfolding gate_motor motor_safety_block_negative motor_safety_inhibit
  inhibited-gate_motor block unsafe m = ground arith

  gate_motor-IsGated :
      (block unsafe : Bool) (m : Motor F) → IsGated m → IsGated (gate_motor block unsafe m)
  unfolding gate_motor
  gate_motor-IsGated block unsafe m g = ground (
    arith,
    block_negative-IsGated m block,
    motor_safety_inhibit-IsGated (motor_safety_block_negative m block) unsafe,
  )

  is_unsafe_lem :
      (s : SafetyManager F) (state : AppState)
      → (is_idle s.state ≡ false → is_unsafe s state ≡ true)
        × (s.healthy ≡ false → is_unsafe s state ≡ true)
  unfolding is_unsafe
  is_unsafe_lem s state = ground arith

  -- `runtime_safety_enforce` makes any gated motor safe.
  pub enforce-IsSafe : (w : Runtime F) → IsGated w.motor → IsSafe (runtime_safety_enforce w)
  unfolding runtime_safety_enforce note_gate
  enforce-IsSafe w g =
      let s = w.runtime_data.safety in
      let unsafe = is_unsafe s w.runtime_data.motion.state in
      let block = s.home_contact && has_contact s in
      ground (
        arith,
        inhibited-gate_motor block unsafe w.motor,
        gate_motor-IsGated block unsafe w.motor,
        is_unsafe_lem s w.runtime_data.motion.state,
      )

  pub evaluate-IsSafe : (w : Runtime F) → IsGated w.motor → IsSafe (runtime_safety_evaluate w)
  unfolding runtime_safety_evaluate evaluate_inputs
  evaluate-IsSafe w g = enforce-IsSafe (evaluate_inputs w) g

  pub sync-IsSafe :
      (w : Runtime F) (m : MotionController F) → IsSafe w → IsSafe (runtime_safety_sync w m).0
  unfolding runtime_safety_sync abort_motion homing_abort motor_disable
  sync-IsSafe w m s = ground arith
