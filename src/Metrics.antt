-- ===== src/Metrics.antt =====
-- simulator/control_metrics.h and control_metrics.c: what the simulator measures of a move.
pub mod Latched
use Prim.Native.Nat.{bit_xor}
use real_time_embedded_motio.Base.{
  ℕ, zero, suc, ◌*◌, ◌/◌, ◌%◌, Bool, true, false, not, ◌&&◌, List, [], ◌∷◌, if◌then◌else◌, ℤ, pos,
  ◌-ℤ◌, ltb_ℤ, to_u32,
}
use real_time_embedded_motio.Float.{Float, nought}
use real_time_embedded_motio.Application.{AppState, is_idle}
use real_time_embedded_motio.Motion.{MotionConfig, MotionSnapshot}

-- `control_metrics_t`.
pub record ControlMetrics (F : Type 0) : Type 0 where
  pub start : ℤ
  pub target : ℤ
  pub final_position : ℤ
  pub final_error : F
  pub overshoot : F
  pub maximum_pwm : F
  pub elapsed_ms : ℕ
  pub completion_ms : ℕ
  pub settling_ms : ℕ
  pub output_hash : ℕ
  pub in_band : Bool
  pub completed : Bool

-- The loop of `hash_value`, with its rounds left; a product wraps at 2 ^ 64.
unfoldable pub hash_rounds : ℕ → ℕ → ℕ → ℕ
hash_rounds zero hash value = hash
hash_rounds (suc rounds) hash value =
    hash_rounds rounds (bit_xor hash (value % 256) * 1099511628211 % 18446744073709551616)
      (value / 256)

unfoldable pub hash_value : ℕ → ℕ → ℕ
hash_value hash value = hash_rounds 4 hash value

-- The value of the enumerator.
abbrev pub state_number : AppState → ℕ
state_number AppState.boot = 0
state_number AppState.initializing = 1
state_number AppState.idle = 2
state_number AppState.homing = 7
state_number AppState.moving = 3
state_number AppState.stopping = 4
state_number AppState.fault = 5
state_number AppState.estop = 6

-- `bits_of` is the representation that `memcpy` copies.
module _ {F : Type 0} ⦃f : Float F⦄ (bits_of : F → ℕ) where
  -- The four values that a sample adds to the hash.
  unfoldable pub sample_hash : ℕ → MotionSnapshot F → ℕ
  sample_hash hash s =
      let with_pwm = hash_value hash (bits_of s.pwm) in
      let with_position = hash_value with_pwm (to_u32 s.position) in
      hash_value (hash_value with_position (state_number s.state)) s.stable_cycles

module _ {F : Type 0} ⦃f : Float F⦄ where
  unfoldable pub control_metrics_init : ℤ → ℤ → ControlMetrics F
  control_metrics_init start target = record {
    start = start;
    target = target;
    final_position = pos 0;
    final_error = nought;
    overshoot = nought;
    maximum_pwm = nought;
    elapsed_ms = 0;
    completion_ms = 0;
    settling_ms = 0;
    output_hash = 14695981039346656037;
    in_band = false;
    completed = false;
  }

  -- `beyond`, the way past the target.
  unfoldable pub distance_beyond : ControlMetrics F → ℤ → F
  distance_beyond m position =
      if ltb_ℤ m.start m.target
      then f.of_int (position -ℤ m.target)
      else if ltb_ℤ m.target m.start
      then f.of_int (m.target -ℤ position)
      else nought

  -- The larger of a maximum so far and a value.
  unfoldable pub raise_to : F → F → F
  raise_to maximum x = if f.lt maximum x then x else maximum

  -- `band`.
  unfoldable pub is_in_band : F → MotionSnapshot F → MotionConfig F → Bool
  is_in_band final_error s c =
      f.le final_error c.tolerance && f.le (f.fabs s.velocity) c.completion_velocity

module _ {F : Type 0} ⦃f : Float F⦄ (bits_of : F → ℕ) where
  unfoldable pub control_metrics_sample :
      MotionSnapshot F → MotionConfig F → ℕ → ControlMetrics F → ControlMetrics F
  control_metrics_sample s c elapsed_ms m =
      let final_error = f.fabs (f.of_int (s.position -ℤ m.target)) in
      let band = is_in_band final_error s c in
      let completes = not m.completed && is_idle s.state in
      record m {
        elapsed_ms = elapsed_ms;
        final_position = s.position;
        final_error = final_error;
        overshoot = raise_to m.overshoot (distance_beyond m s.position);
        maximum_pwm = raise_to m.maximum_pwm (f.fabs s.pwm);
        settling_ms = if band && not m.in_band then elapsed_ms else m.settling_ms;
        in_band = band;
        completed = if completes then true else m.completed;
        completion_ms = if completes then elapsed_ms else m.completion_ms;
        output_hash = sample_hash bits_of m.output_hash s;
      }
