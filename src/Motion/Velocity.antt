-- ===== src/Motion/Velocity.antt =====
-- The velocity of a sample is the exact count difference over the time, across counter wraps.
use real_time_embedded_motio.Base.{
  ◌≡◌, true, false, none, some, arith, sub_u32, to_u32, ℤ, pos, negsuc, IsInt32, ◌-ℤ◌, ◌≤ℤ◌, ◌==◌,
  if◌then◌else◌,
}
use real_time_embedded_motio.Float.{Float}
use real_time_embedded_motio.Drivers.Encoder.Reference.{signed_bits-sub}
use real_time_embedded_motio.Motion.Types.{MotionController}
use real_time_embedded_motio.Motion.Defs.{velocity_of}

bits-ne-half :
    (a b : ℤ)
    → IsInt32 a
    → IsInt32 b
    → negsuc 2147483646 ≤ℤ a -ℤ b
    → a -ℤ b ≤ℤ pos 2147483647
    → (sub_u32 (to_u32 a) (to_u32 b) == 2147483648) ≡ false
unfolding ◌-ℤ◌
bits-ne-half a b ha hb low high = ground arith

module _ {F : Type 0} ⦃f : Float F⦄ where
  -- After a first sample, for two `int32_t` counts less than 2 ^ 31 apart: the velocity is the exact
  -- difference of the counts over the time, and the sample fails only where that is not finite.
  pub velocity_of_lem :
      (m : MotionController F) (count : ℤ) (dt : F)
      → m.sampled ≡ true
      → IsInt32 count
      → IsInt32 m.previous_count
      → negsuc 2147483646 ≤ℤ count -ℤ m.previous_count
      → count -ℤ m.previous_count ≤ℤ pos 2147483647
      → let velocity = f.div (f.of_int (count -ℤ m.previous_count)) dt in
        velocity_of m count dt ≡ (if f.is_finite velocity then some velocity else none)
  unfolding velocity_of
  velocity_of_lem m count dt s hc hp low high =
      let fits : IsInt32 (count -ℤ m.previous_count) = (omega arith, omega arith) in
      rw
        (
          s,
          signed_bits-sub count m.previous_count hc hp fits,
          bits-ne-half count m.previous_count hc hp low high,
        )
        (ground arith)
