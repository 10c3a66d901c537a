-- ===== src/Drivers/Encoder/Reference.antt =====
-- The reported count is an `int32_t`, and the reference and the raw count move it as they should.
use real_time_embedded_motio.Base.{
  ℕ, ◌+◌, ◌<◌, ◌≡◌, true, some, arith, u32, sub_u32, to_u32, ℤ, IsInt32, ◌-ℤ◌, ◌+ℤ◌,
}
use real_time_embedded_motio.Drivers.Encoder.{
  Encoder, signed_bits, encoder_get_count, encoder_set_reference,
}

-- A bit pattern stands for an `int32_t`, and the cast of an `int32_t` for itself.
pub signed_bits-IsInt32 : (bits : ℕ) → bits < 4294967296 → IsInt32 (signed_bits bits)
unfolding signed_bits
signed_bits-IsInt32 bits h = ground arith

pub signed_bits-to_u32 : (z : ℤ) → IsInt32 z → signed_bits (to_u32 z) ≡ z
unfolding signed_bits
signed_bits-to_u32 z h = ground arith

-- The bits of a difference stand for the exact difference where that fits, whatever wrapped.
pub signed_bits-sub :
    (a b : ℤ)
    → IsInt32 a
    → IsInt32 b
    → IsInt32 (a -ℤ b)
    → signed_bits (sub_u32 (to_u32 a) (to_u32 b)) ≡ a -ℤ b
unfolding signed_bits ◌-ℤ◌
signed_bits-sub a b ha hb h = ground arith

-- Every count that an encoder reports is an `int32_t`.
pub encoder_get_count-IsInt32 : (e : Encoder) {z : ℤ} → encoder_get_count e ≡ some z → IsInt32 z
unfolding encoder_get_count
encoder_get_count-IsInt32 e h = ground arith

-- Right after the reference is set, an initialized encoder reports it; when the raw counter has
-- then moved by `d` (in an `int32_t`), it reports the reference plus `d` where that fits.
pub encoder_get_count-set_reference :
    (e : Encoder) (count d : ℤ)
    → e.initialized ≡ true
    → e.raw_count < 4294967296
    → IsInt32 count
    → IsInt32 d
    → IsInt32 (count +ℤ d)
    → let referenced = (encoder_set_reference e count).0 in
      let moved = record referenced { raw_count = u32 (e.raw_count + to_u32 d) } in
      (encoder_get_count referenced ≡ some count) × (encoder_get_count moved ≡ some (count +ℤ d))
unfolding encoder_get_count encoder_set_reference ◌+ℤ◌
encoder_get_count-set_reference e count d r hr hc hd h = ground arith
