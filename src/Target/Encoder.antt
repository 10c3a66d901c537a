-- ===== src/Target/Encoder.antt =====
-- firmware/platform/stm32/encoder.c: the quadrature counter, against the host's encoder.
use real_time_embedded_motio.Base.{
  ℕ, ◌+◌, ◌≡◌, refl, arith, Bool, true, false, Option, none, some, if◌then◌else◌, leb, u32, sub_u32,
  to_u32, int32_max, ℤ, pos, negsuc, ◌-◌,
}
use real_time_embedded_motio.Drivers.Encoder.{
  Encoder, signed_bits, encoder_get_count, encoder_set_reference,
}

-- The static variables; `counter` is TIM2->CNT.
pub record Quadrature : Type 0 where
  pub initialized : Bool
  pub counter : ℕ
  pub reference_offset : ℕ

unfoldable pub quadrature_get_count : Quadrature → Option ℤ
quadrature_get_count e =
    let bits = u32 (e.counter + e.reference_offset) in
    if e.initialized
    then some (if leb bits int32_max then pos bits else negsuc (4294967295 - bits))
    else none

unfoldable pub quadrature_set_reference : Quadrature → ℤ → Quadrature × Bool
quadrature_set_reference e count =
    if e.initialized
    then (record e { reference_offset = sub_u32 (to_u32 count) e.counter }, true)
    else (e, false)

-- The host's encoder with the counter as its raw count.
abbrev pub encoder_of : Quadrature → Encoder
encoder_of e = record {
  initialized = e.initialized;
  raw_count = e.counter;
  reference_offset = e.reference_offset;
}

-- The board's encoder reports the count of the host's, and sets the reference as the host's does.
pub quadrature-Refines :
    (e : Quadrature) (count : ℤ)
    → let (referenced, done) = quadrature_set_reference e count in
      let (host_referenced, host_done) = encoder_set_reference (encoder_of e) count in
      (quadrature_get_count e ≡ encoder_get_count (encoder_of e))
      × (encoder_of referenced ≡ host_referenced)
      × (done ≡ host_done)
unfolding quadrature_get_count quadrature_set_reference encoder_get_count encoder_set_reference
    signed_bits
quadrature-Refines e count = (refl, ground arith, ground arith)
