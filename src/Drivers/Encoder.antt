-- ===== src/Drivers/Encoder.antt =====
-- firmware/drivers/encoder.h and firmware/platform/host/encoder_host.c: the position counter.
pub mod Reference
use real_time_embedded_motio.Base.{
  ℕ, ◌+◌, ◌-◌, Bool, true, false, Option, none, some, leb, if◌then◌else◌, u32, sub_u32, to_u32,
  int32_max, ℤ, pos, negsuc,
}

-- The static variables of encoder_host.c.
pub record Encoder : Type 0 where
  pub initialized : Bool
  pub raw_count : ℕ
  pub reference_offset : ℕ

-- The `int32_t` of a bit pattern: INT32_MIN + (bits - 2 ^ 31) is -(2 ^ 32 - 1 - bits + 1).
unfoldable pub signed_bits : ℕ → ℤ
signed_bits bits = if leb bits int32_max then pos bits else negsuc (4294967295 - bits)

unfoldable pub encoder_init : Encoder
encoder_init = record { initialized = true; raw_count = 0; reference_offset = 0 }

-- `none` is the C function's `false`, with the caller's variable unchanged.
unfoldable pub encoder_get_count : Encoder → Option ℤ
unfolding signed_bits
encoder_get_count e =
    if e.initialized then some (signed_bits (u32 (e.raw_count + e.reference_offset))) else none

unfoldable pub encoder_set_reference : Encoder → ℤ → Encoder × Bool
encoder_set_reference e count =
    if e.initialized
    then (record e { reference_offset = sub_u32 (to_u32 count) e.raw_count }, true)
    else (e, false)

unfoldable pub encoder_host_set_count : Encoder → ℤ → Encoder × Bool
encoder_host_set_count e count =
    if e.initialized then (record e { raw_count = to_u32 count }, true) else (e, false)
