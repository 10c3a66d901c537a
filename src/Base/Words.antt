-- ===== src/Base/Words.antt =====
-- Fixed-width integers: a `uint32_t` is a number below 2 ^ 32, an `int32_t` an integer in range.
use Prim.Native.Nat.{ℕ, ◌+◌, ◌-◌, ◌%◌}
use real_time_embedded_motio.Base.Int.{ℤ, pos, negsuc, ◌≤ℤ◌}

abbrev pub u32 : ℕ → ℕ
u32 n = n % 4294967296

-- `uint32_t` subtraction wraps.
abbrev pub sub_u32 : ℕ → ℕ → ℕ
sub_u32 a b = (a + 4294967296 - b) % 4294967296

abbrev pub int32_max : ℕ
int32_max = 2147483647

abbrev pub int32_min : ℤ
int32_min = negsuc 2147483647

abbrev pub IsInt32 : ℤ → Type 0
IsInt32 z = (int32_min ≤ℤ z) × (z ≤ℤ pos int32_max)

-- The cast of an `int32_t` to `uint32_t`.
abbrev pub to_u32 : ℤ → ℕ
to_u32 (pos n) = n % 4294967296
to_u32 (negsuc n) = 4294967295 - n % 4294967296
