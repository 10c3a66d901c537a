-- ===== src/Command/Digits.antt =====
-- The digit loop of `command_parse` against unbounded decimal arithmetic.
use real_time_embedded_motio.Base.{
  ℕ, ◌+◌, ◌-◌, ◌*◌, ◌≤◌, ◌<◌, ◌≡◌, refl, Bool, true, false, ◌&&◌, Option, none, some, List, [], ◌∷◌,
  arith, if◌then◌else◌, leb, u32, IsInt32, ℤ,
}
use real_time_embedded_motio.TinyFormat.Digits.{decimal, all_digits}
use real_time_embedded_motio.Command.Defs.{
  parse_digits, split_sign, magnitude_limit, signed_result, parse_magnitude, parse_value,
}

decimal-ge : (v : ℕ) (cs : List ℕ) → v ≤ decimal v cs
unfolding decimal
decimal-ge v [] = omega arith
decimal-ge v (c ∷ cs) = omega (arith, decimal-ge (v * 10 + (c - b'0')) cs)

-- For a limit that fits in 32 bits, the digit loop accepts a text exactly when it holds digits only
-- and its number does not pass the limit, and then gives that number: the test before the
-- multiplication is exact, and the multiplication never wraps.
pub parse_digits_lem :
    (limit value : ℕ) (cs : List ℕ)
    → 9 ≤ limit
    → limit < 4294967296
    → value ≤ limit
    → parse_digits limit value cs
      ≡ (if all_digits cs && leb (decimal value cs) limit then some (decimal value cs) else none)
unfolding parse_digits decimal all_digits
parse_digits_lem limit value [] nine word h = ground arith
parse_digits_lem limit value (c ∷ cs) nine word h =
    let next = value * 10 + (c - b'0') in
    ground (arith, decimal-ge next cs, parse_digits_lem limit (u32 next) cs)

signed_result-IsInt32 :
    (negative : Bool) (o : Option ℕ) {z : ℤ}
    → ((v : ℕ) → o ≡ some v → v ≤ magnitude_limit negative)
    → signed_result negative o ≡ some z
    → IsInt32 z
unfolding signed_result
signed_result-IsInt32 negative none h e = cc
signed_result-IsInt32 negative (some v) h e = ground (arith, h v refl)

parse_digits-le :
    (limit : ℕ) (cs : List ℕ) (v : ℕ)
    → 9 ≤ limit
    → limit < 4294967296
    → parse_digits limit 0 cs ≡ some v
    → v ≤ limit
parse_digits-le limit cs v nine word h = ground (arith, parse_digits_lem limit 0 cs)

magnitude_limit_bounds : (b : Bool) → (9 ≤ magnitude_limit b) × (magnitude_limit b < 4294967296)
magnitude_limit_bounds true = omega arith
magnitude_limit_bounds false = omega arith

parse_magnitude-IsInt32 :
    (negative : Bool) (cs : List ℕ) {z : ℤ} → parse_magnitude negative cs ≡ some z → IsInt32 z
unfolding parse_magnitude
parse_magnitude-IsInt32 negative [] e = cc
parse_magnitude-IsInt32 negative (d ∷ ds) e =
    let (nine, word) = magnitude_limit_bounds negative in
    signed_result-IsInt32 negative _
      (λ v. parse_digits-le (magnitude_limit negative) (d ∷ ds) v nine word) e

-- A parsed value is an `int32_t`, whatever the text.
parse_value-IsInt32 : (text : List ℕ) {z : ℤ} → parse_value text ≡ some z → IsInt32 z
unfolding parse_value
parse_value-IsInt32 text e = parse_magnitude-IsInt32 (split_sign text).0 (split_sign text).1 e
