-- ===== src/Examples/Extended.antt =====
-- The laws of `TinyFormat.Scaling` can be met by a type that has infinite values, as `double` has:
-- thousandths as integers, what is not a number, and two infinities, which a division leaves as they are.
use real_time_embedded_motio.Base.{
  ℕ, ◌-◌, ◌/◌, ◌<◌, ◌≡◌, Bool, true, false, not, ◌&&◌, ◌||◌, some, none, arith, ltb, if◌then◌else◌,
  ◌==◌, pos, negsuc,
}
use real_time_embedded_motio.Float.{Float}
use real_time_embedded_motio.Float.Fixed.{Fixed, fixed_float}
use real_time_embedded_motio.TinyFormat.Scaling.{IsScalable, Displayable}

-- `infinite true` is the negative one.
pub data Extended : Type 0 where
  number : Fixed → Extended
  infinite : Bool → Extended

-- Sums and products, with the first infinity for what is infinite.
abbrev lift : (Fixed → Fixed → Fixed) → Extended → Extended → Extended
lift g (number a) (number b) = number (g a b)
lift g (number a) (infinite s) = infinite s
lift g (infinite s) b = infinite s

abbrev over : Extended → Extended → Extended
over (number a) (number b) = number (fixed_float.div a b)
over (number a) (infinite s) = number (some (pos 0))
over (infinite s) b = infinite s

abbrev negate : Extended → Extended
negate (number a) = number (fixed_float.neg a)
negate (infinite s) = infinite (not s)

abbrev magnitude : Extended → Extended
magnitude (number a) = number (fixed_float.fabs a)
magnitude (infinite s) = infinite false

abbrev below : Extended → Extended → Bool
below (number a) (number b) = fixed_float.lt a b
below (number a) (infinite s) = fixed_float.is_finite a && not s
below (infinite s) (number b) = s && fixed_float.is_finite b
below (infinite s) (infinite t) = s && not t

abbrev at_most : Extended → Extended → Bool
at_most (number a) (number b) = fixed_float.le a b
at_most (number a) (infinite s) = fixed_float.is_finite a && not s
at_most (infinite s) (number b) = s && fixed_float.is_finite b
at_most (infinite s) (infinite t) = s || not t

abbrev defined : Extended → Bool
defined (number a) = fixed_float.is_finite a
defined (infinite s) = false

instance abbrev pub extended_float : Float Extended
extended_float = record {
  literal = λ m k. number (fixed_float.literal m k);
  of_int = λ z. number (fixed_float.of_int z);
  add = lift (fixed_float.add);
  sub = lift (fixed_float.sub);
  mul = lift (fixed_float.mul);
  div = over;
  neg = negate;
  fabs = magnitude;
  lt = below;
  le = at_most;
  eq = λ a b. at_most a b && at_most b a;
  is_finite = defined;
}

-- The conversion of a `float`: what `Fixed` has no number for becomes infinite.
abbrev pub widened : Fixed → Extended
widened (some z) = number (some z)
widened none = infinite false

-- Thousandths of at most 9.999 take no division, and positive ones fewer than 1000 multiplications.
abbrev pub divisions : Extended → ℕ
divisions (number (some (pos n))) = if ltb n 10000 then 0 else n
divisions _ = 0

abbrev pub multiplications : Extended → ℕ
multiplications (number (some (pos n))) = if n == 0 then 0 else 1000 - n
multiplications _ = 0

abbrev pub truncated : Extended → ℕ
truncated (number (some (pos n))) = n / 1000
truncated _ = 0

abbrev thousandth : ℕ → Extended
thousandth n = number (some (pos n))

extended_divisions-div :
    (v : Extended)
    → extended_float.is_finite v ≡ true
    → extended_float.le (thousandth 10000) v ≡ true
    → divisions (extended_float.div v (thousandth 10000)) < divisions v
extended_divisions-div (number none) h k = ground arith
extended_divisions-div (number (some (pos n))) h k = ground arith
extended_divisions-div (number (some (negsuc n))) h k = ground arith
extended_divisions-div (infinite true) h k = ground arith
extended_divisions-div (infinite false) h k = ground arith

extended_multiplications-mul :
    (v : Extended)
    → extended_float.lt (thousandth 0) v ≡ true
    → extended_float.lt v (thousandth 1000) ≡ true
    → multiplications (extended_float.mul v (thousandth 10000)) < multiplications v
extended_multiplications-mul (number none) h k = ground arith
extended_multiplications-mul (number (some (pos n))) h k = ground arith
extended_multiplications-mul (number (some (negsuc n))) h k = ground arith
extended_multiplications-mul (infinite true) h k = ground arith
extended_multiplications-mul (infinite false) h k = ground arith

extended_multiplications-div :
    (v : Extended)
    → extended_float.le (thousandth 10000) v ≡ true
    → multiplications (extended_float.div v (thousandth 10000)) ≡ 0
extended_multiplications-div (number none) h = ground arith
extended_multiplications-div (number (some (pos n))) h = ground arith
extended_multiplications-div (number (some (negsuc n))) h = ground arith
extended_multiplications-div (infinite true) h = ground arith
extended_multiplications-div (infinite false) h = ground arith

extended_finite_div :
    (v : Extended)
    → extended_float.is_finite v ≡ true
    → extended_float.le (thousandth 10000) v ≡ true
    → extended_float.is_finite (extended_float.div v (thousandth 10000)) ≡ true
extended_finite_div (number none) h k = ground arith
extended_finite_div (number (some (pos n))) h k = ground arith
extended_finite_div (number (some (negsuc n))) h k = ground arith
extended_finite_div (infinite true) h k = ground arith
extended_finite_div (infinite false) h k = ground arith

extended_finite_neg :
    (v : Extended)
    → extended_float.is_finite v ≡ true
    → extended_float.is_finite (extended_float.neg v) ≡ true
extended_finite_neg (number none) h = ground arith
extended_finite_neg (number (some (pos n))) h = ground arith
extended_finite_neg (number (some (negsuc n))) h = ground arith
extended_finite_neg (infinite true) h = ground arith
extended_finite_neg (infinite false) h = ground arith

extended_positive_div :
    (v : Extended)
    → extended_float.le (thousandth 10000) v ≡ true
    → extended_float.lt (thousandth 0) (extended_float.div v (thousandth 10000)) ≡ true
extended_positive_div (number none) h = ground arith
extended_positive_div (number (some (pos n))) h = ground arith
extended_positive_div (number (some (negsuc n))) h = ground arith
extended_positive_div (infinite true) h = ground arith
extended_positive_div (infinite false) h = ground arith

extended_positive_mul :
    (v : Extended)
    → extended_float.lt (thousandth 0) v ≡ true
    → extended_float.lt (thousandth 0) (extended_float.mul v (thousandth 10000)) ≡ true
extended_positive_mul (number none) h = ground arith
extended_positive_mul (number (some (pos n))) h = ground arith
extended_positive_mul (number (some (negsuc n))) h = ground arith
extended_positive_mul (infinite true) h = ground arith
extended_positive_mul (infinite false) h = ground arith

extended_positive_neg :
    (v : Extended)
    → extended_float.lt v (thousandth 0) ≡ true
    → extended_float.lt (thousandth 0) (extended_float.neg v) ≡ true
extended_positive_neg (number none) h = ground arith
extended_positive_neg (number (some (pos n))) h = ground arith
extended_positive_neg (number (some (negsuc n))) h = ground arith
extended_positive_neg (infinite true) h = ground arith
extended_positive_neg (infinite false) h = ground arith

extended_positive_rest :
    (v : Extended)
    → extended_float.is_finite v ≡ true
    → extended_float.eq v (thousandth 0) ≡ false
    → extended_float.lt v (thousandth 0) ≡ false
    → extended_float.lt (thousandth 0) v ≡ true
extended_positive_rest (number none) h k l = ground arith
extended_positive_rest (number (some (pos n))) h k l = ground arith
extended_positive_rest (number (some (negsuc n))) h k l = ground arith
extended_positive_rest (infinite true) h k l = ground arith
extended_positive_rest (infinite false) h k l = ground arith

pub Extended-IsScalable : IsScalable Extended
Extended-IsScalable = record {
  divisions = divisions;
  multiplications = multiplications;
  divisions-div = extended_divisions-div;
  multiplications-mul = extended_multiplications-mul;
  multiplications-div = extended_multiplications-div;
  finite_div = extended_finite_div;
  finite_neg = extended_finite_neg;
  positive_div = extended_positive_div;
  positive_mul = extended_positive_mul;
  positive_neg = extended_positive_neg;
  positive_rest = extended_positive_rest;
}

-- The values that both loops finish with in time.
pub extended-Displayable :
    (v : Extended) → divisions v < 400 → multiplications v < 400 → Displayable Extended-IsScalable v
unfolding Extended-IsScalable
extended-Displayable v h k = record { down = h; up = k }
