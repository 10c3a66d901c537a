-- ===== src/Float/Fixed.antt =====
-- The laws of `Float.Laws` can be met: thousandths as integers, with `none` for what is not finite.
use real_time_embedded_motio.Base.{
  ℕ, zero, suc, ◌+◌, ◌*◌, ◌/◌, ◌^◌, Bool, true, false, ◌&&◌, Option, none, some, arith, ℤ, pos,
  negsuc, pos_part, neg_part, sub_ℕ, ltb_ℤ, leb_ℤ, ◌+ℤ◌, ◌-ℤ◌,
}
use real_time_embedded_motio.Float.Defs.{Float}
use real_time_embedded_motio.Float.Laws.{IsOrdered}

abbrev pub Fixed : Type 0
Fixed = Option ℤ

abbrev scale : (ℕ → ℕ) → ℤ → ℤ
scale g (pos n) = pos (g n)
scale g (negsuc n) = sub_ℕ 0 (g (n + 1))

abbrev lift : (ℤ → ℤ → ℤ) → Fixed → Fixed → Fixed
lift g (some a) (some b) = some (g a b)
lift g _ _ = none

abbrev test : (ℤ → ℤ → Bool) → Fixed → Fixed → Bool
test g (some a) (some b) = g a b
test g _ _ = false

abbrev times : ℤ → ℤ → ℤ
times a b =
    sub_ℕ ((pos_part a * pos_part b + neg_part a * neg_part b) / 1000)
      ((pos_part a * neg_part b + neg_part a * pos_part b) / 1000)

abbrev over : Fixed → Fixed → Fixed
over (some a) (some (pos zero)) = none
over (some a) (some (pos (suc n))) = some (scale (λ k. k * 1000 / suc n) a)
over (some a) (some (negsuc n)) =
    some (scale (λ k. k * 1000 / suc n) (sub_ℕ (neg_part a) (pos_part a)))
over _ _ = none

abbrev negate : Fixed → Fixed
negate (some a) = some (sub_ℕ (neg_part a) (pos_part a))
negate none = none

abbrev magnitude : Fixed → Fixed
magnitude (some a) = some (pos (pos_part a + neg_part a))
magnitude none = none

abbrev defined : Fixed → Bool
defined (some a) = true
defined none = false

instance abbrev pub fixed_float : Float Fixed
fixed_float = record {
  literal = λ m k. some (scale (λ n. n * 1000 / 10 ^ k) m);
  of_int = λ z. some (scale (λ n. n * 1000) z);
  add = lift ◌+ℤ◌;
  sub = lift ◌-ℤ◌;
  mul = lift times;
  div = over;
  neg = negate;
  fabs = magnitude;
  lt = test ltb_ℤ;
  le = test leb_ℤ;
  eq = test (λ a b. leb_ℤ a b && leb_ℤ b a);
  is_finite = defined;
}

pub Fixed-IsOrdered : IsOrdered Fixed
unfolding ◌+ℤ◌ ◌-ℤ◌
Fixed-IsOrdered = ground arith
