-- ===== src/Float/Laws.antt =====
-- What the theorems assume of the comparisons: IEEE 754's order away from NaN.
use real_time_embedded_motio.Base.{◌≡◌, true, false}
use real_time_embedded_motio.Float.Defs.{Float, nought, one, minus_one}

pub record IsOrdered (F : Type 0) ⦃f : Float F⦄ : Type 0 where
  -- On finite values `<=` is reflexive, and is the negation of `>`.
  pub le_refl : (x : F) → f.is_finite x ≡ true → f.le x x ≡ true
  pub le_of_lt : (x y : F) → f.lt x y ≡ true → f.le x y ≡ true
  pub le_of_not_lt :
      (x y : F) → f.is_finite x ≡ true → f.is_finite y ≡ true → f.lt x y ≡ false → f.le y x ≡ true
  pub le_of_not_le :
      (x y : F) → f.is_finite x ≡ true → f.is_finite y ≡ true → f.le x y ≡ false → f.le y x ≡ true
  pub le_trans : (x y z : F) → f.le x y ≡ true → f.le y z ≡ true → f.le x z ≡ true
  -- The constants 0, 1 and -1 are finite and in order.
  pub nought_finite : f.is_finite nought ≡ true
  pub one_finite : f.is_finite one ≡ true
  pub minus_one_finite : f.is_finite minus_one ≡ true
  pub minus_one-le-nought : f.le minus_one nought ≡ true
  pub nought-le-one : f.le nought one ≡ true
