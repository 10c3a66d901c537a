-- ===== src/Float/Defs.antt =====
-- What the firmware's code calls on a `float`.
use real_time_embedded_motio.Base.{ℕ, ℤ, pos, Bool}

-- `literal m k` is the constant m * 10 ^ -k, and `of_int` the cast of an integer.
pub record Float (F : Type 0) : Type 0 where
  pub literal : ℤ → ℕ → F
  pub of_int : ℤ → F
  pub add : F → F → F
  pub sub : F → F → F
  pub mul : F → F → F
  pub div : F → F → F
  pub neg : F → F
  pub fabs : F → F
  pub lt : F → F → Bool
  pub le : F → F → Bool
  pub eq : F → F → Bool
  pub is_finite : F → Bool

module _ {F : Type 0} ⦃f : Float F⦄ where
  -- `0.0f` and `1.0f`.
  abbrev pub nought : F
  nought = f.literal (pos 0) 0

  abbrev pub one : F
  one = f.literal (pos 1) 0

  -- `-1.0f`.
  abbrev pub minus_one : F
  minus_one = f.neg (f.literal (pos 1) 0)
