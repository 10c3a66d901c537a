-- ===== src/TinyFormat/Real.antt =====
-- firmware/platform/stm32/tiny_format.c: the floating-point numbers. The type `double` is a parameter
-- with the operations of `Float`.
use real_time_embedded_motio.Base.{
  ℕ, zero, suc, ◌+◌, ◌-◌, ◌/◌, ◌%◌, not, Option, none, some, if◌then◌else◌, leb, ltb, pos, codes,
}
use real_time_embedded_motio.Float.{Float}
use real_time_embedded_motio.TinyFormat.{Writer, character, string, integer}

-- A bound on the turns of each loop: no finite `double` takes more than 324.
abbrev pub turns : ℕ
turns = 400

-- The local variables: `exponent` is `raised - lowered`, the increments less the decrements.
pub record Scaled (R : Type 0) : Type 0 where
  pub value : R
  pub raised : ℕ
  pub lowered : ℕ

-- The digits, from `integer(w, scaled / 100000U, 1U)` on; the exponent is `raised - lowered`.
unfoldable pub write_scaled : ℕ → ℕ → ℕ → Writer → Writer
write_scaled scaled raised lowered w =
    let w1 = integer w (scaled / 100000) 1 in
    let w2 = integer (character w1 b'.') (scaled % 100000) 5 in
    let w3 = character w2 b'e' in
    if ltb raised lowered
    then integer (character w3 b'-') (lowered - raised) 2
    else integer (character w3 b'+') (raised - lowered) 2

module _ {R : Type 0} ⦃f : Float R⦄ where
  -- The first loop, and the second; `none` when the fuel has run out.
  unfoldable pub scale_down : ℕ → Scaled R → Option (Scaled R)
  scale_down zero s = none
  scale_down (suc fuel) s =
      let rest =
        scale_down fuel
          (record s { value = f.div s.value (f.literal (pos 10) 0); raised = s.raised + 1 }) in
      if f.le (f.literal (pos 10) 0) s.value then rest else some s

  unfoldable pub scale_up : ℕ → Scaled R → Option (Scaled R)
  scale_up zero s = none
  scale_up (suc fuel) s =
      let rest =
        scale_up fuel
          (record s { value = f.mul s.value (f.literal (pos 10) 0); lowered = s.lowered + 1 }) in
      if f.lt s.value (f.literal (pos 1) 0) then rest else some s

  scaled_up : Option (Scaled R) → Option (Scaled R)
  scaled_up none = none
  scaled_up (some s) = scale_up turns s

  -- Both loops.
  unfoldable pub scale : R → Option (Scaled R)
  unfolding scaled_up
  scale v = scaled_up (scale_down turns (record { value = v; raised = 0; lowered = 0 }))

-- `to_u32` is the conversion to `uint32_t`.
module _ {R : Type 0} ⦃f : Float R⦄ (to_u32 : R → ℕ) where
  -- From the conversion on.
  unfoldable pub write_rounded : Scaled R → Writer → Writer
  write_rounded s w =
      let scaled =
        to_u32 (f.add (f.mul s.value (f.literal (pos 100000) 0)) (f.literal (pos 5) 1)) in
      if leb 1000000 scaled
      then write_scaled 100000 (s.raised + 1) s.lowered w
      else write_scaled scaled s.raised s.lowered w

  -- From `int exponent = 0` on.
  unfoldable pub write_positive : Writer → R → Option Writer
  write_positive w v = elim (scale v) [ none ↦ none | some s ↦ some (write_rounded s w) ]

  -- `none` when a loop does not end within its turns.
  unfoldable pub real : Writer → R → Option Writer
  real w v =
      if not (f.is_finite v)
      then some (string w (codes "invalid"))
      else if f.eq v (f.literal (pos 0) 0)
      then some (character w b'0')
      else if f.lt v (f.literal (pos 0) 0)
      then write_positive (character w b'-') (f.neg v)
      else write_positive w v
