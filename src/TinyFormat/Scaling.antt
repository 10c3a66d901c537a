-- ===== src/TinyFormat/Scaling.antt =====
-- The loops of `real` end, and what it writes is short.
use real_time_embedded_motio.Base.{
  ℕ, zero, suc, ◌+◌, ◌≤◌, ◌<◌, ◌≡◌, refl, inl, inr, true, false, Option, some, [], ◌∷◌, arith,
  Bool-cases, pos, codes,
}
use real_time_embedded_motio.Float.{Float}
use real_time_embedded_motio.TinyFormat.{Writer, character, string}
use real_time_embedded_motio.TinyFormat.Real.{
  Scaled, scale_down, scale_up, write_rounded, scale, write_positive, real,
}
use real_time_embedded_motio.TinyFormat.Appends.{string-Appends, character-Appends}
use real_time_embedded_motio.TinyFormat.Texts.{
  Bounded, Bounded-append, Bounded-character, Bounded-write_rounded,
}

-- What the loops rely on: how often a finite value can be divided by ten until it is below ten, and how
-- often a positive one can be multiplied until it is one at least. In `double` that is 308 and 324 at
-- most. An infinite value is not less after a division, so the first count is about finite ones.
pub record IsScalable (R : Type 0) ⦃f : Float R⦄ : Type 0 where
  pub divisions : R → ℕ
  pub multiplications : R → ℕ
  pub divisions-div :
      (v : R)
      → f.is_finite v ≡ true
      → f.le (f.literal (pos 10) 0) v ≡ true
      → divisions (f.div v (f.literal (pos 10) 0)) < divisions v
  pub multiplications-mul :
      (v : R)
      → f.lt (f.literal (pos 0) 0) v ≡ true
      → f.lt v (f.literal (pos 1) 0) ≡ true
      → multiplications (f.mul v (f.literal (pos 10) 0)) < multiplications v
  -- The result of a division is one at least.
  pub multiplications-div :
      (v : R)
      → f.le (f.literal (pos 10) 0) v ≡ true
      → multiplications (f.div v (f.literal (pos 10) 0)) ≡ 0
  pub finite_div :
      (v : R)
      → f.is_finite v ≡ true
      → f.le (f.literal (pos 10) 0) v ≡ true
      → f.is_finite (f.div v (f.literal (pos 10) 0)) ≡ true
  pub finite_neg : (v : R) → f.is_finite v ≡ true → f.is_finite (f.neg v) ≡ true
  pub positive_div :
      (v : R)
      → f.le (f.literal (pos 10) 0) v ≡ true
      → f.lt (f.literal (pos 0) 0) (f.div v (f.literal (pos 10) 0)) ≡ true
  pub positive_mul :
      (v : R)
      → f.lt (f.literal (pos 0) 0) v ≡ true
      → f.lt (f.literal (pos 0) 0) (f.mul v (f.literal (pos 10) 0)) ≡ true
  pub positive_neg :
      (v : R) → f.lt v (f.literal (pos 0) 0) ≡ true → f.lt (f.literal (pos 0) 0) (f.neg v) ≡ true
  pub positive_rest :
      (v : R)
      → f.is_finite v ≡ true
      → f.eq v (f.literal (pos 0) 0) ≡ false
      → f.lt v (f.literal (pos 0) 0) ≡ false
      → f.lt (f.literal (pos 0) 0) v ≡ true

-- The operation that `real` is at a value.
pub record Writes (n : ℕ) (g : Writer → Option Writer) : Type 0 where
  pub operation : Writer → Writer
  pub runs : (w : Writer) → g w ≡ some (operation w)
  pub bounded : Bounded n operation

module _ {R : Type 0} ⦃f : Float R⦄ (scalable : IsScalable R) where
  -- A value of the magnitudes of `double`.
  pub record Displayable (v : R) : Type 0 where
    pub down : scalable.divisions v < 400
    pub up : scalable.multiplications v < 400

  abbrev IsPositive : R → Type 0
  IsPositive v = f.lt (f.literal (pos 0) 0) v ≡ true

  -- What the first loop leaves.
  record Lowered (fuel : ℕ) (s : Scaled R) : Type 0 where
    pub after : Scaled R
    pub ends : scale_down fuel s ≡ some after
    pub positive : IsPositive after.value
    pub raised_bound : after.raised ≤ s.raised + fuel
    pub lowered_same : after.lowered ≡ s.lowered
    pub not_more : scalable.multiplications after.value ≤ scalable.multiplications s.value

  scale_down-Lowered :
      (fuel : ℕ) (s : Scaled R)
      → f.is_finite s.value ≡ true
      → IsPositive s.value
      → scalable.divisions s.value < fuel
      → Lowered fuel s
  unfolding scale_down
  scale_down-Lowered zero s i p h = absurd (omega arith)
  scale_down-Lowered (suc fuel) s i p h = elim (Bool-cases (f.le (f.literal (pos 10) 0) s.value)) [
    | inl e ↦
        let less = scalable.divisions-div s.value i e in
        let none_left = scalable.multiplications-div s.value e in
        let next : Scaled R = record {
          value = f.div s.value (f.literal (pos 10) 0);
          raised = s.raised + 1;
          lowered = s.lowered;
        } in
        let rest =
          scale_down-Lowered fuel next (scalable.finite_div s.value i e)
            (scalable.positive_div s.value e) (omega (arith, less, h)) in
        record {
          after = rest.after;
          ends = rw e rest.ends;
          positive = rest.positive;
          raised_bound = omega (arith, rest.raised_bound);
          lowered_same = rest.lowered_same;
          not_more = omega (arith, rest.not_more, none_left);
        }
    | inr e ↦ record {
      after = s;
      ends = rw e refl;
      positive = p;
      raised_bound = omega arith;
      lowered_same = refl;
      not_more = omega arith;
    }
  ]

  -- What the second loop leaves.
  record Raised (fuel : ℕ) (s : Scaled R) : Type 0 where
    pub after : Scaled R
    pub ends : scale_up fuel s ≡ some after
    pub lowered_bound : after.lowered ≤ s.lowered + fuel
    pub raised_same : after.raised ≡ s.raised

  scale_up-Raised :
      (fuel : ℕ) (s : Scaled R)
      → IsPositive s.value
      → scalable.multiplications s.value < fuel
      → Raised fuel s
  unfolding scale_up
  scale_up-Raised zero s p h = absurd (omega arith)
  scale_up-Raised (suc fuel) s p h = elim (Bool-cases (f.lt s.value (f.literal (pos 1) 0))) [
    | inl e ↦
        let less = scalable.multiplications-mul s.value p e in
        let next : Scaled R = record {
          value = f.mul s.value (f.literal (pos 10) 0);
          raised = s.raised;
          lowered = s.lowered + 1;
        } in
        let rest =
          scale_up-Raised fuel next (scalable.positive_mul s.value p) (omega (arith, less, h)) in
        record {
          after = rest.after;
          ends = rw e rest.ends;
          lowered_bound = omega (arith, rest.lowered_bound);
          raised_same = rest.raised_same;
        }
    | inr e ↦ record {
      after = s;
      ends = rw e refl;
      lowered_bound = omega arith;
      raised_same = refl;
    }
  ]

  scale-Ends :
      (v : R)
      → f.is_finite v ≡ true
      → IsPositive v
      → Displayable v
      → (s : Scaled R) × (scale v ≡ some s) × (s.raised ≤ 400) × (s.lowered ≤ 400)
  unfolding scale
  scale-Ends v i p d =
      let l = scale_down-Lowered 400 (record { value = v; raised = 0; lowered = 0 }) i p d.down in
      let r = scale_up-Raised 400 l.after l.positive (omega (arith, l.not_more, d.up)) in
      (
        r.after,
        rw l.ends r.ends,
        omega (arith, r.raised_same, l.raised_bound),
        omega (arith, r.lowered_bound, l.lowered_same),
      )

  write_positive-Writes :
      (to_u32 : R → ℕ) (v : R)
      → f.is_finite v ≡ true
      → IsPositive v
      → Displayable v
      → Writes 24 (λ w. write_positive to_u32 w v)
  unfolding write_positive
  write_positive-Writes to_u32 v i p d =
      let (s, e, r, l) = scale-Ends v i p d in
      record {
        operation = λ w. write_rounded to_u32 s w;
        runs = λ w. rw (e, write_positive) refl;
        bounded = Bounded-write_rounded to_u32 s r l;
      }

  -- In a type with the laws of `IsScalable`, which leaves room for infinities and NaN: at every value
  -- that, as it is and negated, needs fewer than 400 divisions and multiplications, `real` ends,
  -- without using up its turns, and appends a text of at most 25 bytes.
  pub real-Writes :
      (to_u32 : R → ℕ) (v : R)
      → Displayable v
      → Displayable (f.neg v)
      → Writes 25 (λ w. real to_u32 w v)
  unfolding real
  real-Writes to_u32 v d n = elim (Bool-cases (f.is_finite v)) [
    | inr e ↦ record {
      operation = λ w. string w (codes "invalid");
      runs = λ w. rw e refl;
      bounded = record {
        text = codes "invalid";
        short = omega arith;
        appends = string-Appends (codes "invalid");
      };
    }
    | inl e ↦ elim (Bool-cases (f.eq v (f.literal (pos 0) 0))) [
      | inl z ↦ record {
        operation = λ w. character w b'0';
        runs = λ w. rw (e, z) refl;
        bounded = record {
          text = b'0' ∷ [];
          short = omega arith;
          appends = character-Appends b'0';
        };
      }
      | inr z ↦ elim (Bool-cases (f.lt v (f.literal (pos 0) 0))) [
        | inl m ↦
            let p =
              write_positive-Writes to_u32 (f.neg v) (scalable.finite_neg v e)
                (scalable.positive_neg v m) n in
            record {
              operation = λ w. p.operation (character w b'-');
              runs = λ w. rw (e, z, m) (p.runs (character w b'-'));
              bounded = Bounded-append 1 24 _ _ (Bounded-character b'-') p.bounded;
            }
        | inr m ↦
            let p = write_positive-Writes to_u32 v e (scalable.positive_rest v e z m) d in
            record {
              operation = p.operation;
              runs = λ w. rw (e, z, m) (p.runs w);
              bounded =
                  let b = p.bounded in
                  record { text = b.text; short = omega (arith, b.short); appends = b.appends };
            }
      ]
    ]
  ]
