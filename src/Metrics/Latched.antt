-- ===== src/Metrics/Latched.antt =====
-- The measurements over a whole run of samples.
use real_time_embedded_motio.Base.{
  ℕ, ◌≡◌, refl, sym, ◌∙◌, inl, inr, Bool, true, false, not, ◌&&◌, Option, none, some, List, [], ◌∷◌,
  if◌then◌else◌, All, Bool-cases,
}
use real_time_embedded_motio.Float.{Float, IsOrdered}
use real_time_embedded_motio.Application.{is_idle}
use real_time_embedded_motio.Motion.{MotionConfig, MotionSnapshot}
use real_time_embedded_motio.Metrics.{ControlMetrics, control_metrics_sample, raise_to}

pub record Sample (F : Type 0) : Type 0 where
  pub snapshot : MotionSnapshot F
  pub at_ms : ℕ

module _ {F : Type 0} where
  -- When the first sample in IDLE was taken.
  unfoldable pub first_idle : List (Sample F) → Option ℕ
  first_idle [] = none
  first_idle (x ∷ xs) = if is_idle x.snapshot.state then some x.at_ms else first_idle xs

  -- What a run does to the completion, from a completion so far.
  unfoldable pub completed_after : Bool → List (Sample F) → Bool
  completed_after true xs = true
  completed_after false xs = elim (first_idle xs) [ none ↦ false | some t ↦ true ]

  unfoldable pub completion_after : Bool → ℕ → List (Sample F) → ℕ
  completion_after true t xs = t
  completion_after false t xs = elim (first_idle xs) [ none ↦ t | some first ↦ first ]

completed_after_nil : (F : Type 0) (b : Bool) → completed_after {F = F} b [] ≡ b
unfolding completed_after first_idle
completed_after_nil F true = refl
completed_after_nil F false = refl

completion_after_nil : (F : Type 0) (b : Bool) (t : ℕ) → completion_after {F = F} b t [] ≡ t
unfolding completion_after first_idle
completion_after_nil F true t = refl
completion_after_nil F false t = refl

module _ {F : Type 0} where
  completed_after_cons :
      (b : Bool) (x : Sample F) (xs : List (Sample F))
      → completed_after b (x ∷ xs)
        ≡ completed_after (if not b && is_idle x.snapshot.state then true else b) xs
  unfolding completed_after first_idle
  completed_after_cons true x xs = refl
  completed_after_cons false x xs = elim (Bool-cases (is_idle x.snapshot.state)) [
    | inl e ↦ rw (e, completed_after, first_idle) refl
    | inr e ↦ rw (e, completed_after, first_idle) refl
  ]

  completion_after_cons :
      (b : Bool) (t : ℕ) (x : Sample F) (xs : List (Sample F))
      → completion_after b t (x ∷ xs)
        ≡ completion_after
            (if not b && is_idle x.snapshot.state then true else b)
            (if not b && is_idle x.snapshot.state then x.at_ms else t)
            xs
  unfolding completion_after first_idle
  completion_after_cons true t x xs = refl
  completion_after_cons false t x xs = elim (Bool-cases (is_idle x.snapshot.state)) [
    | inl e ↦ rw (e, completion_after, first_idle) refl
    | inr e ↦ rw (e, completion_after, first_idle) refl
  ]

module _ {F : Type 0} ⦃f : Float F⦄ (bits_of : F → ℕ) (c : MotionConfig F) where
  unfoldable pub sample_all : List (Sample F) → ControlMetrics F → ControlMetrics F
  sample_all [] m = m
  sample_all (x ∷ xs) m = sample_all xs (control_metrics_sample bits_of x.snapshot c x.at_ms m)

  completed-sample_all :
      (xs : List (Sample F)) (m : ControlMetrics F)
      → ((sample_all xs m).completed ≡ completed_after m.completed xs)
        × ((sample_all xs m).completion_ms ≡ completion_after m.completed m.completion_ms xs)
  unfolding sample_all control_metrics_sample first_idle completed_after completion_after
  completed-sample_all [] m = (
    sym (completed_after_nil F m.completed),
    sym (completion_after_nil F m.completed m.completion_ms),
  )
  completed-sample_all (x ∷ xs) m =
      let next = control_metrics_sample bits_of x.snapshot c x.at_ms m in
      let (done, time) = completed-sample_all xs next in
      (
        done ∙ sym (completed_after_cons m.completed x xs),
        time ∙ sym (completion_after_cons m.completed m.completion_ms x xs),
      )

module _ {F : Type 0} ⦃f : Float F⦄ where
  -- A sample whose duty cycle has a finite magnitude.
  abbrev pub IsMeasurable : Sample F → Type 0
  IsMeasurable x = f.is_finite (f.fabs x.snapshot.pwm) ≡ true

  -- What a run of samples leaves.
  pub record Measures (xs : List (Sample F)) (m n : ControlMetrics F) : Type 0 where
    pub completed_first : n.completed ≡ completed_after m.completed xs
    pub completion_first : n.completion_ms ≡ completion_after m.completed m.completion_ms xs
    pub maximum_kept : f.le m.maximum_pwm n.maximum_pwm ≡ true
    pub maximum_all : All (λ (x : Sample F). f.le (f.fabs x.snapshot.pwm) n.maximum_pwm ≡ true) xs

module _ {F : Type 0} ⦃f : Float F⦄ (order : IsOrdered F) (bits_of : F → ℕ)
    (c : MotionConfig F) where
  raise_to_lem :
      (m x : F)
      → f.is_finite m ≡ true
      → f.is_finite x ≡ true
      → (f.le m (raise_to m x) ≡ true)
        × (f.le x (raise_to m x) ≡ true)
        × (f.is_finite (raise_to m x) ≡ true)
  unfolding raise_to
  raise_to_lem m x a b = elim (Bool-cases (f.lt m x)) [
    | inl e ↦ rw e (order.le_of_lt m x e, order.le_refl x b, b)
    | inr e ↦ rw e (order.le_refl m a, order.le_of_not_lt m x a b e, a)
  ]

  maximum-sample_all :
      (xs : List (Sample F)) (m : ControlMetrics F)
      → All IsMeasurable xs
      → f.is_finite m.maximum_pwm ≡ true
      → let n = sample_all bits_of c xs m in
        (f.le m.maximum_pwm n.maximum_pwm ≡ true)
        × All (λ (x : Sample F). f.le (f.fabs x.snapshot.pwm) n.maximum_pwm ≡ true) xs
  unfolding sample_all control_metrics_sample
  maximum-sample_all [] m h e = (order.le_refl m.maximum_pwm e, tt)
  maximum-sample_all (x ∷ xs) m (p, h) e =
      let next = control_metrics_sample bits_of x.snapshot c x.at_ms m in
      let last = sample_all bits_of c xs next in
      let (kept, included, finite) = raise_to_lem m.maximum_pwm (f.fabs x.snapshot.pwm) e p in
      let (more, all) = maximum-sample_all xs next h finite in
      (
        order.le_trans m.maximum_pwm next.maximum_pwm last.maximum_pwm kept more,
        (
          order.le_trans (f.fabs x.snapshot.pwm) next.maximum_pwm last.maximum_pwm included more,
          all,
        ),
      )

  -- After any samples whose duty cycles have finite magnitudes, from a finite maximum: the move is completed if it was
  -- before or if some sample is in IDLE, the completion time is then that of the first such sample and
  -- does not change afterwards, and the maximum is at least the one before and the magnitude of every
  -- sample's duty cycle.
  pub sample_all-Measures :
      (xs : List (Sample F)) (m : ControlMetrics F)
      → All IsMeasurable xs
      → f.is_finite m.maximum_pwm ≡ true
      → Measures xs m (sample_all bits_of c xs m)
  sample_all-Measures xs m h e =
      let (done, time) = completed-sample_all bits_of c xs m in
      let (kept, all) = maximum-sample_all xs m h e in
      record {
        completed_first = done;
        completion_first = time;
        maximum_kept = kept;
        maximum_all = all;
      }
