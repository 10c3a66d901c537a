-- ===== src/Pid/Bounds.antt =====
-- The outputs and the integral of the controller stay inside the configured bounds.
use real_time_embedded_motio.Base.{◌≡◌, true, false, some, arith}
use real_time_embedded_motio.Float.{Float, IsOrdered}
use real_time_embedded_motio.Pid.{
  PidConfig, PidController, clamp, is_refused, pid_update, candidate_of, derivative_of, sum_of,
}

module _ {F : Type 0} ⦃f : Float F⦄ (laws : IsOrdered F) where
  open laws use {le_refl, le_of_lt, le_of_not_lt, le_of_not_le, le_trans}

  -- A finite value clamped to an ordered finite range lies in it.
  clamp_bounds :
      (value low high : F)
      → f.is_finite value ≡ true
      → f.is_finite low ≡ true
      → f.is_finite high ≡ true
      → f.le low high ≡ true
      → (f.le low (clamp value low high) ≡ true) × (f.le (clamp value low high) high ≡ true)
  unfolding clamp
  clamp_bounds value low high v l h o = ground (
    arith,
    le_refl low l,
    le_refl high h,
    le_of_not_lt value low v l,
    le_of_not_lt high value h v,
  )

  -- What an accepted configuration has.
  pub record HasRanges (c : PidConfig F) : Type 0 where
    pub output_min_finite : f.is_finite c.output_min ≡ true
    pub output_max_finite : f.is_finite c.output_max ≡ true
    pub output_ordered : f.le c.output_min c.output_max ≡ true
    pub integral_min_finite : f.is_finite c.integral_min ≡ true
    pub integral_max_finite : f.is_finite c.integral_max ≡ true
    pub integral_ordered : f.le c.integral_min c.integral_max ≡ true

  ranges_of_accepted : (c : PidConfig F) → is_refused c ≡ false → HasRanges c
  unfolding is_refused
  ranges_of_accepted c h =
      ground
        (arith, le_of_not_le c.output_max c.output_min, le_of_not_lt c.integral_max c.integral_min)

  -- With a configuration that `pid_init` accepts, every successful update has its output within
  -- [output_min, output_max] and the new integral within [integral_min, integral_max], keeps the
  -- configuration, and remembers the measurement.
  pub pid_update_bounds :
      (pid : PidController F) (target measurement dt : F) {pid' : PidController F} {output : F}
      → is_refused pid.config ≡ false
      → pid_update pid target measurement dt ≡ some (pid', output)
      → (f.le pid.config.output_min output ≡ true)
        × (f.le output pid.config.output_max ≡ true)
        × (f.le pid.config.integral_min pid'.integral ≡ true)
        × (f.le pid'.integral pid.config.integral_max ≡ true)
        × (pid'.config ≡ pid.config)
        × (pid'.previous_measurement ≡ measurement)
  unfolding pid_update
  pid_update_bounds pid target measurement dt h e =
      let c = pid.config in
      let error = f.sub target measurement in
      let candidate = candidate_of pid error dt in
      let integral = clamp candidate c.integral_min c.integral_max in
      let sum = sum_of pid error integral (derivative_of pid measurement dt) in
      ground (
        arith,
        ranges_of_accepted c h,
        clamp_bounds candidate c.integral_min c.integral_max,
        clamp_bounds sum c.output_min c.output_max,
      )
