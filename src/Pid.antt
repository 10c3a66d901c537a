-- ===== src/Pid.antt =====
-- firmware/control/pid.h and pid.c: the controller of one scalar.
pub mod Bounds
use real_time_embedded_motio.Base.{Bool, true, false, not, ◌||◌, Option, none, some, if◌then◌else◌}
use real_time_embedded_motio.Float.{Float, nought}

-- `pid_config_t`.
pub record PidConfig (F : Type 0) : Type 0 where
  pub kp : F
  pub ki : F
  pub kd : F
  pub output_min : F
  pub output_max : F
  pub integral_min : F
  pub integral_max : F

-- `pid_controller_t`.
pub record PidController (F : Type 0) : Type 0 where
  pub config : PidConfig F
  pub integral : F
  pub previous_measurement : F
  pub initialized : Bool
  pub sampled : Bool

module _ {F : Type 0} ⦃f : Float F⦄ where
  unfoldable pub clamp : F → F → F → F
  clamp value low high = if f.lt value low then low else if f.lt high value then high else value

  -- The condition under which `pid_init` refuses a configuration.
  unfoldable pub is_refused : PidConfig F → Bool
  is_refused c =
      not (f.is_finite c.kp)
      || f.lt c.kp nought
      || not (f.is_finite c.ki)
      || f.lt c.ki nought
      || not (f.is_finite c.kd)
      || f.lt c.kd nought
      || not (f.is_finite c.output_min)
      || not (f.is_finite c.output_max)
      || f.le c.output_max c.output_min
      || not (f.is_finite c.integral_min)
      || not (f.is_finite c.integral_max)
      || f.lt nought c.integral_min
      || f.lt c.integral_max nought
      || f.lt c.integral_max c.integral_min

  -- `none` is the C function's `false`, with the controller unchanged.
  unfoldable pub pid_init : PidConfig F → Option (PidController F)
  pid_init c =
      if is_refused c
      then none
      else some (record {
        config = c;
        integral = nought;
        previous_measurement = nought;
        initialized = true;
        sampled = false;
      })

  unfoldable pub pid_reset : PidController F → PidController F
  pid_reset pid = record pid { integral = nought; previous_measurement = nought; sampled = false }

  -- The locals `candidate`, `derivative` and `sum`, as the C expressions associate.
  unfoldable pub candidate_of : PidController F → F → F → F
  candidate_of pid error dt = f.add pid.integral (f.mul (f.mul pid.config.ki error) dt)

  unfoldable pub derivative_of : PidController F → F → F → F
  derivative_of pid measurement dt =
      if pid.sampled then f.div (f.neg (f.sub measurement pid.previous_measurement)) dt else nought

  unfoldable pub sum_of : PidController F → F → F → F → F
  sum_of pid error integral derivative =
      f.add (f.add (f.mul pid.config.kp error) integral) (f.mul pid.config.kd derivative)

  -- The new controller and `*output`; `none` is the C function's `false`, with both unchanged.
  unfoldable pub pid_update : PidController F → F → F → F → Option (PidController F × F)
  pid_update pid target measurement dt =
      if not pid.initialized
        || not (f.is_finite target)
        || not (f.is_finite measurement)
        || not (f.is_finite dt)
        || f.le dt nought
      then none
      else let c = pid.config in
        let error = f.sub target measurement in
        let candidate = candidate_of pid error dt in
        let derivative = derivative_of pid measurement dt in
        let integral = clamp candidate c.integral_min c.integral_max in
        let sum = sum_of pid error integral derivative in
        if not (f.is_finite error) || not (f.is_finite candidate) || not (f.is_finite derivative)
        then none
        else if not (f.is_finite sum)
        then none
        else some (
          record pid { integral = integral; previous_measurement = measurement; sampled = true },
          clamp sum c.output_min c.output_max,
        )
