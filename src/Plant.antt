-- ===== src/Plant.antt =====
-- simulator/plant_model.h and plant_model.c: the simulated axis that the host's drivers connect to.
pub mod Travel
use real_time_embedded_motio.Base.{
  ℕ, ◌+◌, ◌≡◌, Bool, true, false, not, ◌&&◌, ◌||◌, Option, none, some, if◌then◌else◌, ◌==◌, ltb, ℤ,
  pos, int32_min, int32_max,
}
use real_time_embedded_motio.Float.{Float, nought, one}
use real_time_embedded_motio.Drivers.Motor.{Motor, motor_disable}
use real_time_embedded_motio.Drivers.Encoder.{Encoder, encoder_get_count, encoder_host_set_count}
use real_time_embedded_motio.Drivers.Gpio.{
  Gpio, gpio_read_inputs, gpio_host_set_negative_limit, gpio_host_set_positive_limit,
}

-- `plant_config_t`.
pub record PlantConfig (F : Type 0) : Type 0 where
  pub motor_gain : F
  pub damping : F
  pub max_velocity : F
  pub min_position : F
  pub max_position : F
  pub encoder_counts_per_unit : F
  pub step_ms : ℕ

-- `plant_state_t`.
pub record PlantState (F : Type 0) : Type 0 where
  pub position : F
  pub velocity : F
  pub acceleration : F
  pub applied_pwm : F
  pub raw_encoder_count : ℤ
  pub negative_limit : Bool
  pub positive_limit : Bool
  pub steps : ℕ

-- `plant_model_t`.
pub record Plant (F : Type 0) : Type 0 where
  pub config : PlantConfig F
  pub state : PlantState F
  pub initialized : Bool
  pub stalled : Bool
  pub encoder_frozen : Bool

-- The peripherals that the plant drives.
pub record Peripherals : Type 0 where
  pub encoder : Encoder
  pub gpio : Gpio

-- `publish`: a signal that cannot be set leaves the later ones as they were.
unfoldable pub publish_limits : Bool → Bool → Gpio → Gpio × Bool
publish_limits negative positive g =
    let (g1, set_negative) = gpio_host_set_negative_limit g negative in
    let (g2, set_positive) = gpio_host_set_positive_limit g1 positive in
    if set_negative then (g2, set_positive) else (g1, false)

module _ {F : Type 0} ⦃f : Float F⦄ where
  abbrev pub plant_default_config : PlantConfig F
  plant_default_config = record {
    motor_gain = f.literal (pos 2000) 0;
    damping = f.literal (pos 4) 0;
    max_velocity = f.literal (pos 600) 0;
    min_position = nought;
    max_position = f.literal (pos 5000) 0;
    encoder_counts_per_unit = one;
    step_ms = 1;
  }

  unfoldable pub publish : PlantState F → Bool → Peripherals → Peripherals × Bool
  publish state frozen p =
      let (encoder, counted) = encoder_host_set_count p.encoder state.raw_encoder_count in
      let (gpio, done) = publish_limits state.negative_limit state.positive_limit p.gpio in
      if not p.encoder.initialized || not p.gpio.initialized
      then (p, false)
      else if frozen
      then (record p { gpio = gpio }, done)
      else if counted
      then (record p { encoder = encoder; gpio = gpio }, done)
      else (p, false)

  abbrev pub step_dt : PlantConfig F → F
  step_dt c = f.div (f.of_int (pos c.step_ms)) (f.literal (pos 1000) 0)

  -- The locals of `valid_config`, and its conditions.
  abbrev pub acceleration_bound : PlantConfig F → F
  acceleration_bound c = f.add c.motor_gain (f.mul c.damping c.max_velocity)

  unfoldable pub is_malformed : PlantConfig F → Bool
  is_malformed c =
      not (f.is_finite c.motor_gain)
      || f.le c.motor_gain nought
      || not (f.is_finite c.damping)
      || f.lt c.damping nought
      || not (f.is_finite c.max_velocity)
      || f.le c.max_velocity nought
      || not (f.is_finite c.min_position)
      || not (f.is_finite c.max_position)
      || f.le c.max_position c.min_position
      || not (f.is_finite c.encoder_counts_per_unit)
      || f.le c.encoder_counts_per_unit nought
      || c.step_ms == 0
      || ltb 1000 c.step_ms

  unfoldable pub is_representable : PlantConfig F → Bool
  is_representable c =
      let dt = step_dt c in
      let low = f.mul c.min_position c.encoder_counts_per_unit in
      let high = f.mul c.max_position c.encoder_counts_per_unit in
      f.le (f.mul c.damping dt) one
      && f.is_finite (acceleration_bound c)
      && f.is_finite (f.add c.max_velocity (f.mul (acceleration_bound c) dt))
      && f.is_finite (f.sub c.min_position (f.mul c.max_velocity dt))
      && f.is_finite (f.add c.max_position (f.mul c.max_velocity dt))
      && f.is_finite low
      && f.is_finite high
      && f.le (f.of_int int32_min) low
      && f.le high (f.of_int (pos int32_max))

  unfoldable pub valid_config : PlantConfig F → Bool
  valid_config c = not (is_malformed c) && is_representable c

  -- The statements of `plant_step` up to the new position: the drive and the saturated velocity.
  unfoldable pub saturate_velocity : PlantConfig F → F → F
  saturate_velocity c velocity =
      let low = if f.lt c.max_velocity velocity then c.max_velocity else velocity in
      if f.lt low (f.neg c.max_velocity) then f.neg c.max_velocity else low

  unfoldable pub integrate : PlantConfig F → F → PlantState F → PlantState F
  integrate c pwm s =
      let dt = step_dt c in
      let acceleration = f.sub (f.mul c.motor_gain pwm) (f.mul c.damping s.velocity) in
      let velocity = saturate_velocity c (f.add s.velocity (f.mul acceleration dt)) in
      record s {
        applied_pwm = pwm;
        acceleration = acceleration;
        velocity = velocity;
        position = f.add s.position (f.mul velocity dt);
      }

  -- `if (plant->stalled)`: the position before the step.
  unfoldable pub hold_position : Bool → F → PlantState F → PlantState F
  hold_position stalled position s =
      if stalled
      then record s { position = position; velocity = nought; acceleration = nought }
      else s

  -- The two end stops.
  unfoldable pub stop_low : PlantConfig F → PlantState F → PlantState F
  stop_low c s =
      if f.le s.position c.min_position
      then record s {
        position = c.min_position;
        velocity = if f.lt s.velocity nought then nought else s.velocity;
      }
      else s

  unfoldable pub stop_high : PlantConfig F → PlantState F → PlantState F
  stop_high c s =
      if f.le c.max_position s.position
      then record s {
        position = c.max_position;
        velocity = if f.lt nought s.velocity then nought else s.velocity;
      }
      else s

  -- The state at a position, before its peripherals are derived.
  abbrev pub start_state : F → PlantState F
  start_state position = record {
    position = position;
    velocity = nought;
    acceleration = nought;
    applied_pwm = nought;
    raw_encoder_count = pos 0;
    negative_limit = false;
    positive_limit = false;
    steps = 0;
  }

  -- `round` is C's `round` with the conversion to `int32_t`.
  module _ (round : F → ℤ) where
    unfoldable pub derive_peripherals : PlantConfig F → PlantState F → PlantState F
    derive_peripherals c s = record s {
      raw_encoder_count = round (f.mul s.position c.encoder_counts_per_unit);
      negative_limit = f.le s.position c.min_position;
      positive_limit = f.le c.max_position s.position;
    }

    -- The plant and the motor, or `none` where the C function returns `false`, with the peripherals.
    unfoldable pub plant_init :
        PlantConfig F → F → Motor F → Peripherals → Option (Plant F × Motor F) × Peripherals
    plant_init c position motor p =
        let state = derive_peripherals c (start_state position) in
        let (published, done) = publish state false p in
        let plant : Plant F = record {
          config = c;
          state = state;
          initialized = true;
          stalled = false;
          encoder_frozen = false;
        } in
        if not (valid_config c)
          || not (f.is_finite position)
          || f.lt position c.min_position
          || f.lt c.max_position position
        then (none, p)
        else if done
        then (some (plant, motor_disable motor), published)
        else (none, published)

    -- The next state of `plant_step`; `pwm` is what `motor_get_commanded_output` returns.
    unfoldable pub next_state : Plant F → F → PlantState F
    next_state plant pwm =
        let c = plant.config in
        let moved =
          hold_position plant.stalled plant.state.position (integrate c pwm plant.state) in
        let stopped = stop_high c (stop_low c moved) in
        derive_peripherals c (record stopped { steps = stopped.steps + 1 })

    unfoldable pub plant_step : Plant F → F → Peripherals → Plant F × Peripherals × Bool
    plant_step plant pwm p =
        let next = next_state plant pwm in
        let (published, done) = publish next plant.encoder_frozen p in
        if not plant.initialized || plant.state.steps == 18446744073709551615
        then (plant, p, false)
        else if done
        then (record plant { state = next }, published, true)
        else (plant, published, false)

    -- As `plant_init`.
    unfoldable pub plant_reset :
        Plant F → F → Motor F → Peripherals → Option (Plant F × Motor F) × Peripherals
    plant_reset plant position motor p =
        if plant.initialized then plant_init plant.config position motor p else (none, p)

    unfoldable pub plant_snapshot : Plant F → Option (PlantState F)
    plant_snapshot plant = if plant.initialized then some plant.state else none
