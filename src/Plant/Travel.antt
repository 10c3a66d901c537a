-- ===== src/Plant/Travel.antt =====
-- The simulated axis stays within its end stops, and its limit switches tell where it stands.
use real_time_embedded_motio.Base.{◌≡◌, refl, true, arith, ℤ}
use real_time_embedded_motio.Float.{Float, IsOrdered}
use real_time_embedded_motio.Plant.{
  Plant, PlantConfig, PlantState, integrate, hold_position, stop_low, stop_high, derive_peripherals,
  next_state, is_malformed, valid_config,
}

module _ {F : Type 0} ⦃f : Float F⦄ (laws : IsOrdered F) (round : F → ℤ) where
  open laws use {le_refl, le_of_lt, le_of_not_lt, le_of_not_le, le_trans}

  -- What a valid configuration has for the end stops.
  stops_ordered :
      (c : PlantConfig F)
      → valid_config c ≡ true
      → (f.le c.min_position c.max_position ≡ true)
        × (f.is_finite c.min_position ≡ true)
        × (f.is_finite c.max_position ≡ true)
  unfolding valid_config is_malformed
  stops_ordered c v = ground (arith, le_of_not_le c.max_position c.min_position)

  -- Between the end stops.
  pub record IsWithin (c : PlantConfig F) (s : PlantState F) : Type 0 where
    pub above : f.le c.min_position s.position ≡ true
    pub below : f.le s.position c.max_position ≡ true

  stop-IsWithin :
      (c : PlantConfig F) (s : PlantState F)
      → valid_config c ≡ true
      → f.is_finite s.position ≡ true
      → IsWithin c (stop_high c (stop_low c s))
  unfolding stop_high stop_low
  stop-IsWithin c s v h = ground (
    arith,
    stops_ordered c v,
    le_refl c.min_position,
    le_refl c.max_position,
    le_of_not_le s.position c.min_position h,
    le_of_not_le c.max_position s.position,
  )

  -- A step of a valid plant whose integrated position is finite ends between the end stops, and its
  -- limit flags are those of its position.
  pub next_state-IsWithin :
      (plant : Plant F) (pwm : F)
      → valid_config plant.config ≡ true
      → f.is_finite
          (hold_position plant.stalled plant.state.position
            (integrate plant.config pwm plant.state)).position
        ≡ true
      → let s = next_state round plant pwm in
        IsWithin plant.config s
        × (s.negative_limit ≡ f.le s.position plant.config.min_position)
        × (s.positive_limit ≡ f.le plant.config.max_position s.position)
  unfolding next_state derive_peripherals
  next_state-IsWithin plant pwm v h =
      let c = plant.config in
      let moved = hold_position plant.stalled plant.state.position (integrate c pwm plant.state) in
      let w = stop-IsWithin c moved v h in (record { above = w.above; below = w.below }, refl, refl)
