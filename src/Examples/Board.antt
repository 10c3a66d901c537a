-- ===== src/Examples/Board.antt =====
-- The theorems about the board's drivers and the simulated axis at concrete inputs.
use real_time_embedded_motio.Metrics.{control_metrics_init}
use real_time_embedded_motio.Metrics.Latched.{Sample, sample_all, Measures, sample_all-Measures}
use real_time_embedded_motio.Application.{AppState}
use real_time_embedded_motio.Motion.{motion_default_config}
use real_time_embedded_motio.Target.Uart.{wait_flag}
use real_time_embedded_motio.Target.Watchdog.{WatchdogDevice, watchdog_init, start_device}
use real_time_embedded_motio.Base.{
  ℕ, ◌≡◌, refl, true, false, none, some, ℤ, ◌+ℤ◌, ◌-ℤ◌, pos, negsuc, arith, List, [], ◌∷◌, ltb,
}
use real_time_embedded_motio.Float.Fixed.{Fixed, fixed_float, Fixed-IsOrdered}
use real_time_embedded_motio.Drivers.Motor.{motor_set_output}
use real_time_embedded_motio.Drivers.Encoder.{encoder_get_count}
use real_time_embedded_motio.Target.Motor.{Bridge, bridge_set_output}
use real_time_embedded_motio.Target.Motor.Refines.{gate_of, IsQuiet, bridge-Refines}
use real_time_embedded_motio.Target.Encoder.{
  Quadrature, quadrature_get_count, encoder_of, quadrature-Refines,
}
use real_time_embedded_motio.Plant.{
  Plant, plant_default_config, start_state, next_state, valid_config, is_malformed,
  is_representable, integrate, hold_position, saturate_velocity,
}
use real_time_embedded_motio.Plant.Travel.{IsWithin, next_state-IsWithin}
use real_time_embedded_motio.Examples.{thousandths, resting_at}

abbrev units : Fixed → ℕ
units none = 0
units (some (pos n)) = n
units (some (negsuc n)) = 0

abbrev driven_bridge : Bridge Fixed
driven_bridge = record {
  initialized = true;
  inhibited = false;
  negative_blocked = false;
  requested = thousandths 500;
  output = thousandths 500;
  channel = true;
  duty = 400;
  forward = true;
}

driven-IsQuiet : IsQuiet driven_bridge
driven-IsQuiet = ground arith

bridge_example :
    (gate_of (bridge_set_output units driven_bridge (thousandths 1500)).0
      ≡ (motor_set_output (gate_of driven_bridge) (thousandths 1500)).0)
bridge_example =
    (bridge-Refines units driven_bridge (thousandths 1500) true refl refl driven-IsQuiet).0

quadrature_example :
    let e : Quadrature = record {
      initialized = true;
      counter = 4294967290;
      reference_offset = 0;
    } in
    quadrature_get_count e ≡ encoder_get_count (encoder_of e)
quadrature_example =
    (quadrature-Refines (record { initialized = true; counter = 4294967290; reference_offset = 0 })
      (pos 7)).0

abbrev nearest : Fixed → ℤ
nearest none = pos 0
nearest (some z) = z

-- The default axis at its upper end, driven outwards.
abbrev ending : Plant Fixed
ending = record {
  config = plant_default_config;
  state = start_state (thousandths 5000000);
  initialized = true;
  stalled = false;
  encoder_frozen = false;
}

plant_example :
    IsWithin Fixed-IsOrdered nearest plant_default_config
      (next_state nearest ending (thousandths 800))
unfolding valid_config is_malformed is_representable integrate hold_position saturate_velocity ◌+ℤ◌
    ◌-ℤ◌
plant_example = (next_state-IsWithin Fixed-IsOrdered nearest ending (thousandths 800) refl refl).0

abbrev device : WatchdogDevice
device = record { ready = false; writes = []; reads = 0 }

-- That initialization is accepted.
watchdog_accepted : (watchdog_init (λ n. ltb 2 n) (λ n. true) 250 device).1 ≡ true
unfolding watchdog_init start_device wait_flag
watchdog_accepted = refl

abbrev sample_at : AppState → ℕ → Sample Fixed
sample_at state at_ms = record {
  snapshot = record ((resting_at (pos 40)).snapshot) { state = state; pwm = thousandths at_ms };
  at_ms = at_ms;
}

abbrev run : List (Sample Fixed)
run = sample_at AppState.moving 20 ∷ sample_at AppState.idle 40 ∷ sample_at AppState.idle 60 ∷ []

measured_example :
    Measures run
      (control_metrics_init (pos 0) (pos 40))
      (sample_all units motion_default_config run (control_metrics_init (pos 0) (pos 40)))
unfolding control_metrics_init
measured_example =
    sample_all-Measures Fixed-IsOrdered units motion_default_config run
      (control_metrics_init (pos 0) (pos 40)) (refl, (refl, (refl, tt))) refl
