-- ===== src/Tasks/Init.antt =====
-- What runs before the scheduler: `platform_init` (firmware/platform/host/platform_host.c) and
-- `runtime_init` (firmware/rtos/runtime.c).
use real_time_embedded_motio.Base.{ℕ, Bool, true}
use real_time_embedded_motio.Float.{Float}
use real_time_embedded_motio.Drivers.Motor.{motor_init, motor_safety_inhibit}
use real_time_embedded_motio.Drivers.Encoder.{encoder_init}
use real_time_embedded_motio.Drivers.Gpio.{gpio_init}
use real_time_embedded_motio.Drivers.Timer.{timer_init, timer_now_ms}
use real_time_embedded_motio.Drivers.Watchdog.{Watchdog, watchdog_init}
use real_time_embedded_motio.Runtime.{Runtime, RuntimeSnapshot, initial_data, platform_time_ms}

module _ {F : Type 0} ⦃f : Float F⦄ where
  -- The drivers, in the order of their initialization. The flag is that of `watchdog_init`; the
  -- UART's configuration is constant and valid.
  unfoldable pub platform_init : Watchdog → ℕ → RuntimeSnapshot F → Runtime F × Bool
  platform_init watchdog tick snapshot =
      let (started, done) =
        watchdog_init watchdog 1000 timer_init.resolution (timer_now_ms timer_init tick) in
      (
        record {
          runtime_data = snapshot;
          motor = motor_init;
          encoder = encoder_init;
          gpio = gpio_init;
          timer = timer_init;
          watchdog = started;
          tick = tick;
        },
        done,
      )

  -- The part of `runtime_init` that concerns the shared record and the motor.
  unfoldable pub runtime_init : Runtime F → Runtime F
  runtime_init w = record w {
    runtime_data = initial_data (platform_time_ms w);
    motor = motor_safety_inhibit w.motor true;
  }
