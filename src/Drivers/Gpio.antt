-- ===== src/Drivers/Gpio.antt =====
-- firmware/drivers/gpio.h and firmware/platform/host/gpio_host.c: the safety inputs.
use real_time_embedded_motio.Base.{Bool, true, false, Option, none, some, if◌then◌else◌}

-- `gpio_inputs_t`.
pub record GpioInputs : Type 0 where
  pub estop : Bool
  pub negative_limit : Bool
  pub positive_limit : Bool

abbrev pub no_inputs : GpioInputs
no_inputs = record { estop = false; negative_limit = false; positive_limit = false }

-- The static variables of gpio_host.c.
pub record Gpio : Type 0 where
  pub initialized : Bool
  pub state : GpioInputs

unfoldable pub gpio_init : Gpio
gpio_init = record { initialized = true; state = no_inputs }

-- `none` is the C function's `false`, with the caller's variable unchanged.
unfoldable pub gpio_read_inputs : Gpio → Option GpioInputs
gpio_read_inputs g = if g.initialized then some g.state else none

-- `set_signal` on a copy of the inputs in which the signal has its new value.
set_signal : Gpio → GpioInputs → Gpio × Bool
set_signal g changed = if g.initialized then (record g { state = changed }, true) else (g, false)

unfoldable pub gpio_host_set_estop : Gpio → Bool → Gpio × Bool
unfolding set_signal
gpio_host_set_estop g active = set_signal g (record (g.state) { estop = active })

unfoldable pub gpio_host_set_negative_limit : Gpio → Bool → Gpio × Bool
unfolding set_signal
gpio_host_set_negative_limit g active = set_signal g (record (g.state) { negative_limit = active })

unfoldable pub gpio_host_set_positive_limit : Gpio → Bool → Gpio × Bool
unfolding set_signal
gpio_host_set_positive_limit g active = set_signal g (record (g.state) { positive_limit = active })
