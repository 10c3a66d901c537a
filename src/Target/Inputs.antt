-- ===== src/Target/Inputs.antt =====
-- firmware/platform/stm32/board.h and peripherals.c: the safety inputs on port C.
use real_time_embedded_motio.Base.{
  ℕ, ◌-◌, ◌/◌, ◌%◌, ◌^◌, Bool, not, Option, none, some, if◌then◌else◌, ◌==◌,
}
use real_time_embedded_motio.Drivers.Gpio.{GpioInputs}

abbrev pub board_estop_pin : ℕ
board_estop_pin = 1

abbrev pub board_negative_limit_pin : ℕ
board_negative_limit_pin = 2

abbrev pub board_positive_limit_pin : ℕ
board_positive_limit_pin = 3

-- `pins & (1UL << pin)` is not 0.
unfoldable pub pin_set : ℕ → ℕ → Bool
pin_set pins pin = not (pins / 2 ^ pin % 2 == 0)

-- `idr` is the input data register, and `active_high` is BOARD_INPUT_ACTIVE_HIGH, which a wiring profile
-- may change.
unfoldable pub port_read_inputs : Bool → Bool → ℕ → Option GpioInputs
port_read_inputs ready active_high idr =
    let pins = if active_high then idr else 4294967295 - idr in
    if ready
    then some (record {
      estop = pin_set pins board_estop_pin;
      negative_limit = pin_set pins board_negative_limit_pin;
      positive_limit = pin_set pins board_positive_limit_pin;
    })
    else none
