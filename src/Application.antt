-- ===== src/Application.antt =====
-- firmware/app/application.h and application.c: the states of the system and the startup sequence.
use Prim.Native.String.{String}
use real_time_embedded_motio.Base.{ℕ, Bool, true, false, Option, none, some}
use real_time_embedded_motio.Float.{Float}
use real_time_embedded_motio.Drivers.Motor.{Motor, motor_disable}

-- `app_state_t`.
pub data AppState : Type 0 where
  boot initializing idle moving stopping fault estop homing : AppState

abbrev pub is_idle : AppState → Bool
is_idle AppState.idle = true
is_idle _ = false

abbrev pub is_moving : AppState → Bool
is_moving AppState.moving = true
is_moving _ = false

abbrev pub is_stopping : AppState → Bool
is_stopping AppState.stopping = true
is_stopping _ = false

abbrev pub is_homing : AppState → Bool
is_homing AppState.homing = true
is_homing _ = false

abbrev pub is_estop : AppState → Bool
is_estop AppState.estop = true
is_estop _ = false

abbrev pub is_fault : AppState → Bool
is_fault AppState.fault = true
is_fault _ = false

-- `application_t`.
pub record Application : Type 0 where
  pub state : AppState
  pub last_transition_ms : ℕ

-- `application_state_name`.
unfoldable pub application_state_name : AppState → String
application_state_name AppState.boot = "BOOT"
application_state_name AppState.initializing = "INITIALIZING"
application_state_name AppState.idle = "IDLE"
application_state_name AppState.moving = "MOVING"
application_state_name AppState.stopping = "STOPPING"
application_state_name AppState.fault = "FAULT"
application_state_name AppState.estop = "ESTOP"
application_state_name AppState.homing = "HOMING"

-- The `switch` of `application_step`.
advance : AppState → ℕ → Application → Application × Option String
advance AppState.boot now app = (
  record { state = AppState.initializing; last_transition_ms = now },
  some "STATE BOOT -> INITIALIZING",
)
advance AppState.initializing now app =
    (record { state = AppState.idle; last_transition_ms = now }, some "STATE INITIALIZING -> IDLE")
advance _ now app = (app, none)

module _ {F : Type 0} ⦃f : Float F⦄ where
  -- `now` is what `platform_time_ms` returns, and the text what is handed to `platform_log`.
  unfoldable pub application_init : ℕ → Motor F → Application × Motor F × Option String
  application_init now motor = (
    record { state = AppState.boot; last_transition_ms = now },
    motor_disable motor,
    some "SYSTEM state=BOOT",
  )

  unfoldable pub application_step :
      ℕ → Application → Motor F → Application × Motor F × Option String
  unfolding advance
  application_step now app motor =
      let (app', text) = advance app.state now app in (app', motor_disable motor, text)
