-- ===== src/Tasks/Types.antt =====
-- All that the tasks share, and the objects that the motion task owns.
use real_time_embedded_motio.Base.{ℕ, zero, suc, Bool, List, [], ◌∷◌, if◌then◌else◌, codes}
use Prim.Native.String.{String}
use real_time_embedded_motio.Float.{Float}
use real_time_embedded_motio.Application.{AppState, Application}
use real_time_embedded_motio.Health.{TaskHealth, task_health_beat}
use real_time_embedded_motio.Motion.{MotionController}
use real_time_embedded_motio.Queue.{Queue}
use real_time_embedded_motio.Bus.{CommandBus}
use real_time_embedded_motio.Diagnostics.{Diagnostic, Diagnostics, diagnostics_text}
use real_time_embedded_motio.Runtime.{Runtime, RuntimeSnapshot, platform_time_ms}

-- `runtime_data` with the drivers, `runtime_commands`, the diagnostics, and the locals `app` and
-- `motion` of `motion_task`.
pub record System (F Q D : Type 0) : Type 0 where
  pub runtime : Runtime F
  pub commands : CommandBus Q
  pub diagnostics : Diagnostics D
  pub app : Application
  pub motion : MotionController F

-- `task_health_id_t`.
pub data HealthId : Type 0 where
  motion safety comms : HealthId

abbrev pub health_index : HealthId → ℕ
health_index HealthId.motion = 0
health_index HealthId.safety = 1
health_index HealthId.comms = 2

-- An element of an array changed in place.
unfoldable pub update_at {ℓ} : {A : Type ℓ} → ℕ → (A → A) → List A → List A
update_at i g [] = []
update_at zero g (x ∷ xs) = g x ∷ xs
update_at (suc i) g (x ∷ xs) = x ∷ update_at i g xs

-- The messages of `transition`, the first of its two chains of tests and then the second.
unfoldable pub safety_transition : AppState → AppState → List String
safety_transition AppState.estop AppState.estop = []
safety_transition from AppState.estop = "STATE -> ESTOP; MOVE_ABORTED if active; applied_pwm=0" ∷ []
safety_transition AppState.fault AppState.fault = []
safety_transition from AppState.fault = "STATE -> FAULT; MOVE_ABORTED if active; applied_pwm=0" ∷ []
safety_transition AppState.fault AppState.idle = "SAFETY RESET -> IDLE; applied_pwm=0" ∷ []
safety_transition AppState.estop AppState.idle = "SAFETY RESET -> IDLE; applied_pwm=0" ∷ []
safety_transition from to = []

unfoldable pub motion_transition : AppState → AppState → List String
motion_transition AppState.idle AppState.moving = "STATE IDLE -> MOVING" ∷ []
motion_transition AppState.idle AppState.homing = "STATE IDLE -> HOMING pwm=-0.30" ∷ []
motion_transition AppState.homing AppState.idle = "HOMING COMPLETE reference=0 applied_pwm=0" ∷ []
motion_transition AppState.homing AppState.stopping =
    "HOMING STOPPED applied_pwm=0; waiting for rest" ∷ []
motion_transition AppState.moving AppState.stopping = "STATE MOVING -> STOPPING" ∷ []
motion_transition AppState.moving AppState.idle = "STATE MOVING -> IDLE" ∷ []
motion_transition AppState.stopping AppState.idle = "STATE STOPPING -> IDLE" ∷ []
motion_transition from to = []

module _ {D : Type 0} ⦃d : Queue D Diagnostic⦄ where
  -- A call of `diagnostics_text` for each message.
  unfoldable pub report : ℕ → List String → Diagnostics D → Diagnostics D
  report now [] s = s
  report now (m ∷ ms) s = report now ms (diagnostics_text now (codes m) s).0

  unfoldable pub transition : ℕ → AppState → AppState → Diagnostics D → Diagnostics D
  transition now from to s =
      report now (motion_transition from to) (report now (safety_transition from to) s)

module _ {F : Type 0} ⦃f : Float F⦄ where
  abbrev pub set_runtime_data : (RuntimeSnapshot F → RuntimeSnapshot F) → Runtime F → Runtime F
  set_runtime_data g w = record w { runtime_data = g w.runtime_data }

  -- `runtime_heartbeat`: the filter is the host's function, which accepts every beat if there is none.
  unfoldable pub runtime_heartbeat : (HealthId → Bool) → HealthId → Runtime F → Runtime F
  runtime_heartbeat filter id w =
      let beat = λ (h : TaskHealth). task_health_beat h (platform_time_ms w) in
      if filter id
      then set_runtime_data (λ v. record v { health = update_at (health_index id) beat v.health }) w
      else w
