-- ===== src/Tasks/Safety.antt =====
-- firmware/tasks/safety_task.c: the critical section of one cycle, and its messages.
use real_time_embedded_motio.Base.{◌+◌, Bool, true, false, ◌&&◌, [], ◌∷◌, if◌then◌else◌, u32}
use Prim.Native.String.{String}
use real_time_embedded_motio.Float.{Float}
use real_time_embedded_motio.Application.{AppState, is_estop}
use real_time_embedded_motio.Command.{MotionCommand}
use real_time_embedded_motio.Drivers.Watchdog.{watchdog_refresh}
use real_time_embedded_motio.Fault.{fault_name}
use real_time_embedded_motio.Queue.{Queue}
use real_time_embedded_motio.Diagnostics.{Diagnostic}
use real_time_embedded_motio.Runtime.{
  Runtime, set_safety, platform_time_ms, runtime_safety_evaluate,
}
use real_time_embedded_motio.Tasks.Types.{System, report}

-- `before != after`.
abbrev pub same_state : AppState → AppState → Bool
same_state AppState.boot AppState.boot = true
same_state AppState.initializing AppState.initializing = true
same_state AppState.idle AppState.idle = true
same_state AppState.moving AppState.moving = true
same_state AppState.stopping AppState.stopping = true
same_state AppState.fault AppState.fault = true
same_state AppState.estop AppState.estop = true
same_state AppState.homing AppState.homing = true
same_state _ _ = false

abbrev alarm : AppState → String
alarm state =
    if is_estop state then "SAFETY ESTOP_ACTIVE applied_pwm=0" else "SAFETY FAULT applied_pwm=0"

module _ {F : Type 0} ⦃f : Float F⦄ where
  -- The watchdog is fed only by a healthy evaluation.
  unfoldable pub safety_section : Runtime F → Runtime F
  safety_section w =
      let evaluated = runtime_safety_evaluate w in
      let (watchdog, fed) = watchdog_refresh evaluated.watchdog (platform_time_ms evaluated) in
      let refreshed =
        set_safety (λ s. record s { watchdog_refreshes = u32 (s.watchdog_refreshes + 1) })
          (record evaluated { watchdog = watchdog }) in
      if evaluated.runtime_data.safety.healthy && fed then refreshed else evaluated

module _ {F Q D : Type 0} ⦃f : Float F⦄ ⦃q : Queue Q MotionCommand⦄ ⦃d : Queue D Diagnostic⦄ where
  unfoldable pub safety_step : System F Q D → System F Q D
  safety_step s =
      let before = s.runtime.runtime_data.safety.state in
      let w = safety_section s.runtime in
      let after = w.runtime_data.safety.state in
      let messages =
        if same_state before after
        then []
        else alarm after ∷ fault_name w.runtime_data.safety.faults.active.code ∷ [] in
      record s { runtime = w; diagnostics = report (platform_time_ms w) messages s.diagnostics }
