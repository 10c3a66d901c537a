-- ===== src/Target/Telemetry/Lines.antt =====
-- Every line of the telemetry fits in the buffer of `uart_print`.
use real_time_embedded_motio.Base.{
  ℕ, ◌≤◌, refl, Bool, true, false, List, ◌∷◌, arith, length, IsInt32, All, if◌then◌else◌, codes,
}
use real_time_embedded_motio.Float.{Float}
use real_time_embedded_motio.Application.{AppState, application_state_name}
use real_time_embedded_motio.Fault.{FaultCode, fault_name}
use real_time_embedded_motio.Motion.{HomingResult}
use real_time_embedded_motio.Homing.{homing_result_name}
use real_time_embedded_motio.Bus.{command_queue_capacity}
use real_time_embedded_motio.Runtime.{RuntimeSnapshot}
use real_time_embedded_motio.TinyFormat.Scaling.{IsScalable, Displayable}
use real_time_embedded_motio.TinyFormat.Pieces.{
  Piece, text, unsigned, unsigned_long, signed_long, general, format_of, arguments_of, widths_of,
  directive_of, argument_of, width_of,
}
use real_time_embedded_motio.TinyFormat.Pieces.Fits.{labelled, literals, Fits, pieces-Fits}
use real_time_embedded_motio.Target.Telemetry.{
  Call, motion_call, safety_call, health_call, home_call, counters_call, snapshot_calls, fresh_at,
  all_fresh,
}

length-state_name : (x : AppState) → length (codes (application_state_name x)) ≤ 12
unfolding application_state_name
length-state_name AppState.boot = omega arith
length-state_name AppState.initializing = omega arith
length-state_name AppState.idle = omega arith
length-state_name AppState.moving = omega arith
length-state_name AppState.stopping = omega arith
length-state_name AppState.fault = omega arith
length-state_name AppState.estop = omega arith
length-state_name AppState.homing = omega arith

length-fault_name : (x : FaultCode) → length (codes (fault_name x)) ≤ 23
unfolding fault_name
length-fault_name FaultCode.none = omega arith
length-fault_name FaultCode.positive_limit = omega arith
length-fault_name FaultCode.negative_limit = omega arith
length-fault_name FaultCode.no_motion_under_command = omega arith
length-fault_name FaultCode.watchdog = omega arith
length-fault_name FaultCode.homing_timeout = omega arith
length-fault_name FaultCode.internal = omega arith

length-homing_name : (x : HomingResult) → length (codes (homing_result_name x)) ≤ 8
unfolding homing_result_name
length-homing_name HomingResult.none = omega arith
length-homing_name HomingResult.running = omega arith
length-homing_name HomingResult.complete = omega arith
length-homing_name HomingResult.stopped = omega arith
length-homing_name HomingResult.estopped = omega arith
length-homing_name HomingResult.faulted = omega arith
length-homing_name HomingResult.timeout = omega arith

module _ {R : Type 0} ⦃r : Float R⦄ (to_u32 : R → ℕ) (scalable : IsScalable R) where
  -- A call whose text fits.
  abbrev pub CallFits : Call R → Type 0
  CallFits call = Fits scalable to_u32 call.format call.args

module _ {F R : Type 0} ⦃r : Float R⦄ (to_double : F → R) (to_u32 : R → ℕ)
    (scalable : IsScalable R) where
  -- A float that the formatter can show.
  pub record Shows (x : F) : Type 0 where
    pub shown : Displayable scalable (to_double x)
    pub shown_neg : Displayable scalable (r.neg (to_double x))

  abbrev motion_pieces : List ℕ → RuntimeSnapshot F → List (Piece R)
  motion_pieces kind v =
      text kind
      ∷ labelled " t_ms=" (unsigned_long v.timestamp_ms) (
          labelled " motion state=" (text (codes (application_state_name v.state))) (
            labelled " target_counts=" (signed_long v.motion.target) (
              labelled " position_counts=" (signed_long v.motion.position) (
                labelled " velocity_counts_s=" (general (to_double v.motion.velocity)) (
                  labelled " error_counts=" (general (to_double v.motion.error)) (
                    labelled " feedback_valid="
                      (unsigned (if v.motion.feedback_valid then 1 else 0))
                      (literals (codes "\n"))))))))

  motion-CallFits :
      (kind : List ℕ) (v : RuntimeSnapshot F)
      → length kind ≤ 6
      → IsInt32 v.motion.target
      → IsInt32 v.motion.position
      → Shows v.motion.velocity
      → Shows v.motion.error
      → CallFits to_u32 scalable (motion_call to_double kind v)
  unfolding motion_call format_of arguments_of directive_of argument_of widths_of width_of
  motion-CallFits kind v k t p x e =
      pieces-Fits scalable to_u32 (motion_pieces kind v) refl
        (t, (p, (x.shown, x.shown_neg, (e.shown, e.shown_neg, tt))))
        (omega (arith, k, length-state_name v.state))

  abbrev safety_pieces : List ℕ → RuntimeSnapshot F → List (Piece R)
  safety_pieces kind v =
      text kind
      ∷ labelled " t_ms=" (unsigned_long v.timestamp_ms) (
          labelled " safety requested_pwm=" (general (to_double v.safety.requested_pwm)) (
            labelled " applied_pwm=" (general (to_double v.safety.applied_pwm)) (
              labelled " fault=" (text (codes (fault_name v.safety.faults.active.code))) (
                labelled " fault_ms=" (unsigned_long v.safety.faults.active.timestamp_ms) (
                  labelled " estop=" (unsigned (if v.gpio.estop then 1 else 0)) (
                    labelled " limit_neg=" (unsigned (if v.gpio.negative_limit then 1 else 0)) (
                      labelled " limit_pos=" (unsigned (if v.gpio.positive_limit then 1 else 0)) (
                        labelled " inputs_valid=" (unsigned (if v.gpio_valid then 1 else 0))
                          (literals (codes "\n"))))))))))

  safety-CallFits :
      (kind : List ℕ) (v : RuntimeSnapshot F)
      → length kind ≤ 6
      → Shows v.safety.requested_pwm
      → Shows v.safety.applied_pwm
      → CallFits to_u32 scalable (safety_call to_double kind v)
  unfolding safety_call format_of arguments_of directive_of argument_of widths_of width_of
  safety-CallFits kind v k x a =
      pieces-Fits scalable to_u32 (safety_pieces kind v) refl
        (x.shown, x.shown_neg, (a.shown, a.shown_neg, tt))
        (omega (arith, k, length-fault_name v.safety.faults.active.code))

  length-supervision : (b : Bool) → length (if b then codes "HEALTHY" else codes "UNHEALTHY") ≤ 9
  length-supervision true = omega arith
  length-supervision false = omega arith

  abbrev health_pieces : List ℕ → RuntimeSnapshot F → List (Piece R)
  health_pieces kind v =
      text kind
      ∷ labelled " t_ms=" (unsigned_long v.timestamp_ms) (
          labelled " health motion_fresh="
            (unsigned (if fresh_at v.timestamp_ms 0 v.health then 1 else 0))
            (labelled " safety_fresh="
              (unsigned (if fresh_at v.timestamp_ms 1 v.health then 1 else 0))
              (labelled " comms_fresh="
                (unsigned (if fresh_at v.timestamp_ms 2 v.health then 1 else 0))
                (labelled " watchdog_supervision="
                  (text (
                    if all_fresh v.timestamp_ms v.health
                    then codes "HEALTHY"
                    else codes "UNHEALTHY"))
                  (labelled " refreshes=" (unsigned_long v.safety.watchdog_refreshes)
                    (literals (codes "\n")))))))

  health-CallFits :
      (kind : List ℕ) (v : RuntimeSnapshot F)
      → length kind ≤ 6
      → CallFits to_u32 scalable (health_call to_double kind v)
  unfolding health_call format_of arguments_of directive_of argument_of widths_of width_of
  health-CallFits kind v k =
      pieces-Fits scalable to_u32 (health_pieces kind v) refl tt
        (omega (arith, k, length-supervision (all_fresh v.timestamp_ms v.health)))

  abbrev home_pieces : List ℕ → RuntimeSnapshot F → List (Piece R)
  home_pieces kind v =
      text kind
      ∷ labelled " t_ms=" (unsigned_long v.timestamp_ms) (
          labelled " home result=" (text (codes (homing_result_name v.motion.homing.result))) (
            labelled " referenced=" (unsigned (if v.motion.homing.referenced then 1 else 0)) (
              labelled " elapsed_ms=" (unsigned_long v.motion.homing.elapsed_ms) (
                labelled " completed=" (unsigned_long v.motion.homing.completed) (
                  labelled " contact_allowance=" (unsigned (if v.safety.home_contact then 1 else 0))
                    (literals (codes "\n")))))))

  home-CallFits :
      (kind : List ℕ) (v : RuntimeSnapshot F)
      → length kind ≤ 6
      → CallFits to_u32 scalable (home_call to_double kind v)
  unfolding home_call format_of arguments_of directive_of argument_of widths_of width_of
  home-CallFits kind v k =
      pieces-Fits scalable to_u32 (home_pieces kind v) refl tt
        (omega (arith, k, length-homing_name v.motion.homing.result))

  abbrev counters_pieces : List ℕ → RuntimeSnapshot F → List (Piece R)
  counters_pieces kind v =
      text kind
      ∷ labelled " t_ms=" (unsigned_long v.timestamp_ms) (
          labelled " counters queue_used=" (unsigned_long v.queue_used) (
            labelled " queue_capacity=" (unsigned command_queue_capacity) (
              labelled " queue_high_water=" (unsigned_long v.queue_high_water) (
                labelled " diagnostic_drops=" (unsigned_long v.diagnostic_drops) (
                  labelled " moves_completed=" (unsigned_long v.motion.completed_moves) (
                    labelled " aborted=" (unsigned_long v.safety.aborted_moves)
                      (literals (codes "\n"))))))))

  counters-CallFits :
      (kind : List ℕ) (v : RuntimeSnapshot F)
      → length kind ≤ 6
      → CallFits to_u32 scalable (counters_call to_double kind v)
  unfolding counters_call format_of arguments_of directive_of argument_of widths_of width_of
  counters-CallFits kind v k =
      pieces-Fits scalable to_u32 (counters_pieces kind v) refl tt (omega (arith, k))

  -- The numbers of a snapshot are those of their C types.
  pub record IsSnapshot (v : RuntimeSnapshot F) : Type 0 where
    pub target_word : IsInt32 v.motion.target
    pub position_word : IsInt32 v.motion.position
    pub velocity_shown : Shows v.motion.velocity
    pub error_shown : Shows v.motion.error
    pub requested_shown : Shows v.safety.requested_pwm
    pub applied_shown : Shows v.safety.applied_pwm

  -- For every snapshot whose numbers are those of their types, each of the five lines of
  -- `emit_snapshot` is formatted whole, in at most 256 bytes: the buffer of `uart_print` never
  -- overflows.
  pub snapshot_calls-CallFits :
      (kind : List ℕ) (v : RuntimeSnapshot F)
      → length kind ≤ 6
      → IsSnapshot v
      → All (CallFits to_u32 scalable) (snapshot_calls to_double kind v)
  unfolding snapshot_calls
  snapshot_calls-CallFits kind v k h = (
    motion-CallFits kind v k h.target_word h.position_word h.velocity_shown h.error_shown,
    (
      safety-CallFits kind v k h.requested_shown h.applied_shown,
      (health-CallFits kind v k, (home-CallFits kind v k, (counters-CallFits kind v k, tt))),
    ),
  )
