-- ===== src/Tasks/Interleaving/Gate.antt =====
-- The gate of the motor over every order of the sections.
use real_time_embedded_motio.Base.{
  ℕ, ◌≡◌, ◌⊎◌, Bool, true, false, Option, none, some, List, if_both, arith,
}
use real_time_embedded_motio.Float.{Float, nought}
use real_time_embedded_motio.Application.{AppState, is_idle, is_homing, application_step}
use real_time_embedded_motio.Command.{MotionCommand}
use real_time_embedded_motio.Drivers.Motor.{motor_disable, motor_safety_inhibit}
use real_time_embedded_motio.Drivers.Motor.Bounds.{IsGated, motor_disable-IsGated}
use real_time_embedded_motio.Motion.{MotionController}
use real_time_embedded_motio.Homing.{homing_abort}
use real_time_embedded_motio.Safety.{SafetyManager, safety_internal_fault}
use real_time_embedded_motio.Queue.{Queue}
use real_time_embedded_motio.Bus.{CommandBus, command_bus_receive}
use real_time_embedded_motio.Diagnostics.{Diagnostic, Diagnostics, diagnostics_receive}
use real_time_embedded_motio.Runtime.{
  Runtime, runtime_safety_sync, runtime_safety_enforce, set_safety, is_active,
}
use real_time_embedded_motio.Runtime.Safe.{IsSafe, enforce-IsSafe, evaluate-IsSafe, sync-IsSafe}
use real_time_embedded_motio.Runtime.Safe.Motors.{motion_sample-Keeps}
use real_time_embedded_motio.Runtime.Safe.Commands.{
  runtime_safety_command-IsSafe, runtime_control_update-IsSafe,
}
use real_time_embedded_motio.Tasks.{
  System, HealthId, runtime_heartbeat, startup_step, sample_step, sampled_section, sampled_step,
  take_command, receive_command_step, count_received_step, query_step, command_step,
  result_messages_step, count_result_step, failed_section, finish_update, count_received,
  count_result, set_runtime_data, update_section, publish_section, update_step, safety_section,
  safety_step, line_step, receive_error_step, notified_step, TaskId, runtime_checkpoint,
  note_overrun, emit_record, emit_step, telemetry_step,
}
use real_time_embedded_motio.Tasks.Init.{runtime_init}
use real_time_embedded_motio.Tasks.Interleaving.{
  Step, Reach, startup, sample, sampled, receive_command, count_command, query, run_command,
  result_messages, count_answer, control, supervise, line, receive_error, notified, heartbeat,
  checkpoint, overrun, emit, telemetry, environment, here, next,
}

module _ {F : Type 0} ⦃f : Float F⦄ where
  -- A trip inside a critical section, enforced there.
  trip_and_sync-IsSafe :
      (g : SafetyManager F → SafetyManager F) (w : Runtime F) (m : MotionController F)
      → IsGated w.motor
      → IsSafe (runtime_safety_sync (runtime_safety_enforce (set_safety g w)) m).0
  trip_and_sync-IsSafe g w m gated = sync-IsSafe _ m (enforce-IsSafe (set_safety g w) gated)

  motor-IsGated : {w : Runtime F} → IsSafe w → IsGated w.motor
  motor-IsGated s = record { inhibited_off = s.gated }

  sampled_section-IsSafe :
      (flag : Bool) (before : AppState) (now : ℕ) (w : Runtime F) (m : MotionController F)
      → IsSafe w
      → IsSafe (sampled_section flag before now w m).0
  unfolding sampled_section homing_abort
  sampled_section-IsSafe flag before now w m s =
      let Gated = λ (v : Runtime F). IsGated v.motor in
      let counted = if_both Gated (is_active before) (motor-IsGated s) (motor-IsGated s) in
      if_both (λ (o : Runtime F × MotionController F). IsSafe o.0) flag (sync-IsSafe w m s)
        (trip_and_sync-IsSafe (safety_internal_fault now) _ _
          (if_both Gated (is_homing before) (motor_disable-IsGated _) counted))

  failed_section-IsSafe :
      (active : Bool) (now : ℕ) (w : Runtime F) (m : MotionController F)
      → IsSafe w
      → IsSafe (failed_section active now w m).1
  unfolding failed_section
  failed_section-IsSafe active now w m s =
      trip_and_sync-IsSafe (safety_internal_fault now) _ m
        (if_both (λ (v : Runtime F). IsGated v.motor) active (motor-IsGated s) (motor-IsGated s))

  finish_update-IsSafe :
      (active : Bool) (now : ℕ) (c : Bool × Runtime F × MotionController F)
      → IsSafe c.1
      → IsSafe (finish_update active now c).1
  unfolding finish_update
  finish_update-IsSafe active now (done, w, m) s =
      ground (arith, failed_section-IsSafe active now w m s)

  update_section-IsSafe :
      (flag : Bool) (dt : F) (now : ℕ) (w : Runtime F) (m : MotionController F)
      → IsSafe w
      → IsSafe (update_section flag dt now w m).1
  unfolding update_section
  update_section-IsSafe flag dt now w m s =
      let (synced, held) = runtime_safety_sync w m in
      let active = is_active held.snapshot.state in
      let safe = sync-IsSafe w m s in
      if_both (λ (o : Bool × Runtime F × MotionController F). IsSafe o.1) flag
        (finish_update-IsSafe active now _ (runtime_control_update-IsSafe dt now synced held safe))
        (failed_section-IsSafe active now synced held safe)

  safety_section-IsSafe : (w : Runtime F) → IsSafe w → IsSafe (safety_section w)
  unfolding safety_section
  safety_section-IsSafe w s = ground (arith, evaluate-IsSafe w (motor-IsGated s))

  heartbeat-IsSafe :
      (filter : HealthId → Bool) (id : HealthId) (w : Runtime F)
      → IsSafe w
      → IsSafe (runtime_heartbeat filter id w)
  unfolding runtime_heartbeat
  heartbeat-IsSafe filter id w s = ground arith

  checkpoint-IsSafe :
      (stopping : Bool) (id : TaskId) (w : Runtime F)
      → IsSafe w
      → IsSafe (runtime_checkpoint stopping id w).0
  unfolding runtime_checkpoint motor_disable
  checkpoint-IsSafe stopping id w h = ground arith

  overrun-IsSafe :
      (id : TaskId) (w : Runtime F) → IsSafe w → IsSafe (set_runtime_data (note_overrun id) w)
  unfolding note_overrun
  overrun-IsSafe id w h = ground arith

  -- Before the scheduler starts the motor is inhibited, with no output.
  runtime_init-IsSafe : (w : Runtime F) → IsSafe (runtime_init w)
  unfolding runtime_init motor_safety_inhibit
  runtime_init-IsSafe w = ground arith

module _ {F Q D : Type 0} ⦃f : Float F⦄ ⦃q : Queue Q MotionCommand⦄ ⦃d : Queue D Diagnostic⦄ where
  -- The shared state of a system is safe.
  abbrev IsSafeSystem : System F Q D → Type 0
  IsSafeSystem s = IsSafe s.runtime

  startup-IsSafe : (s : System F Q D) → IsSafeSystem s → IsSafeSystem (startup_step s)
  unfolding startup_step application_step motor_disable
  startup-IsSafe s h = ground arith

  sample-IsSafe : (dt : F) (s : System F Q D) → IsSafeSystem s → IsSafeSystem (sample_step dt s).0
  unfolding sample_step
  sample-IsSafe dt s h =
      ground (arith, motion_sample-Keeps s.runtime.encoder dt s.runtime.motor s.motion)

  take_command-IsSafe :
      (o : Option (MotionCommand × CommandBus Q)) (s : System F Q D)
      → IsSafeSystem s
      → IsSafeSystem (take_command o s).0
  unfolding take_command
  take_command-IsSafe none s h = h
  take_command-IsSafe (some (c, bus)) s h = h

  command_step-IsSafe :
      (c : MotionCommand) (s : System F Q D) → IsSafeSystem s → IsSafeSystem (command_step c s).0
  unfolding command_step
  command_step-IsSafe c s h = ground (arith, runtime_safety_command-IsSafe c s.runtime s.motion h)

  control-IsSafe :
      (flag : Bool) (dt : F) (now : ℕ) (gap : Option ℕ) (s : System F Q D)
      → IsSafeSystem s
      → IsSafeSystem (update_step flag dt now gap s)
  unfolding update_step publish_section
  control-IsSafe flag dt now gap s h =
      let safe = update_section-IsSafe flag dt now s.runtime s.motion h in
      record { gated = safe.gated; tripped = safe.tripped; unhealthy = safe.unhealthy }

  line-IsSafe :
      (text : List ℕ) (s : System F Q D) → IsSafeSystem s → IsSafeSystem (line_step text s)
  unfolding line_step
  line-IsSafe text s h = ground arith

  emit-IsSafe :
      (o : Option (Diagnostic × Diagnostics D)) (s : System F Q D)
      → IsSafeSystem s
      → IsSafeSystem (emit_record o s).0
  unfolding emit_record
  emit-IsSafe none s h = h
  emit-IsSafe (some (r, left)) s h = record {
    gated = h.gated;
    tripped = h.tripped;
    unhealthy = h.unhealthy;
  }

  -- Every section of every task keeps the gate.
  pub Step-IsSafe : {s t : System F Q D} → Step s t → IsSafeSystem s → IsSafeSystem t
  unfolding receive_command_step count_received_step count_received query_step result_messages_step
      count_result_step count_result safety_step sampled_step receive_error_step notified_step
      emit_step telemetry_step
  Step-IsSafe (startup s) h = startup-IsSafe s h
  Step-IsSafe (sample dt s) h = sample-IsSafe dt s h
  Step-IsSafe (sampled flag before now s) h =
      sampled_section-IsSafe flag before now s.runtime s.motion h
  Step-IsSafe (receive_command s) h = take_command-IsSafe (command_bus_receive s.commands) s h
  Step-IsSafe (count_command c s) h = record {
    gated = h.gated;
    tripped = h.tripped;
    unhealthy = h.unhealthy;
  }
  Step-IsSafe (query c s e) h = h
  Step-IsSafe (run_command c s e) h = command_step-IsSafe c s h
  Step-IsSafe (result_messages before c result s) h = h
  Step-IsSafe (count_answer result s) h = record {
    gated = h.gated;
    tripped = h.tripped;
    unhealthy = h.unhealthy;
  }
  Step-IsSafe (control flag dt now gap s) h = control-IsSafe flag dt now gap s h
  Step-IsSafe (supervise s) h = safety_section-IsSafe s.runtime h
  Step-IsSafe (line text s) h = line-IsSafe text s h
  Step-IsSafe (receive_error s) h = ground arith
  Step-IsSafe (notified n s) h = ground arith
  Step-IsSafe (heartbeat filter id s) h = heartbeat-IsSafe filter id s.runtime h
  Step-IsSafe (checkpoint stopping id s) h = checkpoint-IsSafe stopping id s.runtime h
  Step-IsSafe (overrun id s) h = overrun-IsSafe id s.runtime h
  Step-IsSafe (emit s) h = emit-IsSafe (diagnostics_receive s.diagnostics) s h
  Step-IsSafe (telemetry s) h = ground arith
  Step-IsSafe (environment encoder gpio timer tick s) h = ground arith

  pub Reach-IsSafe : {s t : System F Q D} → IsSafeSystem s → Reach s t → IsSafeSystem t
  Reach-IsSafe h here = h
  Reach-IsSafe h (next r st) = Step-IsSafe st (Reach-IsSafe h r)

  -- From any system started by `runtime_init`, in every order of the tasks' sections and whatever
  -- the encoder, the inputs, the clock and the received lines do: while the safety state is FAULT or
  -- ESTOP (or any but IDLE), or a heartbeat is stale at the last evaluation, the motor is inhibited
  -- and its output is zero.
  pub Reach-motor_off :
      (s t : System F Q D) (w : Runtime F)
      → s.runtime ≡ runtime_init w
      → Reach s t
      → (is_idle t.runtime.runtime_data.safety.state ≡ false)
        ⊎ (t.runtime.runtime_data.safety.healthy ≡ false)
      → (t.runtime.motor.inhibited ≡ true) × (t.runtime.motor.output ≡ nought)
  Reach-motor_off s t w e r h =
      let start : IsSafe s.runtime = rw e (runtime_init-IsSafe w) in
      ground (arith, Reach-IsSafe start r)
