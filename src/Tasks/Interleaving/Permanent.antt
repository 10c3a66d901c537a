-- ===== src/Tasks/Interleaving/Permanent.antt =====
-- An internal fault over every order of the sections.
use real_time_embedded_motio.Base.{ℕ, ◌≡◌, Bool, true, false, Option, none, some, if_both, arith}
use real_time_embedded_motio.Float.{Float, nought}
use real_time_embedded_motio.Application.{AppState, is_idle}
use real_time_embedded_motio.Command.{MotionCommand}
use real_time_embedded_motio.Motion.{MotionController}
use real_time_embedded_motio.Safety.{safety_internal_fault}
use real_time_embedded_motio.Queue.{Queue}
use real_time_embedded_motio.Bus.{CommandBus, command_bus_receive}
use real_time_embedded_motio.Diagnostics.{Diagnostic, Diagnostics, diagnostics_receive}
use real_time_embedded_motio.Runtime.{
  Runtime, runtime_safety_sync, runtime_safety_enforce, set_safety, is_active,
}
use real_time_embedded_motio.Tasks.{
  System, HealthId, runtime_heartbeat, startup_step, sample_step, sampled_section, sampled_step,
  take_command, receive_command_step, count_received_step, query_step, command_step,
  result_messages_step, count_result_step, failed_section, finish_update, count_received,
  count_result, set_runtime_data, update_section, publish_section, update_step, safety_section,
  safety_step, line_step, receive_error_step, notified_step, TaskId, runtime_checkpoint,
  note_overrun, emit_record, emit_step, telemetry_step,
}
use real_time_embedded_motio.Tasks.Interleaving.{
  Step, Reach, startup, sample, sampled, receive_command, count_command, query, run_command,
  result_messages, count_answer, control, supervise, line, receive_error, notified, heartbeat,
  checkpoint, overrun, emit, telemetry, environment, here, next,
}
use real_time_embedded_motio.Runtime.Permanent.{
  IsDown, IsDownRuntime, internal_fault-IsDown, enforce-IsDown, evaluate-IsDown, sync-IsDown,
  command-IsDown, control-IsDown,
}
use real_time_embedded_motio.Tasks.Interleaving.Gate.{Reach-motor_off}
use real_time_embedded_motio.Safety.{is_latched}
use real_time_embedded_motio.Base.{inl}
use real_time_embedded_motio.Tasks.Init.{runtime_init}

latched_not_idle : (state : AppState) → is_latched state ≡ true → is_idle state ≡ false
latched_not_idle state h = ground arith

module _ {F : Type 0} ⦃f : Float F⦄ where
  trip_and_sync-IsDown :
      (now : ℕ) (w : Runtime F) (m : MotionController F)
      → IsDownRuntime
          (runtime_safety_sync
            (runtime_safety_enforce (set_safety (safety_internal_fault now) w))
            m).0
  trip_and_sync-IsDown now w m = sync-IsDown _ m (
      enforce-IsDown (set_safety (safety_internal_fault now) w)
        (internal_fault-IsDown now w.runtime_data.safety))

  sampled_section-IsDown :
      (flag : Bool) (before : AppState) (now : ℕ) (w : Runtime F) (m : MotionController F)
      → IsDownRuntime w
      → IsDownRuntime (sampled_section flag before now w m).0
  unfolding sampled_section
  sampled_section-IsDown flag before now w m h =
      if_both (λ (o : Runtime F × MotionController F). IsDownRuntime o.0) flag (sync-IsDown w m h)
        (trip_and_sync-IsDown now _ _)

  failed_section-IsDown :
      (active : Bool) (now : ℕ) (w : Runtime F) (m : MotionController F)
      → IsDownRuntime (failed_section active now w m).1
  unfolding failed_section
  failed_section-IsDown active now w m = trip_and_sync-IsDown now _ m

  finish_update-IsDown :
      (active : Bool) (now : ℕ) (c : Bool × Runtime F × MotionController F)
      → IsDownRuntime c.1
      → IsDownRuntime (finish_update active now c).1
  unfolding finish_update
  finish_update-IsDown active now (done, w, m) h =
      ground (arith, failed_section-IsDown active now w m)

  update_section-IsDown :
      (flag : Bool) (dt : F) (now : ℕ) (w : Runtime F) (m : MotionController F)
      → IsDownRuntime w
      → IsDownRuntime (update_section flag dt now w m).1
  unfolding update_section
  update_section-IsDown flag dt now w m h =
      let (synced, held) = runtime_safety_sync w m in
      let active = is_active held.snapshot.state in
      if_both (λ (o : Bool × Runtime F × MotionController F). IsDownRuntime o.1) flag
        (finish_update-IsDown active now _ (control-IsDown dt now synced held (sync-IsDown w m h)))
        (failed_section-IsDown active now synced held)

  safety_section-IsDown : (w : Runtime F) → IsDownRuntime w → IsDownRuntime (safety_section w)
  unfolding safety_section
  safety_section-IsDown w h = ground (arith, evaluate-IsDown w h)

  heartbeat-IsDown :
      (filter : HealthId → Bool) (id : HealthId) (w : Runtime F)
      → IsDownRuntime w
      → IsDownRuntime (runtime_heartbeat filter id w)
  unfolding runtime_heartbeat
  heartbeat-IsDown filter id w h = ground arith

  checkpoint-IsDown :
      (stopping : Bool) (id : TaskId) (w : Runtime F)
      → IsDownRuntime w
      → IsDownRuntime (runtime_checkpoint stopping id w).0
  unfolding runtime_checkpoint
  checkpoint-IsDown stopping id w h = ground arith

  overrun-IsDown :
      (id : TaskId) (w : Runtime F)
      → IsDownRuntime w
      → IsDownRuntime (set_runtime_data (note_overrun id) w)
  unfolding note_overrun
  overrun-IsDown id w h = ground arith

module _ {F Q D : Type 0} ⦃f : Float F⦄ ⦃q : Queue Q MotionCommand⦄ ⦃d : Queue D Diagnostic⦄ where
  abbrev IsDownSystem : System F Q D → Type 0
  IsDownSystem s = IsDown s.runtime.runtime_data.safety

  take_command-IsDown :
      (o : Option (MotionCommand × CommandBus Q)) (s : System F Q D)
      → IsDownSystem s
      → IsDownSystem (take_command o s).0
  unfolding take_command
  take_command-IsDown none s h = h
  take_command-IsDown (some (c, bus)) s h = h

  command_step-IsDown :
      (c : MotionCommand) (s : System F Q D) → IsDownSystem s → IsDownSystem (command_step c s).0
  unfolding command_step
  command_step-IsDown c s h = ground (arith, command-IsDown c s.runtime s.motion h)

  control_step-IsDown :
      (flag : Bool) (dt : F) (now : ℕ) (gap : Option ℕ) (s : System F Q D)
      → IsDownSystem s
      → IsDownSystem (update_step flag dt now gap s)
  unfolding update_step publish_section
  control_step-IsDown flag dt now gap s h =
      let down = update_section-IsDown flag dt now s.runtime s.motion h in
      record { internal = down.internal; latched = down.latched }

  emit-IsDown :
      (o : Option (Diagnostic × Diagnostics D)) (s : System F Q D)
      → IsDownSystem s
      → IsDownSystem (emit_record o s).0
  unfolding emit_record
  emit-IsDown none s h = h
  emit-IsDown (some (r, left)) s h = record { internal = h.internal; latched = h.latched }

  Step-IsDown : {s t : System F Q D} → Step s t → IsDownSystem s → IsDownSystem t
  unfolding startup_step sample_step receive_command_step count_received_step count_received
      query_step result_messages_step count_result_step count_result safety_step sampled_step
      line_step receive_error_step notified_step emit_step telemetry_step
  Step-IsDown (startup s) h = ground arith
  Step-IsDown (sample dt s) h = ground arith
  Step-IsDown (sampled flag before now s) h =
      sampled_section-IsDown flag before now s.runtime s.motion h
  Step-IsDown (receive_command s) h = take_command-IsDown (command_bus_receive s.commands) s h
  Step-IsDown (count_command c s) h = record { internal = h.internal; latched = h.latched }
  Step-IsDown (query c s e) h = h
  Step-IsDown (run_command c s e) h = command_step-IsDown c s h
  Step-IsDown (result_messages before c result s) h = h
  Step-IsDown (count_answer result s) h = record { internal = h.internal; latched = h.latched }
  Step-IsDown (control flag dt now gap s) h = control_step-IsDown flag dt now gap s h
  Step-IsDown (supervise s) h = safety_section-IsDown s.runtime h
  Step-IsDown (line text s) h = ground arith
  Step-IsDown (receive_error s) h = ground arith
  Step-IsDown (notified n s) h = ground arith
  Step-IsDown (heartbeat filter id s) h = heartbeat-IsDown filter id s.runtime h
  Step-IsDown (checkpoint stopping id s) h = checkpoint-IsDown stopping id s.runtime h
  Step-IsDown (overrun id s) h = overrun-IsDown id s.runtime h
  Step-IsDown (emit s) h = emit-IsDown (diagnostics_receive s.diagnostics) s h
  Step-IsDown (telemetry s) h = ground arith
  Step-IsDown (environment encoder gpio timer tick s) h = ground arith

  Reach-IsDown : {s t : System F Q D} → IsDownSystem s → Reach s t → IsDownSystem t
  Reach-IsDown h here = h
  Reach-IsDown h (next r st) = Step-IsDown st (Reach-IsDown h r)

  append : {s t u : System F Q D} → Reach s t → Reach t u → Reach s u
  append r here = r
  append r (next r' st) = next (append r r') st

  -- Once an internal fault is latched, in a system started by `runtime_init`: after any further
  -- sections of the tasks in any order, RESET commands included, it is still latched, the state is
  -- FAULT or ESTOP, and the motor is inhibited with output zero.
  pub Reach-IsDown_for_good :
      (s t u : System F Q D) (w : Runtime F)
      → s.runtime ≡ runtime_init w
      → Reach s t
      → IsDown t.runtime.runtime_data.safety
      → Reach t u
      → IsDown u.runtime.runtime_data.safety
        × (u.runtime.motor.inhibited ≡ true)
        × (u.runtime.motor.output ≡ nought)
  Reach-IsDown_for_good s t u w e before h after =
      let down = Reach-IsDown h after in
      let state = u.runtime.runtime_data.safety.state in
      let (inhibited, off) =
        Reach-motor_off s u w e (append before after) (inl (latched_not_idle state down.latched)) in
      (down, inhibited, off)
