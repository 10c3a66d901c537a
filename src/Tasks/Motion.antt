-- ===== src/Tasks/Motion.antt =====
-- firmware/tasks/motion_task.c: the sections of one cycle, between which other tasks may run.
use real_time_embedded_motio.Base.{
  ℕ, ◌+◌, Bool, true, false, not, ◌||◌, Option, none, some, List, [], ◌∷◌, if◌then◌else◌, ◌==◌, ltb,
  u32,
}
use Prim.Native.String.{String}
use real_time_embedded_motio.Float.{Float}
use real_time_embedded_motio.Application.{AppState, is_idle, is_homing, application_step}
use real_time_embedded_motio.Command.{CommandType, MotionCommand, ParseResult}
use real_time_embedded_motio.Motion.{MotionController, MotionResult, HomingResult, motion_sample}
use real_time_embedded_motio.Homing.{homing_abort}
use real_time_embedded_motio.Safety.{safety_internal_fault}
use real_time_embedded_motio.Queue.{Queue}
use real_time_embedded_motio.Bus.{CommandBus, command_bus_receive}
use real_time_embedded_motio.Diagnostics.{
  Diagnostic, DiagnosticKind, diagnostics_command, diagnostics_motion,
}
use real_time_embedded_motio.Runtime.{
  Runtime, RuntimeSnapshot, set_safety, count_aborted, is_active, is_accepted, platform_time_ms,
  runtime_safety_enforce, runtime_safety_sync, runtime_safety_command, runtime_control_update,
}
use real_time_embedded_motio.Tasks.Types.{System, update_at, report, transition, set_runtime_data}

abbrev is_starting : AppState → Bool
is_starting AppState.boot = true
is_starting AppState.initializing = true
is_starting _ = false

abbrev type_index : CommandType → ℕ
type_index CommandType.move_abs = 0
type_index CommandType.move_rel = 1
type_index CommandType.set_speed = 2
type_index CommandType.home = 3
type_index CommandType.stop = 4
type_index CommandType.estop = 5
type_index CommandType.reset = 6
type_index CommandType.status = 7
type_index CommandType.help = 8

abbrev pub is_query : CommandType → Bool
is_query CommandType.status = true
is_query CommandType.help = true
is_query _ = false

abbrev update_messages : Bool → List String
update_messages true = []
update_messages false = "CONTROL INTERNAL fault output=zero" ∷ []

abbrev completion_messages : ℕ → ℕ → List String
completion_messages before after =
    if after == before then [] else "MOTION COMPLETE output=zero" ∷ []

module _ {F : Type 0} ⦃f : Float F⦄ where
  -- The critical section after a sample: `before` is the state before the sample.
  unfoldable pub sampled_section :
      Bool → AppState → ℕ → Runtime F → MotionController F → Runtime F × MotionController F
  sampled_section sampled before now w m =
      let counted = if is_active before then set_safety count_aborted w else w in
      let (motor, aborted) = homing_abort HomingResult.faulted counted.motor m in
      let stopped = if is_homing before then record counted { motor = motor } else counted in
      let m' = if is_homing before then aborted else m in
      if sampled
      then runtime_safety_sync w m
      else runtime_safety_sync
          (runtime_safety_enforce (set_safety (safety_internal_fault now) stopped)) m'

  -- The counters of a received command.
  unfoldable pub count_received : MotionCommand → RuntimeSnapshot F → RuntimeSnapshot F
  count_received command v = record v {
    received_by_type = update_at (type_index command.type) (λ n. u32 (n + 1)) v.received_by_type;
    last_command = command;
  }

  unfoldable pub count_result : MotionResult → RuntimeSnapshot F → RuntimeSnapshot F
  count_result result v = record v {
    last_motion_result = result;
    motion_accepted = if is_accepted result then u32 (v.motion_accepted + 1) else v.motion_accepted;
    motion_rejected = if is_accepted result then v.motion_rejected else u32 (v.motion_rejected + 1);
  }

  -- The block under `if (!updated)`: `active` is `active_before_update`.
  unfoldable pub failed_section :
      Bool → ℕ → Runtime F → MotionController F → Bool × Runtime F × MotionController F
  failed_section active now w m =
      let counted = if active then set_safety count_aborted w else w in
      let (stopped, held) =
        runtime_safety_sync
          (runtime_safety_enforce (set_safety (safety_internal_fault now) counted)) m in
      (false, stopped, held)

  -- What follows the call of `runtime_control_update`.
  unfoldable pub finish_update :
      Bool → ℕ → Bool × Runtime F × MotionController F → Bool × Runtime F × MotionController F
  finish_update active now (done, w, m) =
      if done then (true, w, m) else failed_section active now w m

  -- The critical section of the control update, up to the publication: the flag is `updated`.
  unfoldable pub update_section :
      Bool → F → ℕ → Runtime F → MotionController F → Bool × Runtime F × MotionController F
  update_section sampled dt now w m =
      let (synced, held) = runtime_safety_sync w m in
      let active = is_active held.snapshot.state in
      if sampled
      then finish_update active now (runtime_control_update dt now synced held)
      else failed_section active now synced held

  -- The publication at the end of that section: `gap` is given except in the first cycle.
  unfoldable pub publish_section :
      AppState → Bool → Option ℕ → MotionController F → RuntimeSnapshot F → RuntimeSnapshot F
  publish_section app updated gap m v =
      let low = λ (g : ℕ). v.motion_min_gap_ms == 0 || ltb g v.motion_min_gap_ms in
      record v {
        state =
            if not (is_idle v.safety.state)
            then v.safety.state
            else if is_idle app
            then m.snapshot.state
            else app;
        motion = m.snapshot;
        encoder_count = m.snapshot.position;
        encoder_valid = m.snapshot.feedback_valid;
        motor_output = m.snapshot.pwm;
        control_errors = if updated then v.control_errors else u32 (v.control_errors + 1);
        motion_min_gap_ms = elim gap [
          | none ↦ v.motion_min_gap_ms
          | some g ↦ if low g then g else v.motion_min_gap_ms
        ];
        motion_max_gap_ms = elim gap [
          | none ↦ v.motion_max_gap_ms
          | some g ↦ if ltb v.motion_max_gap_ms g then g else v.motion_max_gap_ms
        ];
      }

module _ {F Q D : Type 0} ⦃f : Float F⦄ ⦃q : Queue Q MotionCommand⦄ ⦃d : Queue D Diagnostic⦄ where
  -- `application_step` at the head of a cycle; the text for `platform_log` goes to the UART.
  unfoldable pub startup_step : System F Q D → System F Q D
  startup_step s =
      let w = s.runtime in
      let (app, motor, text) = application_step (platform_time_ms w) s.app w.motor in
      if is_starting s.app.state
      then record s { app = app; runtime = record w { motor = motor } }
      else s

  -- `motion_sample` outside the critical section. The flag is `sampled`.
  unfoldable pub sample_step : F → System F Q D → System F Q D × Bool
  sample_step dt s =
      let w = s.runtime in
      let (sampled, motor, m) = motion_sample w.encoder dt w.motor s.motion in
      (record s { runtime = record w { motor = motor }; motion = m }, sampled)

  -- The critical section that follows, and the messages.
  unfoldable pub sampled_step : Bool → AppState → ℕ → System F Q D → System F Q D
  sampled_step sampled before now s =
      let (w, m) = sampled_section sampled before now s.runtime s.motion in
      record s {
        runtime = w;
        motion = m;
        diagnostics = transition (platform_time_ms w) before m.snapshot.state s.diagnostics;
      }

  -- The steps of one round of the loop over the queue. Each critical section is a step of its own, and
  -- so is what lies between two of them. First, `command_bus_receive`.
  unfoldable pub take_command :
      Option (MotionCommand × CommandBus Q) → System F Q D → System F Q D × Option MotionCommand
  take_command none s = (s, none)
  take_command (some (command, bus)) s = (record s { commands = bus }, some command)

  unfoldable pub receive_command_step : System F Q D → System F Q D × Option MotionCommand
  receive_command_step s = take_command (command_bus_receive s.commands) s

  -- The critical section that counts the command.
  unfoldable pub count_received_step : MotionCommand → System F Q D → System F Q D
  count_received_step command s = record s {
    runtime = set_runtime_data (count_received command) s.runtime;
  }

  -- STATUS and HELP.
  unfoldable pub query_step : MotionCommand → System F Q D → System F Q D
  query_step command s = record s {
    diagnostics =
        diagnostics_command (platform_time_ms s.runtime) DiagnosticKind.received command
          (ParseResult.ok command) s.diagnostics;
  }

  -- The critical section in which any other command runs, with `result`.
  unfoldable pub command_step : MotionCommand → System F Q D → System F Q D × MotionResult
  command_step command s =
      let (result, w, m) = runtime_safety_command command s.runtime s.motion in
      if is_idle s.app.state
      then (record s { runtime = w; motion = m }, result)
      else (s, MotionResult.invalid_state)

  -- The messages: `before` is the state before that section.
  unfoldable pub result_messages_step :
      AppState → MotionCommand → MotionResult → System F Q D → System F Q D
  result_messages_step before command result s =
      let now = platform_time_ms s.runtime in
      record s {
        diagnostics =
            diagnostics_motion now command result
              (transition now before s.motion.snapshot.state s.diagnostics);
      }

  -- The critical section that counts the result.
  unfoldable pub count_result_step : MotionResult → System F Q D → System F Q D
  count_result_step result s = record s {
    runtime = set_runtime_data (count_result result) s.runtime;
  }

  -- The critical section of the control update, its publication and its messages.
  unfoldable pub update_step : Bool → F → ℕ → Option ℕ → System F Q D → System F Q D
  update_step sampled dt now gap s =
      let before = s.motion.snapshot.state in
      let completed = s.motion.snapshot.completed_moves in
      let (updated, w, m) = update_section sampled dt now s.runtime s.motion in
      let t = platform_time_ms w in
      record s {
        runtime = set_runtime_data (publish_section s.app.state updated gap m) w;
        motion = m;
        diagnostics = report t (completion_messages completed m.snapshot.completed_moves) (
            transition t before m.snapshot.state
              (report t (update_messages updated) s.diagnostics));
      }
