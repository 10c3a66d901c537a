-- ===== src/Tasks/Interleaving.antt =====
-- Every order in which the kernel may run the tasks' sections, with an environment that moves the
-- encoder, the inputs and the clock between them.
pub mod Gate
pub mod Permanent
use real_time_embedded_motio.Base.{ℕ, ◌≡◌, Bool, true, false, Option, List}
use real_time_embedded_motio.Float.{Float}
use real_time_embedded_motio.Application.{AppState}
use real_time_embedded_motio.Command.{MotionCommand}
use real_time_embedded_motio.Motion.{MotionResult}
use real_time_embedded_motio.Drivers.Encoder.{Encoder}
use real_time_embedded_motio.Drivers.Gpio.{Gpio}
use real_time_embedded_motio.Drivers.Timer.{Timer}
use real_time_embedded_motio.Queue.{Queue}
use real_time_embedded_motio.Diagnostics.{Diagnostic}
use real_time_embedded_motio.Tasks.{
  System, HealthId, runtime_heartbeat, startup_step, sample_step, sampled_step,
  receive_command_step, count_received_step, query_step, command_step, result_messages_step,
  count_result_step, is_query, update_step, safety_step, line_step, receive_error_step,
  notified_step, TaskId, runtime_checkpoint, note_overrun, emit_step, telemetry_step,
  set_runtime_data,
}

module _ {F Q D : Type 0} ⦃f : Float F⦄ ⦃q : Queue Q MotionCommand⦄ ⦃d : Queue D Diagnostic⦄ where
  -- One section of one task. The locals of the motion task (whether it sampled, the cycle's time,
  -- its length, the state before, the received command and its result) may have any value, so that a
  -- command may run that no queue held.
  pub data Step : System F Q D → System F Q D → Type 0 where
    startup : (s : System F Q D) → Step s (startup_step s)
    sample : (dt : F) (s : System F Q D) → Step s (sample_step dt s).0
    sampled :
        (flag : Bool) (before : AppState) (now : ℕ) (s : System F Q D)
        → Step s (sampled_step flag before now s)
    receive_command : (s : System F Q D) → Step s (receive_command_step s).0
    count_command :
        (command : MotionCommand) (s : System F Q D) → Step s (count_received_step command s)
    query :
        (command : MotionCommand) (s : System F Q D)
        → is_query command.type ≡ true
        → Step s (query_step command s)
    run_command :
        (command : MotionCommand) (s : System F Q D)
        → is_query command.type ≡ false
        → Step s (command_step command s).0
    result_messages :
        (before : AppState) (command : MotionCommand) (result : MotionResult) (s : System F Q D)
        → Step s (result_messages_step before command result s)
    count_answer : (result : MotionResult) (s : System F Q D) → Step s (count_result_step result s)
    control :
        (flag : Bool) (dt : F) (now : ℕ) (gap : Option ℕ) (s : System F Q D)
        → Step s (update_step flag dt now gap s)
    supervise : (s : System F Q D) → Step s (safety_step s)
    line : (text : List ℕ) (s : System F Q D) → Step s (line_step text s)
    receive_error : (s : System F Q D) → Step s (receive_error_step s)
    notified : (n : ℕ) (s : System F Q D) → Step s (notified_step n s)
    heartbeat :
        (filter : HealthId → Bool) (id : HealthId) (s : System F Q D)
        → Step s (record s { runtime = runtime_heartbeat filter id s.runtime })
    checkpoint :
        (stopping : Bool) (id : TaskId) (s : System F Q D)
        → Step s (record s { runtime = (runtime_checkpoint stopping id s.runtime).0 })
    overrun :
        (id : TaskId) (s : System F Q D)
        → Step s (record s { runtime = set_runtime_data (note_overrun id) s.runtime })
    emit : (s : System F Q D) → Step s (emit_step s).0
    telemetry : (s : System F Q D) → Step s (telemetry_step s)
    environment :
        (encoder : Encoder) (gpio : Gpio) (timer : Timer) (tick : ℕ) (s : System F Q D)
        → Step s (record s {
          runtime = record (s.runtime) {
            encoder = encoder;
            gpio = gpio;
            timer = timer;
            tick = tick;
          };
        })

  pub data Reach (s : System F Q D) : System F Q D → Type 0 where
    here : Reach s s
    next : {t u : System F Q D} → Reach s t → Step t u → Reach s u
