-- ===== src/Tasks/Services.antt =====
-- firmware/rtos/runtime.c and periodic.c: parking, the snapshot and overruns; and the cycle of
-- firmware/tasks/telemetry_task.c. `stopping` of runtime.c is an argument.
use real_time_embedded_motio.Base.{
  ℕ, ◌+◌, ◌^◌, ◌/◌, ◌%◌, Bool, true, false, Option, none, some, if◌then◌else◌, ◌==◌, u32,
}
use real_time_embedded_motio.Float.{Float}
use real_time_embedded_motio.Command.{MotionCommand}
use real_time_embedded_motio.Drivers.Motor.{motor_disable}
use real_time_embedded_motio.Queue.{Queue}
use real_time_embedded_motio.Diagnostics.{Diagnostic, Diagnostics, diagnostics_receive}
use real_time_embedded_motio.Runtime.{Runtime, RuntimeSnapshot, platform_time_ms}
use real_time_embedded_motio.Tasks.Types.{System, set_runtime_data}

-- `runtime_task_id_t`.
pub data TaskId : Type 0 where
  motion safety comms telemetry : TaskId

abbrev pub task_index : TaskId → ℕ
task_index TaskId.motion = 0
task_index TaskId.safety = 1
task_index TaskId.comms = 2
task_index TaskId.telemetry = 3

abbrev is_motion : TaskId → Bool
is_motion TaskId.motion = true
is_motion _ = false

-- `n |= 1U << i`.
unfoldable pub set_bit : ℕ → ℕ → ℕ
set_bit i n = if (n / 2 ^ i) % 2 == 1 then n else n + 2 ^ i

module _ {F : Type 0} ⦃f : Float F⦄ where
  -- The flag tells that the task suspends itself.
  unfoldable pub runtime_checkpoint : Bool → TaskId → Runtime F → Runtime F × Bool
  runtime_checkpoint stopping id w =
      let started =
        set_runtime_data (λ v. record v { tasks_started = set_bit (task_index id) v.tasks_started })
          w in
      let parked =
        set_runtime_data (λ v. record v { tasks_parked = set_bit (task_index id) v.tasks_parked })
          started in
      let off = record parked { motor = motor_disable parked.motor } in
      if stopping then (if is_motion id then (off, true) else (parked, true)) else (started, false)

  -- The late branch of `runtime_periodic_wait`, with `overruns` the counter of the motion task or of
  -- the safety task.
  unfoldable pub note_overrun : TaskId → RuntimeSnapshot F → RuntimeSnapshot F
  note_overrun TaskId.motion v = record v { motion_overruns = u32 (v.motion_overruns + 1) }
  note_overrun TaskId.safety v = record v { safety_overruns = u32 (v.safety_overruns + 1) }
  note_overrun id v = v

module _ {F Q D : Type 0} ⦃f : Float F⦄ ⦃q : Queue Q MotionCommand⦄ ⦃d : Queue D Diagnostic⦄ where
  unfoldable pub runtime_snapshot : System F Q D → RuntimeSnapshot F
  runtime_snapshot s =
      let v = s.runtime.runtime_data in
      record v {
        timestamp_ms = platform_time_ms s.runtime;
        queued = s.commands.sent;
        consumed = s.commands.received;
        rejected = s.commands.rejected;
        queue_used = u32 (q.waiting s.commands.queue);
        queue_high_water = s.commands.high_water;
        diagnostic_drops = s.diagnostics.dropped;
        safety = record (v.safety) {
          requested_pwm = s.runtime.motor.requested;
          applied_pwm = s.runtime.motor.output;
        };
      }

  -- A round of the loop of the telemetry task: the record that it emits, and `none` at its end.
  unfoldable pub emit_record :
      Option (Diagnostic × Diagnostics D) → System F Q D → System F Q D × Option Diagnostic
  emit_record none s = (s, none)
  emit_record (some (r, left)) s = (record s { diagnostics = left }, some r)

  unfoldable pub emit_step : System F Q D → System F Q D × Option Diagnostic
  emit_step s = emit_record (diagnostics_receive s.diagnostics) s

  -- The count of the telemetry task's cycles.
  unfoldable pub telemetry_step : System F Q D → System F Q D
  telemetry_step s = record s {
    runtime =
        set_runtime_data (λ v. record v { telemetry_cycles = u32 (v.telemetry_cycles + 1) })
          s.runtime;
  }
