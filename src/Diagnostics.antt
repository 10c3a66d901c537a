-- ===== src/Diagnostics.antt =====
-- firmware/rtos/diagnostics.h and diagnostics.c: the bounded queue of records for the telemetry task.
pub mod Accounts
use real_time_embedded_motio.Base.{
  ℕ, zero, suc, ◌+◌, Bool, true, false, Option, none, some, List, [], ◌∷◌, if◌then◌else◌, ◌==◌, ltb,
  u32, pos,
}
use real_time_embedded_motio.Command.{CommandType, MotionCommand, ParseResult}
use real_time_embedded_motio.Motion.{MotionResult}
use real_time_embedded_motio.Queue.{Queue}

-- `diagnostic_kind_t`.
pub data DiagnosticKind : Type 0 where
  text queued queue_full parse_error received motion : DiagnosticKind

-- `diagnostic_t`. A text is its bytes up to the terminating NUL.
pub record Diagnostic : Type 0 where
  pub timestamp_ms : ℕ
  pub kind : DiagnosticKind
  pub command : MotionCommand
  pub parse_result : ParseResult
  pub motion_result : MotionResult
  pub message : List ℕ

-- The fields of `{0}`: CMD_MOVE_ABS and MOTION_ACCEPTED are 0; PARSE_OK, which is 0 too, has the
-- record's command.
abbrev pub no_command : MotionCommand
no_command = record { type = CommandType.move_abs; value = pos 0 }

-- The static variables of diagnostics.c.
pub record Diagnostics (D : Type 0) : Type 0 where
  pub queue : D
  pub dropped : ℕ

abbrev pub diagnostic_capacity : ℕ
diagnostic_capacity = 32

abbrev pub diagnostic_text_capacity : ℕ
diagnostic_text_capacity = 80

-- The loop that copies a text, from index `i` on.
unfoldable pub copy_text : ℕ → List ℕ → List ℕ
copy_text i [] = []
copy_text i (c ∷ cs) =
    let rest = copy_text (i + 1) cs in
    if ltb (i + 1) diagnostic_text_capacity then (if c == 0 then [] else c ∷ rest) else []

module _ {D : Type 0} ⦃d : Queue D Diagnostic⦄ where
  unfoldable pub diagnostics_init : Diagnostics D
  diagnostics_init = record { queue = d.create diagnostic_capacity; dropped = 0 }

  unfoldable pub send_record : Diagnostics D → Diagnostic → Diagnostics D × Bool
  send_record s r =
      let (queue, sent) = d.send s.queue r in
      (record s { queue = queue; dropped = if sent then s.dropped else u32 (s.dropped + 1) }, sent)

  -- `now` is what `platform_time_ms` returns.
  unfoldable pub diagnostics_text : ℕ → List ℕ → Diagnostics D → Diagnostics D × Bool
  diagnostics_text now bytes s = send_record s (record {
    timestamp_ms = now;
    kind = DiagnosticKind.text;
    command = no_command;
    parse_result = ParseResult.ok no_command;
    motion_result = MotionResult.accepted;
    message = copy_text 0 bytes;
  })

  unfoldable pub diagnostics_command :
      ℕ → DiagnosticKind → MotionCommand → ParseResult → Diagnostics D → Diagnostics D
  diagnostics_command now kind command result s =
      (send_record s (record {
        timestamp_ms = now;
        kind = kind;
        command = command;
        parse_result = result;
        motion_result = MotionResult.accepted;
        message = [];
      })).0

  unfoldable pub diagnostics_motion :
      ℕ → MotionCommand → MotionResult → Diagnostics D → Diagnostics D
  diagnostics_motion now command result s =
      (send_record s (record {
        timestamp_ms = now;
        kind = DiagnosticKind.motion;
        command = command;
        parse_result = ParseResult.ok command;
        motion_result = result;
        message = [];
      })).0

  -- `none` is the C function's `false`.
  with_queue : Diagnostics D → Option (Diagnostic × D) → Option (Diagnostic × Diagnostics D)
  with_queue s none = none
  with_queue s (some (r, queue)) = some (r, record s { queue = queue })

  unfoldable pub diagnostics_receive : Diagnostics D → Option (Diagnostic × Diagnostics D)
  unfolding with_queue
  diagnostics_receive s = with_queue s (d.receive s.queue)
