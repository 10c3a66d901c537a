-- ===== src/Target/Telemetry/Replies.antt =====
-- Every line that answers a diagnostic record fits in the buffer of `uart_print`.
use real_time_embedded_motio.Base.{ℕ, ◌≤◌, ◌<◌, refl, [], ◌∷◌, arith, length, IsInt32, All, codes}
use real_time_embedded_motio.Float.{Float}
use real_time_embedded_motio.Motion.{MotionResult, motion_result_name}
use real_time_embedded_motio.Command.{CommandType, ParseResult, command_name, command_parse_error}
use real_time_embedded_motio.Diagnostics.{Diagnostic, DiagnosticKind}
use real_time_embedded_motio.Runtime.{RuntimeSnapshot}
use real_time_embedded_motio.TinyFormat.Scaling.{IsScalable}
use real_time_embedded_motio.TinyFormat.Pieces.{
  text, padded, unsigned_long, signed_long, format_of, arguments_of, widths_of, directive_of,
  argument_of, width_of,
}
use real_time_embedded_motio.TinyFormat.Pieces.Fits.{labelled, literals, literals-Fits, pieces-Fits}
use real_time_embedded_motio.Target.Telemetry.Records.{
  constant, help_calls, received_calls, kind_calls, diagnostic_calls,
}
use real_time_embedded_motio.Target.Telemetry.Lines.{CallFits, IsSnapshot, snapshot_calls-CallFits}

length-command_name : (t : CommandType) → length (command_name t) ≤ 8
unfolding command_name
length-command_name CommandType.move_abs = omega arith
length-command_name CommandType.move_rel = omega arith
length-command_name CommandType.set_speed = omega arith
length-command_name CommandType.home = omega arith
length-command_name CommandType.stop = omega arith
length-command_name CommandType.estop = omega arith
length-command_name CommandType.reset = omega arith
length-command_name CommandType.status = omega arith
length-command_name CommandType.help = omega arith

length-result_name : (r : MotionResult) → length (codes (motion_result_name r)) ≤ 24
unfolding motion_result_name
length-result_name MotionResult.accepted = omega arith
length-result_name MotionResult.invalid_state = omega arith
length-result_name MotionResult.out_of_range = omega arith
length-result_name MotionResult.not_implemented = omega arith
length-result_name MotionResult.input_error = omega arith

length-parse_error : (r : ParseResult) → length (codes (command_parse_error r)) ≤ 16
unfolding command_parse_error
length-parse_error (ParseResult.ok c) = omega arith
length-parse_error ParseResult.empty = omega arith
length-parse_error ParseResult.unknown = omega arith
length-parse_error ParseResult.argument = omega arith
length-parse_error ParseResult.too_long = omega arith

module _ {F R : Type 0} ⦃r : Float R⦄ (to_double : F → R) (to_u32 : R → ℕ)
    (scalable : IsScalable R) where
  -- A record as `diagnostics_text` and the others make it.
  pub record IsDiagnostic (d : Diagnostic) : Type 0 where
    pub message_short : length d.message < 80
    pub value_word : IsInt32 d.command.value

  help_calls-CallFits : All (CallFits to_u32 scalable) help_calls
  unfolding help_calls
  help_calls-CallFits = (
    literals-Fits scalable to_u32 _ refl (omega arith),
    (
      literals-Fits scalable to_u32 _ refl (omega arith),
      (
        literals-Fits scalable to_u32 _ refl (omega arith),
        (
          literals-Fits scalable to_u32 _ refl (omega arith),
          (
            literals-Fits scalable to_u32 _ refl (omega arith),
            (
              literals-Fits scalable to_u32 _ refl (omega arith),
              (
                literals-Fits scalable to_u32 _ refl (omega arith),
                (
                  literals-Fits scalable to_u32 _ refl (omega arith),
                  (literals-Fits scalable to_u32 _ refl (omega arith), tt),
                ),
              ),
            ),
          ),
        ),
      ),
    ),
  )

  unknown-CallFits : All (CallFits to_u32 scalable) (constant (codes "ERR DIAGNOSTIC_KIND\n") ∷ [])
  unknown-CallFits = (literals-Fits scalable to_u32 _ refl (omega arith), tt)

  received_calls-CallFits :
      (v : RuntimeSnapshot F) (t : CommandType)
      → IsSnapshot to_double to_u32 scalable v
      → All (CallFits to_u32 scalable) (received_calls to_double v t)
  unfolding received_calls format_of arguments_of directive_of argument_of widths_of width_of
  received_calls-CallFits v CommandType.status s = (
    pieces-Fits scalable to_u32
        (labelled "ACK STATUS snapshot_ms=" (unsigned_long v.timestamp_ms) (literals (codes "\n")))
        refl tt (omega arith),
    snapshot_calls-CallFits to_double to_u32 scalable (codes "STATUS") v (omega arith) s,
  )
  received_calls-CallFits v CommandType.help s = help_calls-CallFits
  received_calls-CallFits v CommandType.move_abs s = unknown-CallFits
  received_calls-CallFits v CommandType.move_rel s = unknown-CallFits
  received_calls-CallFits v CommandType.set_speed s = unknown-CallFits
  received_calls-CallFits v CommandType.home s = unknown-CallFits
  received_calls-CallFits v CommandType.stop s = unknown-CallFits
  received_calls-CallFits v CommandType.estop s = unknown-CallFits
  received_calls-CallFits v CommandType.reset s = unknown-CallFits

  kind_calls-CallFits :
      (v : RuntimeSnapshot F) (k : DiagnosticKind) (d : Diagnostic)
      → IsDiagnostic d
      → IsSnapshot to_double to_u32 scalable v
      → All (CallFits to_u32 scalable) (kind_calls to_double v k d)
  unfolding kind_calls format_of arguments_of directive_of argument_of widths_of width_of
  kind_calls-CallFits v DiagnosticKind.text d h s = (
    pieces-Fits scalable to_u32 (text d.message ∷ literals (codes "\n")) refl tt
        (omega (arith, h.message_short)),
    tt,
  )
  kind_calls-CallFits v DiagnosticKind.queued d h s = (
    pieces-Fits scalable to_u32
        (labelled "ACK QUEUED command=" (text (command_name d.command.type))
          (labelled " value=" (signed_long d.command.value) (literals (codes "\n"))))
        refl (h.value_word, tt) (omega (arith, length-command_name d.command.type)),
    tt,
  )
  kind_calls-CallFits v DiagnosticKind.queue_full d h s = (
    pieces-Fits scalable to_u32
        (labelled "ERR QUEUE_FULL command=" (text (command_name d.command.type))
          (literals (codes "\n")))
        refl tt (omega (arith, length-command_name d.command.type)),
    tt,
  )
  kind_calls-CallFits v DiagnosticKind.parse_error d h s = (
    pieces-Fits scalable to_u32
        (labelled "ERR " (text (codes (command_parse_error d.parse_result)))
          (literals (codes "\n")))
        refl tt (omega (arith, length-parse_error d.parse_result)),
    tt,
  )
  kind_calls-CallFits v DiagnosticKind.received d h s = received_calls-CallFits v d.command.type s
  kind_calls-CallFits v DiagnosticKind.motion d h s = (
    pieces-Fits scalable to_u32
        (labelled "MOTION command=" (text (command_name d.command.type)) (
          labelled " value=" (signed_long d.command.value) (
            labelled " " (text (codes (motion_result_name d.motion_result)))
              (literals (codes "\n")))))
        refl (h.value_word, tt)
        (omega (arith, length-command_name d.command.type, length-result_name d.motion_result)),
    tt,
  )

  -- For every diagnostic record with a message of fewer than 80 bytes and an `int32_t`, and every
  -- snapshot whose numbers are those of their types, each line of `platform_diagnostic_emit` is
  -- formatted whole, in at most 256 bytes, whatever the record's kind and command are.
  pub diagnostic_calls-CallFits :
      (v : RuntimeSnapshot F) (d : Diagnostic)
      → IsDiagnostic d
      → IsSnapshot to_double to_u32 scalable v
      → All (CallFits to_u32 scalable) (diagnostic_calls to_double v d)
  unfolding diagnostic_calls format_of arguments_of directive_of argument_of widths_of width_of
  diagnostic_calls-CallFits v d h s = (
    pieces-Fits scalable to_u32 (labelled "[" (padded d.timestamp_ms) (literals (codes "] "))) refl
        tt (omega arith),
    kind_calls-CallFits v d.kind d h s,
  )
