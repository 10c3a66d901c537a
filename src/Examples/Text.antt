-- ===== src/Examples/Text.antt =====
-- The theorems about formatted texts at concrete inputs.
use real_time_embedded_motio.Base.{
  ◌≡◌, refl, true, some, none, List, [], ◌∷◌, arith, ltb, length, if◌then◌else◌, All, codes, negsuc,
}
use real_time_embedded_motio.Float.Fixed.{Fixed, fixed_float}
use real_time_embedded_motio.TinyFormat.Scaling.{Writes, real-Writes}
use real_time_embedded_motio.Examples.Extended.{
  Extended, number, infinite, extended_float, widened, truncated, Extended-IsScalable,
  extended-Displayable,
}
use real_time_embedded_motio.TinyFormat.Real.{real}
use real_time_embedded_motio.TinyFormat.Format.{Formatted, tiny_vformat}
use real_time_embedded_motio.TinyFormat.Pieces.{
  Piece, literal, text, signed_long, general, padded, format_of, arguments_of, texts_of, ArePieces,
  IsPiece,
}
use real_time_embedded_motio.TinyFormat.Pieces.Whole.{tiny_vformat-texts_of}
use real_time_embedded_motio.Motion.{MotionResult}
use real_time_embedded_motio.Command.{ParseResult}
use real_time_embedded_motio.Diagnostics.{Diagnostic, DiagnosticKind}
use real_time_embedded_motio.Runtime.{RuntimeSnapshot, initial_data}
use real_time_embedded_motio.Target.Telemetry.{snapshot_calls}
use real_time_embedded_motio.Target.Telemetry.Records.{diagnostic_calls}
use real_time_embedded_motio.Target.Telemetry.Lines.{CallFits, IsSnapshot, snapshot_calls-CallFits}
use real_time_embedded_motio.Target.Telemetry.Replies.{diagnostic_calls-CallFits}
use real_time_embedded_motio.Examples.{thousandths, move_command}

real_example : Writes 25 (λ w. real truncated w (number (some (negsuc 699))))
real_example =
    real-Writes Extended-IsScalable truncated (number (some (negsuc 699)))
      (extended-Displayable _ (omega arith) (omega arith))
      (extended-Displayable _ (omega arith) (omega arith))

-- A format with four kinds of directive, and an infinite number.
abbrev sample : List (Piece Extended)
sample =
    text (codes "at")
    ∷ literal b' '
    ∷ signed_long (negsuc 41)
    ∷ literal b','
    ∷ general (infinite true)
    ∷ padded 7
    ∷ []

sample-ArePieces : ArePieces Extended-IsScalable sample
unfolding ArePieces IsPiece
sample-ArePieces = (
  tt,
  (
    refl,
    (
      omega arith,
      (
        refl,
        (
          (
            extended-Displayable _ (omega arith) (omega arith),
            extended-Displayable _ (omega arith) (omega arith),
          ),
          (tt, tt),
        ),
      ),
    ),
  ),
)

format_example : tiny_vformat truncated 24 (format_of sample) (arguments_of sample) ≡ (
    if ltb (length (texts_of truncated sample)) 24
    then Formatted.written (texts_of truncated sample)
    else Formatted.failed)
format_example = tiny_vformat-texts_of truncated Extended-IsScalable 24 sample sample-ArePieces

-- A snapshot on the way, with an error that becomes infinite.
abbrev on_the_way : RuntimeSnapshot Fixed
on_the_way =
    let v = initial_data 0 in
    record v {
      motion = record (v.motion) { velocity = thousandths 1500; error = none };
      safety = record (v.safety) { requested_pwm = thousandths 800; applied_pwm = thousandths 800 };
    }

on_the_way-IsSnapshot : IsSnapshot widened truncated Extended-IsScalable on_the_way
on_the_way-IsSnapshot = record {
  target_word = omega arith;
  position_word = omega arith;
  velocity_shown = record {
    shown = extended-Displayable _ (omega arith) (omega arith);
    shown_neg = extended-Displayable _ (omega arith) (omega arith);
  };
  error_shown = record {
    shown = extended-Displayable _ (omega arith) (omega arith);
    shown_neg = extended-Displayable _ (omega arith) (omega arith);
  };
  requested_shown = record {
    shown = extended-Displayable _ (omega arith) (omega arith);
    shown_neg = extended-Displayable _ (omega arith) (omega arith);
  };
  applied_shown = record {
    shown = extended-Displayable _ (omega arith) (omega arith);
    shown_neg = extended-Displayable _ (omega arith) (omega arith);
  };
}

snapshot_example :
    All (CallFits truncated Extended-IsScalable) (snapshot_calls widened (codes "TEL") on_the_way)
snapshot_example =
    snapshot_calls-CallFits widened truncated Extended-IsScalable (codes "TEL") on_the_way
      (omega arith) on_the_way-IsSnapshot

-- A record of an accepted move.
abbrev moved : Diagnostic
moved = record {
  timestamp_ms = 40;
  kind = DiagnosticKind.motion;
  command = move_command 300;
  parse_result = ParseResult.ok (move_command 300);
  motion_result = MotionResult.accepted;
  message = [];
}

reply_example :
    All (CallFits truncated Extended-IsScalable) (diagnostic_calls widened on_the_way moved)
reply_example =
    diagnostic_calls-CallFits widened truncated Extended-IsScalable on_the_way moved
      (record { message_short = omega arith; value_word = omega arith }) on_the_way-IsSnapshot
