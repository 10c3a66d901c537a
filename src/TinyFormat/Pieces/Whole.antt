-- ===== src/TinyFormat/Pieces/Whole.antt =====
-- `tiny_vformat` over a whole format.
use real_time_embedded_motio.Base.{
  ℕ, zero, suc, ◌+◌, ◌≤◌, ◌<◌, ◌≡◌, refl, sym, ap, ◌∙◌, true, false, Option, some, List, [], ◌∷◌,
  ◌++◌, arith, ltb, length, length-append, if◌then◌else◌, if_true, if_false,
}
use native.Mathlib.Decide.{dec_lt}
use mathlib.Core.List.{append-nil, append_assoc}
use real_time_embedded_motio.Float.{Float}
use real_time_embedded_motio.TinyFormat.{Writer}
use real_time_embedded_motio.TinyFormat.Format.{
  Argument, Formatted, format_loop, tiny_vformat, tiny_vformat-format_loop,
}
use real_time_embedded_motio.TinyFormat.Scaling.{IsScalable}
use real_time_embedded_motio.TinyFormat.Pieces.{
  Piece, literal, text, unsigned, unsigned_long, padded, signed_long, general, directive_of,
  text_of, format_of, arguments_of, texts_of, widths_of, ArePieces,
}
use real_time_embedded_motio.TinyFormat.Pieces.Steps.{piece-Turn}

module _ {R : Type 0} where
  abbrev pieces : List (Piece R) → ℕ
  pieces [] = 0
  pieces (p ∷ ps) = suc (pieces ps)

  -- Every piece takes a character of the format at least.
  pieces-format_of : (ps : List (Piece R)) → pieces ps ≤ length (format_of ps)
  unfolding format_of directive_of
  pieces-format_of [] = omega arith
  pieces-format_of (literal c ∷ ps) = omega (arith, pieces-format_of ps)
  pieces-format_of (text s ∷ ps) = omega (arith, pieces-format_of ps)
  pieces-format_of (unsigned n ∷ ps) = omega (arith, pieces-format_of ps)
  pieces-format_of (unsigned_long n ∷ ps) = omega (arith, pieces-format_of ps)
  pieces-format_of (padded n ∷ ps) = omega (arith, pieces-format_of ps)
  pieces-format_of (signed_long z ∷ ps) = omega (arith, pieces-format_of ps)
  pieces-format_of (general v ∷ ps) = omega (arith, pieces-format_of ps)

module _ {R : Type 0} ⦃f : Float R⦄ (to_u32 : R → ℕ) where
  failed_turn :
      (fuel : ℕ) (args : List (Argument R)) (format : List ℕ) (w : Writer)
      → w.failed ≡ true
      → format_loop to_u32 (suc fuel) args format w ≡ some w
  unfolding format_loop
  failed_turn fuel args [] w e = refl
  failed_turn fuel args (c ∷ rest) w e = if_true w.failed _ _ e

  -- A failed writer ends the loop.
  failed_loop :
      (fuel : ℕ) (ps : List (Piece R)) (w : Writer)
      → pieces ps ≤ fuel
      → w.failed ≡ true
      → format_loop to_u32 fuel (arguments_of ps) (format_of ps) w ≡ some w
  unfolding format_loop format_of
  failed_loop fuel [] w h e = refl
  failed_loop zero (p ∷ ps) w h e = absurd (omega arith)
  failed_loop (suc fuel) (p ∷ ps) w h e =
      failed_turn fuel (arguments_of (p ∷ ps)) (format_of (p ∷ ps)) w e

  -- What the loop leaves: the texts after what is written, where they fit, and otherwise a failure.
  record Ends (ps : List (Piece R)) (w : Writer) (result : Option Writer) : Type 0 where
    pub last : Writer
    pub ends : result ≡ some last
    pub fits :
        length w.text + length (texts_of to_u32 ps) < w.capacity
        → last ≡ record w { text = w.text ++ texts_of to_u32 ps }
    pub overflows : w.capacity ≤ length w.text + length (texts_of to_u32 ps) → last.failed ≡ true

module _ {R : Type 0} ⦃f : Float R⦄ (to_u32 : R → ℕ) (scalable : IsScalable R) where
  format_loop-Ends :
      (fuel : ℕ) (ps : List (Piece R)) (w : Writer)
      → ArePieces scalable ps
      → pieces ps ≤ fuel
      → w.failed ≡ false
      → length w.text < w.capacity
      → Ends to_u32 ps w (format_loop to_u32 fuel (arguments_of ps) (format_of ps) w)
  unfolding format_of arguments_of texts_of ArePieces format_loop
  format_loop-Ends fuel [] w h n e i = record {
    last = w;
    ends = refl;
    fits = λ r. ap (λ (t : List ℕ). record w { text = t }) (sym (append-nil w.text));
    overflows = λ r. absurd (omega (arith, r, i));
  }
  format_loop-Ends zero (p ∷ ps) w h n e i = absurd (omega arith)
  format_loop-Ends (suc fuel) (p ∷ ps) w (h, hs) n e i =
      let turn = piece-Turn to_u32 scalable p h in
      let t = text_of to_u32 p in
      let first = turn.turns fuel (arguments_of ps) (format_of ps) w e in
      let long = length-append t (texts_of to_u32 ps) in
      elim (dec_lt (length w.text + length t) w.capacity) [
        | yes room ↦
            let next : Writer = record w { text = w.text ++ t } in
            let longer = length-append w.text t in
            let same = turn.appends.fits w e room in
            let rest = format_loop-Ends fuel ps next hs (omega arith) e (omega arith) in
            record {
              last = rest.last;
              ends = first ∙ rw same rest.ends;
              fits = λ r.
                  rest.fits (omega arith)
                  ∙ ap (λ (x : List ℕ). record w { text = x })
                      (append_assoc w.text t (texts_of to_u32 ps));
              overflows = λ r. rest.overflows (omega arith);
            }
        | no full ↦
            let broken = turn.appends.overflows w e i (omega arith) in
            record {
              last = turn.operation w;
              ends = first ∙ failed_loop to_u32 fuel ps (turn.operation w) (omega arith) broken;
              fits = λ r. absurd (omega arith);
              overflows = λ r. broken;
            }
      ]

  -- For every list of pieces, `tiny_vformat` with their format and arguments writes their texts one
  -- after another where these and the terminator fit in the buffer, and otherwise answers -1.
  pub tiny_vformat-texts_of :
      (capacity : ℕ) (ps : List (Piece R))
      → ArePieces scalable ps
      → tiny_vformat to_u32 capacity (format_of ps) (arguments_of ps) ≡ (
          if ltb (length (texts_of to_u32 ps)) capacity
          then Formatted.written (texts_of to_u32 ps)
          else Formatted.failed)
  unfolding tiny_vformat
  tiny_vformat-texts_of zero ps h = ground arith
  tiny_vformat-texts_of (suc room) ps h =
      let start : Writer = record { text = []; capacity = suc room; failed = false } in
      let r =
        format_loop-Ends (length (format_of ps)) ps start h (pieces-format_of ps) refl
          (omega arith) in
      let result =
        tiny_vformat-format_loop to_u32 (suc room) (format_of ps) (arguments_of ps) r.last
          (ground arith) r.ends in
      elim (dec_lt (length (texts_of to_u32 ps)) (suc room)) [
        | yes fits ↦
            let ltb_fits : ltb (length (texts_of to_u32 ps)) (suc room) ≡ true =
              ground (arith, fits) in
            result
            ∙ rw (r.fits (omega (arith, fits)))
                (sym (if_true (ltb (length (texts_of to_u32 ps)) (suc room)) _ _ ltb_fits))
        | no long ↦
            let ltb_long : ltb (length (texts_of to_u32 ps)) (suc room) ≡ false =
              ground (arith, long) in
            result
            ∙ if_true r.last.failed _ _ (r.overflows (omega arith))
            ∙ sym (if_false (ltb (length (texts_of to_u32 ps)) (suc room)) _ _ ltb_long)
      ]

  -- The texts are no longer than the widths of the pieces.
  pub length-texts_of :
      (ps : List (Piece R)) → ArePieces scalable ps → length (texts_of to_u32 ps) ≤ widths_of ps
  unfolding texts_of widths_of ArePieces
  length-texts_of [] h = omega arith
  length-texts_of (p ∷ ps) (h, hs) =
      let turn = piece-Turn to_u32 scalable p h in
      omega (
        arith,
        turn.short,
        length-texts_of ps hs,
        length-append (text_of to_u32 p) (texts_of to_u32 ps),
      )
