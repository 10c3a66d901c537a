-- ===== src/TinyFormat/Pieces/Steps.antt =====
-- One turn of the loop of `tiny_vformat` is one piece.
use real_time_embedded_motio.Base.{
  ℕ, suc, ◌≤◌, ◌≡◌, refl, ◌∙◌, false, some, List, [], ◌∷◌, ◌++◌, arith, length, u32, ℤ, pos, negsuc,
  IsInt32, ◌==◌, codes, if_false,
}
use real_time_embedded_motio.Float.{Float}
use real_time_embedded_motio.TinyFormat.{Writer, character, string, integer, signed_integer}
use real_time_embedded_motio.TinyFormat.Real.{real}
use real_time_embedded_motio.TinyFormat.Format.{
  Argument, real_argument, Cursor, format_step, format_loop, directive, conversion, convert,
  format_width, format_long, read_real, after, after_real, string_or_null,
}
use real_time_embedded_motio.TinyFormat.Appends.{Appends, character-Appends, string-Appends}
use real_time_embedded_motio.TinyFormat.Texts.{
  Bounded, text_by, text_by-Appends, Bounded-integer, Bounded-signed_integer,
}
use real_time_embedded_motio.TinyFormat.Scaling.{IsScalable, real-Writes}
use real_time_embedded_motio.TinyFormat.Pieces.{
  Piece, literal, text, unsigned, unsigned_long, padded, signed_long, general, directive_of,
  argument_of, width_of, text_of, real_text, IsPiece,
}

Bounded-u32 : (n width : ℕ) → width ≤ 10 → Bounded 10 (λ w. integer w (u32 n) width)
Bounded-u32 n width h = Bounded-integer (u32 n) width (omega arith) h

Bounded-int32 : (z : ℤ) → IsInt32 z → Bounded 11 (λ w. signed_integer w z 0)
Bounded-int32 (pos n) h = Bounded-signed_integer (pos n) 0 (omega arith) (omega arith)
Bounded-int32 (negsuc n) h = Bounded-signed_integer (negsuc n) 0 (omega arith) (omega arith)

module _ {R : Type 0} ⦃f : Float R⦄ (to_u32 : R → ℕ) (scalable : IsScalable R) where
  format_loop-step :
      (fuel c : ℕ) (rest : List ℕ) (args : List (Argument R)) (w : Writer) (next : Cursor R)
      → w.failed ≡ false
      → format_step to_u32 c rest args w ≡ some next
      → format_loop to_u32 (suc fuel) args (c ∷ rest) w
        ≡ format_loop to_u32 fuel next.args next.format next.writer
  unfolding format_loop
  format_loop-step fuel c rest args w next h e = if_false w.failed _ _ h ∙ rw e refl

  -- A turn at a piece appends its text.
  pub record Turn (p : Piece R) : Type 0 where
    pub operation : Writer → Writer
    pub appends : Appends (text_of to_u32 p) operation
    pub short : length (text_of to_u32 p) ≤ width_of p
    pub turns :
        (fuel : ℕ) (args : List (Argument R)) (rest : List ℕ) (w : Writer)
        → w.failed ≡ false
        → format_loop to_u32 (suc fuel) (argument_of p ++ args) (directive_of p ++ rest) w
          ≡ format_loop to_u32 fuel args rest (operation w)

  literal_step :
      (c : ℕ) (rest : List ℕ) (args : List (Argument R)) (w : Writer)
      → (c == b'%') ≡ false
      → format_step to_u32 c rest args w
        ≡ some (record { writer = character w c; args = args; format = rest })
  unfolding format_step
  literal_step c rest args w h = rw h refl

  general_step :
      (v : R) (rest : List ℕ) (args : List (Argument R)) (w w' : Writer)
      → real to_u32 w v ≡ some w'
      → format_step to_u32 b'%' (codes ".6g" ++ rest) (real_argument v ∷ args) w
        ≡ some (record { writer = w'; args = args; format = rest })
  unfolding format_step directive conversion format_width format_long after after_real read_real
  general_step v rest args w w' h = rw (h, read_real) refl

  real_text_lem :
      (v : R) (g : Writer → Writer)
      → ((w : Writer) → real to_u32 w v ≡ some (g w))
      → real_text to_u32 v ≡ text_by g
  unfolding real_text text_by
  real_text_lem v g h = rw (h (record { text = []; capacity = 80; failed = false }), real_text) refl

  pub piece-Turn : (p : Piece R) → IsPiece scalable p → Turn p
  unfolding text_of width_of argument_of directive_of IsPiece format_step directive conversion
      convert format_width format_long after after_real string_or_null
  piece-Turn (literal c) h = record {
    operation = λ w. character w c;
    appends = character-Appends c;
    short = omega arith;
    turns = λ fuel args rest w e.
        format_loop-step fuel c rest args w _ e (literal_step c rest args w h);
  }
  piece-Turn (text s) h = record {
    operation = λ w. string w s;
    appends = string-Appends s;
    short = omega arith;
    turns = λ fuel args rest w e. format_loop-step fuel _ _ _ w _ e refl;
  }
  piece-Turn (unsigned n) h =
      let (a, b) = text_by-Appends 10 _ (omega arith) (Bounded-u32 n 0 (omega arith)) in
      record {
        operation = λ w. integer w (u32 n) 0;
        appends = a;
        short = b;
        turns = λ fuel args rest w e. format_loop-step fuel _ _ _ w _ e refl;
      }
  piece-Turn (unsigned_long n) h =
      let (a, b) = text_by-Appends 10 _ (omega arith) (Bounded-u32 n 0 (omega arith)) in
      record {
        operation = λ w. integer w (u32 n) 0;
        appends = a;
        short = b;
        turns = λ fuel args rest w e. format_loop-step fuel _ _ _ w _ e refl;
      }
  piece-Turn (padded n) h =
      let (a, b) = text_by-Appends 10 _ (omega arith) (Bounded-u32 n 6 (omega arith)) in
      record {
        operation = λ w. integer w (u32 n) 6;
        appends = a;
        short = b;
        turns = λ fuel args rest w e. format_loop-step fuel _ _ _ w _ e refl;
      }
  piece-Turn (signed_long z) h =
      let (a, b) = text_by-Appends 11 _ (omega arith) (Bounded-int32 z h) in
      record {
        operation = λ w. signed_integer w z 0;
        appends = a;
        short = b;
        turns = λ fuel args rest w e. format_loop-step fuel _ _ _ w _ e refl;
      }
  piece-Turn (general v) (h, n) =
      let r = real-Writes scalable to_u32 v h n in
      let (a, b) = text_by-Appends 25 r.operation (omega arith) r.bounded in
      let same = real_text_lem v r.operation r.runs in
      record {
        operation = r.operation;
        appends = rw same a;
        short = rw same b;
        turns = λ fuel args rest w e.
            format_loop-step fuel _ _ _ w _ e (general_step v rest args w _ (r.runs w));
      }
