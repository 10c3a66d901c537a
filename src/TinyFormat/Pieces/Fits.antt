-- ===== src/TinyFormat/Pieces/Fits.antt =====
-- Formats whose text fits in the buffer whatever their arguments are.
use real_time_embedded_motio.Base.{
  ℕ, ◌≤◌, ◌≡◌, refl, ◌∙◌, ap, Bool, true, not, ◌&&◌, List, [], ◌∷◌, ◌++◌, arith, ltb, length,
  IsInt32, codes, if_true, ◌==◌,
}
use mathlib.Core.Path.{subst₂}
use Prim.Native.String.{String}
use real_time_embedded_motio.Float.{Float}
use real_time_embedded_motio.TinyFormat.Format.{Argument, Formatted, tiny_vformat}
use real_time_embedded_motio.TinyFormat.Scaling.{IsScalable, Displayable}
use real_time_embedded_motio.TinyFormat.Pieces.{
  Piece, literal, text, unsigned, unsigned_long, padded, signed_long, general, IsPiece, format_of,
  arguments_of, directive_of, argument_of, width_of, texts_of, widths_of, ArePieces,
}
use real_time_embedded_motio.TinyFormat.Pieces.Whole.{tiny_vformat-texts_of, length-texts_of}

module _ {R : Type 0} where
  abbrev pub literals : List ℕ → List (Piece R)
  literals [] = []
  literals (c ∷ cs) = literal c ∷ literals cs

  -- A text, and a directive after it.
  abbrev pub labelled : String → Piece R → List (Piece R) → List (Piece R)
  labelled label p ps = literals (codes label) ++ (p ∷ ps)

  abbrev pub no_percent : List (Piece R) → Bool
  no_percent [] = true
  no_percent (literal c ∷ ps) = not (c == b'%') && no_percent ps
  no_percent (p ∷ ps) = no_percent ps

module _ {R : Type 0} ⦃f : Float R⦄ (scalable : IsScalable R) where
  -- What is asked of the numbers among the arguments.
  abbrev pub AreNumbers : List (Piece R) → Type 0
  AreNumbers [] = Unit
  AreNumbers (signed_long z ∷ ps) = IsInt32 z × AreNumbers ps
  AreNumbers (general v ∷ ps) =
      Displayable scalable v × Displayable scalable (f.neg v) × AreNumbers ps
  AreNumbers (p ∷ ps) = AreNumbers ps

  ArePieces-AreNumbers :
      (ps : List (Piece R)) → no_percent ps ≡ true → AreNumbers ps → ArePieces scalable ps
  unfolding ArePieces IsPiece
  ArePieces-AreNumbers [] e h = tt
  ArePieces-AreNumbers (literal c ∷ ps) e h =
      (ground (arith, e), ArePieces-AreNumbers ps (ground (arith, e)) h)
  ArePieces-AreNumbers (text s ∷ ps) e h = (tt, ArePieces-AreNumbers ps e h)
  ArePieces-AreNumbers (unsigned n ∷ ps) e h = (tt, ArePieces-AreNumbers ps e h)
  ArePieces-AreNumbers (unsigned_long n ∷ ps) e h = (tt, ArePieces-AreNumbers ps e h)
  ArePieces-AreNumbers (padded n ∷ ps) e h = (tt, ArePieces-AreNumbers ps e h)
  ArePieces-AreNumbers (signed_long z ∷ ps) e (h, hs) = (h, ArePieces-AreNumbers ps e hs)
  ArePieces-AreNumbers (general v ∷ ps) e (h, n, hs) = ((h, n), ArePieces-AreNumbers ps e hs)

  -- A format and arguments whose text `tiny_vformat` writes whole into a buffer of 257 bytes.
  pub record Fits (to_u32 : R → ℕ) (format : List ℕ) (args : List (Argument R)) : Type 0 where
    pub whole : List ℕ
    pub formatted : tiny_vformat to_u32 257 format args ≡ Formatted.written whole
    pub short : length whole ≤ 256

  pub pieces-Fits :
      (to_u32 : R → ℕ) (ps : List (Piece R))
      → no_percent ps ≡ true
      → AreNumbers ps
      → widths_of ps ≤ 256
      → Fits to_u32 (format_of ps) (arguments_of ps)
  pieces-Fits to_u32 ps e h w =
      let valid = ArePieces-AreNumbers ps e h in
      let short = length-texts_of to_u32 scalable ps valid in
      let fits : ltb (length (texts_of to_u32 ps)) 257 ≡ true = ground (arith, short, w) in
      record {
        whole = texts_of to_u32 ps;
        formatted = tiny_vformat-texts_of to_u32 scalable 257 ps valid ∙ if_true _ _ _ fits;
        short = omega (arith, short, w);
      }

  format_of-literals : (cs : List ℕ) → format_of (literals {R = R} cs) ≡ cs
  unfolding format_of directive_of
  format_of-literals [] = refl
  format_of-literals (c ∷ cs) = ap (◌∷◌ c) (format_of-literals cs)

  arguments_of-literals : (cs : List ℕ) → arguments_of (literals {R = R} cs) ≡ []
  unfolding arguments_of argument_of
  arguments_of-literals [] = refl
  arguments_of-literals (c ∷ cs) = arguments_of-literals cs

  widths_of-literals : (cs : List ℕ) → widths_of (literals {R = R} cs) ≡ length cs
  unfolding widths_of width_of
  widths_of-literals [] = refl
  widths_of-literals (c ∷ cs) = omega (arith, widths_of-literals cs)

  AreNumbers-literals : (cs : List ℕ) → AreNumbers (literals cs)
  AreNumbers-literals [] = tt
  AreNumbers-literals (c ∷ cs) = AreNumbers-literals cs

  -- A text without a directive.
  pub literals-Fits :
      (to_u32 : R → ℕ) (cs : List ℕ)
      → no_percent (literals {R = R} cs) ≡ true
      → length cs ≤ 256
      → Fits to_u32 cs []
  literals-Fits to_u32 cs e h =
      let bound : widths_of (literals {R = R} cs) ≤ 256 = omega (arith, widths_of-literals cs, h) in
      let fits = pieces-Fits to_u32 (literals cs) e (AreNumbers-literals cs) bound in
      subst₂ (Fits to_u32) (format_of-literals cs) (arguments_of-literals cs) fits
