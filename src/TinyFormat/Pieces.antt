-- ===== src/TinyFormat/Pieces.antt =====
-- A format as the pieces that it is written from, and `tiny_vformat` against them.
pub mod Steps
pub mod Whole
pub mod Fits
use real_time_embedded_motio.Base.{
  ℕ, ◌+◌, ◌≡◌, Bool, true, false, Option, none, some, List, [], ◌∷◌, ◌++◌, length, u32, ℤ, IsInt32,
  ◌==◌, codes,
}
use real_time_embedded_motio.Float.{Float}
use real_time_embedded_motio.TinyFormat.{Writer, integer, signed_integer}
use real_time_embedded_motio.TinyFormat.Real.{real}
use real_time_embedded_motio.TinyFormat.Format.{
  Argument, text_argument, unsigned_argument, signed_argument, real_argument,
}
use real_time_embedded_motio.TinyFormat.Texts.{text_by}
use real_time_embedded_motio.TinyFormat.Scaling.{IsScalable, Displayable}

-- A character that stands for itself, or a directive with its argument.
pub data Piece (R : Type 0) : Type 0 where
  literal : ℕ → Piece R
  text : List ℕ → Piece R
  unsigned : ℕ → Piece R
  unsigned_long : ℕ → Piece R
  padded : ℕ → Piece R
  signed_long : ℤ → Piece R
  general : R → Piece R

module _ {R : Type 0} where
  -- How a piece is written in a format, `PRIu32` being "lu" and `PRId32` "ld".
  unfoldable pub directive_of : Piece R → List ℕ
  directive_of (literal c) = c ∷ []
  directive_of (text s) = codes "%s"
  directive_of (unsigned n) = codes "%u"
  directive_of (unsigned_long n) = codes "%lu"
  directive_of (padded n) = codes "%06lu"
  directive_of (signed_long z) = codes "%ld"
  directive_of (general v) = codes "%.6g"

  unfoldable pub argument_of : Piece R → List (Argument R)
  argument_of (literal c) = []
  argument_of (text s) = text_argument (some s) ∷ []
  argument_of (unsigned n) = unsigned_argument n ∷ []
  argument_of (unsigned_long n) = unsigned_argument n ∷ []
  argument_of (padded n) = unsigned_argument n ∷ []
  argument_of (signed_long z) = signed_argument z ∷ []
  argument_of (general v) = real_argument v ∷ []

  -- The bytes that a piece takes at most.
  unfoldable pub width_of : Piece R → ℕ
  width_of (literal c) = 1
  width_of (text s) = length s
  width_of (unsigned n) = 10
  width_of (unsigned_long n) = 10
  width_of (padded n) = 10
  width_of (signed_long z) = 11
  width_of (general v) = 25

  unfoldable pub format_of : List (Piece R) → List ℕ
  format_of [] = []
  format_of (p ∷ ps) = directive_of p ++ format_of ps

  unfoldable pub arguments_of : List (Piece R) → List (Argument R)
  arguments_of [] = []
  arguments_of (p ∷ ps) = argument_of p ++ arguments_of ps

  unfoldable pub widths_of : List (Piece R) → ℕ
  widths_of [] = 0
  widths_of (p ∷ ps) = width_of p + widths_of ps

module _ {R : Type 0} ⦃f : Float R⦄ (to_u32 : R → ℕ) where
  -- What `real` writes into an empty buffer of 80 bytes.
  unfoldable pub real_text : R → List ℕ
  real_text v = elim (real to_u32 (record { text = []; capacity = 80; failed = false }) v) [
    | none ↦ []
    | some w ↦ w.text
  ]

  -- What a piece stands for, alone.
  unfoldable pub text_of : Piece R → List ℕ
  text_of (literal c) = c ∷ []
  text_of (text s) = s
  text_of (unsigned n) = text_by (λ w. integer w (u32 n) 0)
  text_of (unsigned_long n) = text_by (λ w. integer w (u32 n) 0)
  text_of (padded n) = text_by (λ w. integer w (u32 n) 6)
  text_of (signed_long z) = text_by (λ w. signed_integer w z 0)
  text_of (general v) = real_text v

  unfoldable pub texts_of : List (Piece R) → List ℕ
  texts_of [] = []
  texts_of (p ∷ ps) = text_of p ++ texts_of ps

module _ {R : Type 0} ⦃f : Float R⦄ (scalable : IsScalable R) where
  -- A literal is no `%`, and the numbers are those of their types.
  unfoldable pub IsPiece : Piece R → Type 0
  IsPiece (literal c) = (c == b'%') ≡ false
  IsPiece (signed_long z) = IsInt32 z
  IsPiece (general v) = Displayable scalable v × Displayable scalable (f.neg v)
  IsPiece _ = Unit

  unfoldable pub ArePieces : List (Piece R) → Type 0
  ArePieces [] = Unit
  ArePieces (p ∷ ps) = IsPiece p × ArePieces ps
