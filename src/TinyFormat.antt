-- ===== src/TinyFormat.antt =====
-- firmware/platform/stm32/tiny_format.c: the bounded writer and its integers.
pub mod Digits
pub mod Real
pub mod Format
pub mod Appends
pub mod Texts
pub mod Scaling
pub mod Pieces
use real_time_embedded_motio.Base.{
  ℕ, zero, suc, ◌+◌, ◌-◌, ◌/◌, ◌%◌, Bool, true, false, not, ◌||◌, Option, none, some, List, [], ◌∷◌,
  ◌++◌, if◌then◌else◌, ◌==◌, leb, ltb, length, ℤ, pos, negsuc,
}
use mathlib.Core.List.{reverse}

-- `writer_t`: `text` is what stands in `data` before `used`.
pub record Writer : Type 0 where
  pub text : List ℕ
  pub capacity : ℕ
  pub failed : Bool

unfoldable pub character : Writer → ℕ → Writer
character w c =
    if leb w.capacity (length w.text + 1)
    then record w { failed = true }
    else record w { text = w.text ++ (c ∷ []) }

-- The loop of `string`: it stops once the writer has failed.
unfoldable pub string : Writer → List ℕ → Writer
string w [] = w
string w (c ∷ cs) = let rest = string (character w c) cs in if w.failed then w else rest

-- The `do … while` that fills `digits`, the lowest first; `room` is what is left of the array's ten
-- places, and `none` a write past its end.
unfoldable pub digits : ℕ → ℕ → Option (List ℕ)
digits zero value = none
digits (suc room) value =
    let rest = digits room (value / 10) in
    if value / 10 == 0
    then some ((b'0' + value % 10) ∷ [])
    else elim rest [ none ↦ none | some ds ↦ some ((b'0' + value % 10) ∷ ds) ]

-- The loops of `integer` that write: each character is attempted.
unfoldable pub write_all : Writer → List ℕ → Writer
write_all w [] = w
write_all w (c ∷ cs) = write_all (character w c) cs

abbrev pub zeros : ℕ → List ℕ
zeros zero = []
zeros (suc n) = b'0' ∷ zeros n

write_digits : Option (List ℕ) → ℕ → Writer → Writer
write_digits none width w = record w { failed = true }
write_digits (some ds) width w = write_all w (zeros (width - length ds) ++ reverse ds)

unfoldable pub integer : Writer → ℕ → ℕ → Writer
unfolding write_digits
integer w value width = write_digits (digits 10 value) width w

-- The case 'd' of `tiny_vformat`.
unfoldable pub signed_integer : Writer → ℤ → ℕ → Writer
signed_integer w (pos n) width = integer w n width
signed_integer w (negsuc n) width = integer (character w b'-') (suc n) width
