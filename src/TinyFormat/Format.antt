-- ===== src/TinyFormat/Format.antt =====
-- firmware/platform/stm32/tiny_format.c: `tiny_vformat`. A C string is the list of its bytes before the
-- terminator, and `va_list` the list of the arguments.
use real_time_embedded_motio.Base.{
  ℕ, zero, suc, Bool, true, false, not, ◌||◌, Option, none, some, List, [], ◌∷◌, ◌≡◌, ap, ◌∙◌,
  if_false, if◌then◌else◌, ◌==◌, length, u32, ℤ,
}
use real_time_embedded_motio.Float.{Float}
use real_time_embedded_motio.TinyFormat.{Writer, character, string, integer, signed_integer}
use real_time_embedded_motio.TinyFormat.Real.{real}

-- An argument, by the type that `va_arg` may read it with: `unsigned` and `unsigned long`, and `int`
-- and `long`, have 32 bits on the target.
pub data Argument (R : Type 0) : Type 0 where
  text_argument : Option (List ℕ) → Argument R
  unsigned_argument : ℕ → Argument R
  signed_argument : ℤ → Argument R
  real_argument : R → Argument R

-- `written` is the text of a result that is its length, and `failed` is -1. A `va_arg` of a type that
-- the argument does not have is undefined, as is a `real` that has used up its turns.
pub data Formatted : Type 0 where
  written : List ℕ → Formatted
  failed undefined : Formatted

abbrev pub fail : Writer → Writer
fail w = record w { failed = true }

-- What follows the character `c`, where a format begins with it.
unfoldable pub after : ℕ → List ℕ → Option (List ℕ)
after c [] = none
after c (d ∷ rest) = if d == c then some rest else none

-- The width after `%`, and what follows it; `none` is the failure under `if (*format == '0')`.
unfoldable pub format_width : List ℕ → Option (ℕ × List ℕ)
format_width format = elim (after b'0' format) [
  | none ↦ some (0, format)
  | some rest ↦ elim (after b'6' rest) [ none ↦ none | some last ↦ some (6, last) ]
]

-- What follows `.6g`.
unfoldable pub after_real : List ℕ → Option (List ℕ)
after_real format = elim (after b'.' format) [
  | none ↦ none
  | some rest ↦ elim (after b'6' rest) [ none ↦ none | some last ↦ after b'g' last ]
]

-- `long_value`, and what follows it.
unfoldable pub format_long : List ℕ → Bool × List ℕ
format_long (c ∷ rest) = if c == b'l' then (true, rest) else (false, c ∷ rest)
format_long [] = (false, [])

unfoldable pub string_or_null : Writer → Option (List ℕ) → Writer
string_or_null w none = fail w
string_or_null w (some s) = string w s

-- The writer, the arguments left and the rest of the format.
pub record Cursor (R : Type 0) : Type 0 where
  pub writer : Writer
  pub args : List (Argument R)
  pub format : List ℕ

module _ {R : Type 0} ⦃f : Float R⦄ (to_u32 : R → ℕ) where
  read_text : List (Argument R) → List ℕ → Writer → Option (Cursor R)
  read_text (text_argument s ∷ args) rest w =
      some (record { writer = string_or_null w s; args = args; format = rest })
  read_text _ rest w = none

  read_unsigned : ℕ → List (Argument R) → List ℕ → Writer → Option (Cursor R)
  read_unsigned width (unsigned_argument n ∷ args) rest w =
      some (record { writer = integer w (u32 n) width; args = args; format = rest })
  read_unsigned width _ rest w = none

  read_signed : ℕ → List (Argument R) → List ℕ → Writer → Option (Cursor R)
  read_signed width (signed_argument z ∷ args) rest w =
      some (record { writer = signed_integer w z width; args = args; format = rest })
  read_signed width _ rest w = none

  unfoldable pub read_real : List (Argument R) → List ℕ → Writer → Option (Cursor R)
  read_real (real_argument v ∷ args) rest w = elim (real to_u32 w v) [
    | none ↦ none
    | some w' ↦ some (record { writer = w'; args = args; format = rest })
  ]
  read_real _ rest w = none

  -- The `switch`, and the step past its character.
  unfoldable pub convert : Bool → ℕ → List (Argument R) → List ℕ → Writer → Option (Cursor R)
  unfolding read_text read_unsigned read_signed
  convert long width args [] w = some (record { writer = fail w; args = args; format = [] })
  convert long width args (c ∷ rest) w =
      if c == b's'
      then (if long || not (width == 0)
          then some (record { writer = fail w; args = args; format = rest })
          else read_text args rest w)
      else if c == b'u'
      then read_unsigned width args rest w
      else if c == b'd'
      then read_signed width args rest w
      else some (record { writer = fail w; args = args; format = rest })

  -- What follows the width.
  unfoldable pub conversion : ℕ → List (Argument R) → List ℕ → Writer → Option (Cursor R)
  conversion width args format w =
      let (long, rest) = format_long format in
      elim (after_real format) [
        | none ↦ convert long width args rest w
        | some last ↦ read_real args last w
      ]

  -- What follows a `%`.
  unfoldable pub directive : List (Argument R) → List ℕ → Writer → Option (Cursor R)
  directive args format w = elim (format_width format) [
    | none ↦ some (record { writer = fail w; args = args; format = [] })
    | some (width, rest) ↦ conversion width args rest w
  ]

  -- One turn of the loop at the character `c`.
  unfoldable pub format_step : ℕ → List ℕ → List (Argument R) → Writer → Option (Cursor R)
  format_step c rest args w =
      if c == b'%'
      then directive args rest w
      else some (record { writer = character w c; args = args; format = rest })

  -- The loop; each turn takes a character at least, so the format's length is enough fuel.
  unfoldable pub format_loop : ℕ → List (Argument R) → List ℕ → Writer → Option Writer
  format_loop fuel args [] w = some w
  format_loop zero args (c ∷ rest) w = none
  format_loop (suc fuel) args (c ∷ rest) w =
      if w.failed then some w else elim (format_step c rest args w) [
        | none ↦ none
        | some next ↦ format_loop fuel next.args next.format next.writer
      ]

  finish : Option Writer → Formatted
  finish none = undefined
  finish (some w) = if w.failed then failed else written w.text

  -- `tiny_vformat` with an output buffer and a format.
  unfoldable pub tiny_vformat : ℕ → List ℕ → List (Argument R) → Formatted
  unfolding finish
  tiny_vformat capacity format args =
      let start : Writer = record { text = []; capacity = capacity; failed = false } in
      let last = format_loop (length format) args format start in
      if capacity == 0 then failed else finish last

  -- The result once the loop has ended.
  pub tiny_vformat-format_loop :
      (capacity : ℕ) (format : List ℕ) (args : List (Argument R)) (last : Writer)
      → (capacity == 0) ≡ false
      → format_loop
          (length format)
          args
          format
          (record { text = []; capacity = capacity; failed = false })
        ≡ some last
      → tiny_vformat capacity format args ≡ (if last.failed then failed else written last.text)
  unfolding tiny_vformat finish
  tiny_vformat-format_loop capacity format args last h e =
      if_false (capacity == 0) _ _ h ∙ ap finish e
