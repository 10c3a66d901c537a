-- ===== src/Command/Print.antt =====
-- Parsing a printed command gives it back: the printed number is what `integer` of tiny_format.c
-- writes.
use real_time_embedded_motio.Base.{
  ℕ, suc, ◌+◌, ◌-◌, ◌≤◌, ◌<◌, ◌≡◌, sym, ◌∙◌, true, false, List, [], ◌∷◌, ◌++◌, arith, IsInt32, ℤ,
  pos, negsuc, length, length-append,
}
use mathlib.Core.List.{reverse, append-nil, append_assoc}
use real_time_embedded_motio.TinyFormat.{Writer, signed_integer, integer, write_all, character}
use real_time_embedded_motio.TinyFormat.Digits.{decimal, all_digits, digits-Spells}
use real_time_embedded_motio.Command.Defs.{CommandType, command_name}

-- `value` through `signed_integer` into an empty buffer of 80 bytes.
unfoldable pub print_value : ℤ → List ℕ
print_value z = (signed_integer (record { text = []; capacity = 80; failed = false }) z 0).text

-- A command as a line: its name, and its value where it takes one.
unfoldable pub print : CommandType → ℤ → List ℕ
print CommandType.move_abs z = command_name CommandType.move_abs ++ (b' ' ∷ print_value z)
print CommandType.move_rel z = command_name CommandType.move_rel ++ (b' ' ∷ print_value z)
print CommandType.set_speed z = command_name CommandType.set_speed ++ (b' ' ∷ print_value z)
print t z = command_name t

-- Writing into a buffer with room appends.
text-character :
    (w : Writer) (c : ℕ)
    → length w.text + 1 < w.capacity
    → ((character w c).text ≡ w.text ++ (c ∷ [])) × ((character w c).capacity ≡ w.capacity)
unfolding character
text-character w c h = ground arith

text-write_all :
    (w : Writer) (cs : List ℕ)
    → length w.text + length cs < w.capacity
    → (write_all w cs).text ≡ w.text ++ cs
unfolding write_all
text-write_all w [] h = sym (append-nil w.text)
text-write_all w (c ∷ cs) h =
    let (fits, same) = text-character w c (omega arith) in
    let longer = length-append w.text (c ∷ []) in
    let rest = text-write_all (character w c) cs (rw (fits, same) (omega (arith, longer))) in
    rest ∙ rw fits (append_assoc w.text (c ∷ []) cs)

-- The digits of a value of at most ten places.
pub record Numeral (value : ℕ) (text : List ℕ) : Type 0 where
  pub stands_for : decimal 0 text ≡ value
  pub are_digits : all_digits text ≡ true
  pub short : length text ≤ 10
  pub some_digit : 0 < length text

text-integer :
    (w : Writer) (value : ℕ)
    → value < 10000000000
    → length w.text + 10 < w.capacity
    → (ds : List ℕ) × ((integer w value 0).text ≡ w.text ++ ds) × Numeral value ds
unfolding integer
text-integer w value h r =
    let (ds, s) = digits-Spells 10 value (omega arith) h in
    let no_padding : 0 - length ds ≡ 0 = omega arith in
    (
      reverse ds,
      rw (s.written, integer, no_padding) (text-write_all w (reverse ds) (omega (arith, s.fit))),
      record {
        stands_for = s.stands_for;
        are_digits = s.are_digits;
        short = s.fit;
        some_digit = s.some_digit;
      },
    )

-- What `print_value` writes: the sign of a negative number, then the digits of its magnitude.
pub record Printed (z : ℤ) (text : List ℕ) : Type 0 where
  pub ds : List ℕ
  pub spelled : Numeral (elim z [ pos n ↦ n | negsuc n ↦ suc n ]) ds
  pub signed : text ≡ (elim z [ pos n ↦ ds | negsuc n ↦ b'-' ∷ ds ])

pub print_value-Printed : (z : ℤ) → IsInt32 z → Printed z (print_value z)
unfolding print_value signed_integer character
print_value-Printed (pos n) h =
    let w : Writer = record { text = []; capacity = 80; failed = false } in
    let (ds, e, d) = text-integer w n (omega arith) (omega arith) in
    record { ds = ds; spelled = d; signed = e }
print_value-Printed (negsuc n) h =
    let w : Writer = record { text = b'-' ∷ []; capacity = 80; failed = false } in
    let (ds, e, d) = text-integer w (suc n) (omega arith) (omega arith) in
    record { ds = ds; spelled = d; signed = e }
