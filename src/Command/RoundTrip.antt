-- ===== src/Command/RoundTrip.antt =====
-- Parsing a printed command gives it back.
use real_time_embedded_motio.Base.{
  ℕ, suc, ◌≤◌, ◌<◌, ◌≡◌, refl, ap, ◌∙◌, Bool, true, false, not, ◌&&◌, some, List, [], ◌∷◌, ◌++◌,
  arith, if◌then◌else◌, leb, IsInt32, codes, ℤ, pos, negsuc, length, length-append,
}
use real_time_embedded_motio.TinyFormat.Digits.{all_digits}
use real_time_embedded_motio.Command.Defs.{
  entry, CommandType, Entry, ParseResult, whitespace, skip_whitespace, keep_end, trim_end,
  split_token, parse_digits, split_sign, signed_result, parse_magnitude, parse_value,
  parse_argument, parse_trimmed, find_entry, command_parse, command_name, magnitude_limit,
  signed_value,
}
use real_time_embedded_motio.Command.Digits.{parse_digits_lem}
use real_time_embedded_motio.Command.Print.{print, Numeral, print_value, print_value-Printed}

-- A text with no whitespace in it.
unfoldable pub solid : List ℕ → Bool
solid [] = true
solid (c ∷ cs) = not (whitespace c) && solid cs

solid_of_digits : (ds : List ℕ) → all_digits ds ≡ true → solid ds ≡ true
unfolding solid all_digits
solid_of_digits [] h = refl
solid_of_digits (d ∷ ds) h = ground (arith, solid_of_digits ds)

trim_end-solid : (cs : List ℕ) → solid cs ≡ true → trim_end cs ≡ cs
unfolding solid trim_end
trim_end-solid [] h = refl
trim_end-solid (c ∷ []) h = ground arith
trim_end-solid (c ∷ d ∷ ds) h = ap (keep_end c) (trim_end-solid (d ∷ ds) (ground arith))

-- Whitespace before a solid text is no end.
trim_end-append :
    (xs : List ℕ) (c : ℕ) (cs : List ℕ)
    → trim_end (c ∷ cs) ≡ c ∷ cs
    → trim_end (xs ++ (c ∷ cs)) ≡ xs ++ (c ∷ cs)
unfolding trim_end
trim_end-append [] c cs h = h
trim_end-append (x ∷ []) c cs h = ap (keep_end x) h
trim_end-append (x ∷ y ∷ ys) c cs h = ap (keep_end x) (trim_end-append (y ∷ ys) c cs h)

exact_digits :
    (limit n : ℕ) (ds : List ℕ)
    → Numeral n ds
    → 9 ≤ limit
    → limit < 4294967296
    → n ≤ limit
    → parse_digits limit 0 ds ≡ some n
exact_digits limit n ds d nine word h =
    let e = parse_digits_lem limit 0 ds nine word (omega arith) in
    ground (arith, d.stands_for, d.are_digits)

parse_magnitude_digits :
    (negative : Bool) (n : ℕ) (ds : List ℕ)
    → Numeral n ds
    → n ≤ magnitude_limit negative
    → parse_magnitude negative ds ≡ some (signed_value negative n)
unfolding parse_magnitude signed_result
parse_magnitude_digits negative n [] d h = absurd (omega (arith, d.some_digit))
parse_magnitude_digits true n (c ∷ cs) d h =
    ap (signed_result true) (exact_digits 2147483648 n (c ∷ cs) d (omega arith) (omega arith) h)
parse_magnitude_digits false n (c ∷ cs) d h =
    ap (signed_result false) (exact_digits 2147483647 n (c ∷ cs) d (omega arith) (omega arith) h)

split_sign_digits : (ds : List ℕ) → all_digits ds ≡ true → split_sign ds ≡ (false, ds)
unfolding split_sign all_digits
split_sign_digits [] h = refl
split_sign_digits (c ∷ cs) h = ground arith

negative_value : (n : ℕ) → suc n ≤ magnitude_limit true → signed_value true (suc n) ≡ negsuc n
negative_value n h = ground arith

minus_digits :
    (n : ℕ) (ds : List ℕ)
    → Numeral (suc n) ds
    → suc n ≤ magnitude_limit true
    → parse_value (b'-' ∷ ds) ≡ some (negsuc n)
unfolding parse_value split_sign
minus_digits n ds d h = parse_magnitude_digits true (suc n) ds d h ∙ ap some (negative_value n h)

plain_digits :
    (n : ℕ) (ds : List ℕ) → Numeral n ds → n ≤ magnitude_limit false → parse_value ds ≡ some (pos n)
unfolding parse_value
plain_digits n ds d h =
    rw (split_sign_digits ds d.are_digits) (parse_magnitude_digits false n ds d h)

-- The number that `print_value` writes is read as the same number.
parse_value-print_value : (z : ℤ) → IsInt32 z → parse_value (print_value z) ≡ some z
parse_value-print_value (pos n) h =
    let p = print_value-Printed (pos n) h in
    ap parse_value p.signed ∙ plain_digits n p.ds p.spelled (omega arith)
parse_value-print_value (negsuc n) h =
    let p = print_value-Printed (negsuc n) h in
    ap parse_value p.signed ∙ minus_digits n p.ds p.spelled (omega arith)

-- What the tokens of a line need of the text after the name.
pub record Readable (text : List ℕ) (z : ℤ) : Type 0 where
  pub is_solid : solid text ≡ true
  pub fits : length text ≤ 11
  pub some_byte : 0 < length text
  pub read : parse_value text ≡ some z

pub print_value-Readable : (z : ℤ) → IsInt32 z → Readable (print_value z) z
unfolding solid
print_value-Readable (pos n) h =
    let p = print_value-Printed (pos n) h in
    record {
      is_solid = rw p.signed (solid_of_digits p.ds p.spelled.are_digits);
      fits = rw p.signed (omega (arith, p.spelled.short));
      some_byte = rw p.signed p.spelled.some_digit;
      read = parse_value-print_value (pos n) h;
    }
print_value-Readable (negsuc n) h =
    let p = print_value-Printed (negsuc n) h in
    record {
      is_solid = rw p.signed (solid_of_digits p.ds p.spelled.are_digits);
      fits = rw p.signed (omega (arith, p.spelled.short));
      some_byte = rw p.signed (omega arith);
      read = parse_value-print_value (negsuc n) h;
    }

skip_whitespace-solid : (cs : List ℕ) → solid cs ≡ true → skip_whitespace cs ≡ cs
unfolding skip_whitespace solid
skip_whitespace-solid [] h = refl
skip_whitespace-solid (c ∷ cs) h = ground arith

-- A name and an operand, with nothing to trim.
trim_end-operand :
    (name text : List ℕ) {z : ℤ} → Readable text z → trim_end (name ++ text) ≡ name ++ text
trim_end-operand name [] o = absurd (omega (arith, o.some_byte))
trim_end-operand name (c ∷ cs) o = trim_end-append name c cs (trim_end-solid (c ∷ cs) o.is_solid)

parse_argument_operand :
    (e : Entry) (text : List ℕ) (z : ℤ)
    → e.argument ≡ true
    → Readable text z
    → parse_argument e (skip_whitespace text) ≡ ParseResult.ok (record { type = e.type; value = z })
unfolding parse_argument
parse_argument_operand e text z h o = rw (skip_whitespace-solid text o.is_solid, h, o.read) refl

-- A short line with nothing to trim.
command_parse_tight :
    (c : ℕ) (line : List ℕ)
    → whitespace c ≡ false
    → trim_end (c ∷ line) ≡ c ∷ line
    → length (c ∷ line) < 64
    → command_parse (c ∷ line) ≡ parse_trimmed (c ∷ line)
unfolding command_parse skip_whitespace
command_parse_tight c line h t short =
    let small : leb 64 (length (c ∷ line)) ≡ false = ground arith in rw (small, h, t) refl

operand_line :
    (e : Entry) (c : ℕ) (name text : List ℕ) {z : ℤ}
    → whitespace c ≡ false
    → length name ≤ 10
    → e.argument ≡ true
    → parse_trimmed ((c ∷ name) ++ text) ≡ parse_argument e (skip_whitespace text)
    → Readable text z
    → command_parse ((c ∷ name) ++ text) ≡ ParseResult.ok (record { type = e.type; value = z })
operand_line e c name text {z} h short takes tokens o =
    command_parse_tight c (name ++ text) h (trim_end-operand (c ∷ name) text o)
      (omega (arith, length-append name text, o.fits))
    ∙ tokens
    ∙ parse_argument_operand e text z takes o

move_tokens :
    (text : List ℕ)
    → parse_trimmed (codes "MOVE " ++ text)
      ≡ parse_argument (entry "MOVE" CommandType.move_abs true) (skip_whitespace text)
unfolding parse_trimmed split_token find_entry skip_whitespace
move_tokens text = refl

relative_tokens :
    (text : List ℕ)
    → parse_trimmed (codes "MOVE_REL " ++ text)
      ≡ parse_argument (entry "MOVE_REL" CommandType.move_rel true) (skip_whitespace text)
unfolding parse_trimmed split_token find_entry skip_whitespace
relative_tokens text = refl

speed_tokens :
    (text : List ℕ)
    → parse_trimmed (codes "SPEED " ++ text)
      ≡ parse_argument (entry "SPEED" CommandType.set_speed true) (skip_whitespace text)
unfolding parse_trimmed split_token find_entry skip_whitespace
speed_tokens text = refl

-- The commands that carry a number.
abbrev pub takes_value : CommandType → Bool
takes_value CommandType.move_abs = true
takes_value CommandType.move_rel = true
takes_value CommandType.set_speed = true
takes_value _ = false

-- Each command printed with an `int32_t`, as its name and, where it takes one, a space and the
-- number as `integer` of tiny_format.c writes it, is parsed as that command with that number, and
-- with the number 0 where it takes none.
pub command_parse-print :
    (t : CommandType) (z : ℤ)
    → IsInt32 z
    → command_parse (print t z)
      ≡ ParseResult.ok (record { type = t; value = if takes_value t then z else pos 0 })
unfolding command_parse parse_trimmed print command_name trim_end skip_whitespace find_entry
    split_token parse_argument
command_parse-print CommandType.move_abs z h =
    operand_line (entry "MOVE" CommandType.move_abs true) b'M' (codes "OVE ") (print_value z) refl
      (omega arith) refl (move_tokens (print_value z)) (print_value-Readable z h)
command_parse-print CommandType.move_rel z h =
    operand_line (entry "MOVE_REL" CommandType.move_rel true) b'M' (codes "OVE_REL ")
      (print_value z) refl (omega arith) refl (relative_tokens (print_value z))
      (print_value-Readable z h)
command_parse-print CommandType.set_speed z h =
    operand_line (entry "SPEED" CommandType.set_speed true) b'S' (codes "PEED ") (print_value z)
      refl (omega arith) refl (speed_tokens (print_value z)) (print_value-Readable z h)
command_parse-print CommandType.home z h = refl
command_parse-print CommandType.stop z h = refl
command_parse-print CommandType.estop z h = refl
command_parse-print CommandType.reset z h = refl
command_parse-print CommandType.status z h = refl
command_parse-print CommandType.help z h = refl
