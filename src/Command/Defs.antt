-- ===== src/Command/Defs.antt =====
-- The data of firmware/protocol/command.h, and the command table of command.c.
use Prim.Native.String.{String}
use real_time_embedded_motio.Base.{
  ℕ, ◌+◌, ◌-◌, ◌*◌, ◌/◌, Bool, true, false, ◌&&◌, ◌||◌, Option, none, some, List, [], ◌∷◌,
  if◌then◌else◌, ◌==◌, ltb, leb, ℤ, pos, sub_ℕ, u32, int32_min, length, codes, same_bytes,
}

-- `command_type_t`.
pub data CommandType : Type 0 where
  move_abs move_rel set_speed home stop estop reset status help : CommandType

-- `motion_command_t`.
pub record MotionCommand : Type 0 where
  pub type : CommandType
  pub value : ℤ

-- `command_parse_result_t`, with the parsed command where the result is PARSE_OK. On an error the
-- caller's command is unchanged.
pub data ParseResult : Type 0 where
  ok : MotionCommand → ParseResult
  empty unknown argument too_long : ParseResult

-- An entry of the table `commands`.
pub record Entry : Type 0 where
  pub name : List ℕ
  pub type : CommandType
  pub argument : Bool

abbrev pub entry : String → CommandType → Bool → Entry
entry n t arg = record { name = codes n; type = t; argument = arg }

abbrev pub commands : List Entry
commands =
    entry "MOVE" CommandType.move_abs true
    ∷ entry "MOVE_REL" CommandType.move_rel true
    ∷ entry "SPEED" CommandType.set_speed true
    ∷ entry "HOME" CommandType.home false
    ∷ entry "STOP" CommandType.stop false
    ∷ entry "ESTOP" CommandType.estop false
    ∷ entry "RESET" CommandType.reset false
    ∷ entry "STATUS" CommandType.status false
    ∷ entry "HELP" CommandType.help false
    ∷ []

abbrev pub whitespace : ℕ → Bool
whitespace c = c == b' ' || c == 9 || c == 13 || c == 10

-- The loop that moves `start`, and the later one that moves `pos`.
unfoldable pub skip_whitespace : List ℕ → List ℕ
skip_whitespace [] = []
skip_whitespace (c ∷ cs) = if whitespace c then skip_whitespace cs else c ∷ cs

-- A byte before what the loop below leaves.
unfoldable pub keep_end : ℕ → List ℕ → List ℕ
keep_end c [] = if whitespace c then [] else c ∷ []
keep_end c (d ∷ ds) = c ∷ d ∷ ds

-- The loop that lowers `length` past the whitespace at the end.
unfoldable pub trim_end : List ℕ → List ℕ
unfolding keep_end
trim_end [] = []
trim_end (c ∷ cs) = keep_end c (trim_end cs)

-- The loop that moves `end`: the bytes before it, and those from it on.
unfoldable pub split_token : List ℕ → List ℕ × List ℕ
split_token [] = ([], [])
split_token (c ∷ cs) =
    let (token, rest) = split_token cs in if whitespace c then ([], c ∷ cs) else (c ∷ token, rest)

-- The `for` over the table: the first entry whose name is the token.
unfoldable pub find_entry : List Entry → List ℕ → Option Entry
find_entry [] token = none
find_entry (e ∷ es) token = if same_bytes e.name token then some e else find_entry es token

abbrev pub is_digit : ℕ → Bool
is_digit c = leb b'0' c && leb c b'9'

-- The loop over the digits. `none` is PARSE_ARGUMENT.
unfoldable pub parse_digits : ℕ → ℕ → List ℕ → Option ℕ
parse_digits limit value [] = some value
parse_digits limit value (c ∷ cs) =
    let digit = c - b'0' in
    if ltb c b'0' || ltb b'9' c
    then none
    else if ltb ((limit - digit) / 10) value
    then none
    else parse_digits limit (u32 (value * 10 + digit)) cs

-- `negative` and the bytes after the sign.
unfoldable pub split_sign : List ℕ → Bool × List ℕ
split_sign [] = (false, [])
split_sign (c ∷ cs) = if c == b'-' || c == b'+' then (c == b'-', cs) else (false, c ∷ cs)

abbrev pub magnitude_limit : Bool → ℕ
magnitude_limit true = 2147483648
magnitude_limit false = 2147483647

abbrev pub signed_value : Bool → ℕ → ℤ
signed_value true value = if value == 2147483648 then int32_min else sub_ℕ 0 value
signed_value false value = pos value

unfoldable pub signed_result : Bool → Option ℕ → Option ℤ
signed_result negative none = none
signed_result negative (some value) = some (signed_value negative value)

-- What follows the sign: `none` is PARSE_ARGUMENT.
unfoldable pub parse_magnitude : Bool → List ℕ → Option ℤ
parse_magnitude negative [] = none
parse_magnitude negative (d ∷ ds) =
    signed_result negative (parse_digits (magnitude_limit negative) 0 (d ∷ ds))

-- The body of the `else`.
unfoldable pub parse_value : List ℕ → Option ℤ
unfolding parse_magnitude signed_result
parse_value text = let (negative, digits) = split_sign text in parse_magnitude negative digits

-- The body of the `for` for the matching entry, with the bytes from `pos` on.
unfoldable pub parse_argument : Entry → List ℕ → ParseResult
parse_argument e text =
    if e.argument
    then elim (parse_value text) [
      | none ↦ ParseResult.argument
      | some v ↦ ParseResult.ok (record { type = e.type; value = v })
    ]
    else elim text [
      | [] ↦ ParseResult.ok (record { type = e.type; value = pos 0 })
      | c ∷ cs ↦ ParseResult.argument
    ]

unfoldable pub parse_trimmed : List ℕ → ParseResult
parse_trimmed [] = ParseResult.empty
parse_trimmed (c ∷ cs) =
    let (token, rest) = split_token (c ∷ cs) in
    elim (find_entry commands token) [
      | none ↦ ParseResult.unknown
      | some e ↦ parse_argument e (skip_whitespace rest)
    ]

abbrev pub command_line_capacity : ℕ
command_line_capacity = 64

unfoldable pub command_parse : List ℕ → ParseResult
unfolding parse_trimmed
command_parse text =
    if leb command_line_capacity (length text)
    then ParseResult.too_long
    else parse_trimmed (trim_end (skip_whitespace text))

abbrev pub same_type : CommandType → CommandType → Bool
same_type CommandType.move_abs CommandType.move_abs = true
same_type CommandType.move_rel CommandType.move_rel = true
same_type CommandType.set_speed CommandType.set_speed = true
same_type CommandType.home CommandType.home = true
same_type CommandType.stop CommandType.stop = true
same_type CommandType.estop CommandType.estop = true
same_type CommandType.reset CommandType.reset = true
same_type CommandType.status CommandType.status = true
same_type CommandType.help CommandType.help = true
same_type _ _ = false

-- The loop of `command_name`, over the entries left.
unfoldable pub find_name : List Entry → CommandType → List ℕ
find_name [] t = codes "UNKNOWN"
find_name (e ∷ es) t = if same_type e.type t then e.name else find_name es t

unfoldable pub command_name : CommandType → List ℕ
unfolding find_name
command_name t = find_name commands t

-- `command_parse_error`, for each result code.
unfoldable pub command_parse_error : ParseResult → String
command_parse_error (ParseResult.ok c) = "OK"
command_parse_error ParseResult.empty = "EMPTY"
command_parse_error ParseResult.unknown = "UNKNOWN_COMMAND"
command_parse_error ParseResult.argument = "INVALID_ARGUMENT"
command_parse_error ParseResult.too_long = "LINE_TOO_LONG"
