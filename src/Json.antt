-- ===== src/Json.antt =====
-- helper/json_io.c: the escapes of the events and the reading of commands. A command is read to the
-- list of its keys with their values; a field of omaq_op that is not in the list is zero, field_mask
-- holds the keys of the list, and the has_ fields say whether a key is in it.
pub mod Strings
pub mod Commands
pub mod Validate
pub mod Escapes
use mathlib.Core.Option
use oma_q.Prelude.{
  ℕ, zero, suc, ◌+◌, ◌-◌, ◌*◌, ◌/◌, Bool, true, false, not, ◌&&◌, ◌||◌, Option, none, some, List,
  [], ◌∷◌, ◌++◌, ltb, leb, ◌==◌, if◌then◌else◌, within, length,
}
use oma_q.Prelude.Bytes.{Bytes, codes, bytes_eq, after_prefix}
use oma_q.Prelude.Int.{ℤ, pos, negsuc}
use oma_q.LineReader.{json_line_max}
use oma_q.Text.{utf8_bytes_ok}

abbrev pub json_str_max : ℕ
json_str_max = 512

abbrev pub quote : ℕ
quote = 34

abbrev pub backslash : ℕ
backslash = 92

abbrev pub is_ws : ℕ → Bool
is_ws c = c == 32 || (c == 9 || (c == 10 || c == 13))

unfoldable pub skip_ws : Bytes → Bytes
skip_ws [] = []
skip_ws (c ∷ s) = elim (is_ws c) [ true ↦ skip_ws s | false ↦ c ∷ s ]

-- the letter behind a backslash
unfoldable pub unescape : ℕ → Option ℕ
unescape c =
    if c == b'n'
    then some 10
    else if c == b't'
    then some 9
    else if c == quote
    then some quote
    else if c == backslash
    then some backslash
    else none

abbrev pub keep : ℕ → ℕ → Option (Bytes × Bytes) → Option (Bytes × Bytes)
keep room v none = none
keep room v (some (t, rest)) = if room == 0 then none else some (v ∷ t, rest)

abbrev pub keep_escaped : ℕ → Option ℕ → Option (Bytes × Bytes) → Option (Bytes × Bytes)
keep_escaped room none r = none
keep_escaped room (some v) r = keep room v r

-- the loop, behind a backslash or not, with room for so many bytes: the text and what follows it
unfoldable pub read_chars : Bool → ℕ → Bytes → Option (Bytes × Bytes)
unfolding unescape
read_chars behind room [] = none
read_chars true room (c ∷ s) = keep_escaped room (unescape c) (read_chars false (room - 1) s)
read_chars false room (c ∷ s) = elim (c == quote) [
  | true ↦ some ([], s)
  | false ↦ elim (c == backslash) [
    | true ↦ read_chars true room s
    | false ↦ elim (ltb c 0x20) [
      | true ↦ none
      | false ↦ keep room c (read_chars false (room - 1) s)
    ]
  ]
]

abbrev pub check_text : Option (Bytes × Bytes) → Option (Bytes × Bytes)
check_text none = none
check_text (some (v, rest)) = if utf8_bytes_ok v false then some (v, rest) else none

-- Read to an array of dstlen bytes, which is not 0.
unfoldable pub parse_string : ℕ → Bytes → Option (Bytes × Bytes)
unfolding read_chars
parse_string dstlen [] = none
parse_string dstlen (c ∷ s) =
    if c == quote then check_text (read_chars false (dstlen - 1) s) else none

abbrev pub is_digit : ℕ → Bool
is_digit c = within b'0' b'9' c

-- the loop over the digits
unfoldable pub int_digits : ℕ → Bytes → Option (ℕ × Bytes)
int_digits v [] = some (v, [])
int_digits v (c ∷ s) = elim (is_digit c) [
  | false ↦ some (v, c ∷ s)
  | true ↦
      let d = c - b'0' in
      let rest = int_digits (v * 10 + d) s in if ltb ((2147483647 - d) / 10) v then none else rest
]

abbrev pub starts_with_digit : Bytes → Bool
starts_with_digit [] = false
starts_with_digit (c ∷ s) = is_digit c

abbrev pub minus : ℕ → ℤ
minus zero = pos 0
minus (suc n) = negsuc n

abbrev pub signed : (ℕ → ℤ) → Bytes → Option (ℕ × Bytes) → Option (ℤ × Bytes)
signed sign s none = none
signed sign s (some (v, rest)) = if starts_with_digit s then some (sign v, rest) else none

unfoldable pub parse_int : Bytes → Option (ℤ × Bytes)
unfolding int_digits
parse_int [] = none
parse_int (c ∷ s) =
    if c == b'-' then signed minus s (int_digits 0 s) else signed pos (c ∷ s) (int_digits 0 (c ∷ s))

unfoldable pub parse_bool : Bytes → Option (Bool × Bytes)
parse_bool s = elim (after_prefix (codes "true") s) [
  | some rest ↦ some (true, rest)
  | none ↦ elim (after_prefix (codes "false") s) [ some rest ↦ some (false, rest) | none ↦ none ]
]

unfoldable pub escape_char : ℕ → Option Bytes
escape_char c =
    if c == quote
    then some (backslash ∷ quote ∷ [])
    else if c == backslash
    then some (backslash ∷ backslash ∷ [])
    else if c == 10
    then some (backslash ∷ b'n' ∷ [])
    else if c == 13
    then some (backslash ∷ b'r' ∷ [])
    else if c == 9
    then some (backslash ∷ b't' ∷ [])
    else if ltb c 0x20
    then none
    else some (c ∷ [])

abbrev pub put_rep : ℕ → Option Bytes → Option Bytes → Option Bytes
put_rep room none rest = none
put_rep room (some rep) none = none
put_rep room (some rep) (some rest) = if ltb room (length rep + 1) then none else some (rep ++ rest)

abbrev pub rep_length : Option Bytes → ℕ
rep_length none = 0
rep_length (some rep) = length rep

-- the loop, with room for so many bytes and the terminator
unfoldable pub escape_from : ℕ → Bytes → Option Bytes
unfolding escape_char
escape_from room [] = some []
escape_from room (c ∷ s) =
    put_rep room (escape_char c) (escape_from (room - rep_length (escape_char c)) s)

unfoldable pub json_escape : Bytes → ℕ → Option Bytes
unfolding escape_from
json_escape s outn = if outn == 0 then none else escape_from outn s

-- what stands behind a key: a text for an array of n bytes, a number, or true or false
pub data Shape : Type 0 where
  string : ℕ → Shape
  number flag : Shape

pub data Value : Type 0 where
  text_of : Bytes → Value
  int_of : ℤ → Value
  bool_of : Bool → Value

abbrev pub keys : List (Bytes × Shape)
keys =
    (codes "op", string 32)
    ∷ (codes "kind", string 16)
    ∷ (codes "payload", string json_str_max)
    ∷ (codes "id", string 80)
    ∷ (codes "conversation", string 80)
    ∷ (codes "text", string json_str_max)
    ∷ (codes "reply", string 80)
    ∷ (codes "group", string 80)
    ∷ (codes "member", string 80)
    ∷ (codes "key", string 80)
    ∷ (codes "request", string 80)
    ∷ (codes "role", string 16)
    ∷ (codes "state", string 16)
    ∷ (codes "path", string json_str_max)
    ∷ (codes "title", string 80)
    ∷ (codes "nickname", string 129)
    ∷ (codes "monitor", string 64)
    ∷ (codes "passphrase", string 129)
    ∷ (codes "ttlSec", number)
    ∷ (codes "limit", number)
    ∷ (codes "x", number)
    ∷ (codes "y", number)
    ∷ (codes "accept", flag)
    ∷ (codes "replace", flag)
    ∷ (codes "pinned", flag)
    ∷ (codes "enabled", flag)
    ∷ (codes "typing", flag)
    ∷ (codes "width", number)
    ∷ (codes "height", number)
    ∷ (codes "callId", string 80)
    ∷ []

-- The value for a key in a list of pairs.
abbrev pub lookup : {A : Type 0} → Bytes → List (Bytes × A) → Option A
lookup k [] = none
lookup k ((j, a) ∷ s) = if bytes_eq k j then some a else lookup k s

abbrev pub Op : Type 0
Op = List (Bytes × Value)

abbrev pub as_text : Option (Bytes × Bytes) → Option (Value × Bytes)
as_text none = none
as_text (some (v, s)) = some (text_of v, s)

abbrev pub as_int : Option (ℤ × Bytes) → Option (Value × Bytes)
as_int none = none
as_int (some (v, s)) = some (int_of v, s)

abbrev pub as_bool : Option (Bool × Bytes) → Option (Value × Bytes)
as_bool none = none
as_bool (some (v, s)) = some (bool_of v, s)

unfoldable pub parse_value : Shape → Bytes → Option (Value × Bytes)
unfolding parse_string parse_int parse_bool
parse_value (string n) s = as_text (parse_string n s)
parse_value number s = as_int (parse_int s)
parse_value flag s = as_bool (parse_bool s)

-- what stands behind a byte that must come, and the white space after it
abbrev pub after_byte : ℕ → Bytes → Option Bytes
after_byte c [] = none
after_byte c (d ∷ s) = if d == c then some (skip_ws s) else none

abbrev pub add_value : Bytes → Op → Option (Value × Bytes) → Option (Op × Bytes)
add_value k op none = none
add_value k op (some (v, s)) = some ((k, v) ∷ op, skip_ws s)

abbrev pub read_shape : Bytes → Op → Option Shape → Option Bytes → Option (Op × Bytes)
read_shape k op none s = none
read_shape k op (some shape) none = none
read_shape k op (some shape) (some s) = add_value k op (parse_value shape s)

abbrev pub read_key : Op → Option (Bytes × Bytes) → Option (Op × Bytes)
read_key op none = none
read_key op (some (k, s)) = elim (lookup k op) [
  | some v ↦ none
  | none ↦ read_shape k op (lookup k keys) (after_byte b':' (skip_ws s))
]

-- a key and its value, with the white space behind
unfoldable pub read_pair : Op → Bytes → Option (Op × Bytes)
unfolding parse_string parse_value skip_ws
read_pair op s = read_key op (parse_string 32 s)

abbrev pub op_named : Option Value → Bool
op_named (some (text_of (c ∷ v))) = true
op_named _ = false

-- behind the closing brace
abbrev pub finish : Op → Bytes → Option Op
finish op s = if length (skip_ws s) == 0 && op_named (lookup (codes "op") op) then some op else none

-- The loop over the pairs; the outer none is the end of the fuel, the inner one -1.
unfoldable pub read_pairs : ℕ → Bool → Op → Bytes → Option (Option Op)
unfolding read_pair
read_pairs zero first op s = none
read_pairs (suc fuel) first op [] = some none
read_pairs (suc fuel) first op (c ∷ s) = elim (c == b'}') [
  | true ↦ some (finish op s)
  | false ↦ elim (if first then some (c ∷ s) else after_byte b',' (c ∷ s)) [
    | none ↦ some none
    | some t ↦ elim (read_pair op t) [
      | none ↦ some none
      | some (more, rest) ↦ read_pairs fuel false more rest
    ]
  ]
]

abbrev pub starts_with : ℕ → Bytes → Bool
starts_with c [] = false
starts_with c (d ∷ s) = d == c

abbrev pub read_object : Option Bytes → Option (Option Op)
read_object none = some none
read_object (some s) =
    if starts_with b'}' s then some none else read_pairs (suc (length s)) true [] s

unfoldable pub json_parse_op : Bytes → Option (Option Op)
unfolding read_pairs skip_ws
json_parse_op line =
    if leb json_line_max (length line)
    then some none
    else read_object (after_byte b'{' (skip_ws line))
