-- ===== src/Json/Validate.antt =====
-- helper/json_io.c: the test of strings in a JSON text (validate_string and validate_utf8_char).
use oma_q.Prelude.{
  ℕ, zero, suc, Bool, true, false, not, ◌&&◌, ◌||◌, Option, none, some, [], ◌∷◌, ltb, leb, ◌==◌,
  if◌then◌else◌, within,
}
use oma_q.Prelude.Bytes.{Bytes}
use oma_q.Json.{quote, backslash, is_digit}

-- how many bytes follow a first byte
abbrev pub char_need : ℕ → Option ℕ
char_need lead =
    if within 0xc2 0xdf lead
    then some 1
    else if within 0xe0 0xef lead
    then some 2
    else if within 0xf0 0xf4 lead
    then some 3
    else none

-- the loop over the bytes that follow
abbrev pub all_continue : ℕ → Bytes → Bool
all_continue zero s = true
all_continue (suc n) [] = false
all_continue (suc n) (c ∷ s) = within 0x80 0xbf c && all_continue n s

abbrev pub second_ok : ℕ → Bytes → Bool
second_ok lead [] = true
second_ok lead (b ∷ s) = not (
    (lead == 0xe0 && ltb b 0xa0)
    || ((lead == 0xed && leb 0xa0 b)
        || ((lead == 0xf0 && ltb b 0x90) || (lead == 0xf4 && leb 0x90 b))))

-- The bytes behind the first one of a character; none is -1.
unfoldable pub validate_utf8_char : ℕ → Bytes → Option ℕ
validate_utf8_char lead s = elim (char_need lead) [
  | none ↦ none
  | some n ↦ if all_continue n s && second_ok lead s then some n else none
]

abbrev pub simple_escape : ℕ → Bool
simple_escape c =
    c == quote
    || (c == backslash
        || (c == b'/' || (c == b'b' || (c == b'f' || (c == b'n' || (c == b'r' || c == b't'))))))

-- `isxdigit`
abbrev pub is_hex : ℕ → Bool
is_hex c = is_digit c || (within b'a' b'f' c || within b'A' b'F' c)

abbrev pub hex_digits : ℕ → Bytes → Bool
hex_digits zero s = true
hex_digits (suc n) [] = false
hex_digits (suc n) (c ∷ s) = is_hex c && hex_digits n s

-- how many bytes belong to the escape behind a backslash
abbrev pub escape_length : Bytes → Option ℕ
escape_length [] = none
escape_length (c ∷ s) =
    if simple_escape c
    then some 1
    else if not (c == b'u')
    then none
    else if hex_digits 4 s
    then some 5
    else none

-- The loop, with the number of bytes that have been tested already: what follows the closing quote.
unfoldable pub string_from : ℕ → Bytes → Option Bytes
unfolding validate_utf8_char
string_from skip [] = none
string_from (suc skip) (c ∷ s) = string_from skip s
string_from zero (c ∷ s) = elim (c == quote) [
  | true ↦ some s
  | false ↦ elim (ltb c 0x20) [
    | true ↦ none
    | false ↦ elim (leb 0x80 c) [
      | true ↦ elim (validate_utf8_char c s) [ none ↦ none | some n ↦ string_from n s ]
      | false ↦ elim (c == backslash) [
        | false ↦ string_from 0 s
        | true ↦ elim (escape_length s) [ none ↦ none | some n ↦ string_from n s ]
      ]
    ]
  ]
]

unfoldable pub validate_string : Bytes → Option Bytes
unfolding string_from
validate_string [] = none
validate_string (c ∷ s) = if c == quote then string_from 0 s else none
