-- ===== src/Tests/Json.antt =====
-- helper/json_io.c: texts and commands.
use oma_q.Prelude.{◌≡◌, ◌++◌, refl, none, some, [], ◌∷◌, arith}
use oma_q.Prelude.Bytes.{Bytes, codes}
use oma_q.Prelude.Int.{negsuc}
use oma_q.Text.{utf8_bytes_ok, utf8_from, next_char}
use oma_q.Json.{
  quote, json_escape, escape_from, escape_char, parse_string, read_chars, unescape, json_parse_op,
  read_pairs, read_pair, parse_value, parse_int, int_digits, skip_ws, text_of, int_of,
}
use oma_q.Json.Validate.{validate_string, string_from, validate_utf8_char}
use oma_q.Json.Escapes.{validate_string-json_escape}
use oma_q.Json.Strings.{parse_string-json_escape}
use oma_q.Json.Commands.{Read, json_parse_op_total}

abbrev line_break : Bytes
line_break = b'a' ∷ 10 ∷ quote ∷ []

escaped : json_escape line_break 16 ≡ some (b'a' ∷ 92 ∷ b'n' ∷ 92 ∷ 34 ∷ [])
unfolding json_escape escape_from escape_char
escaped = refl

-- A carriage return is written as a letter that the reader of commands refuses.
carriage_return : parse_string 16 (34 ∷ 92 ∷ b'r' ∷ 34 ∷ []) ≡ none
unfolding parse_string read_chars unescape
carriage_return = refl

abbrev ping : Bytes
ping = codes "{\"op\": \"ping\", \"limit\":-5}"

ping_read :
    json_parse_op ping
    ≡ some (some ((codes "limit", int_of (negsuc 4)) ∷ (codes "op", text_of (codes "ping")) ∷ []))
unfolding json_parse_op read_pairs read_pair parse_value parse_int parse_string int_digits
    read_chars unescape skip_ws utf8_bytes_ok utf8_from next_char
ping_read = refl

twice : json_parse_op (codes "{\"op\":\"a\",\"op\":\"b\"}") ≡ some none
unfolding json_parse_op read_pairs read_pair parse_value parse_int parse_string int_digits
    read_chars unescape skip_ws utf8_bytes_ok utf8_from next_char
twice = refl

parse_string-json_escape_example :
    parse_string 4 (quote ∷ ((b'a' ∷ 92 ∷ b'n' ∷ 92 ∷ 34 ∷ []) ++ quote ∷ codes ","))
    ≡ some (line_break, codes ",")
unfolding utf8_bytes_ok utf8_from next_char
parse_string-json_escape_example =
    parse_string-json_escape line_break (b'a' ∷ 92 ∷ b'n' ∷ 92 ∷ 34 ∷ []) (codes ",") 16 4 escaped
      refl refl (omega arith)

json_parse_op_total_example : Read (json_parse_op ping)
json_parse_op_total_example = json_parse_op_total ping

valid_text :
    validate_string (quote ∷ ((b'a' ∷ 92 ∷ b'n' ∷ 92 ∷ 34 ∷ []) ++ quote ∷ codes ","))
    ≡ some (codes ",")
unfolding validate_string string_from validate_utf8_char
valid_text = refl

-- U+D800 is no character.
surrogate : validate_string (quote ∷ 0xed ∷ 0xa0 ∷ 0x80 ∷ quote ∷ []) ≡ none
unfolding validate_string string_from validate_utf8_char
surrogate = refl

validate_string-json_escape_example :
    validate_string (quote ∷ ((b'a' ∷ 92 ∷ b'n' ∷ 92 ∷ 34 ∷ []) ++ quote ∷ codes ","))
    ≡ some (codes ",")
unfolding utf8_bytes_ok utf8_from next_char
validate_string-json_escape_example =
    validate_string-json_escape line_break (b'a' ∷ 92 ∷ b'n' ∷ 92 ∷ 34 ∷ []) (codes ",") 16 refl
      escaped
