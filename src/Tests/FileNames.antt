-- ===== src/Tests/FileNames.antt =====
-- helper/file.c: names and identifiers.
use oma_q.Prelude.{◌≡◌, ◌≤◌, ◌<◌, ◌↔◌, ◌++◌, refl, true, false, none, some, [], ◌∷◌, length}
use oma_q.Prelude.Bytes.{codes}
use oma_q.Prelude.Decimal.{print_decimal}
use oma_q.Text.{utf8_bytes_ok}
use oma_q.FileNames.{
  file_id_parse, read_digits, u32_max, file_name_bytes_ok, name_from, name_char, lead_bits,
  continue_bits, refused_point, format_control, file_basename, after_last_slash, has_dots,
  file_name_max, file_path_ok,
}
use oma_q.FileNames.Ids.{file_id_parse_iff}
use oma_q.FileNames.Names.{file_name_bytes_ok-utf8_bytes_ok, file_basename_iff, SafeName}

parsed : file_id_parse (codes "7:65536") ≡ some (7, 65536)
unfolding file_id_parse read_digits
parsed = refl

padded_id : file_id_parse (codes "07:1") ≡ none
unfolding file_id_parse read_digits
padded_id = refl

large_id : file_id_parse (codes "4294967296:1") ≡ none
unfolding file_id_parse read_digits
large_id = refl

plain_name : file_name_bytes_ok (codes "a.txt") ≡ true
unfolding file_name_bytes_ok name_from name_char lead_bits continue_bits refused_point
    format_control
plain_name = refl

-- U+202E, which turns the writing round
turned_name : file_name_bytes_ok (0xe2 ∷ 0x80 ∷ 0xae ∷ []) ≡ false
unfolding file_name_bytes_ok name_from name_char lead_bits continue_bits refused_point
    format_control
turned_name = refl

plain_path : file_basename (codes "/tmp/a.txt") 129 ≡ some (codes "a.txt")
unfolding file_basename after_last_slash has_dots file_name_bytes_ok name_from name_char lead_bits
    continue_bits refused_point format_control
plain_path = refl

upward_path : file_path_ok (codes "/tmp/../a") ≡ false
unfolding file_path_ok has_dots
upward_path = refl

file_id_parse_iff_example : (file_id_parse (codes "7:65536") ≡ some (7, 65536)) ↔ (
    (7 ≤ u32_max)
    × (65536 ≤ u32_max)
    × (codes "7:65536" ≡ print_decimal 7 ++ b':' ∷ print_decimal 65536))
file_id_parse_iff_example = file_id_parse_iff (codes "7:65536") 7 65536

file_name_bytes_ok-utf8_bytes_ok_example :
    (utf8_bytes_ok (codes "a.txt") true ≡ true)
    × (0 < length (codes "a.txt"))
    × (length (codes "a.txt") ≤ file_name_max)
file_name_bytes_ok-utf8_bytes_ok_example =
    file_name_bytes_ok-utf8_bytes_ok (codes "a.txt") plain_name

file_basename_iff_example :
    (file_basename (codes "/tmp/a.txt") 129 ≡ some (codes "a.txt"))
    ↔ (SafeName (codes "/tmp/a.txt") (codes "a.txt") × (length (codes "a.txt") < 129))
file_basename_iff_example = file_basename_iff (codes "/tmp/a.txt") (codes "a.txt") 129
