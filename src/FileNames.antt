-- ===== src/FileNames.antt =====
-- helper/file.c: the tests of the names and paths of files, and the identifiers of transfers.
-- A string is the list of its bytes without the terminator; pointers are not null.
pub mod Names
pub mod Ids
use mathlib.Core.Option
use oma_q.Prelude.{
  ℕ, zero, suc, ◌+◌, ◌-◌, ◌*◌, ◌%◌, ◌^◌, Bool, true, false, not, ◌&&◌, ◌||◌, Option, none, some,
  List, [], ◌∷◌, ◌++◌, ltb, leb, ◌==◌, if◌then◌else◌, within, length,
}
use oma_q.Prelude.Bytes.{Bytes, codes, lacks}
use oma_q.Prelude.Decimal.{print_decimal}

abbrev pub file_name_max : ℕ
file_name_max = 128

pub data Outcome : Type 0 where
  failure cancel done : Outcome

-- `nothing` is OMAQ_FILE_EVENT_NONE
pub data FileEvent : Type 0 where
  nothing failed canceled finished avatar : FileEvent

unfoldable pub file_event_for : Bool → Outcome → FileEvent
file_event_for true done = avatar
file_event_for true failure = nothing
file_event_for true cancel = nothing
file_event_for false done = finished
file_event_for false cancel = canceled
file_event_for false failure = failed

-- `strstr(s, "..")`
unfoldable pub has_dots : Bytes → Bool
has_dots (x ∷ y ∷ s) = (x == b'.' && y == b'.') || has_dots (y ∷ s)
has_dots s = false

abbrev pub starts_with_slash : Bytes → Bool
starts_with_slash [] = false
starts_with_slash (c ∷ s) = c == b'/'

unfoldable pub file_path_ok : Bytes → Bool
unfolding has_dots
file_path_ok path =
    starts_with_slash path
    && not (leb 512 (length path) || (has_dots path || not (lacks b'\n' path)))

unfoldable pub format_control : ℕ → Bool
format_control c =
    c == 0x00ad
    || (within 0x0600 0x0605 c
        || (c == 0x061c
            || (c == 0x06dd
                || (c == 0x070f
                    || (within 0x0890 0x0891 c
                        || (c == 0x08e2
                            || (within 0x17b4 0x17b5 c
                                || (c == 0x180e
                                    || (within 0x200b 0x200f c
                                        || (within 0x202a 0x202e c
                                            || (within 0x2060 0x2064 c
                                                || (within 0x2066 0x206f c
                                                    || (c == 0xfeff
                                                        || (within 0xfff9 0xfffb c
                                                            || (c == 0x110bd
                                                            || (c == 0x110cd
                                                            || (within 0x13430 0x1343f c
                                                            || (within 0x1bca0 0x1bca3 c
                                                            || (within 0x1d173 0x1d17a c
                                                            || (c == 0xe0001
                                                            || within 0xe0020 0xe007f
                                                            c))))))))))))))))))))

-- the first bits of a code point and the number of bytes that follow; none is the return of 0
unfoldable pub lead_bits : ℕ → Option (ℕ × ℕ)
lead_bits lead =
    if ltb lead 0x80
    then some (lead, 0)
    else if within 0xc2 0xdf lead
    then some (lead % 32, 1)
    else if within 0xe0 0xef lead
    then some (lead % 16, 2)
    else if within 0xf0 0xf4 lead
    then some (lead % 8, 3)
    else none

-- the loop over the bytes that follow, with what stands behind them
unfoldable pub continue_bits : ℕ → ℕ → Bytes → Option (ℕ × Bytes)
continue_bits zero codepoint s = some (codepoint, s)
continue_bits (suc n) codepoint [] = none
continue_bits (suc n) codepoint (next ∷ s) =
    if within 0x80 0xbf next then continue_bits n (codepoint * 64 + next % 64) s else none

-- what a name may not hold, `continuation` being the number of bytes behind the first
unfoldable pub refused_point : ℕ → ℕ → Bool
refused_point continuation c =
    (continuation == 2 && ltb c 0x800)
    || ((continuation == 3 && ltb c 0x10000)
        || (ltb 0x10ffff c
            || (within 0xd800 0xdfff c
                || (ltb c 0x20
                    || (within 0x7f 0x9f c
                        || (c == b'/' || (c == 0x2028 || (c == 0x2029 || format_control c))))))))

abbrev pub check_point : ℕ → Option (ℕ × Bytes) → Option Bytes
check_point continuation none = none
check_point continuation (some (c, s)) = if refused_point continuation c then none else some s

abbrev pub name_rest : Bytes → Option (ℕ × ℕ) → Option Bytes
name_rest rest none = none
name_rest rest (some (bits, continuation)) =
    check_point continuation (continue_bits continuation bits rest)

-- One round of the loop: the bytes that are left, or none where it returns 0.
unfoldable pub name_char : ℕ → Bytes → Option Bytes
unfolding lead_bits continue_bits refused_point
name_char lead rest = name_rest rest (lead_bits lead)

unfoldable pub name_from : ℕ → Bytes → Bool
name_from zero s = false
name_from (suc fuel) [] = true
name_from (suc fuel) (lead ∷ rest) = elim (name_char lead rest) [
  | none ↦ false
  | some left ↦ name_from fuel left
]

-- Each round takes a byte or more, so the loop never runs out of this fuel.
unfoldable pub file_name_bytes_ok : Bytes → Bool
file_name_bytes_ok name =
    not (length name == 0 || ltb file_name_max (length name)) && name_from (suc (length name)) name

-- What stands behind the last slash; the whole path where there is none.
unfoldable pub after_last_slash : Bytes → Bytes
after_last_slash [] = []
after_last_slash (c ∷ s) = if lacks b'/' (c ∷ s) then c ∷ s else after_last_slash s

-- Written to an array of n bytes.
unfoldable pub file_basename : Bytes → ℕ → Option Bytes
unfolding after_last_slash has_dots
file_basename path n =
    let b = after_last_slash path in
    if ltb n 2
      || (length b == 0
          || (not (lacks b'/' b)
              || (has_dots b || (leb n (length b) || not (file_name_bytes_ok b)))))
    then none
    else some b

unfoldable pub file_id_format : ℕ → ℕ → ℕ → Option Bytes
file_id_format friend fnum n =
    let id = print_decimal friend ++ b':' ∷ print_decimal fnum in
    if ltb n 4 || leb n (length id) then none else some id

abbrev pub u32_max : ℕ
u32_max = 2 ^ 32 - 1

abbrev pub is_digit : ℕ → Bool
is_digit c = within b'0' b'9' c

-- the loop over the digits: the number and what stands behind it, none above `UINT32_MAX`
unfoldable pub read_digits : ℕ → Bytes → Option (ℕ × Bytes)
read_digits a [] = some (a, [])
read_digits a (c ∷ s) =
    if not (is_digit c)
    then some (a, c ∷ s)
    else if ltb u32_max (a * 10 + (c - b'0'))
    then none
    else read_digits (a * 10 + (c - b'0')) s

-- `p[0] == '0' && p[1] != end`, the end being the colon or the terminator
abbrev pub padded : Bool → Bytes → Bool
padded colon [] = false
padded colon (c ∷ []) = c == b'0' && colon
padded colon (c ∷ d ∷ s) = c == b'0' && not (colon && d == b':')

abbrev pub starts_with_digit : Bytes → Bool
starts_with_digit [] = false
starts_with_digit (c ∷ s) = is_digit c

abbrev pub read_second : ℕ → Option (ℕ × Bytes) → Option (ℕ × ℕ)
read_second a none = none
read_second a (some (b, [])) = some (a, b)
read_second a (some (b, c ∷ s)) = none

-- behind the first number
abbrev pub read_colon : Option (ℕ × Bytes) → Option (ℕ × ℕ)
read_colon none = none
read_colon (some (a, [])) = none
read_colon (some (a, c ∷ s)) =
    if not (c == b':') || (not (starts_with_digit s) || padded false s)
    then none
    else read_second a (read_digits 0 s)

unfoldable pub file_id_parse : Bytes → Option (ℕ × ℕ)
unfolding read_digits
file_id_parse id =
    if not (starts_with_digit id) || padded true id then none else read_colon (read_digits 0 id)
