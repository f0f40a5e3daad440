-- ===== src/GroupFile.antt =====
-- helper/group_file.c and helper/group_file.h: the packets that carry a file to a group, but for the
-- offer. A packet is the list of its bytes; a packer's argument `outn` is the room for it.
-- Pointers are not null.
pub mod Packets
use oma_q.Prelude.{
  ℕ, ◌+◌, ◌*◌, ◌/◌, ◌%◌, ◌^◌, ◌-◌, Bool, true, false, not, ◌&&◌, ◌||◌, Option, none, some, List, [],
  ◌∷◌, ◌++◌, ltb, leb, ◌==◌, if◌then◌else◌, length, take, drop,
}
use oma_q.Prelude.Bytes.{Bytes, codes, after_prefix}

abbrev pub id_bytes : ℕ
id_bytes = 16

abbrev pub packet_max : ℕ
packet_max = 1373

abbrev pub data_max : ℕ
data_max = 1343

abbrev pub data_type : ℕ
data_type = 4

abbrev pub magic : Bytes
magic = codes "OQGF1"

abbrev pub common : ℕ
common = 22

abbrev pub data_fixed : ℕ
data_fixed = 30

-- `(uint8_t)(value >> shift)`
abbrev pub byte_at : ℕ → ℕ → ℕ
byte_at value shift = value / 2 ^ shift % 256

unfoldable pub put_u64 : ℕ → Bytes
put_u64 value =
    byte_at value 56
    ∷ byte_at value 48
    ∷ byte_at value 40
    ∷ byte_at value 32
    ∷ byte_at value 24
    ∷ byte_at value 16
    ∷ byte_at value 8
    ∷ byte_at value 0
    ∷ []

-- `value = (value << 8) | in[i]` on a uint64_t, over the bytes
unfoldable pub get_from : ℕ → Bytes → ℕ
get_from value [] = value
get_from value (b ∷ s) = get_from (value * 256 % 2 ^ 64 + b) s

unfoldable pub get_u64 : Bytes → ℕ
unfolding get_from
get_u64 s = get_from 0 (take 8 s)

-- accept, cancel, done, ack and fail
abbrev pub is_control : ℕ → Bool
is_control t = t == 2 || (t == 3 || (t == 5 || (t == 6 || t == 7)))

unfoldable pub control_pack : ℕ → ℕ → Bytes → Option Bytes
control_pack outn type id =
    if ltb outn common || not (is_control type) then none else some (magic ++ type ∷ id)

-- behind the magic bytes
abbrev pub control_rest : Bytes → Option (ℕ × Bytes)
control_rest [] = none
control_rest (type ∷ id) = if is_control type then some (type, id) else none

-- The type and the identifier.
unfoldable pub control_unpack : Bytes → Option (ℕ × Bytes)
control_unpack packet =
    if not (length packet == common)
    then none
    else elim (after_prefix magic packet) [ none ↦ none | some rest ↦ control_rest rest ]

abbrev pub type_is : ℕ → Option Bytes → Bool
type_is type none = false
type_is type (some []) = false
type_is type (some (t ∷ s)) = t == type

unfoldable pub common_ok : Bytes → ℕ → Bool
common_ok packet type = leb common (length packet) && type_is type (after_prefix magic packet)

unfoldable pub data_pack : ℕ → Bytes → ℕ → Bytes → Option Bytes
data_pack outn id offset content =
    if length content == 0
      || (ltb data_max (length content)
          || (ltb outn (data_fixed + length content)
              || ltb packet_max (data_fixed + length content)))
    then none
    else some (magic ++ data_type ∷ (id ++ (put_u64 offset ++ content)))

pub record Data : Type 0 where
  pub id : Bytes
  pub offset : ℕ
  pub content : Bytes

unfoldable pub data_unpack : Bytes → Option Data
data_unpack packet =
    if not (common_ok packet data_type)
      || (leb (length packet) data_fixed
          || (ltb packet_max (length packet) || ltb data_max (length packet - data_fixed)))
    then none
    else some (record {
      id = take id_bytes (drop 6 packet);
      offset = get_u64 (drop common packet);
      content = drop data_fixed packet;
    })
