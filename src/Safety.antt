-- ===== src/Safety.antt =====
-- helper/safety.c: the safety code of two public keys, which both friends compare.
pub mod Laws
use mathlib.Core.Option
use oma_q.Prelude.{
  ℕ, zero, suc, ◌+◌, ◌-◌, Bool, true, false, not, ◌&&◌, ◌||◌, Option, none, some, List, [], ◌∷◌,
  ◌++◌, ltb, leb, ◌==◌, if◌then◌else◌, within, length, take, drop,
}
use oma_q.Prelude.Bytes.{Bytes, codes, is_lower_hex}

abbrev pub to_lower : ℕ → ℕ
to_lower c = if within b'A' b'F' c then c - b'A' + b'a' else c

-- the loop over the characters
unfoldable pub lower_all : Bytes → Option Bytes
lower_all [] = some []
lower_all (c ∷ s) =
    if is_lower_hex (to_lower c) then Option.map (◌∷◌ (to_lower c)) (lower_all s) else none

unfoldable pub lower_hex64 : Bytes → Option Bytes
lower_hex64 s = if length s == 64 then lower_all s else none

-- the loop of `group16` from the second group on, over the rest of the key
unfoldable pub groups : ℕ → Bytes → Bytes
groups zero hex = []
groups (suc n) hex = b' ' ∷ (take 4 hex ++ groups n (drop 4 hex))

unfoldable pub group16 : Bytes → Bytes
group16 hex = take 4 hex ++ groups 15 (drop 4 hex)

-- `strcmp(a, b) <= 0`
unfoldable pub strcmp_le : Bytes → Bytes → Bool
strcmp_le [] b = true
strcmp_le (x ∷ a) [] = false
strcmp_le (x ∷ a) (y ∷ b) = ltb x y || (x == y && strcmp_le a b)

-- `snprintf` into an array of n bytes, the end of the text included
abbrev pub print_fits : ℕ → Bytes → Option Bytes
print_fits n s = if ltb (length s) n then some s else none

abbrev pub print_pair : ℕ → Bytes → Bytes → Option Bytes
print_pair n a b =
    if strcmp_le a b
    then print_fits n (group16 a ++ (codes " / " ++ group16 b))
    else print_fits n (group16 b ++ (codes " / " ++ group16 a))

unfoldable pub safety_code : Bytes → Bytes → ℕ → Option Bytes
safety_code pk_a pk_b n = if ltb n 8 then none else elim (lower_hex64 pk_a) [
  | none ↦ none
  | some a ↦ elim (lower_hex64 pk_b) [ none ↦ none | some b ↦ print_pair n a b ]
]
