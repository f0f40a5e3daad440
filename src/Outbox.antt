-- ===== src/Outbox.antt =====
-- helper/receipt.c: the outbox of the receipts that wait for their confirmation. The list holds the
-- first `length` entries of the array. `alloc n` is whether the allocator gives room for n entries,
-- and `time` what the clock says; both are arguments. Pointers are not null.
pub mod Invariant
pub mod Laws
use mathlib.Core.Option
use oma_q.Prelude.{
  ℕ, zero, suc, ◌+◌, ◌-◌, ◌*◌, ◌^◌, Bool, true, false, not, ◌&&◌, ◌||◌, Option, none, some, List,
  [], ◌∷◌, ◌++◌, ltb, leb, ◌==◌, if◌then◌else◌, within, length,
}
use oma_q.Prelude.Bytes.{Bytes, bytes_eq, all_bytes, is_lower_hex}
use oma_q.Prelude.Int.{ℤ, pos}
use oma_q.Wire.{id_ok}

abbrev pub outbox_max : ℕ
outbox_max = 4096

pub record OutboxEntry : Type 0 where
  pub conversation : Bytes
  pub id : Bytes
  pub created : ℤ
  pub next_attempt : ℤ
  pub acknowledged : Bool

pub record Outbox : Type 0 where
  pub entries : List OutboxEntry
  pub capacity : ℕ

abbrev pub is_digit : ℕ → Bool
is_digit c = within b'0' b'9' c

-- the value of the digits, `value` being that of those before; none at another byte
unfoldable pub digits_value : ℕ → Bytes → Option ℕ
digits_value value [] = some value
digits_value value (c ∷ s) = if is_digit c then digits_value (value * 10 + (c - b'0')) s else none

-- `g` or `d`, and a colon; what follows them is the key
abbrev pub long_key : Bytes → Option Bytes
long_key (c ∷ d ∷ s) = if (c == b'g' || c == b'd') && d == b':' then some s else none
long_key _ = none

abbrev pub starts_with_zero : Bytes → Bool
starts_with_zero [] = false
starts_with_zero (c ∷ s) = c == b'0'

abbrev pub short_form : Bytes → Bool
short_form s =
    if ltb 10 (length s) || (ltb 1 (length s) && starts_with_zero s)
    then false
    else elim (digits_value 0 s) [ none ↦ false | some value ↦ ltb value (2 ^ 32) ]

-- behind the tests of the length
abbrev pub form_ok : Bytes → Option Bytes → Bool
form_ok s none = short_form s
form_ok s (some key) = if length s == 66 then all_bytes is_lower_hex key else short_form s

unfoldable pub receipt_conversation_ok : Bytes → Bool
unfolding digits_value
receipt_conversation_ok s = (ltb 0 (length s) && ltb (length s) 80) && form_ok s (long_key s)

unfoldable pub outbox_init : Outbox
outbox_init = record { entries = []; capacity = 0 }

-- The copy, or none where the function returns -1.
unfoldable pub outbox_clone : (ℕ → Bool) → Outbox → Option Outbox
outbox_clone alloc source =
    let n = length source.entries in
    if ltb outbox_max n || (ltb 0 n && not (alloc n))
    then none
    else some (record { entries = source.entries; capacity = n })

abbrev pub matches : Bytes → Bytes → OutboxEntry → Bool
matches c id e = bytes_eq e.conversation c && bytes_eq e.id id

unfoldable pub find_from : Bytes → Bytes → List OutboxEntry → Option ℕ
find_from c id [] = none
find_from c id (e ∷ s) = if matches c id e then some 0 else Option.map suc (find_from c id s)

unfoldable pub outbox_find : Outbox → Bytes → Bytes → Option ℕ
outbox_find o c id = find_from c id o.entries

abbrev pub next_capacity : ℕ → ℕ
next_capacity capacity =
    let next = if ltb 0 capacity then capacity * 2 else 16 in
    if ltb outbox_max next then outbox_max else next

-- room for one more entry
unfoldable pub grow : (ℕ → Bool) → Outbox → Option Outbox
grow alloc o =
    if length o.entries == o.capacity
    then (if alloc (next_capacity o.capacity)
        then some (record o { capacity = next_capacity o.capacity })
        else none)
    else some o

-- 1, 0 and -1
pub data AddResult : Type 0 where
  added present refused : AddResult

abbrev pub entry_of : Bytes → Bytes → ℤ → OutboxEntry
entry_of c id time = record {
  conversation = c;
  id = id;
  created = time;
  next_attempt = pos 0;
  acknowledged = false;
}

abbrev pub commit : Outbox → OutboxEntry → Option Outbox → AddResult × Outbox
commit o e none = (refused, o)
commit o e (some g) = (added, record g { entries = g.entries ++ e ∷ [] })

unfoldable pub outbox_add : (ℕ → Bool) → ℤ → Outbox → Bytes → Bytes → AddResult × Outbox
outbox_add alloc time o c id =
    if not (receipt_conversation_ok c) || not (id_ok id)
    then (refused, o)
    else elim (outbox_find o c id) [
      | some i ↦ (present, o)
      | none ↦
          if leb outbox_max (length o.entries)
          then (refused, o)
          else commit o (entry_of c id time) (grow alloc o)
    ]

-- the `memmove` that closes the gap
unfoldable pub remove_at : ℕ → List OutboxEntry → List OutboxEntry
remove_at i [] = []
remove_at zero (e ∷ s) = s
remove_at (suc i) (e ∷ s) = e ∷ remove_at i s

-- Whether an entry was removed, and the outbox.
unfoldable pub outbox_remove : Outbox → Bytes → Bytes → Bool × Outbox
outbox_remove o c id = elim (outbox_find o c id) [
  | none ↦ (false, o)
  | some i ↦ (true, record o { entries = remove_at i o.entries })
]
