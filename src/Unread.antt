-- ===== src/Unread.antt =====
-- helper/conversation.c and helper/conversation.h: the counts of unread messages. The list holds
-- the first `length` entries of the array; what stands behind them, which the code keeps all zero,
-- is not modelled. `alloc n` is whether `realloc` gives room for n entries, and `available` is the
-- caller's function; both are arguments. Pointers are not null.
pub mod Counts
pub mod Totals
pub mod Invariant
use mathlib.Core.Option
use oma_q.Prelude.{
  ℕ, zero, suc, ◌+◌, ◌-◌, ◌*◌, ◌/◌, ◌^◌, Bool, true, false, not, ◌&&◌, ◌||◌, Option, none, some,
  List, [], ◌∷◌, ◌++◌, ltb, leb, ◌==◌, if◌then◌else◌, within, length, get_elem?, take,
}
use oma_q.Prelude.Bytes.{Bytes, bytes_eq, all_bytes, is_lower_hex}
use oma_q.Prelude.Int.{ℤ, pos, negsuc}

abbrev pub conv_id_max : ℕ
conv_id_max = 80

abbrev pub last_max : ℕ
last_max = 160

abbrev pub unread_count_max : ℕ
unread_count_max = 999999

abbrev pub uint_max : ℕ
uint_max = 2 ^ 32 - 1

abbrev pub size_max : ℕ
size_max = 2 ^ 64 - 1

pub data ConvKind : Type 0 where
  direct group : ConvKind

-- `unread` is an `int` that only grows; its overflow is not modelled.
pub record Conv : Type 0 where
  pub id : Bytes
  pub kind : ConvKind
  pub unread : ℕ
  pub last : Bytes

unfoldable pub conv_init : Bytes → ConvKind → Conv
conv_init id kind = record { id = take (conv_id_max - 1) id; kind = kind; unread = 0; last = [] }

unfoldable pub conv_note : Conv → Option Bytes → Bool → Conv
conv_note c last incoming = record c {
  last = elim last [ none ↦ c.last | some l ↦ take (last_max - 1) l ];
  unread = c.unread + (if incoming then 1 else 0);
}

pub record UnreadEntry : Type 0 where
  pub id : Bytes
  pub count : ℕ

pub record UnreadState : Type 0 where
  pub entries : List UnreadEntry
  pub capacity : ℕ

-- `sizeof(omaq_unread_entry)`
abbrev pub entry_size : ℕ
entry_size = 84

-- the loop over the digits, with the value of those before
unfoldable pub digits_fit : ℕ → Bytes → Bool
digits_fit value [] = true
digits_fit value (c ∷ s) =
    if not (within b'0' b'9' c) || ltb ((uint_max - (c - b'0')) / 10) value
    then false
    else digits_fit (value * 10 + (c - b'0')) s

abbrev pub key_form : Bytes → Bool
key_form [] = false
key_form (c ∷ s) = c == b':' && all_bytes is_lower_hex s

abbrev pub id_form : Bytes → Bool
id_form [] = false
id_form (c ∷ s) =
    if c == b'g' || c == b'd'
    then length s == 65 && key_form s
    else not (ltb 0 (length s) && c == b'0') && digits_fit 0 (c ∷ s)

unfoldable pub unread_id_ok : Bytes → Bool
unfolding digits_fit
unread_id_ok id = ltb (length id) conv_id_max && id_form id

-- the loop of `unread_find`
unfoldable pub find : Bytes → List UnreadEntry → Option ℕ
find c [] = none
find c (e ∷ s) = if bytes_eq e.id c then some 0 else Option.map suc (find c s)

unfoldable pub unread_find : UnreadState → Bytes → Option ℕ
unread_find state c = if unread_id_ok c then find c state.entries else none

unfoldable pub unread_init : UnreadState
unread_init = record { entries = []; capacity = 0 }

-- the loop that doubles the capacity; `none` is the return of -1, and the end of the fuel
unfoldable pub double_until : ℕ → ℕ → ℕ → Option ℕ
double_until zero needed capacity = none
double_until (suc fuel) needed capacity =
    if leb needed capacity
    then some capacity
    else if ltb (size_max / 2) capacity
    then none
    else double_until fuel needed (capacity * 2)

abbrev pub reallocate : (ℕ → Bool) → UnreadState → Option ℕ → Option UnreadState
reallocate alloc state none = none
reallocate alloc state (some capacity) =
    if ltb (size_max / entry_size) capacity || not (alloc capacity)
    then none
    else some (record state { capacity = capacity })

-- A capacity doubles at most 64 times, from 1 or more, until it is over `size_max / 2`.
unfoldable pub unread_reserve : (ℕ → Bool) → UnreadState → ℕ → Option UnreadState
unfolding double_until
unread_reserve alloc state needed =
    if leb needed state.capacity
    then some state
    else reallocate alloc state
        (double_until 65 needed (if state.capacity == 0 then 16 else state.capacity))

abbrev pub copy_entries : List UnreadEntry → UnreadState → UnreadState
copy_entries entries destination = record destination { entries = entries }

-- The copy, or none where the function returns -1.
unfoldable pub unread_clone : (ℕ → Bool) → UnreadState → Option UnreadState
unread_clone alloc source =
    Option.map (copy_entries source.entries)
      (unread_reserve alloc unread_init (length source.entries))

abbrev pub append_entry : Bytes → ℕ → UnreadState → UnreadState
append_entry c n state = record state {
  entries = state.entries ++ record { id = c; count = n } ∷ [];
}

unfoldable pub unread_set : (ℕ → Bool) → UnreadState → Bytes → ℕ → Option UnreadState
unread_set alloc state c n =
    if not (unread_id_ok c) || (n == 0 || ltb unread_count_max n)
    then none
    else elim (unread_find state c) [
      | some i ↦ none
      | none ↦ Option.map (append_entry c n) (unread_reserve alloc state (length state.entries + 1))
    ]

-- `if (count < OMAQ_UNREAD_COUNT_MAX) count++` on the entry at an index
unfoldable pub bump_at : ℕ → List UnreadEntry → List UnreadEntry
bump_at i [] = []
bump_at zero (e ∷ s) =
    record e { count = if ltb e.count unread_count_max then e.count + 1 else e.count } ∷ s
bump_at (suc i) (e ∷ s) = e ∷ bump_at i s

unfoldable pub unread_increment : (ℕ → Bool) → UnreadState → Bytes → Option UnreadState
unread_increment alloc state c = if not (unread_id_ok c) then none else elim (unread_find state c) [
  | some i ↦ some (record state { entries = bump_at i state.entries })
  | none ↦ Option.map (append_entry c 1) (unread_reserve alloc state (length state.entries + 1))
]

-- the `memmove` that closes the gap
unfoldable pub remove_at : ℕ → List UnreadEntry → List UnreadEntry
remove_at i [] = []
remove_at zero (e ∷ s) = s
remove_at (suc i) (e ∷ s) = e ∷ remove_at i s

unfoldable pub unread_clear : UnreadState → Bytes → Option UnreadState
unread_clear state c = if not (unread_id_ok c) then none else elim (unread_find state c) [
  | none ↦ some state
  | some i ↦ some (record state { entries = remove_at i state.entries })
]

-- The loop over the entries, with the new state and the number of those removed.
unfoldable pub prune_from :
    (ℕ → Bool) → (Bytes → ℤ) → UnreadState → ℕ → List UnreadEntry → Option (ℕ × UnreadState)
prune_from alloc available next removed [] = some (removed, next)
prune_from alloc available next removed (e ∷ s) = elim (available e.id) [
  | negsuc n ↦ none
  | pos zero ↦ prune_from alloc available next (suc removed) s
  | pos (suc n) ↦ elim (unread_set alloc next e.id e.count) [
    | none ↦ none
    | some next' ↦ prune_from alloc available next' removed s
  ]
]

-- The number of entries removed and the new state; where it is none, the state is as before.
unfoldable pub unread_prune : (ℕ → Bool) → (Bytes → ℤ) → UnreadState → Option (ℕ × UnreadState)
unread_prune alloc available state = prune_from alloc available unread_init 0 state.entries

abbrev pub count_at : List UnreadEntry → Option ℕ → ℕ
count_at s none = 0
count_at s (some i) = elim (get_elem? s i) [ none ↦ 0 | some e ↦ e.count ]

unfoldable pub unread_count : UnreadState → Bytes → ℕ
unread_count state c = count_at state.entries (unread_find state c)

unfoldable pub total_from : ℕ → List UnreadEntry → ℕ
total_from total [] = total
total_from total (e ∷ s) =
    if ltb (uint_max - total) e.count then uint_max else total_from (total + e.count) s

unfoldable pub unread_total : UnreadState → ℕ
unread_total state = total_from 0 state.entries
