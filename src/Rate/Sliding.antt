-- ===== src/Rate/Sliding.antt =====
-- helper/rate.c: `omaq_rate_allow`, at most 5 calls a minute for a key and 20 an hour in all, by
-- arrays of the times of the last accepted calls.
use oma_q.Prelude.{
  ℕ, ◌+◌, ◌-◌, Bool, true, false, ◌&&◌, none, some, List, [], ◌∷◌, ltb, leb, ◌==◌, if◌then◌else◌,
  take, set, replicate,
}
use oma_q.Prelude.Bytes.{Bytes, bytes_eq}
use oma_q.Prelude.Int.{ℤ, pos, negsuc}
use oma_q.Rate.{Pick, found, claim, nowhere, is_blank, scan, get_or}

abbrev pub per_min : ℕ
per_min = 5

abbrev pub per_hour : ℕ
per_hour = 20

abbrev pub key_slots : ℕ
key_slots = 32

abbrev pub key_len : ℕ
key_len = 65

pub record RateKey : Type 0 where
  pub key : Bytes
  pub min : List ℕ

pub record Rate : Type 0 where
  pub keys : List RateKey
  pub hour : List ℕ

abbrev pub blank_key : RateKey
blank_key = record { key = []; min = replicate per_min 0 }

unfoldable pub init : Rate
init = record { keys = replicate key_slots blank_key; hour = replicate per_hour 0 }

-- `ts > 0 && now - ts < win`, as signed numbers
abbrev pub is_recent : ℕ → ℕ → ℕ → Bool
is_recent now win t = ltb 0 t && ltb now (t + win)

unfoldable pub in_window : List ℕ → ℕ → ℕ → ℕ
in_window [] now win = 0
in_window (t ∷ ts) now win = (if is_recent now win t then 1 else 0) + in_window ts now win

-- the loop of `push_ts` from index `i` over the rest of the array `ts`
unfoldable pub push_from : ℕ → List ℕ → ℕ → ℕ → List ℕ → List ℕ
push_from now ts i oldest [] = set ts oldest now
push_from now ts i oldest (t ∷ rest) =
    let later = push_from now ts (i + 1) (if ltb t (get_or ts oldest 0) then i else oldest) rest in
    if t == 0 then set ts i now else later

unfoldable pub push_ts : List ℕ → ℕ → List ℕ
push_ts ts now = push_from now ts 0 0 ts

-- `strncmp(a, b, 64) == 0`
abbrev pub same_key : Bytes → RateKey → Bool
same_key key k = bytes_eq (take (key_len - 1) k.key) (take (key_len - 1) key)

abbrev pub first_min : RateKey → ℕ
first_min k = get_or k.min 0 0

-- The slot of the key, and the table in which it has one.
abbrev pub settle_key : List RateKey → Bytes → Pick → ℕ × List RateKey
settle_key keys key (found i) = (i, keys)
settle_key keys key (claim i) =
    (i, set keys i (record { key = take (key_len - 1) key; min = replicate per_min 0 }))
settle_key keys key nowhere = (0, keys)

-- The search begins with slot 0 as the oldest, so it always ends at a slot.
unfoldable pub find_key : List RateKey → Bytes → ℕ × List RateKey
find_key keys key = settle_key keys key (
    scan (λ k. k.key) first_min (same_key key) 0 none
      (some (0, first_min (get_or keys 0 blank_key))) keys)

-- the slot's test and its new time
abbrev pub note_key : Rate → ℕ → ℕ × List RateKey → Bool × Rate
note_key r now (i, keys) =
    let slot = get_or keys i blank_key in
    if leb per_min (in_window slot.min now 60)
    then (false, record r { keys = keys })
    else (true, record r { keys = set keys i (record slot { min = push_ts slot.min now }) })

unfoldable pub allow_key_only : Rate → Bytes → ℤ → Bool × Rate
allow_key_only r key (negsuc n) = (false, r)
allow_key_only r key (pos now) =
    if is_blank key then (false, r) else note_key r now (find_key r.keys key)

-- after the test of the hour
abbrev pub note_hour : ℕ → Bool × Rate → Bool × Rate
note_hour now (false, r) = (false, r)
note_hour now (true, r) = (true, record r { hour = push_ts r.hour now })

unfoldable pub allow : Rate → Bytes → ℤ → Bool × Rate
allow r key (negsuc n) = (false, r)
allow r key (pos now) =
    if is_blank key
    then (false, r)
    else if leb per_hour (in_window r.hour now 3600)
    then (false, r)
    else note_hour now (allow_key_only r key (pos now))
