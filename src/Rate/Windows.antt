-- ===== src/Rate/Windows.antt =====
-- helper/rate.c: what the limiters with fixed windows share, and those of control packets. A
-- counter belongs to a window that begins at some call and lasts a number of seconds; a call
-- outside it, also one before it, begins the next one.
pub mod Offers
pub mod Messages
pub mod Budget
pub mod Limits
pub mod MessageLimits
use oma_q.Prelude.{
  ℕ, ◌+◌, ◌-◌, Bool, true, false, not, ◌&&◌, ◌||◌, Option, none, some, List, [], ◌∷◌, ◌++◌, ltb,
  leb, ◌==◌, if◌then◌else◌, length, take, set, replicate,
}
use oma_q.Prelude.Bytes.{Bytes, bytes_eq}
use oma_q.Prelude.Decimal.{print_decimal}
use oma_q.Prelude.Int.{ℤ, pos, negsuc}
use oma_q.Rate.{Pick, found, claim, nowhere, scan, get_or}

pub record Entry : Type 0 where
  pub key : Bytes
  pub window : ℕ
  pub count : ℕ

abbrev pub blank : Entry
blank = record { key = []; window = 0; count = 0 }

-- `now < window || now - window >= len`
abbrev pub is_stale : ℕ → ℕ → ℕ → Bool
is_stale now len window = ltb now window || leb len (now - window)

-- a window, and how many calls were accepted in it
pub record Meter : Type 0 where
  pub window : ℕ
  pub count : ℕ

unfoldable pub refresh : ℕ → ℕ → Meter → Meter
refresh now len m = if is_stale now len m.window then record { window = now; count = 0 } else m

abbrev pub more : Meter → Meter
more m = record m { count = m.count + 1 }

unfoldable pub refresh_entry : ℕ → ℕ → Entry → Entry
refresh_entry now len e =
    if is_stale now len e.window then record e { window = now; count = 0 } else e

-- the slot that the search found, and its entry as the call goes on with it
unfoldable pub settle : ℕ → Bytes → List Entry → Pick → Option (ℕ × Entry)
settle now key entries (found i) = some (i, refresh_entry now 60 (get_or entries i blank))
settle now key entries (claim i) = some (i, record { key = key; window = now; count = 0 })
settle now key entries nowhere = none

abbrev pub window_of : Entry → ℕ
window_of e = e.window

abbrev pub key_of : Entry → Bytes
key_of e = e.key

unfoldable pub search : Option (ℕ × ℕ) → Bytes → List Entry → Pick
search oldest key entries = scan key_of window_of (λ e. bytes_eq e.key key) 0 none oldest entries

abbrev pub note : Entry → Entry
note e = record e { count = e.count + 1 }

abbrev pub control_slots : ℕ
control_slots = 320

abbrev pub control_per_key : ℕ
control_per_key = 30

abbrev pub receipt_per_key : ℕ
receipt_per_key = 60

abbrev pub control_global : ℕ
control_global = 120

abbrev pub control_key_len : ℕ
control_key_len = 80

pub record ControlRate : Type 0 where
  pub entries : List Entry
  pub global : Meter

unfoldable pub control_init : ControlRate
control_init = record {
  entries = replicate control_slots blank;
  global = record { window = 0; count = 0 };
}

abbrev pub is_kind : ℕ → Bool
is_kind c = c == b'r' || (c == b'x' || (c == b'e' || (c == b'd' || c == b't')))

-- `"%c%u:%.64s"`
unfoldable pub control_key : ℕ → ℕ → Bytes → Bytes
control_key kind group actor = kind ∷ (print_decimal group ++ b':' ∷ take 64 actor)

abbrev pub control_limit : ℕ → ℕ
control_limit kind = if kind == b'r' then receipt_per_key else control_per_key

-- from the test of the entry's counter on
unfoldable pub control_count : ControlRate → ℕ → ℕ → Option (ℕ × Entry) → Bool × ControlRate
control_count r limit now none = (false, r)
control_count r limit now (some (i, e)) =
    let global = refresh now 60 r.global in
    if leb limit e.count
    then (false, record r { entries = set r.entries i e })
    else if leb control_global global.count
    then (false, record { entries = set r.entries i e; global = global })
    else (true, record { entries = set r.entries i (note e); global = more global })

-- The search begins with slot 0 as the oldest one.
unfoldable pub control_allow : ControlRate → ℕ → ℕ → Bytes → ℤ → Bool × ControlRate
control_allow r kind group actor (negsuc n) = (false, r)
control_allow r kind group actor (pos now) =
    let key = control_key kind group actor in
    if not (is_kind kind) || leb control_key_len (length key)
    then (false, r)
    else control_count r (control_limit kind) now (
        settle now key r.entries
          (search (some (0, window_of (get_or r.entries 0 blank))) key r.entries))
