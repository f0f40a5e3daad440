-- ===== src/Rate/Windows/Messages.antt =====
-- helper/rate.c: `omaq_message_rate_allow`, with a counter of a burst and of a minute for each
-- conversation and sender, and in all.
use oma_q.Prelude.{
  ℕ, Bool, true, false, ◌||◌, Option, none, some, List, [], ◌∷◌, ◌++◌, leb, if◌then◌else◌, length,
  set, replicate,
}
use oma_q.Prelude.Bytes.{Bytes, bytes_eq}
use oma_q.Prelude.Int.{ℤ, pos, negsuc}
use oma_q.Rate.{Pick, found, claim, nowhere, is_blank, scan, get_or}
use oma_q.Rate.Windows.{Meter, refresh, more}

abbrev pub message_slots : ℕ
message_slots = 320

abbrev pub message_key_len : ℕ
message_key_len = 136

abbrev pub burst_seconds : ℕ
burst_seconds = 10

abbrev pub burst_per_key : ℕ
burst_per_key = 10

abbrev pub per_minute : ℕ
per_minute = 30

abbrev pub global_burst : ℕ
global_burst = 40

abbrev pub global_minute : ℕ
global_minute = 120

pub record MessageEntry : Type 0 where
  pub key : Bytes
  pub burst : Meter
  pub minute : Meter

pub record MessageRate : Type 0 where
  pub entries : List MessageEntry
  pub burst : Meter
  pub minute : Meter

abbrev pub zero_meter : Meter
zero_meter = record { window = 0; count = 0 }

abbrev pub blank_message : MessageEntry
blank_message = record { key = []; burst = zero_meter; minute = zero_meter }

unfoldable pub message_init : MessageRate
message_init = record {
  entries = replicate message_slots blank_message;
  burst = zero_meter;
  minute = zero_meter;
}

unfoldable pub settle_message : ℕ → Bytes → List MessageEntry → Pick → Option (ℕ × MessageEntry)
settle_message now key entries (found i) =
    let e = get_or entries i blank_message in
    some
      (i, record e { burst = refresh now burst_seconds e.burst; minute = refresh now 60 e.minute })
settle_message now key entries (claim i) = some (
  i,
  record {
    key = key;
    burst = record { window = now; count = 0 };
    minute = record { window = now; count = 0 };
  },
)
settle_message now key entries nowhere = none

unfoldable pub search_message : Bytes → List MessageEntry → Pick
search_message key entries =
    scan (λ e. e.key) (λ e. e.minute.window) (λ e. bytes_eq e.key key) 0 none none entries

-- from the test of the entry's counters on
unfoldable pub message_entry : MessageRate → Option (ℕ × MessageEntry) → Bool × MessageRate
message_entry r none = (false, r)
message_entry r (some (i, e)) =
    if leb burst_per_key e.burst.count || leb per_minute e.minute.count
    then (false, record r { entries = set r.entries i e })
    else (
      true,
      record {
        entries = set r.entries i (record e { burst = more e.burst; minute = more e.minute });
        burst = more r.burst;
        minute = more r.minute;
      },
    )

-- behind the test of the arguments, with the windows in all refreshed
unfoldable pub message_global_test : MessageRate → ℕ → Bytes → Bool × MessageRate
message_global_test r now key =
    if leb global_burst r.burst.count || leb global_minute r.minute.count
    then (false, r)
    else message_entry r (settle_message now key r.entries (search_message key r.entries))

unfoldable pub message_allow : MessageRate → Bytes → Bytes → ℤ → Bool × MessageRate
message_allow r conversation actor (negsuc n) = (false, r)
message_allow r conversation actor (pos now) =
    let key = conversation ++ b':' ∷ actor in
    if is_blank conversation || (is_blank actor || leb message_key_len (length key))
    then (false, r)
    else message_global_test
        (record r { burst = refresh now burst_seconds r.burst; minute = refresh now 60 r.minute })
        now key
