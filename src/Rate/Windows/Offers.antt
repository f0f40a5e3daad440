-- ===== src/Rate/Windows/Offers.antt =====
-- helper/rate.c: `omaq_group_file_offer_rate_allow`, with a counter for each group and member, one
-- for each member, and one in all.
use oma_q.Prelude.{
  ℕ, ◌-◌, Bool, true, false, ◌||◌, Option, none, some, List, ◌∷◌, ◌++◌, leb, if◌then◌else◌, length,
  take, set, replicate,
}
use oma_q.Prelude.Bytes.{Bytes}
use oma_q.Prelude.Int.{ℤ, pos, negsuc}
use oma_q.Rate.{Pick, found, claim, nowhere, is_blank, get_or}
use oma_q.Rate.Windows.{Entry, blank, Meter, refresh, more, refresh_entry, settle, search, note}

abbrev pub offer_slots : ℕ
offer_slots = 64

abbrev pub offer_per_key : ℕ
offer_per_key = 5

abbrev pub offer_per_actor : ℕ
offer_per_actor = 10

abbrev pub offer_global : ℕ
offer_global = 30

abbrev pub offer_key_len : ℕ
offer_key_len = 136

abbrev pub actor_key_len : ℕ
actor_key_len = 65

pub record OfferRate : Type 0 where
  pub entries : List Entry
  pub actors : List Entry
  pub global : Meter

unfoldable pub offer_init : OfferRate
offer_init = record {
  entries = replicate offer_slots blank;
  actors = replicate offer_slots blank;
  global = record { window = 0; count = 0 };
}

-- The slot of the actor, and its entry. A name that does not fit is written cut off to the slot
-- that it would have, whose window and count stay, and the call is refused.
unfoldable pub settle_actor : ℕ → Bytes → List Entry → Pick → List Entry × Option (ℕ × Entry)
settle_actor now actor actors (found i) =
    (actors, some (i, refresh_entry now 60 (get_or actors i blank)))
settle_actor now actor actors (claim i) =
    if leb actor_key_len (length actor)
    then (
      set actors i (record (get_or actors i blank) { key = take (actor_key_len - 1) actor }),
      none,
    )
    else (actors, some (i, record { key = actor; window = now; count = 0 }))
settle_actor now actor actors nowhere = (actors, none)

-- from the test of the actor's counter on; `i` and `e` are the slot and entry of the key
abbrev pub offer_actor : OfferRate → ℕ → Entry → List Entry × Option (ℕ × Entry) → Bool × OfferRate
offer_actor r i e (actors, none) =
    (false, record r { entries = set r.entries i e; actors = actors })
offer_actor r i e (actors, some (j, a)) =
    if leb offer_per_actor a.count
    then (false, record r { entries = set r.entries i e; actors = set actors j a })
    else (
      true,
      record {
        entries = set r.entries i (note e);
        actors = set actors j (note a);
        global = more r.global;
      },
    )

-- from the slot of the key on
unfoldable pub offer_entry : OfferRate → ℕ → Bytes → Option (ℕ × Entry) → Bool × OfferRate
offer_entry r now actor none = (false, r)
offer_entry r now actor (some (i, e)) =
    if leb offer_per_key e.count
    then (false, record r { entries = set r.entries i e })
    else offer_actor r i e (settle_actor now actor r.actors (search none actor r.actors))

-- behind the test of the arguments
unfoldable pub offer_global_test : OfferRate → ℕ → Bytes → Bytes → Bool × OfferRate
offer_global_test r now key actor =
    if leb offer_global r.global.count
    then (false, r)
    else offer_entry r now actor (settle now key r.entries (search none key r.entries))

unfoldable pub offer_allow : OfferRate → Bytes → Bytes → ℤ → Bool × OfferRate
offer_allow r group actor (negsuc n) = (false, r)
offer_allow r group actor (pos now) =
    let key = group ++ b':' ∷ actor in
    if is_blank group || (is_blank actor || leb offer_key_len (length key))
    then (false, r)
    else offer_global_test (record r { global = refresh now 60 r.global }) now key actor
