-- ===== src/Transfers/Offers.antt =====
-- helper/file.c: the table of offers is a map with at most four entries.
use oma_q.Prelude.{
  ℕ, zero, suc, ◌<◌, ◌≤◌, leb, subst, length, [], ◌∷◌, if◌then◌else◌, ◌+◌, ◌≡◌, refl, ap, ◌∙◌, Bool,
  true, false, ◌&&◌, ◌||◌, Option, none, some, List, ltb, ◌==◌, get_elem?, get_or, set, set-set,
  Bool-cases, Option-cases, inl, inr, All, arith,
}
use oma_q.Prelude.Bytes.{Bytes}
use oma_q.FileNames.{file_basename, file_name_max, file_name_bytes_ok}
use oma_q.Transfers.{Files, Offer, no_offer, file_max, offer_store, offer_lookup, offer_drop}
use oma_q.Transfers.Table.{Slot, empty_slot, taken, find, held, hits, mem, Unique}
use oma_q.Transfers.Slots.{
  held-set_body, held_new, held_ne, held_at, held_clear, held-none, get_or_of,
}
use oma_q.Transfers.Search.{find-Search, found, made, missing, Fresh, find-Fresh}
use oma_q.Transfers.State.{FilesOk, OfferOk}

-- another friend or another number
abbrev pub Other : ℕ → ℕ → ℕ → ℕ → Type 0
Other f n g m = (g == f && m == n) ≡ false

hits-Other : (f n g m : ℕ) (x : Slot Offer) → Other f n g m → hits f n x ≡ true → hits g m x ≡ false
unfolding hits
hits-Other f n g m x o h = ground arith

unused_other : (g m : ℕ) (x : Slot Offer) → x.used ≡ false → hits g m x ≡ false
unfolding hits
unused_other g m x h = ground arith

-- The table holds the offer, and the others as before.
abbrev pub Updated : ℕ → ℕ → Option Offer → List (Slot Offer) → List (Slot Offer) → Type 0
Updated f n o s t = (held f n t ≡ o) × ((g m : ℕ) → Other f n g m → held g m t ≡ held g m s)

drop_updates :
    {strict : Bool}
    → (f n : ℕ) (w : Files) → FilesOk strict w
    → Updated f n none w.offers (offer_drop f n w).offers
unfolding offer_drop
drop_updates f n w ok = elim (find-Search false f n no_offer w.offers) [
  | missing q l e ↦ rw (ap (λ r. r.0) e, offer_drop) (held-none f n w.offers q, λ g m o. refl)
  | made k x g q p e c ↦ absurd (ground (arith, c))
  | found i x g q e ↦
      rw (ap (λ r. r.0) e, offer_drop)
        (
          held_clear f n w.offers i x (empty_slot no_offer) ok.offers_unique g q refl,
          λ h m o. held_ne h m w.offers i x (empty_slot no_offer) g (hits-Other f n h m x o q) refl,
        )
]

-- What is to be told of an offer: its size, and its name if there is an array for it, which must hold
-- the name and its terminator.
abbrev pub told : ℕ → Option Offer → Option (Option Bytes × ℕ)
told cap none = none
told cap (some o) = elim cap [
  | zero ↦ some (none, o.size)
  | suc n ↦ if leb (length o.name) n then some (some o.name, o.size) else none
]

lookup_told :
    {strict : Bool}
    → (f n cap : ℕ) (w : Files) → FilesOk strict w
    → offer_lookup f n cap w ≡ told cap (held f n w.offers)
unfolding offer_lookup
lookup_told f n cap w ok = elim (find-Search false f n no_offer w.offers) [
  | missing q l e ↦ rw (ap (λ r. r.0) e, offer_lookup, held-none f n w.offers q) refl
  | made k x g q p e c ↦ absurd (ground (arith, c))
  | found i x g q e ↦
      rw
        (
          ap (λ r. r.0) e,
          offer_lookup,
          held_at f n w.offers i x ok.offers_unique g q,
          get_or_of w.offers i x (empty_slot no_offer) g,
        )
        (same cap x.body)
]
  where
    same :
        (cap : ℕ) (o : Offer)
        → (if cap == 0
            then some (none, o.size)
            else if leb cap (length o.name)
            then none
            else some (some o.name, o.size))
          ≡ told cap (some o)
    same zero o = refl
    same (suc n) o = ground arith

-- what is held belongs to a used slot, whose name is short
short_names :
    (f n : ℕ) (s : List (Slot Offer)) (o : Offer)
    → All OfferOk s
    → held f n s ≡ some o
    → length o.name ≤ file_name_max
unfolding held hits file_name_bytes_ok
short_names f n [] o a h = ground arith
short_names f n (x ∷ s) o a h = elim (Bool-cases (hits f n x)) [
  | inr e ↦ short_names f n s o a.1 (ground arith)
  | inl e ↦
      let b = a.0.named (ground arith) in
      let q : x.body ≡ o = ground arith in
      subst (λ y. length y.name ≤ file_name_max) q (ground (arith, b))
]

-- an array with room for every name
large_array :
    (cap : ℕ) (o : Option Offer)
    → file_name_max < cap
    → ((b : Offer) → o ≡ some b → length b.name ≤ file_name_max)
    → told cap o ≡ elim o [ none ↦ none | some b ↦ some (some b.name, b.size) ]
large_array cap none l h = refl
large_array zero (some b) l h = absurd (omega arith)
large_array (suc n) (some b) l h =
    let q = h b refl in let e : leb (length b.name) n ≡ true = ground arith in rw e refl

-- Why an offer is not taken.
pub data Refusal (f n : ℕ) (name : Bytes) (size : ℕ) (s : List (Slot Offer)) : Type 0 where
  bad_size : (ltb file_max size || size == 0) ≡ true → Refusal f n name size s
  bad_name : file_basename name (file_name_max + 1) ≡ none → Refusal f n name size s
  no_room : held f n s ≡ none → All (λ x. x.used ≡ true) s → Refusal f n name size s

-- The answer to an offer, with the table before and after it.
pub data Answer (f n : ℕ) (name : Bytes) (size : ℕ) (s : List (Slot Offer))
    : Bool → List (Slot Offer) → Type 0 where
  taken_in :
      (safe : Bytes) (t : List (Slot Offer))
      → file_basename name (file_name_max + 1) ≡ some safe
      → Updated f n (some (record { size = size; name = safe })) s t
      → Answer f n name size s true t
  turned_down : Refusal f n name size s → Answer f n name size s false s

found_body :
    (x : Slot Offer) (f n : ℕ) (b : Offer) → hits f n x ≡ true → record x { body = b } ≡ taken f n b
unfolding hits taken
found_body x f n b h =
    let u : x.used ≡ true = ground arith in
    let p : x.friend ≡ f = ground arith in let q : x.fnum ≡ n = ground arith in cc

taken_key :
    (f n g m : ℕ) (b : Offer)
    → (hits f n (taken f n b) ≡ true) × (Other f n g m → hits g m (taken f n b) ≡ false)
unfolding hits taken
taken_key f n g m b = (ground arith, λ o. ground arith)

-- the slot that is written
writes_offer :
    (f n : ℕ) (b : Offer) (s : List (Slot Offer)) (i : ℕ) (x : Slot Offer)
    → Unique s
    → get_elem? s i ≡ some x
    → hits f n x ≡ true
    → Updated f n (some b) s (set s i (record (get_or s i (empty_slot no_offer)) { body = b }))
writes_offer f n b s i x u g q =
    let e =
      ap (λ y. set s i (record y { body = b })) (get_or_of s i x (empty_slot no_offer) g)
      ∙ ap (λ y. set s i y) (found_body x f n b q) in
    (
      held-set_body f n s i x (empty_slot no_offer) b u g q,
      λ h m o.
          ap (held h m) e
          ∙ held_ne h m s i x (taken f n b) g (hits-Other f n h m x o q)
              ((taken_key f n h m b).1 o),
    )

makes_offer :
    (f n : ℕ) (b : Offer) (s : List (Slot Offer)) (i : ℕ) (x : Slot Offer) (t : List (Slot Offer))
    → get_elem? s i ≡ some x
    → x.used ≡ false
    → mem f n s ≡ false
    → find true f n no_offer s ≡ (some i, t)
    → Updated f n (some b) s (set t i (record (get_or t i (empty_slot no_offer)) { body = b }))
unfolding taken
makes_offer f n b s i x t g q p e =
    let y : Fresh f n no_offer s i t = find-Fresh f n no_offer s i t p e in
    let whole : set t i (record (get_or t i (empty_slot no_offer)) { body = b })
        ≡ set s i (taken f n b) =
      ap (λ z. set t i (record z { body = b })) (y.content (empty_slot no_offer))
      ∙ ap (λ u. set u i (taken f n b)) y.written
      ∙ set-set s i (taken f n no_offer) (taken f n b) in
    (
      ap (held f n) whole ∙ held_new f n s i (taken f n b) y.bound (taken_key f n f n b).0 p,
      λ h m o.
          ap (held h m) whole
          ∙ held_ne h m s i x (taken f n b) g (unused_other h m x q) ((taken_key f n h m b).1 o),
    )

offer_store-Answer :
    {strict : Bool}
    → (f n : ℕ) (name : Bytes) (size : ℕ) (w : Files) → FilesOk strict w
    → Answer f n name size w.offers
        (offer_store f n name size w).0
        (offer_store f n name size w).1.offers
unfolding offer_store
offer_store-Answer f n name size w ok = elim (Bool-cases (ltb file_max size || size == 0)) [
  | inl e ↦ rw (e, offer_store) (turned_down (bad_size e))
  | inr e ↦ elim (Option-cases (file_basename name (file_name_max + 1))) [
    | inl g ↦ rw (e, g, offer_store) (turned_down (bad_name g))
    | inr (safe, g) ↦
        let b : Offer = record { size = size; name = safe } in
        elim (find-Search true f n no_offer w.offers) [
          | missing q l r ↦
              rw (e, g, r, offer_store) (turned_down (no_room (held-none f n w.offers q) (l refl)))
          | found i x h q r ↦
              rw (e, g, r, offer_store)
                (taken_in safe
                  (set w.offers i (record (get_or w.offers i (empty_slot no_offer)) { body = b })) g
                  (writes_offer f n b w.offers i x ok.offers_unique h q))
          | made i x h q p r c ↦
              let t : List (Slot Offer) = set w.offers i (taken f n no_offer) in
              rw (e, g, r, offer_store)
                (taken_in safe (set t i (record (get_or t i (empty_slot no_offer)) { body = b })) g
                  (makes_offer f n b w.offers i x t h q p r))
        ]
  ]
]

-- The table of offers is a map from a friend and a number to a name and a size. An offer is taken
-- with the part of its name behind the last slash, the other entries staying as they are; it is
-- turned down, and nothing changes, only for its size, for its name, or if it is new and all slots
-- are in use. Dropping removes just the one entry. Looking up tells what is held: the size alone
-- without an array, the name and the size with an array that has room for the name, and nothing
-- with a shorter one; an array of more than 128 bytes has room for every name.
pub offers_refine :
    {strict : Bool}
    → (f n : ℕ) (name : Bytes) (size cap large : ℕ) (w : Files) → FilesOk strict w
    → file_name_max < large
    → Answer f n name size w.offers
        (offer_store f n name size w).0
        (offer_store f n name size w).1.offers
      × Updated f n none w.offers (offer_drop f n w).offers
      × (offer_lookup f n cap w ≡ told cap (held f n w.offers))
      × (offer_lookup f n large w
          ≡ elim (held f n w.offers) [ none ↦ none | some o ↦ some (some o.name, o.size) ])
offers_refine f n name size cap large w ok l = (
  offer_store-Answer f n name size w ok,
  drop_updates f n w ok,
  lookup_told f n cap w ok,
  lookup_told f n large w ok
      ∙ large_array large (held f n w.offers) l (λ b h. short_names f n w.offers b ok.offers_ok h),
)
