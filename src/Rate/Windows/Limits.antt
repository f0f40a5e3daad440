-- ===== src/Rate/Windows/Limits.antt =====
-- helper/rate.c: the limits of the control packets and of the offers in all.
use oma_q.Prelude.{
  ℕ, ◌+◌, ◌≤◌, ◌≡◌, inl, inr, refl, sym, subst, Bool, true, false, not, ◌||◌, Option, none, some,
  List, ◌∷◌, ◌++◌, leb, if◌then◌else◌, length, Bool-cases, arith,
}
use oma_q.Prelude.Bytes.{Bytes}
use oma_q.Prelude.Int.{pos}
use oma_q.Rate.{get_or, is_blank}
use oma_q.Rate.Windows.Budget.{
  Ticks, same, counted, accepted, after, Within, after_le, in_two_windows,
}
use oma_q.Rate.Windows.{
  Entry, Meter, is_stale, refresh, more, settle, search, ControlRate, control_init, control_allow,
  control_count, control_key, control_limit, is_kind, control_key_len, control_global, blank,
  window_of,
}
use oma_q.Rate.Windows.Offers.{
  OfferRate, offer_init, offer_allow, offer_global_test, offer_entry, offer_actor, settle_actor,
  offer_global, offer_key_len, offer_per_key, offer_per_actor,
}

pub record ControlCall : Type 0 where
  pub kind : ℕ
  pub group : ℕ
  pub actor : Bytes
  pub now : ℕ

abbrev pub control_step : ControlRate → ControlCall → Bool × ControlRate
control_step r x = control_allow r x.kind x.group x.actor (pos x.now)

abbrev pub control_time : ControlCall → ℕ
control_time x = x.now

abbrev pub control_meter : ControlRate → Meter
control_meter r = r.global

-- an accepted call in the window that is on, below the limit
count_one :
    (len limit now : ℕ) (m : Meter)
    → leb limit (refresh now len m).count ≡ false
    → Ticks len limit now true m (more (refresh now len m))
count_one len limit now m h = counted refl refl (ground arith)

-- a refused call that begins a window or not
pub count_none :
    (len limit now : ℕ) (m : Meter)
    → m.count ≤ limit
    → Ticks len limit now false m (refresh now len m)
unfolding refresh
count_none len limit now m h = elim (Bool-cases (is_stale now len m.window)) [
  | inl e ↦ counted refl (omega arith) (rw e (omega arith))
  | inr e ↦ counted refl (omega arith) (rw e h)
]

control_count-Ticks :
    (r : ControlRate) (limit now : ℕ) (o : Option (ℕ × Entry))
    → r.global.count ≤ control_global
    → Ticks 60 control_global now
        (control_count r limit now o).0
        r.global
        (control_count r limit now o).1.global
unfolding control_count
control_count-Ticks r limit now none h = same refl refl
control_count-Ticks r limit now (some (i, e)) h = elim (Bool-cases (leb limit e.count)) [
  | inl p ↦ rw p (same refl refl)
  | inr p ↦ elim (Bool-cases (leb control_global (refresh now 60 r.global).count)) [
    | inl q ↦ rw (p, q) (count_none 60 control_global now r.global h)
    | inr q ↦ rw (p, q) (count_one 60 control_global now r.global q)
  ]
]

control-Ticks :
    (r : ControlRate) (x : ControlCall)
    → (control_meter r).count ≤ control_global
    → Ticks 60 control_global x.now
        (control_step r x).0
        (control_meter r)
        (control_meter (control_step r x).1)
unfolding control_allow
control-Ticks r x h =
    let key = control_key x.kind x.group x.actor in
    elim (Bool-cases (not (is_kind x.kind) || leb control_key_len (length key))) [
      | inl p ↦ rw p (same refl refl)
      | inr p ↦ rw p (
          control_count-Ticks r (control_limit x.kind) x.now
            (settle x.now key r.entries
              (search (some (0, window_of (get_or r.entries 0 blank))) key r.entries))
            h)
    ]

-- After any run of control packets, those accepted of any further run of packets that come in the
-- order of time and within 60 seconds are at most 240: twice the limit of a window.
pub control_budget :
    (xs ys : List ControlCall) (t : ℕ)
    → Within control_step control_time t (t + 60) ys
    → accepted control_step control_time (after control_step control_time control_init xs) ys ≤ 240
unfolding control_init
control_budget xs ys t v =
    let u =
      after_le control_step control_time control_meter 60 120 control-Ticks control_init xs
        (omega arith) in
    omega (
      arith,
      in_two_windows control_step control_time control_meter 60 120 control-Ticks
          (after control_step control_time control_init xs) t t ys u (omega arith) v,
    )

pub record OfferCall : Type 0 where
  pub group : Bytes
  pub actor : Bytes
  pub now : ℕ

abbrev pub offer_step : OfferRate → OfferCall → Bool × OfferRate
offer_step r x = offer_allow r x.group x.actor (pos x.now)

abbrev pub offer_time : OfferCall → ℕ
offer_time x = x.now

abbrev pub offer_meter : OfferRate → Meter
offer_meter r = r.global

-- what becomes of the meter behind its test
abbrev pub Counts : Meter → Bool → Meter → Type 0
Counts m b r = r ≡ (if b then more m else m)

offer_actor-Counts :
    (r : OfferRate) (i : ℕ) (e : Entry) (o : List Entry × Option (ℕ × Entry))
    → Counts r.global (offer_actor r i e o).0 (offer_actor r i e o).1.global
offer_actor-Counts r i e (actors, none) = refl
offer_actor-Counts r i e (actors, some (j, a)) = elim (Bool-cases (leb offer_per_actor a.count)) [
  | inl p ↦ rw p refl
  | inr p ↦ rw p refl
]

offer_entry-Counts :
    (r : OfferRate) (now : ℕ) (actor : Bytes) (o : Option (ℕ × Entry))
    → Counts r.global (offer_entry r now actor o).0 (offer_entry r now actor o).1.global
unfolding offer_entry
offer_entry-Counts r now actor none = refl
offer_entry-Counts r now actor (some (i, e)) = elim (Bool-cases (leb offer_per_key e.count)) [
  | inl p ↦ rw p refl
  | inr p ↦
      rw p (offer_actor-Counts r i e (settle_actor now actor r.actors (search none actor r.actors)))
]

-- the meter behind a window that is refreshed first, whatever the call comes to
pub refreshed :
    (len limit now : ℕ) (m : Meter) (b : Bool) (r : Meter)
    → m.count ≤ limit
    → leb limit (refresh now len m).count ≡ false
    → Counts (refresh now len m) b r
    → Ticks len limit now b m r
refreshed len limit now m true r h l e =
    subst (Ticks len limit now true m) (sym e) (count_one len limit now m l)
refreshed len limit now m false r h l e =
    subst (Ticks len limit now false m) (sym e) (count_none len limit now m h)

offer-Ticks :
    (r : OfferRate) (x : OfferCall)
    → (offer_meter r).count ≤ offer_global
    → Ticks 60 offer_global x.now
        (offer_step r x).0
        (offer_meter r)
        (offer_meter (offer_step r x).1)
unfolding offer_allow offer_global_test
offer-Ticks r x h =
    let key = x.group ++ b':' ∷ x.actor in
    elim (Bool-cases (is_blank x.group || (is_blank x.actor || leb offer_key_len (length key)))) [
      | inl p ↦ rw p (same refl refl)
      | inr p ↦ elim (Bool-cases (leb offer_global (refresh x.now 60 r.global).count)) [
        | inl q ↦ rw (p, q) (count_none 60 offer_global x.now r.global h)
        | inr q ↦
            rw (p, q)
              (refreshed 60 offer_global x.now r.global _ _ h q (
                offer_entry-Counts (record r { global = refresh x.now 60 r.global }) x.now x.actor
                  (settle x.now key r.entries (search none key r.entries))))
      ]
    ]

-- After any run of offers of files, those accepted of any further run of offers that come in the
-- order of time and within 60 seconds are at most 60.
pub offer_budget :
    (xs ys : List OfferCall) (t : ℕ)
    → Within offer_step offer_time t (t + 60) ys
    → accepted offer_step offer_time (after offer_step offer_time offer_init xs) ys ≤ 60
unfolding offer_init
offer_budget xs ys t v =
    let u =
      after_le offer_step offer_time offer_meter 60 30 offer-Ticks offer_init xs (omega arith) in
    omega (
      arith,
      in_two_windows offer_step offer_time offer_meter 60 30 offer-Ticks
          (after offer_step offer_time offer_init xs) t t ys u (omega arith) v,
    )
