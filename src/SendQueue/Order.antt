-- ===== src/SendQueue/Order.antt =====
-- helper/send_queue.c: `omaq_send_queue_oldest` serves the messages in the order of arrival.
use oma_q.Prelude.{
  ℕ, zero, suc, ◌+◌, ◌≤◌, ◌<◌, ◌≡◌, refl, sym, ap, subst, ◌∙◌, ◌≢◌, ◌⊎◌, inl, inr, false, not, ◌&&◌,
  Option, none, some, List, [], ◌∷◌, ltb, if◌then◌else◌, get_elem?, arith, Bool-cases, some_inj,
}
use oma_q.Prelude.Int.{pos}
use oma_q.SendQueue.Slots.{Each, Each-imp, Places, here, later, place-Places}
use oma_q.SendQueue.Invariant.{Inv, HasSeq, add-Added}
use oma_q.SendQueue.{
  Entry, Slot, SendQueue, Message, added, entry_of, add, member, beats, oldest_from, oldest,
}

-- Entry `e` stands at index `i`, and its friend is not skipped.
pub record Waits (skip : List ℕ) (s : List Slot) (i : ℕ) (e : Entry) : Type 0 where
  pub stored : get_elem? s i ≡ some (some e)
  pub unskipped : member e.friend_number skip ≡ false

-- what the loop from slot `k` answers when it began with `best`
pub record Found (skip : List ℕ) (k : ℕ) (s : List Slot) (best r : Option (ℕ × Entry))
    : Type 0 where
  pub origin :
      (j : ℕ) (e : Entry)
      → r ≡ some (j, e)
      → (best ≡ some (j, e)) ⊎ ((i : ℕ) × (j ≡ k + i) × Waits skip s i e)
  pub least :
      (i : ℕ) (e : Entry)
      → Waits skip s i e
      → (j : ℕ) × (b : Entry) × (r ≡ some (j, b)) × (b.seq ≤ e.seq)
  pub improves :
      (j : ℕ) (b : Entry)
      → best ≡ some (j, b)
      → (j' : ℕ) × (b' : Entry) × (r ≡ some (j', b')) × (b'.seq ≤ b.seq)

abbrev step_best : List ℕ → ℕ → Option (ℕ × Entry) → Entry → Option (ℕ × Entry)
step_best skip i best e =
    if not (member e.friend_number skip) && beats e best then some (i, e) else best

-- an entry counts against the best one so far
step_best-le :
    (skip : List ℕ) (i : ℕ) (best : Option (ℕ × Entry)) (e : Entry)
    → member e.friend_number skip ≡ false
    → (j : ℕ) × (b : Entry) × (step_best skip i best e ≡ some (j, b)) × (b.seq ≤ e.seq)
step_best-le skip i none e u = (i, e, ground arith, omega arith)
step_best-le skip i (some (j, b)) e u = elim (Bool-cases (ltb e.seq b.seq)) [
  | inl lt ↦ (i, e, ground arith, omega arith)
  | inr ge ↦ (j, b, ground arith, ground arith)
]

step_best-improves :
    (skip : List ℕ) (i : ℕ) (e : Entry) (j : ℕ) (b : Entry)
    → (j' : ℕ) × (b' : Entry) × (step_best skip i (some (j, b)) e ≡ some (j', b'))
      × (b'.seq ≤ b.seq)
step_best-improves skip i e j b =
    elim (Bool-cases (not (member e.friend_number skip) && ltb e.seq b.seq)) [
      | inl lt ↦ (i, e, ground arith, ground arith)
      | inr ge ↦ (j, b, ground arith, omega arith)
    ]

step_best-origin :
    (skip : List ℕ) (i : ℕ) (best : Option (ℕ × Entry)) (e : Entry) (j : ℕ) (b : Entry)
    → step_best skip i best e ≡ some (j, b)
    → (best ≡ some (j, b)) ⊎ ((j ≡ i) × (b ≡ e) × (member e.friend_number skip ≡ false))
step_best-origin skip i best e j b h =
    elim (Bool-cases (not (member e.friend_number skip) && beats e best)) [
      | inl t ↦ inr (ground arith, ground arith, ground arith)
      | inr f ↦ inl (ground arith)
    ]

-- A finding about the later slots, said of one more slot.
module _ (skip : List ℕ) (k : ℕ) (x : Slot) (s : List Slot) where
  shift_Waits : (i : ℕ) (e : Entry) → Waits skip s i e → Waits skip (x ∷ s) (suc i) e
  shift_Waits i e w = record { stored = w.stored; unskipped = w.unskipped }

  shift_origin :
      (best : Option (ℕ × Entry)) (j : ℕ) (e : Entry)
      → (best ≡ some (j, e)) ⊎ ((i : ℕ) × (j ≡ (k + 1) + i) × Waits skip s i e)
      → (best ≡ some (j, e)) ⊎ ((i : ℕ) × (j ≡ k + i) × Waits skip (x ∷ s) i e)
  shift_origin best j e (inl h) = inl h
  shift_origin best j e (inr (i, h, w)) = inr (suc i, omega arith, shift_Waits i e w)

Found-none :
    (skip : List ℕ) (k : ℕ) (s : List Slot) (best r : Option (ℕ × Entry))
    → Found skip (k + 1) s best r
    → Found skip k (none ∷ s) best r
Found-none skip k s best r ih = record {
  origin = λ j e h. shift_origin skip k none s best j e (ih.origin j e h);
  least = least;
  improves = ih.improves;
}
  where
    least :
        (i : ℕ) (e : Entry)
        → Waits skip (none ∷ s) i e
        → (j : ℕ) × (b : Entry) × (r ≡ some (j, b)) × (b.seq ≤ e.seq)
    least zero e w = cc (w.stored)
    least (suc i) e w = ih.least i e (record { stored = w.stored; unskipped = w.unskipped })

Found-some :
    (skip : List ℕ) (k : ℕ) (x : Entry) (s : List Slot) (best r : Option (ℕ × Entry))
    → Found skip (k + 1) s (step_best skip k best x) r
    → Found skip k (some x ∷ s) best r
Found-some skip k x s best r ih = record { origin = origin; least = least; improves = improves }
  where
    origin :
        (j : ℕ) (e : Entry)
        → r ≡ some (j, e)
        → (best ≡ some (j, e)) ⊎ ((i : ℕ) × (j ≡ k + i) × Waits skip (some x ∷ s) i e)
    origin j e h = elim (ih.origin j e h) [
      | inr (i, p, w) ↦ inr (suc i, omega arith, shift_Waits skip k (some x) s i e w)
      | inl b ↦ elim (step_best-origin skip k best x j e b) [
        | inl old ↦ inl old
        | inr (p, q, u) ↦ inr (
          0,
          omega arith,
          record { stored = ap (λ y. some (some y)) (sym q); unskipped = rw q u },
        )
      ]
    ]

    least :
        (i : ℕ) (e : Entry)
        → Waits skip (some x ∷ s) i e
        → (j : ℕ) × (b : Entry) × (r ≡ some (j, b)) × (b.seq ≤ e.seq)
    least zero e w =
        let same : x ≡ e = some_inj (some_inj w.stored) in
        let (j, b, p, le) = step_best-le skip k best x (rw same w.unskipped) in
        let (j', b', q, le') = ih.improves j b p in
        (j', b', q, omega (arith, ap (λ (y : Entry). y.seq) same))
    least (suc i) e w = ih.least i e (record { stored = w.stored; unskipped = w.unskipped })

    improves :
        (j : ℕ) (b : Entry)
        → best ≡ some (j, b)
        → (j' : ℕ) × (b' : Entry) × (r ≡ some (j', b')) × (b'.seq ≤ b.seq)
    improves j b h =
        let (j', b', p, le) = step_best-improves skip k x j b in
        let (j'', b'', q, le') = ih.improves j' b' (ap (λ o. step_best skip k o x) h ∙ p) in
        (j'', b'', q, omega arith)

oldest_from-Found :
    (skip : List ℕ) (k : ℕ) (s : List Slot) (best : Option (ℕ × Entry))
    → Found skip k s best (oldest_from skip k best s)
unfolding oldest_from
oldest_from-Found skip k [] best = record {
  origin = λ j e h. inl h;
  least = λ i e w. cc (w.stored);
  improves = λ j b h. (j, b, h, omega arith);
}
oldest_from-Found skip k (none ∷ s) best =
    Found-none skip k s best (oldest_from skip (k + 1) best s)
      (oldest_from-Found skip (k + 1) s best)
oldest_from-Found skip k (some x ∷ s) best =
    Found-some skip k x s best _ (oldest_from-Found skip (k + 1) s (step_best skip k best x))

-- `oldest` answers an entry that waits, with the least sequence number of all that wait; and it
-- answers one whenever some entry waits.
pub oldest_lem :
    (q : SendQueue) (skip : List ℕ)
    → ((i : ℕ) (e : Entry)
        → oldest q skip ≡ some (i, e)
        → Waits skip q.entries i e
          × ((j : ℕ) (x : Entry) → Waits skip q.entries j x → e.seq ≤ x.seq))
      × ((j : ℕ) (x : Entry) → Waits skip q.entries j x → oldest q skip ≢ none)
unfolding oldest
oldest_lem q skip = (sound, λ j x w h. some_exists (found.least j x w) h)
  where
    found : Found skip 0 q.entries none (oldest_from skip 0 none q.entries)
    found = oldest_from-Found skip 0 q.entries none

    some_exists :
        {r : Option (ℕ × Entry)} {n : ℕ}
        → (j : ℕ) × (b : Entry) × (r ≡ some (j, b)) × (b.seq ≤ n)
        → r ≡ none
        → ⊥
    some_exists (j, b, e, le) h = cc

    sound :
        (i : ℕ) (e : Entry)
        → oldest_from skip 0 none q.entries ≡ some (i, e)
        → Waits skip q.entries i e
          × ((j : ℕ) (x : Entry) → Waits skip q.entries j x → e.seq ≤ x.seq)
    sound i e h = (waits, least)
      where
        waits : Waits skip q.entries i e
        waits = elim (found.origin i e h) [
          | inl n ↦ cc n
          | inr (k, p, w) ↦ subst (λ n. Waits skip q.entries n e) (omega arith) w
        ]

        least : (j : ℕ) (x : Entry) → Waits skip q.entries j x → e.seq ≤ x.seq
        least j x w =
            let (_, b, p, le) = found.least j x w in
            omega (arith, ap (λ (t : ℕ × Entry). t.1.seq) (some_inj (sym p ∙ h)))

-- With every stored number below `n`, a best entry numbered `n` or more yields to the first that
-- waits, so it does not change what the loop finds.
late_best :
    (skip : List ℕ) (k j : ℕ) (e : Entry) (s : List Slot) (r : ℕ × Entry)
    → Each (λ x. x.seq < e.seq) s
    → oldest_from skip k none s ≡ some r
    → oldest_from skip k (some (j, e)) s ≡ some r
unfolding oldest_from
late_best skip k j e [] r old h = cc
late_best skip k j e (none ∷ s) r old h = late_best skip (k + 1) j e s r old h
late_best skip k j e (some x ∷ s) r old h = ground (arith, late_best skip (k + 1) j e s r old.1)

-- A message that arrives now is never found in place of one that waited before.
late_place :
    (skip : List ℕ) (k : ℕ) (best : Option (ℕ × Entry)) (e : Entry) (s t : List Slot)
    (r : ℕ × Entry)
    → Places e s t
    → Each (λ x. x.seq < e.seq) s
    → ((j : ℕ) (b : Entry) → best ≡ some (j, b) → b.seq < e.seq)
    → oldest_from skip k best s ≡ some r
    → oldest_from skip k best t ≡ some r
unfolding oldest_from
late_place skip k best e [] t r p old lt h = elim p [ ]
late_place skip k none e (none ∷ s) _ r here old lt h =
    ground (arith, late_best skip (k + 1) k e s r old h)
late_place skip k (some (j, b)) e (none ∷ s) _ r here old lt h = ground (arith, lt j b refl)
late_place skip k best e (some x ∷ s) _ r (later p) old lt h =
    late_place skip (k + 1) (step_best skip k best x) e s _ r p old.1 still h
  where
    still : (j : ℕ) (b : Entry) → step_best skip k best x ≡ some (j, b) → b.seq < e.seq
    still j b h = elim (step_best-origin skip k best x j b h) [
      | inl o ↦ lt j b o
      | inr (_, same, _) ↦ omega (arith, old.0, ap (λ (y : Entry). y.seq) same)
    ]

-- First come, first served: accepting a message never changes which of the earlier ones `oldest`
-- answers, for any set of friends to skip.
pub oldest-add :
    (q q' : SendQueue) (m : Message) (now : ℕ) (skip : List ℕ) (r : ℕ × Entry)
    → Inv q
    → HasSeq q
    → add q m (pos now) ≡ (added, q')
    → oldest q skip ≡ some r
    → oldest q' skip ≡ some r
unfolding oldest
oldest-add q q' m now skip r v s h o =
    late_place skip 0 none (entry_of q m now) q.entries q'.entries r
      (place-Places _ _ _ (add-Added q q' m now h).placed)
      (Each-imp (λ x. x.seq ≤ q.next_seq) _ (λ x le. omega arith) q.entries v.below_next)
      (λ j b e. cc) o
