-- ===== src/SendQueue/Slots.antt =====
-- helper/send_queue.c: what the writes to the array of slots do, seen slot by slot.
use mathlib.Core.Option
use oma_q.Prelude.{
  ℕ, zero, suc, ◌+◌, ◌≤◌, ◌<◌, ◌≡◌, refl, sym, ap, subst, ◌∙◌, some_inj, ◌≢◌, inl, inr, none, some,
  List, [], ◌∷◌, ◌==◌, if◌then◌else◌, length, get_elem?, set, replicate, arith, Option-cases,
}
use oma_q.SendQueue.{Entry, Slot, count_peer, place}

-- how many slots are in use
unfoldable pub used : List Slot → ℕ
used [] = 0
used (none ∷ s) = used s
used (some e ∷ s) = suc (used s)

-- what holds of every entry in the array
abbrev pub Each : (Entry → Type 0) → List Slot → Type 0
Each P [] = Unit
Each P (none ∷ s) = Each P s
Each P (some e ∷ s) = P e × Each P s

-- no two entries have the same sequence number
abbrev pub Distinct : List Slot → Type 0
Distinct [] = Unit
Distinct (none ∷ s) = Distinct s
Distinct (some e ∷ s) = Each (λ x. x.seq ≢ e.seq) s × Distinct s

pub Each-imp :
    (P Q : Entry → Type 0) → ((e : Entry) → P e → Q e) → (s : List Slot) → Each P s → Each Q s
Each-imp P Q f [] h = tt
Each-imp P Q f (none ∷ s) h = Each-imp P Q f s h
Each-imp P Q f (some e ∷ s) h = (f e h.0, Each-imp P Q f s h.1)

pub Each-get :
    (P : Entry → Type 0) (s : List Slot) (i : ℕ) (e : Entry)
    → Each P s
    → get_elem? s i ≡ some (some e)
    → P e
Each-get P [] i e h g = cc
Each-get P (none ∷ s) zero e h g = cc
Each-get P (none ∷ s) (suc i) e h g = Each-get P s i e h g
Each-get P (some x ∷ s) zero e h g = subst P (some_inj (some_inj g)) h.0
Each-get P (some x ∷ s) (suc i) e h g = Each-get P s i e h.1 g

-- The search and the write, as a relation that the proofs below take apart.
pub data Places (e : Entry) : List Slot → List Slot → Type 0 where
  here : {s : List Slot} → Places e (none ∷ s) (some e ∷ s)
  later : {x : Entry} {s t : List Slot} → Places e s t → Places e (some x ∷ s) (some x ∷ t)

pub place-Places : (e : Entry) (s t : List Slot) → place e s ≡ some t → Places e s t
unfolding place
place-Places e [] t h = cc
place-Places e (none ∷ s) t h = subst (Places e (none ∷ s)) (some_inj h) here
place-Places e (some x ∷ s) t h = elim (Option-cases (place e s)) [
  | inl n ↦ cc n
  | inr (u, p) ↦
      subst (Places e (some x ∷ s)) (some_inj (sym (ap (Option.map (◌∷◌ (some x))) p) ∙ h))
        (later (place-Places e s u p))
]

-- A free slot is found wherever there is one.
pub place_total :
    (e : Entry) (s : List Slot) → used s < length s → (t : List Slot) × (place e s ≡ some t)
unfolding used place
place_total e [] h = absurd (omega arith)
place_total e (none ∷ s) h = (some e ∷ s, refl)
place_total e (some x ∷ s) h =
    let (t, p) = place_total e s (omega arith) in (some x ∷ t, ap (Option.map (◌∷◌ (some x))) p)

pub Places-length : {e : Entry} {s t : List Slot} → Places e s t → length t ≡ length s
Places-length here = refl
Places-length (later p) = ap suc (Places-length p)

pub Places-used : {e : Entry} {s t : List Slot} → Places e s t → used t ≡ used s + 1
unfolding used
Places-used here = omega arith
Places-used (later p) = omega (arith, Places-used p)

pub Places-count_peer :
    (f : ℕ) {e : Entry} {s t : List Slot}
    → Places e s t
    → count_peer f t ≡ (if e.friend_number == f then 1 else 0) + count_peer f s
unfolding count_peer
Places-count_peer f here = refl
Places-count_peer f (later p) = omega (arith, Places-count_peer f p)

pub Places-Each :
    (P : Entry → Type 0) {e : Entry} {s t : List Slot} → Places e s t → P e → Each P s → Each P t
Places-Each P here p h = (p, h)
Places-Each P (later q) p h = (h.0, Places-Each P q p h.1)

pub Places-Distinct :
    {e : Entry} {s t : List Slot}
    → Places e s t
    → Each (λ x. x.seq ≢ e.seq) s
    → Distinct s
    → Distinct t
Places-Distinct here fresh d = (fresh, d)
Places-Distinct {e} (later {x} {s} {t} q) fresh d =
    (Places-Each (λ y. y.seq ≢ x.seq) q (λ h. fresh.0 (sym h)) d.0, Places-Distinct q fresh.1 d.1)

-- The entry at slot `i` is taken out.
module _ (e : Entry) where
  pub used-set :
      (s : List Slot) (i : ℕ) → get_elem? s i ≡ some (some e) → used s ≡ used (set s i none) + 1
  unfolding used
  used-set [] i g = cc
  used-set (none ∷ s) zero g = cc
  used-set (none ∷ s) (suc i) g = used-set s i g
  used-set (some x ∷ s) zero g = omega arith
  used-set (some x ∷ s) (suc i) g = omega (arith, used-set s i g)

  pub count_peer-set :
      (f : ℕ) (s : List Slot) (i : ℕ)
      → get_elem? s i ≡ some (some e)
      → count_peer f s ≡ (if e.friend_number == f then 1 else 0) + count_peer f (set s i none)
  unfolding count_peer
  count_peer-set f [] i g = cc
  count_peer-set f (none ∷ s) zero g = cc
  count_peer-set f (none ∷ s) (suc i) g = count_peer-set f s i g
  count_peer-set f (some x ∷ s) zero g =
      ap (λ (y : Entry). (if y.friend_number == f then 1 else 0) + count_peer f s)
        (some_inj (some_inj g))
  count_peer-set f (some x ∷ s) (suc i) g = omega (arith, count_peer-set f s i g)

pub Each-set : (P : Entry → Type 0) (s : List Slot) (i : ℕ) → Each P s → Each P (set s i none)
Each-set P [] i h = tt
Each-set P (none ∷ s) zero h = h
Each-set P (none ∷ s) (suc i) h = Each-set P s i h
Each-set P (some x ∷ s) zero h = h.1
Each-set P (some x ∷ s) (suc i) h = (h.0, Each-set P s i h.1)

pub Distinct-set : (s : List Slot) (i : ℕ) → Distinct s → Distinct (set s i none)
Distinct-set [] i d = tt
Distinct-set (none ∷ s) zero d = d
Distinct-set (none ∷ s) (suc i) d = Distinct-set s i d
Distinct-set (some x ∷ s) zero d = d.1
Distinct-set (some x ∷ s) (suc i) d = (Each-set (λ y. y.seq ≢ x.seq) s i d.0, Distinct-set s i d.1)

pub used-le-length : (s : List Slot) → used s ≤ length s
unfolding used
used-le-length [] = omega arith
used-le-length (none ∷ s) = omega (arith, used-le-length s)
used-le-length (some e ∷ s) = omega (arith, used-le-length s)

pub used-replicate : (n : ℕ) → used (replicate n none) ≡ 0
unfolding used
used-replicate zero = refl
used-replicate (suc n) = used-replicate n

pub count_peer-replicate : (f n : ℕ) → count_peer f (replicate n none) ≡ 0
unfolding count_peer
count_peer-replicate f zero = refl
count_peer-replicate f (suc n) = count_peer-replicate f n

pub Each-replicate : (P : Entry → Type 0) (n : ℕ) → Each P (replicate n none)
Each-replicate P zero = tt
Each-replicate P (suc n) = Each-replicate P n

pub Distinct-replicate : (n : ℕ) → Distinct (replicate n none)
Distinct-replicate zero = tt
Distinct-replicate (suc n) = Distinct-replicate n
