-- ===== src/SendQueue/Service/Drain.antt =====
-- helper/omaq.c: how many entries of the queue a pass has still to look at.
use oma_q.Prelude.{
  ℕ, zero, suc, ◌+◌, ◌≤◌, ◌≡◌, refl, ap, ◌⊎◌, inl, inr, true, ◌||◌, none, some, List, [], ◌∷◌, ◌++◌,
  ◌==◌, if◌then◌else◌, get_elem?, set, arith, Bool-cases, some_inj,
}
use oma_q.Prelude.Int.{pos}
use oma_q.SendQueue.Slots.{used}
use oma_q.SendQueue.Order.{Waits, oldest_lem}
use oma_q.SendQueue.{Entry, Slot, SendQueue, member, oldest, vacate, remove}

-- how many entries belong to friends outside the list
unfoldable pub open_count : List ℕ → List Slot → ℕ
open_count skip [] = 0
open_count skip (none ∷ s) = open_count skip s
open_count skip (some e ∷ s) = (if member e.friend_number skip then 0 else 1) + open_count skip s

pub open_count-le : (skip : List ℕ) (s : List Slot) → open_count skip s ≤ used s
unfolding open_count used
open_count-le skip [] = omega arith
open_count-le skip (none ∷ s) = open_count-le skip s
open_count-le skip (some e ∷ s) = ground (arith, open_count-le skip s)

pub open_count-set :
    (skip : List ℕ) (s : List Slot) (i : ℕ) (e : Entry)
    → Waits skip s i e
    → open_count skip s ≡ open_count skip (set s i none) + 1
unfolding open_count
open_count-set skip [] i e w = cc (w.stored)
open_count-set skip (none ∷ s) zero e w = cc (w.stored)
open_count-set skip (none ∷ s) (suc i) e w =
    open_count-set skip s i e (record { stored = w.stored; unskipped = w.unskipped })
open_count-set skip (some x ∷ s) zero e w =
    ground (arith, w.unskipped, ap (λ (y : Entry). y.friend_number) (some_inj (some_inj w.stored)))
open_count-set skip (some x ∷ s) (suc i) e w =
    omega (arith, open_count-set skip s i e (record { stored = w.stored; unskipped = w.unskipped }))

member-append : (f g : ℕ) (xs : List ℕ) → member f (xs ++ g ∷ []) ≡ (member f xs || g == f)
unfolding member
member-append f g [] = ground arith
member-append f g (x ∷ xs) = ground (arith, member-append f g xs)

open_count_mono :
    (skip : List ℕ) (f : ℕ) (s : List Slot) → open_count (skip ++ f ∷ []) s ≤ open_count skip s
unfolding open_count
open_count_mono skip f [] = omega arith
open_count_mono skip f (none ∷ s) = open_count_mono skip f s
open_count_mono skip f (some e ∷ s) =
    ground (arith, open_count_mono skip f s, member-append e.friend_number f skip)

-- Adding the friend of an entry that waits closes at least that entry.
pub open_count-skip :
    (skip : List ℕ) (s : List Slot) (i : ℕ) (e : Entry)
    → Waits skip s i e
    → open_count (skip ++ e.friend_number ∷ []) s + 1 ≤ open_count skip s
unfolding open_count
open_count-skip skip [] i e w = cc (w.stored)
open_count-skip skip (none ∷ s) zero e w = cc (w.stored)
open_count-skip skip (none ∷ s) (suc i) e w =
    open_count-skip skip s i e (record { stored = w.stored; unskipped = w.unskipped })
open_count-skip skip (some x ∷ s) zero e w = ground (
  arith,
  w.unskipped,
  open_count_mono skip e.friend_number s,
  member-append x.friend_number e.friend_number skip,
  ap (λ (y : Entry). y.friend_number) (some_inj (some_inj w.stored)),
)
open_count-skip skip (some x ∷ s) (suc i) e w = ground (
  arith,
  open_count-skip skip s i e (record { stored = w.stored; unskipped = w.unskipped }),
  member-append x.friend_number e.friend_number skip,
)

open_exists :
    (skip : List ℕ) (s : List Slot)
    → (open_count skip s ≡ 0) ⊎ ((i : ℕ) × (e : Entry) × Waits skip s i e)
unfolding open_count
open_exists skip [] = inl refl
open_exists skip (none ∷ s) = later (open_exists skip s)
  where
    later :
        (open_count skip s ≡ 0) ⊎ ((i : ℕ) × (e : Entry) × Waits skip s i e)
        → (open_count skip s ≡ 0) ⊎ ((i : ℕ) × (e : Entry) × Waits skip (none ∷ s) i e)
    later (inl h) = inl h
    later (inr (i, e, w)) = inr (suc i, e, record { stored = w.stored; unskipped = w.unskipped })
open_exists skip (some x ∷ s) = elim (Bool-cases (member x.friend_number skip)) [
  | inr u ↦ inr (0, x, record { stored = refl; unskipped = u })
  | inl m ↦ later m (open_exists skip s)
]
  where
    later :
        member x.friend_number skip ≡ true
        → (open_count skip s ≡ 0) ⊎ ((i : ℕ) × (e : Entry) × Waits skip s i e)
        → ((if member x.friend_number skip then 0 else 1) + open_count skip s ≡ 0)
          ⊎ ((i : ℕ) × (e : Entry) × Waits skip (some x ∷ s) i e)
    later m (inl h) = inl (ground arith)
    later m (inr (i, e, w)) = inr (suc i, e, record { stored = w.stored; unskipped = w.unskipped })

-- What `oldest` answers waits, and where it answers nothing no entry is open.
pub oldest-Waits :
    (q : SendQueue) (skip : List ℕ) (i : ℕ) (e : Entry)
    → oldest q skip ≡ some (i, e)
    → Waits skip q.entries i e
oldest-Waits q skip i e h = ((oldest_lem q skip).0 i e h).0

pub oldest-none :
    (q : SendQueue) (skip : List ℕ) → oldest q skip ≡ none → open_count skip q.entries ≡ 0
oldest-none q skip h = elim (open_exists skip q.entries) [
  | inl z ↦ z
  | inr (i, e, w) ↦ absurd ((oldest_lem q skip).1 i e w h)
]

pub remove-entries :
    (q : SendQueue) (i : ℕ) (e : Entry)
    → get_elem? q.entries i ≡ some (some e)
    → (remove q (pos i)).entries ≡ set q.entries i none
unfolding remove
remove-entries q i e h = ap (λ s. (vacate q i s).entries) h

pub remove-open :
    (q : SendQueue) (skip : List ℕ) (i : ℕ) (e : Entry)
    → Waits skip q.entries i e
    → open_count skip q.entries ≡ open_count skip (remove q (pos i)).entries + 1
remove-open q skip i e w = rw (remove-entries q i e w.stored) (open_count-set skip q.entries i e w)
