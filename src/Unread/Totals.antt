-- ===== src/Unread/Totals.antt =====
-- helper/conversation.c: what the total and the pruning come to.
use oma_q.Prelude.{
  ℕ, suc, ◌+◌, ◌-◌, ◌≤◌, ◌≡◌, ap, ◌∙◌, min, Bool, some, List, [], ◌∷◌, ◌++◌, ltb, length,
  append_assoc, append-nil, Option-cases, Bool-cases, inl, inr, arith,
}
use oma_q.Prelude.Bytes.{Bytes}
use oma_q.Prelude.Int.{ℤ, pos, sign_cases}
use oma_q.Unread.{
  UnreadEntry, UnreadState, uint_max, unread_find, unread_set, unread_init, prune_from,
  unread_prune, total_from, unread_total,
}
use oma_q.Unread.Counts.{appended}

unfoldable pub sum : List UnreadEntry → ℕ
sum [] = 0
sum (e ∷ s) = e.count + sum s

total_from_lem :
    (t : ℕ) (s : List UnreadEntry) → t ≤ uint_max → total_from t s ≡ min uint_max (t + sum s)
unfolding total_from sum
total_from_lem t [] h = omega arith
total_from_lem t (e ∷ s) h = elim (Bool-cases (ltb (uint_max - t) e.count)) [
  | inl q ↦ ground arith
  | inr q ↦ rw q (omega (arith, total_from_lem (t + e.count) s (ground arith)))
]

-- The total is the sum of the counts, or UINT_MAX where the sum is above it: it never wraps round.
pub unread_total_lem : (state : UnreadState) → unread_total state ≡ min uint_max (sum state.entries)
unfolding unread_total
unread_total_lem state = omega (arith, total_from_lem 0 state.entries (omega arith))

-- the entries that the caller's function keeps
unfoldable pub kept : (Bytes → ℤ) → List UnreadEntry → List UnreadEntry
kept available [] = []
kept available (e ∷ s) = elim (available e.id) [
  | pos (suc n) ↦ e ∷ kept available s
  | _ ↦ kept available s
]

set_appends :
    (alloc : ℕ → Bool) (state : UnreadState) (c : Bytes) (n : ℕ) (r : UnreadState)
    → unread_set alloc state c n ≡ some r
    → r.entries ≡ state.entries ++ record { id = c; count = n } ∷ []
unfolding unread_set
set_appends alloc state c n r h = elim (Option-cases (unread_find state c)) [
  | inr (i, e) ↦ ground arith
  | inl e ↦ appended alloc state c n r (ground arith)
]

prune_from_lem :
    (alloc : ℕ → Bool) (available : Bytes → ℤ) (next : UnreadState) (k : ℕ) (s : List UnreadEntry)
    (m : ℕ) (r : UnreadState)
    → prune_from alloc available next k s ≡ some (m, r)
    → (r.entries ≡ next.entries ++ kept available s)
      × (m + length (kept available s) ≡ k + length s)
unfolding prune_from kept
prune_from_lem alloc available next k [] m r h =
    (ground (arith, append-nil next.entries), ground arith)
prune_from_lem alloc available next k (e ∷ s) m r h = elim (sign_cases (available e.id)) [
  | inl q ↦ ground (arith, prune_from_lem alloc available next (suc k) s m r)
  | inr (inr (j, q)) ↦ ground arith
  | inr (inl (j, q)) ↦ elim (Option-cases (unread_set alloc next e.id e.count)) [
    | inl z ↦ ground arith
    | inr (d, z) ↦
        let (u, w) = prune_from_lem alloc available d k s m r (ground arith) in
        rw (q, kept)
          (
            u
                ∙ ap (λ x. x ++ kept available s) (set_appends alloc next e.id e.count d z)
                ∙ append_assoc next.entries (e ∷ []) (kept available s),
            omega (arith, w),
          )
  ]
]

-- Where pruning succeeds, the state holds the entries that the caller's function keeps, with their
-- counts and in their order, and the result is the number of the others.
pub unread_prune_lem :
    (alloc : ℕ → Bool) (available : Bytes → ℤ) (state : UnreadState) (m : ℕ) (r : UnreadState)
    → unread_prune alloc available state ≡ some (m, r)
    → (r.entries ≡ kept available state.entries) × (m + length r.entries ≡ length state.entries)
unfolding unread_prune unread_init
unread_prune_lem alloc available state m r h =
    let (u, w) =
      prune_from_lem alloc available (record { entries = []; capacity = 0 }) 0 state.entries m r
        h in
    (u, omega (arith, w, ap length u))
