-- ===== src/Unread/Counts.antt =====
-- helper/conversation.c: what the operations do to the counts that are read back.
use mathlib.Core.Option
use oma_q.Prelude.{
  ℕ, zero, suc, ◌+◌, ◌≤◌, ◌≡◌, refl, sym, ap, ◌∙◌, min, Bool, true, false, none, some, List, [],
  ◌∷◌, ◌++◌, ◌⊎◌, ltb, if◌then◌else◌, length, Option-cases, Bool-cases, inl, inr, arith,
}
use oma_q.Prelude.Bytes.{Bytes, bytes_eq, bytes_eq→eq, bytes_eq_refl}
use oma_q.Unread.{
  UnreadEntry, UnreadState, unread_id_ok, unread_count_max, find, unread_find, unread_reserve,
  append_entry, bump_at, unread_increment, remove_at, unread_clear, count_at, unread_count,
}
use oma_q.Unread.Invariant.{Inv, Good, unread_reserve_lem}

-- the count of the first entry of a conversation
unfoldable pub tally : Bytes → List UnreadEntry → ℕ
tally c [] = 0
tally c (e ∷ s) = if bytes_eq e.id c then e.count else tally c s

count_at-find : (c : Bytes) (s : List UnreadEntry) → count_at s (find c s) ≡ tally c s
unfolding find tally
count_at-find c [] = refl
count_at-find c (e ∷ s) = elim (Option-cases (find c s)) [
  | inl q ↦ ground (arith, count_at-find c s)
  | inr (i, q) ↦ ground (arith, count_at-find c s)
]

pub unread_count_lem :
    (state : UnreadState) (c : Bytes)
    → unread_id_ok c ≡ true
    → unread_count state c ≡ tally c state.entries
unfolding unread_count unread_find
unread_count_lem state c h = rw h (count_at-find c state.entries)

tally-append :
    (c : Bytes) (s : List UnreadEntry) (e : UnreadEntry)
    → find c s ≡ none
    → tally c (s ++ e ∷ []) ≡ (if bytes_eq e.id c then e.count else 0)
unfolding tally find
tally-append c [] e h = refl
tally-append c (x ∷ s) e h = elim (Option-cases (find c s)) [
  | inl q ↦ ground (arith, tally-append c s e)
  | inr (i, q) ↦ ground arith
]

tally-append_ne :
    (c : Bytes) (s : List UnreadEntry) (e : UnreadEntry)
    → bytes_eq e.id c ≡ false
    → tally c (s ++ e ∷ []) ≡ tally c s
unfolding tally
tally-append_ne c [] e h = ground arith
tally-append_ne c (x ∷ s) e h = ground (arith, tally-append_ne c s e)

tally-none : (c : Bytes) (s : List UnreadEntry) → find c s ≡ none → tally c s ≡ 0
unfolding tally find
tally-none c [] h = refl
tally-none c (x ∷ s) h = elim (Option-cases (find c s)) [
  | inl q ↦ ground (arith, tally-none c s)
  | inr (i, q) ↦ ground arith
]

tally-bump_at :
    (c : Bytes) (i : ℕ) (s : List UnreadEntry)
    → find c s ≡ some i
    → tally c (bump_at i s)
      ≡ (if ltb (tally c s) unread_count_max then tally c s + 1 else tally c s)
unfolding tally find bump_at
tally-bump_at c i [] h = cc
tally-bump_at c zero (x ∷ s) h = elim (Option-cases (find c s)) [
  | inl q ↦ ground arith
  | inr (j, q) ↦ ground arith
]
tally-bump_at c (suc i) (x ∷ s) h = elim (Option-cases (find c s)) [
  | inl q ↦ ground arith
  | inr (j, q) ↦ ground (arith, tally-bump_at c i s)
]

tally-bump_at_ne :
    (c d : Bytes) (i : ℕ) (s : List UnreadEntry)
    → bytes_eq c d ≡ false
    → find c s ≡ some i
    → tally d (bump_at i s) ≡ tally d s
unfolding tally find bump_at
tally-bump_at_ne c d i [] n h = refl
tally-bump_at_ne c d zero (x ∷ s) n h = elim (Option-cases (find c s)) [
  | inl q ↦ ground (arith, bytes_eq→eq x.id c)
  | inr (j, q) ↦ ground (arith, bytes_eq→eq x.id c)
]
tally-bump_at_ne c d (suc i) (x ∷ s) n h = elim (Option-cases (find c s)) [
  | inl q ↦ ground arith
  | inr (j, q) ↦ ground (arith, tally-bump_at_ne c d i s)
]

tally-remove_at :
    (c : Bytes) (i : ℕ) (s : List UnreadEntry)
    → Good s
    → find c s ≡ some i
    → tally c (remove_at i s) ≡ 0
unfolding tally find remove_at Good
tally-remove_at c i [] g h = cc
tally-remove_at c zero (x ∷ s) (k, f, g) h = elim (Option-cases (find c s)) [
  | inl q ↦ tally-none c s q
  | inr (j, q) ↦ ground (arith, bytes_eq→eq x.id c)
]
tally-remove_at c (suc i) (x ∷ s) (k, f, g) h = elim (Option-cases (find c s)) [
  | inl q ↦ ground arith
  | inr (j, q) ↦ ground (arith, tally-remove_at c i s g)
]

tally-remove_at_ne :
    (c d : Bytes) (i : ℕ) (s : List UnreadEntry)
    → bytes_eq c d ≡ false
    → find c s ≡ some i
    → tally d (remove_at i s) ≡ tally d s
unfolding tally find remove_at
tally-remove_at_ne c d i [] n h = refl
tally-remove_at_ne c d zero (x ∷ s) n h = elim (Option-cases (find c s)) [
  | inl q ↦ ground (arith, bytes_eq→eq x.id c)
  | inr (j, q) ↦ ground (arith, bytes_eq→eq x.id c)
]
tally-remove_at_ne c d (suc i) (x ∷ s) n h = elim (Option-cases (find c s)) [
  | inl q ↦ ground arith
  | inr (j, q) ↦ ground (arith, tally-remove_at_ne c d i s)
]

tally_le : (c : Bytes) (s : List UnreadEntry) → Good s → tally c s ≤ unread_count_max
unfolding tally Good
tally_le c [] g = omega arith
tally_le c (x ∷ s) ((k, l, m), f, g) = ground (arith, tally_le c s g)

unread_count_bad : (s : UnreadState) (c : Bytes) → unread_id_ok c ≡ false → unread_count s c ≡ 0
unfolding unread_count unread_find
unread_count_bad s c h = rw h refl

-- What is read back depends on the entries alone.
count_same :
    (a b : UnreadState) (d : Bytes)
    → (tally d a.entries ≡ tally d b.entries)
    → unread_count a d ≡ unread_count b d
count_same a b d h = elim (Bool-cases (unread_id_ok d)) [
  | inl ok ↦ unread_count_lem a d ok ∙ h ∙ sym (unread_count_lem b d ok)
  | inr bad ↦ unread_count_bad a d bad ∙ sym (unread_count_bad b d bad)
]

found :
    (state : UnreadState) (c : Bytes)
    → unread_id_ok c ≡ true
    → unread_find state c ≡ find c state.entries
unfolding unread_find
found state c h = rw h refl

pub appended :
    (alloc : ℕ → Bool) (state : UnreadState) (c : Bytes) (n : ℕ) (r : UnreadState)
    → Option.map (append_entry c n) (unread_reserve alloc state (length state.entries + 1)) ≡ some r
    → r.entries ≡ state.entries ++ record { id = c; count = n } ∷ []
appended alloc state c n r h =
    elim (Option-cases (unread_reserve alloc state (length state.entries + 1))) [
      | inl e ↦ ground arith
      | inr (d, e) ↦ ground (arith, (unread_reserve_lem alloc state (length state.entries + 1) e).0)
    ]

-- the two ways in which an increment succeeds
increment_cases :
    (alloc : ℕ → Bool) (state : UnreadState) (c : Bytes) (r : UnreadState)
    → unread_increment alloc state c ≡ some r
    → (unread_id_ok c ≡ true)
      × (((i : ℕ) × (find c state.entries ≡ some i) × (r.entries ≡ bump_at i state.entries))
          ⊎ ((find c state.entries ≡ none)
              × (r.entries ≡ state.entries ++ record { id = c; count = 1 } ∷ [])))
unfolding unread_increment
increment_cases alloc state c r h = elim (Bool-cases (unread_id_ok c)) [
  | inr bad ↦ ground arith
  | inl ok ↦ (
    ok,
    elim (Option-cases (find c state.entries)) [
      | inr (i, e) ↦ inl (i, e, ground (arith, found state c ok))
      | inl e ↦ inr (e, appended alloc state c 1 r (ground (arith, found state c ok)))
    ],
  )
]

-- Counting one more message for a conversation of a well-formed state adds one to its count, up to
-- 999999, and changes no other count.
pub unread_increment_lem :
    (alloc : ℕ → Bool) (state : UnreadState) (c : Bytes) (r : UnreadState)
    → Inv state
    → unread_increment alloc state c ≡ some r
    → (unread_count r c ≡ min (unread_count state c + 1) unread_count_max)
      × ((d : Bytes) → bytes_eq c d ≡ false → unread_count r d ≡ unread_count state d)
unfolding Inv
unread_increment_lem alloc state c r v h =
    let (ok, w) = increment_cases alloc state c r h in
    elim w [
      | inl (i, e, q) ↦ (
        grind (
          arith,
          unread_count_lem r c ok,
          unread_count_lem state c ok,
          ap (tally c) q,
          tally-bump_at c i state.entries e,
          tally_le c state.entries v.0,
        ),
        λ d n. count_same r state d (ap (tally d) q ∙ tally-bump_at_ne c d i state.entries n e),
      )
      | inr (e, q) ↦ (
        grind (
          arith,
          unread_count_lem r c ok,
          unread_count_lem state c ok,
          ap (tally c) q,
          tally-append c state.entries (record { id = c; count = 1 }) e,
          tally-none c state.entries e,
          bytes_eq_refl c,
        ),
        λ d n.
            count_same r state d
              (ap (tally d) q ∙ tally-append_ne d state.entries (record { id = c; count = 1 }) n),
      )
    ]

clear_cases :
    (state : UnreadState) (c : Bytes) (r : UnreadState)
    → unread_clear state c ≡ some r
    → (unread_id_ok c ≡ true)
      × (((i : ℕ) × (find c state.entries ≡ some i) × (r.entries ≡ remove_at i state.entries))
          ⊎ ((find c state.entries ≡ none) × (r.entries ≡ state.entries)))
unfolding unread_clear
clear_cases state c r h = elim (Bool-cases (unread_id_ok c)) [
  | inr bad ↦ ground arith
  | inl ok ↦ (
    ok,
    elim (Option-cases (find c state.entries)) [
      | inr (i, e) ↦ inl (i, e, ground (arith, found state c ok))
      | inl e ↦ inr (e, ground (arith, found state c ok))
    ],
  )
]

-- Clearing a conversation of a well-formed state leaves no message of it, and changes no other
-- count.
pub unread_clear_lem :
    (state : UnreadState) (c : Bytes) (r : UnreadState)
    → Inv state
    → unread_clear state c ≡ some r
    → (unread_count r c ≡ 0)
      × ((d : Bytes) → bytes_eq c d ≡ false → unread_count r d ≡ unread_count state d)
unfolding Inv
unread_clear_lem state c r v h =
    let (ok, w) = clear_cases state c r h in
    elim w [
      | inl (i, e, q) ↦ (
        unread_count_lem r c ok ∙ ap (tally c) q ∙ tally-remove_at c i state.entries v.0 e,
        λ d n. count_same r state d (ap (tally d) q ∙ tally-remove_at_ne c d i state.entries n e),
      )
      | inr (e, q) ↦ (
        unread_count_lem r c ok ∙ ap (tally c) q ∙ tally-none c state.entries e,
        λ d n. count_same r state d (ap (tally d) q),
      )
    ]
