-- ===== src/Outbox/Laws.antt =====
-- helper/receipt.c: what the operations on the outbox of receipts promise.
use oma_q.Prelude.{
  ℕ, zero, suc, ◌<◌, ◌≡◌, ◌≢◌, refl, Bool, true, false, not, ◌||◌, none, some, List, [], ◌∷◌, ◌++◌,
  leb, ◌==◌, length, Option-cases, Bool-cases, inl, inr, arith,
}
use oma_q.Prelude.Bytes.{Bytes, bytes_eq→eq, bytes_eq_refl}
use oma_q.Prelude.Int.{ℤ}
use oma_q.Wire.{id_ok}
use oma_q.Outbox.{
  OutboxEntry, Outbox, outbox_max, receipt_conversation_ok, matches, find_from, outbox_find,
  next_capacity, grow, refused, entry_of, outbox_add, remove_at, outbox_remove,
}
use oma_q.Outbox.Invariant.{Inv, Good, find_cons, find_miss}

find-append_self :
    (s : List OutboxEntry) (c id : Bytes) (e : OutboxEntry)
    → matches c id e ≡ true
    → find_from c id (s ++ e ∷ []) ≢ none
unfolding find_from
find-append_self [] c id e m h = ground arith
find-append_self (x ∷ s) c id e m h =
    find-append_self s c id e m (find_cons c id x (s ++ e ∷ []) h).1

find-remove_at_self :
    (s : List OutboxEntry) (c id : Bytes) (i : ℕ)
    → Good s
    → find_from c id s ≡ some i
    → find_from c id (remove_at i s) ≡ none
unfolding find_from remove_at Good
find-remove_at_self [] c id i g h = cc
find-remove_at_self (x ∷ s) c id zero (k, f, g) h = elim (Bool-cases (matches c id x)) [
  | inl m ↦ ground (arith, bytes_eq→eq x.conversation c, bytes_eq→eq x.id id)
  | inr m ↦ elim (Option-cases (find_from c id s)) [ inl q ↦ q | inr (j, q) ↦ ground arith ]
]
find-remove_at_self (x ∷ s) c id (suc i) (k, f, g) h = elim (Bool-cases (matches c id x)) [
  | inl m ↦ ground arith
  | inr m ↦ elim (Option-cases (find_from c id s)) [
    | inl q ↦ ground arith
    | inr (j, q) ↦
        find_miss c id x (remove_at i s) m (find-remove_at_self s c id i g (ground arith))
  ]
]

-- the entries after an addition that succeeds
add_entries :
    (alloc : ℕ → Bool) (time : ℤ) (o : Outbox) (c id : Bytes)
    → (outbox_add alloc time o c id).0 ≢ refused
    → outbox_find (outbox_add alloc time o c id).1 c id ≢ none
unfolding outbox_add outbox_find
add_entries alloc time o c id =
    elim (Bool-cases (not (receipt_conversation_ok c) || not (id_ok id))) [
      | inl h ↦ rw h (λ n. absurd (n refl))
      | inr h ↦ elim (Option-cases (find_from c id o.entries)) [
        | inr (i, f) ↦ rw (h, f) (λ n. rw f (λ e. cc))
        | inl f ↦ elim (Bool-cases (leb outbox_max (length o.entries))) [
          | inl n ↦ rw (h, f, n) (λ m. absurd (m refl))
          | inr n ↦ elim (Option-cases (grow alloc o)) [
            | inl g ↦ rw (h, f, n, g) (λ m. absurd (m refl))
            | inr (g, e) ↦
                rw (h, f, n, e)
                  (λ m.
                    find-append_self g.entries c id (entry_of c id time)
                      (ground (arith, bytes_eq_refl c, bytes_eq_refl id)))
          ]
        ]
      ]
    ]

known :
    (alloc : ℕ → Bool) (time : ℤ) (o : Outbox) (c id : Bytes)
    → outbox_find o c id ≢ none
    → (outbox_add alloc time o c id).1 ≡ o
unfolding outbox_add
known alloc time o c id n = elim (Bool-cases (not (receipt_conversation_ok c) || not (id_ok id))) [
  | inl h ↦ rw h refl
  | inr h ↦ elim (Option-cases (outbox_find o c id)) [
    | inl q ↦ absurd (n q)
    | inr (i, q) ↦ rw (h, q) refl
  ]
]

-- A receipt is waiting once an addition is not refused, and adding it again, at any time, leaves
-- the outbox as it is.
pub outbox_add_idem :
    (alloc : ℕ → Bool) (time later : ℤ) (o : Outbox) (c id : Bytes)
    → (outbox_add alloc time o c id).0 ≢ refused
    → (outbox_find (outbox_add alloc time o c id).1 c id ≢ none)
      × ((outbox_add alloc later (outbox_add alloc time o c id).1 c id).1
          ≡ (outbox_add alloc time o c id).1)
outbox_add_idem alloc time later o c id h =
    let n = add_entries alloc time o c id h in
    (n, known alloc later (outbox_add alloc time o c id).1 c id n)

-- After a removal from a well-formed outbox the receipt is not waiting any more.
pub outbox_remove_lem :
    (o : Outbox) (c id : Bytes) → Inv o → outbox_find (outbox_remove o c id).1 c id ≡ none
unfolding outbox_remove outbox_find Inv
outbox_remove_lem o c id v = elim (Option-cases (find_from c id o.entries)) [
  | inl f ↦ rw (f, outbox_remove) f
  | inr (i, f) ↦ rw (f, outbox_remove) (find-remove_at_self o.entries c id i v.0 f)
]

-- In a well-formed outbox with fewer than 4096 receipts, a valid receipt is never refused while
-- there is memory.
pub outbox_add_accepts :
    (alloc : ℕ → Bool) (time : ℤ) (o : Outbox) (c id : Bytes)
    → length o.entries < outbox_max
    → receipt_conversation_ok c ≡ true
    → id_ok id ≡ true
    → alloc (next_capacity o.capacity) ≡ true
    → (outbox_add alloc time o c id).0 ≢ refused
unfolding outbox_add grow
outbox_add_accepts alloc time o c id n h k a = elim (Option-cases (outbox_find o c id)) [
  | inr (i, f) ↦ rw (h, k, f) (λ e. cc)
  | inl f ↦ elim (Bool-cases (length o.entries == o.capacity)) [
    | inl e ↦ rw (h, k, f, lt_leb n, e, a) (λ e. cc)
    | inr e ↦ rw (h, k, f, lt_leb n, e) (λ e. cc)
  ]
]
  where
    lt_leb : {n m : ℕ} → n < m → leb m n ≡ false
    lt_leb h = ground arith
