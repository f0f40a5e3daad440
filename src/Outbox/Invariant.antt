-- ===== src/Outbox/Invariant.antt =====
-- helper/receipt.c: what every operation on the outbox of receipts keeps.
use oma_q.Prelude.{
  ℕ, zero, suc, ◌+◌, ◌*◌, ◌≤◌, ◌<◌, ◌≡◌, refl, sym, ap, subst, Bool, true, false, not, ◌&&◌, ◌||◌,
  none, some, List, [], ◌∷◌, ◌++◌, ltb, leb, ◌==◌, length, length-append, Option-cases, Bool-cases,
  inl, inr, arith,
}
use oma_q.Prelude.Bytes.{Bytes, bytes_eq}
use oma_q.Prelude.Int.{ℤ}
use oma_q.Wire.{id_ok}
use oma_q.Outbox.{
  OutboxEntry, Outbox, outbox_max, receipt_conversation_ok, outbox_init, outbox_clone, matches,
  find_from, outbox_find, grow, entry_of, outbox_add, remove_at, outbox_remove,
}

-- a valid conversation and identifier, and no second entry with both
abbrev pub EntryOk : OutboxEntry → Type 0
EntryOk e = (receipt_conversation_ok e.conversation ≡ true) × (id_ok e.id ≡ true)

unfoldable pub Good : List OutboxEntry → Type 0
Good [] = Unit
Good (e ∷ s) = EntryOk e × (find_from e.conversation e.id s ≡ none) × Good s

unfoldable pub Inv : Outbox → Type 0
Inv o = Good o.entries × (length o.entries ≤ o.capacity) × (o.capacity ≤ outbox_max)

pub find_cons :
    (c id : Bytes) (e : OutboxEntry) (s : List OutboxEntry)
    → find_from c id (e ∷ s) ≡ none
    → (matches c id e ≡ false) × (find_from c id s ≡ none)
unfolding find_from
find_cons c id e s h = elim (Option-cases (find_from c id s)) [
  | inl q ↦ elim (Bool-cases (matches c id e)) [ inl m ↦ ground arith | inr m ↦ (m, q) ]
  | inr (i, q) ↦ elim (Bool-cases (matches c id e)) [ inl m ↦ ground arith | inr m ↦ ground arith ]
]

pub find_miss :
    (c id : Bytes) (e : OutboxEntry) (s : List OutboxEntry)
    → matches c id e ≡ false
    → find_from c id s ≡ none
    → find_from c id (e ∷ s) ≡ none
unfolding find_from
find_miss c id e s h q = rw (h, q) refl

bytes_eq_sym : (a b : Bytes) → bytes_eq a b ≡ bytes_eq b a
bytes_eq_sym [] [] = refl
bytes_eq_sym [] (y ∷ b) = refl
bytes_eq_sym (x ∷ a) [] = refl
bytes_eq_sym (x ∷ a) (y ∷ b) = ground (arith, bytes_eq_sym a b)

matches_sym :
    (d e : OutboxEntry)
    → matches d.conversation d.id e ≡ false
    → matches e.conversation e.id d ≡ false
matches_sym d e h = rw (bytes_eq_sym d.conversation e.conversation, bytes_eq_sym d.id e.id) h

find-append-none :
    (c id : Bytes) (s : List OutboxEntry) (e : OutboxEntry)
    → find_from c id s ≡ none
    → matches c id e ≡ false
    → find_from c id (s ++ e ∷ []) ≡ none
unfolding find_from
find-append-none c id [] e h d = find_miss c id e [] d refl
find-append-none c id (x ∷ s) e h d =
    let (n, r) = find_cons c id x s h in
    find_miss c id x (s ++ e ∷ []) n (find-append-none c id s e r d)

append-Good :
    (s : List OutboxEntry) (e : OutboxEntry)
    → Good s
    → EntryOk e
    → find_from e.conversation e.id s ≡ none
    → Good (s ++ e ∷ [])
unfolding Good find_from
append-Good [] e g k h = (k, refl, tt)
append-Good (x ∷ s) e (kx, hx, gx) k h =
    let (n, r) = find_cons e.conversation e.id x s h in
    (kx, find-append-none x.conversation x.id s e hx (matches_sym e x n), append-Good s e gx k r)

find-remove_at-none :
    (c id : Bytes) (i : ℕ) (s : List OutboxEntry)
    → find_from c id s ≡ none
    → find_from c id (remove_at i s) ≡ none
unfolding remove_at
find-remove_at-none c id i [] h = h
find-remove_at-none c id zero (e ∷ s) h = (find_cons c id e s h).1
find-remove_at-none c id (suc i) (e ∷ s) h =
    let (n, r) = find_cons c id e s h in
    find_miss c id e (remove_at i s) n (find-remove_at-none c id i s r)

remove_at-Good : (i : ℕ) (s : List OutboxEntry) → Good s → Good (remove_at i s)
unfolding Good remove_at
remove_at-Good i [] g = tt
remove_at-Good zero (e ∷ s) (k, h, g) = g
remove_at-Good (suc i) (e ∷ s) (k, h, g) =
    (k, find-remove_at-none e.conversation e.id i s h, remove_at-Good i s g)

length-remove_at : (i : ℕ) (s : List OutboxEntry) → length (remove_at i s) ≤ length s
unfolding remove_at
length-remove_at i [] = omega arith
length-remove_at zero (e ∷ s) = omega arith
length-remove_at (suc i) (e ∷ s) = omega (arith, length-remove_at i s)

-- what `grow` gives room for
grow_lem :
    (alloc : ℕ → Bool) (o g : Outbox)
    → length o.entries ≤ o.capacity
    → o.capacity ≤ outbox_max
    → length o.entries < outbox_max
    → grow alloc o ≡ some g
    → (g.entries ≡ o.entries) × (length o.entries + 1 ≤ g.capacity) × (g.capacity ≤ outbox_max)
unfolding grow
grow_lem alloc o g l m n h = elim (Bool-cases (length o.entries == o.capacity)) [
  | inr e ↦ (ground arith, ground arith, ground arith)
  | inl e ↦ elim (Bool-cases (ltb 0 o.capacity)) [
    | inl z ↦ elim (Bool-cases (ltb outbox_max (o.capacity * 2))) [
      | inl w ↦ (ground arith, ground arith, ground arith)
      | inr w ↦ (ground arith, ground arith, ground arith)
    ]
    | inr z ↦ (ground arith, ground arith, ground arith)
  ]
]

grown-Inv :
    (alloc : ℕ → Bool) (o g : Outbox) (e : OutboxEntry)
    → Inv o
    → EntryOk e
    → find_from e.conversation e.id o.entries ≡ none
    → length o.entries < outbox_max
    → grow alloc o ≡ some g
    → Inv (record g { entries = g.entries ++ e ∷ [] })
unfolding Inv
grown-Inv alloc o g e (d, l, m) k f n h =
    let (p, q, r) = grow_lem alloc o g l m n h in
    (
      subst (λ s. Good (s ++ e ∷ [])) (sym p) (append-Good o.entries e d k f),
      omega (arith, length-append g.entries (e ∷ []), ap length p),
      r,
    )

pub outbox_add-Inv :
    (alloc : ℕ → Bool) (time : ℤ) (o : Outbox) (c id : Bytes)
    → Inv o
    → Inv (outbox_add alloc time o c id).1
unfolding outbox_add outbox_find
outbox_add-Inv alloc time o c id v =
    elim (Bool-cases (not (receipt_conversation_ok c) || not (id_ok id))) [
      | inl h ↦ rw h v
      | inr h ↦ elim (Option-cases (find_from c id o.entries)) [
        | inr (i, f) ↦ rw (h, f) v
        | inl f ↦ elim (Bool-cases (leb outbox_max (length o.entries))) [
          | inl n ↦ rw (h, f, n) v
          | inr n ↦ elim (Option-cases (grow alloc o)) [
            | inl g ↦ rw (h, f, n, g) v
            | inr (g, e) ↦
                rw (h, f, n, e)
                  (grown-Inv alloc o g (entry_of c id time) v (ground arith, ground arith) f
                    (ground arith) e)
          ]
        ]
      ]
    ]

pub outbox_remove-Inv : (o : Outbox) (c id : Bytes) → Inv o → Inv (outbox_remove o c id).1
unfolding outbox_remove Inv
outbox_remove-Inv o c id (g, l, m) = elim (Option-cases (outbox_find o c id)) [
  | inl f ↦ rw (f, outbox_remove) (g, l, m)
  | inr (i, f) ↦
      rw (f, outbox_remove)
        (remove_at-Good i o.entries g, omega (arith, length-remove_at i o.entries), m)
]

-- the outboxes that the operations lead to
pub data Filled : Outbox → Type 0 where
  start : Filled outbox_init
  add :
      (alloc : ℕ → Bool) (time : ℤ) {o : Outbox} (c id : Bytes)
      → Filled o
      → Filled (outbox_add alloc time o c id).1
  remove : {o : Outbox} (c id : Bytes) → Filled o → Filled (outbox_remove o c id).1
  clone : (alloc : ℕ → Bool) {o r : Outbox} → Filled o → outbox_clone alloc o ≡ some r → Filled r

copy-Inv : (o : Outbox) → Inv o → Inv (record { entries = o.entries; capacity = length o.entries })
unfolding Inv
copy-Inv o (g, l, m) = (g, omega arith, omega arith)

outbox_clone-Inv : (alloc : ℕ → Bool) (o r : Outbox) → Inv o → outbox_clone alloc o ≡ some r → Inv r
unfolding outbox_clone Inv
outbox_clone-Inv alloc o r (g, l, m) h =
    elim (Bool-cases (
      ltb outbox_max (length o.entries)
      || (ltb 0 (length o.entries) && not (alloc (length o.entries))))) [
        | inl e ↦ ground arith
        | inr e ↦ subst Inv (ground arith) (copy-Inv o (g, l, m))
      ]

init-Inv : Inv outbox_init
unfolding Inv Good outbox_init
init-Inv = (tt, omega arith, omega arith)

-- In every outbox that the operations lead to from the empty one, every entry has a valid
-- conversation and identifier, no two have both the same, and the entries fit the capacity, which
-- is at most 4096.
pub Filled-Inv : {o : Outbox} → Filled o → Inv o
Filled-Inv start = init-Inv
Filled-Inv (add alloc time {o = o} c id p) = outbox_add-Inv alloc time o c id (Filled-Inv p)
Filled-Inv (remove {o = o} c id p) = outbox_remove-Inv o c id (Filled-Inv p)
Filled-Inv (clone alloc {o = o} {r = r} p h) = outbox_clone-Inv alloc o r (Filled-Inv p) h
