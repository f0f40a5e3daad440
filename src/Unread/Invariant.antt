-- ===== src/Unread/Invariant.antt =====
-- helper/conversation.c: what every operation on the counts of unread messages keeps.
use mathlib.Core.Option
use oma_q.Prelude.{
  ℕ, zero, suc, ◌+◌, ◌*◌, ◌≤◌, ◌≡◌, refl, Bool, true, false, none, some, List, [], ◌∷◌, ◌++◌, subst,
  sym, ap, ◌∙◌, some_inj, ltb, ◌==◌, if◌then◌else◌, length, length-append, Option-cases, Bool-cases,
  inl, inr, arith,
}
use oma_q.Prelude.Bytes.{Bytes, bytes_eq}
use oma_q.Prelude.Int.{ℤ, sign_cases}
use oma_q.Unread.{
  UnreadEntry, UnreadState, unread_id_ok, unread_count_max, find, unread_find, unread_init,
  double_until, unread_reserve, unread_clone, append_entry, unread_set, bump_at, unread_increment,
  remove_at, unread_clear, prune_from, unread_prune, copy_entries,
}

-- An identifier that passes the test, and a count from 1 to 999999.
abbrev pub EntryOk : UnreadEntry → Type 0
EntryOk e = (unread_id_ok e.id ≡ true) × (1 ≤ e.count) × (e.count ≤ unread_count_max)

-- valid entries, each conversation once
unfoldable pub Good : List UnreadEntry → Type 0
Good [] = Unit
Good (e ∷ s) = EntryOk e × (find e.id s ≡ none) × Good s

unfoldable pub Inv : UnreadState → Type 0
Inv state = Good state.entries × (length state.entries ≤ state.capacity)

pub init-Inv : Inv unread_init
unfolding Inv Good unread_init
init-Inv = (tt, omega arith)

bytes_eq_sym : (a b : Bytes) → bytes_eq a b ≡ false → bytes_eq b a ≡ false
bytes_eq_sym [] [] h = h
bytes_eq_sym [] (y ∷ b) h = refl
bytes_eq_sym (x ∷ a) [] h = refl
bytes_eq_sym (x ∷ a) (y ∷ b) h = ground (arith, bytes_eq_sym a b)

find_cons :
    (c : Bytes) (e : UnreadEntry) (s : List UnreadEntry)
    → find c (e ∷ s) ≡ none
    → (bytes_eq e.id c ≡ false) × (find c s ≡ none)
unfolding find
find_cons c e s h = elim (Option-cases (find c s)) [
  | inl q ↦ ground arith
  | inr (i, q) ↦ ground arith
]

pub find_miss :
    (c : Bytes) (e : UnreadEntry) (s : List UnreadEntry)
    → bytes_eq e.id c ≡ false
    → find c s ≡ none
    → find c (e ∷ s) ≡ none
unfolding find
find_miss c e s h q = ground arith

pub find-append-none :
    (c : Bytes) (s : List UnreadEntry) (e : UnreadEntry)
    → find c s ≡ none
    → bytes_eq e.id c ≡ false
    → find c (s ++ e ∷ []) ≡ none
find-append-none c [] e h d = find_miss c e [] d h
find-append-none c (x ∷ s) e h d =
    let (n, r) = find_cons c x s h in find_miss c x (s ++ e ∷ []) n (find-append-none c s e r d)

pub append-Good :
    (s : List UnreadEntry) (e : UnreadEntry)
    → Good s
    → EntryOk e
    → find e.id s ≡ none
    → Good (s ++ e ∷ [])
unfolding Good
append-Good [] e g k h = (k, h, tt)
append-Good (x ∷ s) e (kx, hx, gx) k h =
    let (n, r) = find_cons e.id x s h in
    (kx, find-append-none x.id s e hx (bytes_eq_sym x.id e.id n), append-Good s e gx k r)

pub find-bump_at : (c : Bytes) (i : ℕ) (s : List UnreadEntry) → find c (bump_at i s) ≡ find c s
unfolding find bump_at
find-bump_at c i [] = refl
find-bump_at c zero (e ∷ s) = refl
find-bump_at c (suc i) (e ∷ s) = rw (find-bump_at c i s) refl

bump_at-Good : (i : ℕ) (s : List UnreadEntry) → Good s → Good (bump_at i s)
unfolding Good bump_at
bump_at-Good i [] g = tt
bump_at-Good zero (e ∷ s) ((k, l, m), h, g) = elim (Bool-cases (ltb e.count unread_count_max)) [
  | inl q ↦ ((k, ground arith, ground arith), h, g)
  | inr q ↦ ((k, ground arith, ground arith), h, g)
]
bump_at-Good (suc i) (e ∷ s) (k, h, g) = (k, rw (find-bump_at e.id i s) h, bump_at-Good i s g)

length-bump_at : (i : ℕ) (s : List UnreadEntry) → length (bump_at i s) ≡ length s
unfolding bump_at
length-bump_at i [] = refl
length-bump_at zero (e ∷ s) = refl
length-bump_at (suc i) (e ∷ s) = omega (arith, length-bump_at i s)

pub find-remove_at-none :
    (c : Bytes) (i : ℕ) (s : List UnreadEntry) → find c s ≡ none → find c (remove_at i s) ≡ none
unfolding remove_at
find-remove_at-none c i [] h = h
find-remove_at-none c zero (e ∷ s) h = (find_cons c e s h).1
find-remove_at-none c (suc i) (e ∷ s) h =
    let (n, r) = find_cons c e s h in find_miss c e (remove_at i s) n (find-remove_at-none c i s r)

remove_at-Good : (i : ℕ) (s : List UnreadEntry) → Good s → Good (remove_at i s)
unfolding Good remove_at
remove_at-Good i [] g = tt
remove_at-Good zero (e ∷ s) (k, h, g) = g
remove_at-Good (suc i) (e ∷ s) (k, h, g) = (k, find-remove_at-none e.id i s h, remove_at-Good i s g)

length-remove_at : (i : ℕ) (s : List UnreadEntry) → length (remove_at i s) ≤ length s
unfolding remove_at
length-remove_at i [] = omega arith
length-remove_at zero (e ∷ s) = omega arith
length-remove_at (suc i) (e ∷ s) = omega (arith, length-remove_at i s)

double_until_lem :
    (fuel needed capacity : ℕ) {c : ℕ} → double_until fuel needed capacity ≡ some c → needed ≤ c
unfolding double_until
double_until_lem zero needed capacity h = cc
double_until_lem (suc fuel) needed capacity {c} h =
    ground (arith, double_until_lem fuel needed (capacity * 2) {c = c})

-- what `unread_reserve` promises
pub unread_reserve_lem :
    (alloc : ℕ → Bool) (state : UnreadState) (needed : ℕ) {r : UnreadState}
    → unread_reserve alloc state needed ≡ some r
    → (r.entries ≡ state.entries) × (needed ≤ r.capacity)
unfolding unread_reserve
unread_reserve_lem alloc state needed h =
    elim (Option-cases
      (double_until 65 needed (if state.capacity == 0 then 16 else state.capacity))) [
        | inl e ↦ ground arith
        | inr (c, e) ↦ ground (arith, double_until_lem 65 needed _ e)
      ]

grown-Inv :
    (d state : UnreadState) (e : UnreadEntry)
    → Inv state
    → EntryOk e
    → find e.id state.entries ≡ none
    → d.entries ≡ state.entries
    → length state.entries + 1 ≤ d.capacity
    → Inv (append_entry e.id e.count d)
unfolding Inv
grown-Inv d state e (g, l) k f p q = (
  subst (λ s. Good (s ++ e ∷ [])) (sym p) (append-Good state.entries e g k f),
  omega (arith, q, length-append d.entries (e ∷ []), ap length p),
)

-- an entry behind the others, where its conversation has none
append_entry-Inv :
    (alloc : ℕ → Bool) (state : UnreadState) (c : Bytes) (n : ℕ) {r : UnreadState}
    → Inv state
    → EntryOk (record { id = c; count = n })
    → find c state.entries ≡ none
    → Option.map (append_entry c n) (unread_reserve alloc state (length state.entries + 1)) ≡ some r
    → Inv r
append_entry-Inv alloc state c n {r} v k f h =
    elim (Option-cases (unread_reserve alloc state (length state.entries + 1))) [
      | inl e ↦ ground arith
      | inr (d, e) ↦
          let (p, q) = unread_reserve_lem alloc state (length state.entries + 1) e in
          subst Inv (some_inj (sym (ap (Option.map (append_entry c n)) e) ∙ h))
            (grown-Inv d state (record { id = c; count = n }) v k f p q)
    ]

not_found :
    (state : UnreadState) (c : Bytes)
    → unread_id_ok c ≡ true
    → unread_find state c ≡ find c state.entries
unfolding unread_find
not_found state c h = rw h refl

replace_state : (s : UnreadState) {r : UnreadState} → s ≡ r → Inv s → Inv r
replace_state s e v = subst Inv e v

pub unread_set-Inv :
    (alloc : ℕ → Bool) (state : UnreadState) (c : Bytes) (n : ℕ) {r : UnreadState}
    → Inv state
    → unread_set alloc state c n ≡ some r
    → Inv r
unfolding unread_set
unread_set-Inv alloc state c n v h = elim (Bool-cases (unread_id_ok c)) [
  | inl ok ↦ elim (Option-cases (find c state.entries)) [
    | inl e ↦
        append_entry-Inv alloc state c n v
          (ok, ground (arith, not_found state c ok), ground (arith, not_found state c ok)) e
          (ground (arith, not_found state c ok))
    | inr (i, e) ↦ ground (arith, not_found state c ok)
  ]
  | inr bad ↦ ground arith
]

pub unread_increment-Inv :
    (alloc : ℕ → Bool) (state : UnreadState) (c : Bytes) {r : UnreadState}
    → Inv state
    → unread_increment alloc state c ≡ some r
    → Inv r
unfolding unread_increment Inv
unread_increment-Inv alloc state c {r} v h = elim (Bool-cases (unread_id_ok c)) [
  | inl ok ↦ elim (Option-cases (find c state.entries)) [
    | inl e ↦
        append_entry-Inv alloc state c 1 v (ok, omega arith, omega arith) e
          (ground (arith, not_found state c ok))
    | inr (i, e) ↦
        replace_state (record state { entries = bump_at i state.entries })
          (ground (arith, not_found state c ok))
          (bump_at-Good i state.entries v.0, omega (arith, v.1, length-bump_at i state.entries))
  ]
  | inr bad ↦ ground arith
]

pub unread_clear-Inv :
    (state : UnreadState) (c : Bytes) {r : UnreadState}
    → Inv state
    → unread_clear state c ≡ some r
    → Inv r
unfolding unread_clear Inv
unread_clear-Inv state c {r} v h = elim (Bool-cases (unread_id_ok c)) [
  | inl ok ↦ elim (Option-cases (find c state.entries)) [
    | inl e ↦ replace_state state (ground (arith, not_found state c ok)) v
    | inr (i, e) ↦
        replace_state (record state { entries = remove_at i state.entries })
          (ground (arith, not_found state c ok))
          (remove_at-Good i state.entries v.0, omega (arith, v.1, length-remove_at i state.entries))
  ]
  | inr bad ↦ ground arith
]

prune_from-Inv :
    (alloc : ℕ → Bool) (available : Bytes → ℤ) (next : UnreadState) (n : ℕ) (s : List UnreadEntry)
    {m : ℕ} {r : UnreadState}
    → Inv next
    → prune_from alloc available next n s ≡ some (m, r)
    → Inv r
unfolding prune_from
prune_from-Inv alloc available next n [] v h = replace_state next (ground arith) v
prune_from-Inv alloc available next n (e ∷ s) {m = m} v h = elim (sign_cases (available e.id)) [
  | inl q ↦ prune_from-Inv alloc available next (suc n) s {m = m} v (ground arith)
  | inr (inr (k, q)) ↦ ground arith
  | inr (inl (k, q)) ↦ elim (Option-cases (unread_set alloc next e.id e.count)) [
    | inl z ↦ ground arith
    | inr (d, z) ↦
        prune_from-Inv alloc available d n s {m = m} (unread_set-Inv alloc next e.id e.count v z)
          (ground arith)
  ]
]

pub unread_prune-Inv :
    (alloc : ℕ → Bool) (available : Bytes → ℤ) (state : UnreadState) {m : ℕ} {r : UnreadState}
    → unread_prune alloc available state ≡ some (m, r)
    → Inv r
unfolding unread_prune
unread_prune-Inv alloc available state h =
    prune_from-Inv alloc available unread_init 0 state.entries init-Inv h

-- the states that the operations lead to, those that fail leaving the state as it is
pub data Reached : UnreadState → Type 0 where
  start : Reached unread_init
  set_count :
      (alloc : ℕ → Bool) {state r : UnreadState} (c : Bytes) (n : ℕ)
      → Reached state
      → unread_set alloc state c n ≡ some r
      → Reached r
  increment :
      (alloc : ℕ → Bool) {state r : UnreadState} (c : Bytes)
      → Reached state
      → unread_increment alloc state c ≡ some r
      → Reached r
  clear :
      {state r : UnreadState} (c : Bytes)
      → Reached state
      → unread_clear state c ≡ some r
      → Reached r
  prune :
      (alloc : ℕ → Bool) (available : Bytes → ℤ) {state r : UnreadState} {m : ℕ}
      → Reached state
      → unread_prune alloc available state ≡ some (m, r)
      → Reached r
  clone :
      (alloc : ℕ → Bool) {state r : UnreadState}
      → Reached state
      → unread_clone alloc state ≡ some r
      → Reached r

unread_clone-Inv :
    (alloc : ℕ → Bool) (state : UnreadState) {r : UnreadState}
    → Inv state
    → unread_clone alloc state ≡ some r
    → Inv r
unfolding unread_clone Inv
unread_clone-Inv alloc state v h =
    elim (Option-cases (unread_reserve alloc unread_init (length state.entries))) [
      | inl e ↦ ground arith
      | inr (d, e) ↦
          replace_state (copy_entries state.entries d) (ground arith)
            (v.0, (unread_reserve_lem alloc unread_init (length state.entries) e).1)
    ]

-- Every state that the operations lead to from the empty one is well formed: every entry has a
-- valid identifier and a count from 1 to 999999, no conversation has two entries, and the entries
-- fit the capacity.
pub Reached-Inv : {state : UnreadState} → Reached state → Inv state
Reached-Inv start = init-Inv
Reached-Inv (set_count alloc {state = s} c n p h) = unread_set-Inv alloc s c n (Reached-Inv p) h
Reached-Inv (increment alloc {state = s} c p h) = unread_increment-Inv alloc s c (Reached-Inv p) h
Reached-Inv (clear {state = s} c p h) = unread_clear-Inv s c (Reached-Inv p) h
Reached-Inv (prune alloc available {state = s} p h) = unread_prune-Inv alloc available s h
Reached-Inv (clone alloc {state = s} p h) = unread_clone-Inv alloc s (Reached-Inv p) h
