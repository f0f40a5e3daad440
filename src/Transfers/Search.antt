-- ===== src/Transfers/Search.antt =====
-- helper/file.c: what xf_find and of_find answer, and the table that they leave.
use oma_q.Prelude.{
  ℕ, suc, ◌+◌, ◌<◌, ◌≡◌, refl, sym, some_inj, ap, subst, ◌∙◌, ◌⊎◌, inl, inr, Bool, true, false,
  Option, none, some, List, [], ◌∷◌, length, get_elem?, get_or, set, length-set, All-set,
  get_elem?_bound, get_or-set_self, set-set, Bool-cases, All, arith,
}
use oma_q.Transfers.Table.{Slot, taken, hits, find_loop, find, held, mem, Unique}
use oma_q.Transfers.Slots.{Unique-put, held-none, mem_at, held_at, get_or_of}

module _ {A : Type 0} where
  -- slot j stands at the loop's index k
  record Stands (s : List (Slot A)) (i k : ℕ) (P : Slot A → Type 0) : Type 0 where
    j : ℕ
    slot : Slot A
    index : k ≡ i + j
    there : get_elem? s j ≡ some slot
    good : P slot

  later :
      (s : List (Slot A)) (y : Slot A) (i k : ℕ) (P : Slot A → Type 0)
      → Stands s (suc i) k P
      → Stands (y ∷ s) i k P
  later s y i k P r = record {
    j = suc r.j;
    slot = r.slot;
    index = omega (arith, r.index);
    there = r.there;
    good = r.good;
  }

  loop_found :
      (f n : ℕ) (s : List (Slot A)) (i : ℕ) (free : Option ℕ) (k : ℕ)
      → find_loop f n s i free ≡ inl k
      → Stands s i k (λ x. hits f n x ≡ true)
  unfolding find_loop
  loop_found f n [] i free k h = ground arith
  loop_found f n (x ∷ s) i free k h = elim (Bool-cases x.used) [
    | inr e ↦
        later s x i k (λ y. hits f n y ≡ true)
          (loop_found f n s (suc i) (elim free [ none ↦ some i | some m ↦ some m ]) k
            (ground arith))
    | inl e ↦ elim (Bool-cases (hits f n x)) [
      | inl g ↦ record { j = 0; slot = x; index = ground arith; there = refl; good = g }
      | inr g ↦
          later s x i k (λ y. hits f n y ≡ true) (loop_found f n s (suc i) free k (ground arith))
    ]
  ]

  loop_missing :
      (f n : ℕ) (s : List (Slot A)) (i : ℕ) (free r : Option ℕ)
      → find_loop f n s i free ≡ inr r
      → mem f n s ≡ false
  unfolding find_loop hits
  loop_missing f n [] i free r h = refl
  loop_missing f n (x ∷ s) i free r h = elim (Bool-cases x.used) [
    | inr e ↦
        ground (arith, loop_missing f n s (suc i) (elim free [ none ↦ some i | some m ↦ some m ]) r)
    | inl e ↦ elim (Bool-cases (hits f n x)) [
      | inl g ↦ ground arith
      | inr g ↦ ground (arith, loop_missing f n s (suc i) free r)
    ]
  ]

  loop_keeps :
      (f n : ℕ) (s : List (Slot A)) (i m : ℕ) (r : Option ℕ)
      → find_loop f n s i (some m) ≡ inr r
      → r ≡ some m
  unfolding find_loop
  loop_keeps f n [] i m r h = ground arith
  loop_keeps f n (x ∷ s) i m r h = elim (Bool-cases x.used) [
    | inr e ↦ loop_keeps f n s (suc i) m r (ground arith)
    | inl e ↦ elim (Bool-cases (hits f n x)) [
      | inl g ↦ ground arith
      | inr g ↦ loop_keeps f n s (suc i) m r (ground arith)
    ]
  ]

  loop_free :
      (f n : ℕ) (s : List (Slot A)) (i k : ℕ)
      → find_loop f n s i none ≡ inr (some k)
      → Stands s i k (λ x. x.used ≡ false)
  unfolding find_loop
  loop_free f n [] i k h = ground arith
  loop_free f n (x ∷ s) i k h = elim (Bool-cases x.used) [
    | inr e ↦ record {
      j = 0;
      slot = x;
      index = ground (arith, loop_keeps f n s (suc i) i (some k));
      there = refl;
      good = e;
    }
    | inl e ↦ elim (Bool-cases (hits f n x)) [
      | inl g ↦ ground arith
      | inr g ↦ later s x i k (λ y. y.used ≡ false) (loop_free f n s (suc i) k (ground arith))
    ]
  ]

  loop_full :
      (f n : ℕ) (s : List (Slot A)) (i : ℕ)
      → find_loop f n s i none ≡ inr none
      → All (λ x. x.used ≡ true) s
  unfolding find_loop
  loop_full f n [] i h = tt
  loop_full f n (x ∷ s) i h = elim (Bool-cases x.used) [
    | inr e ↦ absurd (ground (arith, loop_keeps f n s (suc i) i none))
    | inl e ↦ elim (Bool-cases (hits f n x)) [
      | inl g ↦ ground arith
      | inr g ↦ (e, loop_full f n s (suc i) (ground arith))
    ]
  ]

  pub data Search (create : Bool) (f n : ℕ) (z : A) (s : List (Slot A)) : Type 0 where
    found :
        (i : ℕ) (x : Slot A)
        → get_elem? s i ≡ some x
        → hits f n x ≡ true
        → find create f n z s ≡ (some i, s)
        → Search create f n z s
    made :
        (i : ℕ) (x : Slot A)
        → get_elem? s i ≡ some x
        → x.used ≡ false
        → mem f n s ≡ false
        → find create f n z s ≡ (some i, set s i (taken f n z))
        → create ≡ true
        → Search create f n z s
    missing :
        mem f n s ≡ false
        → (create ≡ true → All (λ x. x.used ≡ true) s)
        → find create f n z s ≡ (none, s)
        → Search create f n z s

  pub find-Search : (create : Bool) (f n : ℕ) (z : A) (s : List (Slot A)) → Search create f n z s
  unfolding find
  find-Search create f n z s = go (find_loop f n s 0 none) refl
    where
      go : (o : ℕ ⊎ Option ℕ) → find_loop f n s 0 none ≡ o → Search create f n z s
      go (inl i) e =
          let r = loop_found f n s 0 none i e in
          found i r.slot (subst (λ k. get_elem? s k ≡ some r.slot) (omega (arith, r.index)) r.there)
            r.good (rw e refl)
      go (inr none) e =
          missing (loop_missing f n s 0 none none e) (λ _. loop_full f n s 0 e) (rw e refl)
      go (inr (some i)) e =
          let r = loop_free f n s 0 i e in
          elim (Bool-cases create) [
            | inl c ↦
                made i r.slot
                  (subst (λ k. get_elem? s k ≡ some r.slot) (omega (arith, r.index)) r.there) r.good
                  (loop_missing f n s 0 none (some i) e) (rw (e, c) refl) c
            | inr c ↦ missing (loop_missing f n s 0 none (some i) e) (λ d. cc) (rw (e, c) refl)
          ]

  -- The table that a search leaves.
  pub find-Unique :
      (create : Bool) (f n : ℕ) (z : A) (P : Slot A → Type 0) (s : List (Slot A))
      → Unique s
      → All P s
      → P (taken f n z)
      → Unique (find create f n z s).1
        × All P (find create f n z s).1
        × (length (find create f n z s).1 ≡ length s)
  unfolding taken
  find-Unique create f n z P s u a p = elim (find-Search create f n z s) [
    | found i x g h e ↦ rw e (u, a, refl)
    | missing m l e ↦ rw e (u, a, refl)
    | made i x g h m e c ↦ rw e (
      Unique-put s i (taken f n z) u (λ _. m),
      All-set P s i (taken f n z) a p,
      length-set s i (taken f n z),
    )
  ]

  -- What is written to the slot that was asked for.
  pub find-All-set :
      (create : Bool) (f n : ℕ) (z : A) (P : Slot A → Type 0) (s : List (Slot A)) (i : ℕ)
      (v : Slot A)
      → All P s
      → P v
      → (find create f n z s).0 ≡ some i
      → All P (set (find create f n z s).1 i v)
  find-All-set create f n z P s i v a p h = elim (find-Search create f n z s) [
    | found k x g q e ↦ rw e (All-set P s i v a p)
    | missing m l e ↦ rw e (All-set P s i v a p)
    | made k x g q m e c ↦
        let same : k ≡ i = ground (arith, e) in
        subst (λ t. All P (set t i v))
          (sym (ap (λ r. r.1) e ∙ ap (λ j. set s j (taken f n z)) same))
          (subst (All P) (sym (set-set s i (taken f n z) v)) (All-set P s i v a p))
  ]

  pub find-none :
      (create : Bool) (f n : ℕ) (z : A) (s : List (Slot A))
      → (find create f n z s).0 ≡ none
      → (find create f n z s).1 ≡ s
  find-none create f n z s h = elim (find-Search create f n z s) [
    | found k x g q e ↦ ground (arith, e)
    | missing m l e ↦ ap (λ r. r.1) e
    | made k x g q m e c ↦ ground (arith, e)
  ]

  -- The slot that is made for a friend and a number that had none.
  pub record Fresh (f n : ℕ) (z : A) (s : List (Slot A)) (i : ℕ) (t : List (Slot A)) : Type 0 where
    pub written : t ≡ set s i (taken f n z)
    pub bound : i < length s
    pub content : (d : Slot A) → get_or t i d ≡ taken f n z

  pub find-Fresh :
      (f n : ℕ) (z : A) (s : List (Slot A)) (i : ℕ) (t : List (Slot A))
      → mem f n s ≡ false
      → find true f n z s ≡ (some i, t)
      → Fresh f n z s i t
  find-Fresh f n z s i t m h = elim (find-Search true f n z s) [
    | found k x g q e ↦ absurd (ground (arith, mem_at f n s k x g q))
    | missing q l e ↦ ground (arith, e)
    | made k x g q p e c ↦
        let same : k ≡ i = ground (arith, e) in
        let b : i < length s = subst (λ j. j < length s) same (get_elem?_bound s k x g) in
        let w : t ≡ set s i (taken f n z) =
          sym (ap (λ r. r.1) h) ∙ ap (λ r. r.1) e ∙ ap (λ j. set s j (taken f n z)) same in
        record {
          written = w;
          bound = b;
          content = λ d. ap (λ r. get_or r i d) w ∙ get_or-set_self s i (taken f n z) d b;
        }
  ]

  -- The slot behind what is held.
  pub record Located (f n : ℕ) (z : A) (s : List (Slot A)) (a : A) : Type 0 where
    pub index : ℕ
    pub slot : Slot A
    pub there : get_elem? s index ≡ some slot
    pub key : hits f n slot ≡ true
    pub content : slot.body ≡ a
    pub direct : (d : Slot A) → get_or s index d ≡ slot
    pub search : find false f n z s ≡ (some index, s)

  pub locate :
      (f n : ℕ) (z : A) (s : List (Slot A)) (a : A)
      → Unique s
      → held f n s ≡ some a
      → Located f n z s a
  locate f n z s a u h = elim (find-Search false f n z s) [
    | missing q l e ↦ absurd (ground (arith, held-none f n s q))
    | made k x g q p e c ↦ absurd (ground (arith, held-none f n s p))
    | found k x g q e ↦ record {
      index = k;
      slot = x;
      there = g;
      key = q;
      content = some_inj (sym (held_at f n s k x u g q) ∙ h);
      direct = λ d. get_or_of s k x d g;
      search = e;
    }
  ]
