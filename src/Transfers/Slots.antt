-- ===== src/Transfers/Slots.antt =====
-- helper/file.c: what the search of the tables finds, and what a change of a slot does.
use oma_q.Prelude.{
  ℕ, zero, suc, ◌<◌, ◌≡◌, refl, some_inj, ◌∙◌, inl, inr, true, false, none, some, List, [], ◌∷◌,
  length, get_elem?, get_or, set, Bool-cases, arith,
}
use oma_q.Transfers.Table.{Slot, hits, held, mem, Unique}

module _ {A : Type 0} where
  mem-set :
      (f n : ℕ) (s : List (Slot A)) (i : ℕ) (v : Slot A)
      → hits f n v ≡ false
      → mem f n s ≡ false
      → mem f n (set s i v) ≡ false
  mem-set f n [] i v p q = refl
  mem-set f n (x ∷ s) zero v p q = ground arith
  mem-set f n (x ∷ s) (suc i) v p q = ground (arith, mem-set f n s i v p)

  pub Unique-put :
      (s : List (Slot A)) (i : ℕ) (v : Slot A)
      → Unique s
      → (v.used ≡ true → mem v.friend v.fnum s ≡ false)
      → Unique (set s i v)
  unfolding Unique hits
  Unique-put [] i v u p = u
  Unique-put (x ∷ s) zero v u p = (λ e. ground (arith, p e), u.1)
  Unique-put (x ∷ s) (suc i) v u p = (
    λ e. mem-set x.friend x.fnum s i v (ground (arith, p)) (u.0 e),
    Unique-put s i v u.1 (λ e. ground (arith, p e)),
  )

  -- A change that keeps the slot's friend and number.
  mem-set_body :
      (f n : ℕ) (s : List (Slot A)) (i : ℕ) (d : Slot A) (b : A)
      → mem f n (set s i (record (get_or s i d) { body = b })) ≡ mem f n s
  unfolding hits
  mem-set_body f n [] i d b = refl
  mem-set_body f n (y ∷ s) zero d b = refl
  mem-set_body f n (y ∷ s) (suc i) d b = ground (arith, mem-set_body f n s i d b)

  pub Unique-set_body :
      (s : List (Slot A)) (i : ℕ) (d : Slot A) (b : A)
      → Unique s
      → Unique (set s i (record (get_or s i d) { body = b }))
  unfolding Unique
  Unique-set_body [] i d b u = u
  Unique-set_body (y ∷ s) zero d b u = u
  Unique-set_body (y ∷ s) (suc i) d b u =
      (λ e. mem-set_body y.friend y.fnum s i d b ∙ u.0 e, Unique-set_body s i d b u.1)

  pub held-none : (f n : ℕ) (s : List (Slot A)) → mem f n s ≡ false → held f n s ≡ none
  unfolding held
  held-none f n [] h = refl
  held-none f n (x ∷ s) h = ground (arith, held-none f n s)

  pub held_ne :
      (f n : ℕ) (s : List (Slot A)) (i : ℕ) (x v : Slot A)
      → get_elem? s i ≡ some x
      → hits f n x ≡ false
      → hits f n v ≡ false
      → held f n (set s i v) ≡ held f n s
  unfolding held
  held_ne f n [] i x v h p q = refl
  held_ne f n (y ∷ s) zero x v h p q = ground arith
  held_ne f n (y ∷ s) (suc i) x v h p q = ground (arith, held_ne f n s i x v h p q)

  pub held_new :
      (f n : ℕ) (s : List (Slot A)) (i : ℕ) (v : Slot A)
      → i < length s
      → hits f n v ≡ true
      → mem f n s ≡ false
      → held f n (set s i v) ≡ some v.body
  unfolding held
  held_new f n [] i v l h m = elim l [ ]
  held_new f n (y ∷ s) zero v l h m = ground arith
  held_new f n (y ∷ s) (suc i) v l h m = ground (arith, held_new f n s i v)

  -- Only one slot is for a friend and a number.
  pub mem_at :
      (f n : ℕ) (s : List (Slot A)) (i : ℕ) (x : Slot A)
      → get_elem? s i ≡ some x
      → hits f n x ≡ true
      → mem f n s ≡ true
  mem_at f n [] i x h e = cc
  mem_at f n (y ∷ s) zero x h e = ground arith
  mem_at f n (y ∷ s) (suc i) x h e = ground (arith, mem_at f n s i x h e)

  hits_key :
      (f n : ℕ) (y : Slot A) → hits f n y ≡ true → (y.used ≡ true) × (y.friend ≡ f) × (y.fnum ≡ n)
  unfolding hits
  hits_key f n y h = (ground arith, ground arith, ground arith)

  none_before :
      (f n : ℕ) (s : List (Slot A)) (y : Slot A)
      → (y.used ≡ true → mem y.friend y.fnum s ≡ false)
      → mem f n s ≡ true
      → hits f n y ≡ false
  none_before f n s y u m = elim (Bool-cases (hits f n y)) [
    | inr e ↦ e
    | inl e ↦ let (g, p, q) = hits_key f n y e in absurd (ground (arith, u g, p, q))
  ]

  -- In a table without doubles, the slot for a friend and a number says what is held for them.
  pub held_at :
      (f n : ℕ) (s : List (Slot A)) (i : ℕ) (x : Slot A)
      → Unique s
      → get_elem? s i ≡ some x
      → hits f n x ≡ true
      → held f n s ≡ some x.body
  unfolding held Unique
  held_at f n [] i x u h e = cc
  held_at f n (y ∷ s) zero x u h e = ground arith
  held_at f n (y ∷ s) (suc i) x u h e =
      rw (none_before f n s y u.0 (mem_at f n s i x h e)) (held_at f n s i x u.1 h e)

  pub held_clear :
      (f n : ℕ) (s : List (Slot A)) (i : ℕ) (x v : Slot A)
      → Unique s
      → get_elem? s i ≡ some x
      → hits f n x ≡ true
      → v.used ≡ false
      → held f n (set s i v) ≡ none
  unfolding held Unique hits
  held_clear f n [] i x v u h e g = cc
  held_clear f n (y ∷ s) zero x v u h e g =
      let (k, p, q) = hits_key f n y (ground arith) in ground (arith, held-none f n s, u.0 k, p, q)
  held_clear f n (y ∷ s) (suc i) x v u h e g =
      rw (none_before f n s y u.0 (mem_at f n s i x h e)) (held_clear f n s i x v u.1 h e g)

  pub held-set_body :
      (f n : ℕ) (s : List (Slot A)) (i : ℕ) (x d : Slot A) (b : A)
      → Unique s
      → get_elem? s i ≡ some x
      → hits f n x ≡ true
      → held f n (set s i (record (get_or s i d) { body = b })) ≡ some b
  unfolding held Unique hits
  held-set_body f n [] i x d b u h e = cc
  held-set_body f n (y ∷ s) zero x d b u h e = ground arith
  held-set_body f n (y ∷ s) (suc i) x d b u h e =
      rw (none_before f n s y u.0 (mem_at f n s i x h e)) (held-set_body f n s i x d b u.1 h e)

  pub get_or_of :
      (s : List (Slot A)) (i : ℕ) (x d : Slot A) → get_elem? s i ≡ some x → get_or s i d ≡ x
  get_or_of [] i x d h = cc
  get_or_of (y ∷ s) zero x d h = some_inj h
  get_or_of (y ∷ s) (suc i) x d h = get_or_of s i x d h
