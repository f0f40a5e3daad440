-- ===== src/Transfers/Table.antt =====
-- helper/file.c: the tables of transfers and of offers, xf and of, which are searched the same way
-- (xf_find and of_find). A slot's other fields are its body; memset makes it an empty slot.
use oma_q.Prelude.{
  ℕ, suc, ◌≡◌, ◌⊎◌, inl, inr, Bool, true, false, not, ◌&&◌, ◌||◌, Option, none, some, List, [], ◌∷◌,
  ◌==◌, if◌then◌else◌, set,
}

pub record Slot (A : Type 0) : Type 0 where
  pub used : Bool
  pub friend : ℕ
  pub fnum : ℕ
  pub body : A

module _ {A : Type 0} where
  unfoldable pub empty_slot : A → Slot A
  empty_slot z = record { used = false; friend = 0; fnum = 0; body = z }

  unfoldable pub taken : ℕ → ℕ → A → Slot A
  taken f n a = record { used = true; friend = f; fnum = n; body = a }

  unfoldable pub hits : ℕ → ℕ → Slot A → Bool
  hits f n x = x.used && (x.friend == f && x.fnum == n)

  -- the loop from slot i on: the slot that was found, or the free one
  unfoldable pub find_loop : ℕ → ℕ → List (Slot A) → ℕ → Option ℕ → ℕ ⊎ Option ℕ
  unfolding hits
  find_loop f n [] i free = inr free
  find_loop f n (x ∷ s) i free =
      if not x.used
      then find_loop f n s (suc i) (elim free [ none ↦ some i | some k ↦ some k ])
      else if hits f n x
      then inl i
      else find_loop f n s (suc i) free

  abbrev pub create_slot :
      Bool → ℕ → ℕ → A → List (Slot A) → ℕ ⊎ Option ℕ → Option ℕ × List (Slot A)
  create_slot create f n z s (inl i) = (some i, s)
  create_slot create f n z s (inr none) = (none, s)
  create_slot create f n z s (inr (some i)) =
      if create then (some i, set s i (taken f n z)) else (none, s)

  -- The index, none being -1, and the table after it.
  unfoldable pub find : Bool → ℕ → ℕ → A → List (Slot A) → Option ℕ × List (Slot A)
  unfolding find_loop taken
  find create f n z s = create_slot create f n z s (find_loop f n s 0 none)

  -- What is kept for a friend and a number.
  unfoldable pub held : ℕ → ℕ → List (Slot A) → Option A
  unfolding hits
  held f n [] = none
  held f n (x ∷ s) = if hits f n x then some x.body else held f n s

  abbrev pub mem : ℕ → ℕ → List (Slot A) → Bool
  mem f n [] = false
  mem f n (x ∷ s) = hits f n x || mem f n s

  -- No two used slots have the same friend and number.
  unfoldable pub Unique : List (Slot A) → Type 0
  Unique [] = Unit
  Unique (x ∷ s) = (x.used ≡ true → mem x.friend x.fnum s ≡ false) × Unique s
