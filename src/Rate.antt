-- ===== src/Rate.antt =====
-- helper/rate.c and helper/rate.h: the limiters of contact requests (Sliding), of control packets,
-- of group file offers and of messages (Windows). Times are `int64_t` seconds: a negative one is
-- refused, so those that are stored are natural numbers. A decision is `true` where the code
-- returns 0. Here: the tables of keys, which all of them search alike.
pub mod Sliding
pub mod Windows
pub use oma_q.Prelude.{get_or}
use oma_q.Prelude.{
  ℕ, zero, suc, ◌+◌, Bool, true, false, not, ◌&&◌, Option, none, some, List, [], ◌∷◌, ltb,
  if◌then◌else◌,
}
use oma_q.Prelude.Bytes.{Bytes}

-- where the search of a table ends: at the key, at the slot to give to it, or nowhere
pub data Pick : Type 0 where
  found claim : ℕ → Pick
  nowhere : Pick

abbrev pub is_blank : Bytes → Bool
is_blank [] = true
is_blank (c ∷ s) = false

-- `if (free < 0) free = i`
abbrev pub first_free : Option ℕ → ℕ → Option ℕ
first_free none i = some i
first_free (some j) i = some j

-- `if (oldest < 0 || age(i) < age(oldest)) oldest = i`
abbrev pub older : Option (ℕ × ℕ) → ℕ → ℕ → Option (ℕ × ℕ)
older none i age = some (i, age)
older (some (j, a)) i age = if ltb age a then some (i, age) else some (j, a)

abbrev pub choose : Option ℕ → Option (ℕ × ℕ) → Pick
choose (some i) oldest = claim i
choose none (some (i, _)) = claim i
choose none none = nowhere

module _ {E : Type 0} (key_of : E → Bytes) (age_of : E → ℕ) (same : E → Bool) where
  -- the loop over the table from index `i`, with the first free slot and the oldest one so far
  unfoldable pub scan : ℕ → Option ℕ → Option (ℕ × ℕ) → List E → Pick
  scan i free oldest [] = choose free oldest
  scan i free oldest (e ∷ s) =
      let blank = is_blank (key_of e) in
      let rest =
        scan (i + 1) (if blank then first_free free i else free)
          (if blank then oldest else older oldest i (age_of e)) s in
      if not blank && same e then found i else rest
