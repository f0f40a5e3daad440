-- ===== src/LineReader/Chunks.antt =====
-- helper/line_reader.c: how the bytes are cut into chunks makes no difference.
use oma_q.Prelude.{◌≡◌, refl, ◌⊎◌, inl, inr, [], ◌∷◌, ◌++◌, Bool-cases}
use oma_q.Prelude.Bytes.{Bytes}
use oma_q.Prelude.Int.{ℤ, pos, ◌==ℤ◌}
use oma_q.LineReader.{LineReader, Action, continue, deliver, init, step, feed, feed_next}

pub Action-cases :
    (a : Action) → ((r : LineReader) × (a ≡ continue r)) ⊎ ((l : Bytes) × (a ≡ deliver l))
Action-cases (continue r) = inl (r, refl)
Action-cases (deliver l) = inr (l, refl)

module _ {S : Type 0} (callback : Bytes → S → ℤ × S) where
  -- Feeding two chunks one after the other, stopping where the callback stops, is feeding both.
  pub feed-append :
      (r : LineReader) (xs ys : Bytes) (s : S)
      → feed callback r (xs ++ ys) s ≡ feed_next callback (feed callback r xs s) ys
  unfolding feed feed_next
  feed-append r [] ys s = refl
  feed-append r (c ∷ xs) ys s = elim (Action-cases (step r c)) [
    | inl (r', e) ↦ rw (e, feed) (feed-append r' xs ys s)
    | inr (l, e) ↦ elim (Bool-cases ((callback l s).0 ==ℤ pos 0)) [
      | inl go ↦ rw (e, feed) (rw (go, feed) (feed-append init xs ys (callback l s).1))
      | inr stop ↦ rw (e, feed) (rw (stop, feed) (rw stop refl))
    ]
  ]
