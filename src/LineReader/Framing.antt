-- ===== src/LineReader/Framing.antt =====
-- helper/line_reader.c: which lines the callback gets, line by line.
use oma_q.Prelude.{
  ℕ, ◌+◌, ◌≤◌, ◌<◌, ◌≡◌, refl, ap, ◌∙◌, ◌⊎◌, inl, inr, Bool, true, false, ◌&&◌, ◌||◌, [], ◌∷◌, ◌++◌,
  leb, ltb, ◌==◌, if◌then◌else◌, length, arith, Bool-cases, length-append, append_assoc, append-nil,
}
use oma_q.Prelude.Bytes.{Bytes, lacks}
use oma_q.Prelude.Int.{ℤ}
use oma_q.LineReader.{LineReader, continue, init, step, strip_cr, feed, feed_next, json_line_max}

abbrev skipping : LineReader
skipping = record { buffer = []; discard = true }

-- A line that holds a zero byte, or 4096 bytes or more, is skipped.
abbrev pub is_kept : Bytes → Bool
is_kept l = lacks 0 l && ltb (length l) json_line_max

module _ {S : Type 0} (callback : Bytes → S → ℤ × S) where
  feed-skipping :
      (l rest : Bytes) (s : S)
      → lacks b'\n' l ≡ true
      → feed callback skipping (l ++ b'\n' ∷ rest) s ≡ feed callback init rest s
  unfolding feed step
  feed-skipping [] rest s h = refl
  feed-skipping (c ∷ l) rest s h = ground (arith, feed-skipping l rest s)

  store_byte :
      (b : Bytes) (c : ℕ)
      → (c == 0) ≡ false
      → (c == b'\n') ≡ false
      → length b + 1 < json_line_max
      → step (record { buffer = b; discard = false }) c
        ≡ continue (record { buffer = b ++ c ∷ []; discard = false })
  unfolding step
  store_byte b c z n room = ground arith

  skip_byte :
      (b : Bytes) (c : ℕ)
      → ((c == 0) ≡ true)
        ⊎ ((((c == 0) || (c == b'\n')) ≡ false) × (leb json_line_max (length b + 1) ≡ true))
      → step (record { buffer = b; discard = false }) c ≡ continue skipping
  unfolding step
  skip_byte b c (inl z) = ground arith
  skip_byte b c (inr (o, full)) = ground arith

  -- the bytes of a line that is kept go to the buffer
  feed-kept :
      (b l rest : Bytes) (s : S)
      → lacks b'\n' l ≡ true
      → lacks 0 l ≡ true
      → length b + length l < json_line_max
      → feed callback (record { buffer = b; discard = false }) (l ++ rest) s
        ≡ feed callback (record { buffer = b ++ l; discard = false }) rest s
  unfolding feed
  feed-kept b [] rest s n z room = rw append-nil refl
  feed-kept b (c ∷ l) rest s n z room =
      rw (feed, store_byte b c (ground arith) (ground arith) (omega arith))
        (feed-kept (b ++ c ∷ []) l rest s (ground arith) (ground arith)
            (omega (arith, length-append b (c ∷ [])))
          ∙ ap (λ t. feed callback (record { buffer = t; discard = false }) rest s)
              (append_assoc b (c ∷ []) l))

  -- a line that is too long, or holds a zero byte, leaves nothing
  feed-dropped :
      (b l rest : Bytes) (s : S)
      → lacks b'\n' l ≡ true
      → length b < json_line_max
      → (lacks 0 l ≡ false) ⊎ (json_line_max ≤ length b + length l)
      → feed callback (record { buffer = b; discard = false }) (l ++ b'\n' ∷ rest) s
        ≡ feed callback init rest s
  unfolding feed
  feed-dropped b [] rest s n room (inl z) = cc
  feed-dropped b [] rest s n room (inr long) = absurd (omega arith)
  feed-dropped b (c ∷ l) rest s n room why = elim (Bool-cases (c == 0)) [
    | inl zero ↦ rw (skip_byte b c (inl zero), feed) (feed-skipping l rest s (ground arith))
    | inr nonzero ↦ elim (Bool-cases (leb json_line_max (length b + 1))) [
      | inl full ↦
          rw (skip_byte b c (inr (ground arith, full)), feed)
            (feed-skipping l rest s (ground arith))
      | inr room' ↦
          rw (store_byte b c nonzero (ground arith) (ground arith), feed)
            (feed-dropped (b ++ c ∷ []) l rest s (ground arith)
              (ground (arith, length-append b (c ∷ []))) (still nonzero why))
    ]
  ]
    where
      still :
          (c == 0) ≡ false
          → (lacks 0 (c ∷ l) ≡ false) ⊎ (json_line_max ≤ length b + length (c ∷ l))
          → (lacks 0 l ≡ false) ⊎ (json_line_max ≤ length (b ++ c ∷ []) + length l)
      still nz (inl z) = inl (ground arith)
      still nz (inr long) = inr (omega (arith, length-append b (c ∷ [])))

  -- the callback's answer to a line, or the line skipped
  abbrev pub after_line : Bytes → Bytes → S → ℤ × LineReader × S
  after_line l rest s =
      if is_kept l
      then feed_next callback ((callback (strip_cr l) s).0, init, (callback (strip_cr l) s).1) rest
      else feed callback init rest s

  -- A line of any bytes but `\n`, and its newline: if it has at most 4095 bytes and no zero byte,
  -- the callback gets it without the `\r` at its end, and the reader goes on unless told to stop;
  -- otherwise it is skipped whole, and the next line is read as if it were the first.
  pub feed_line :
      (l rest : Bytes) (s : S)
      → lacks b'\n' l ≡ true
      → feed callback init (l ++ b'\n' ∷ rest) s ≡ after_line l rest s
  unfolding feed feed_next step
  feed_line l rest s n = elim (Bool-cases (is_kept l)) [
    | inl k ↦ rw k (feed-kept [] l (b'\n' ∷ rest) s n (ground arith) (ground arith) ∙ answer)
    | inr d ↦ rw d (feed-dropped [] l rest s n (omega arith) (too_long d))
  ]
    where
      answer :
          feed callback (record { buffer = l; discard = false }) (b'\n' ∷ rest) s
          ≡ feed_next callback ((callback (strip_cr l) s).0, init, (callback (strip_cr l) s).1) rest
      answer = ground arith

      too_long : is_kept l ≡ false → (lacks 0 l ≡ false) ⊎ (json_line_max ≤ 0 + length l)
      too_long d = elim (Bool-cases (lacks 0 l)) [ inl z ↦ inr (ground arith) | inr z ↦ inl z ]
