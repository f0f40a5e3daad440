-- ===== src/LineReader/Lines.antt =====
-- helper/line_reader.c: a stream of lines that comes in chunks of any sizes.
use oma_q.Prelude.{
  concat, ◌≡◌, refl, sym, ap, ◌∙◌, true, false, List, [], ◌∷◌, ◌++◌, if◌then◌else◌, All, Bool-cases,
  inl, inr,
}
use oma_q.Prelude.Bytes.{Bytes, lacks}
use oma_q.Prelude.Int.{ℤ, pos, ◌==ℤ◌, ==ℤ_iff}
use oma_q.LineReader.{LineReader, init, strip_cr, feed, feed_next}
use oma_q.LineReader.Chunks.{feed-append}
use oma_q.LineReader.Framing.{is_kept, feed_line}

-- The lines with their ends, one behind the other.
abbrev pub stream : List Bytes → Bytes
stream [] = []
stream (l ∷ ls) = l ++ b'\n' ∷ stream ls

module _ {S : Type 0} (callback : Bytes → S → ℤ × S) where
  -- The chunks fed one after the other, as long as the callback does not stop the reader.
  abbrev pub feed_chunks : ℤ × LineReader × S → List Bytes → ℤ × LineReader × S
  feed_chunks r [] = r
  feed_chunks r (x ∷ xs) = feed_chunks (feed_next callback r x) xs

  -- The lines that are kept, handed over in order, until the callback stops.
  abbrev pub handed : List Bytes → S → ℤ × S
  handed [] s = (pos 0, s)
  handed (l ∷ ls) s =
      if is_kept l
      then (if (callback (strip_cr l) s).0 ==ℤ pos 0
          then handed ls (callback (strip_cr l) s).1
          else callback (strip_cr l) s)
      else handed ls s

  stopped :
      (rc : ℤ) (r : LineReader) (s : S) (xs : List Bytes)
      → (rc ==ℤ pos 0) ≡ false
      → feed_chunks (rc, r, s) xs ≡ (rc, r, s)
  unfolding feed_next
  stopped rc r s [] h = refl
  stopped rc r s (x ∷ xs) h = ap (λ q. feed_chunks q xs) (rw h refl) ∙ stopped rc r s xs h

  goes_on :
      (rc : ℤ) (r : LineReader) (s : S) (x : Bytes)
      → (rc ==ℤ pos 0) ≡ true
      → feed_next callback (rc, r, s) x ≡ feed callback r x s
  unfolding feed_next
  goes_on rc r s x e = rw e refl

  chunks_join :
      (xs : List Bytes) (q : ℤ × LineReader × S)
      → feed_chunks q xs ≡ feed_next callback q (concat xs)
  unfolding feed feed_next
  chunks_join [] (rc, r, s) = elim (Bool-cases (rc ==ℤ pos 0)) [
    | inl e ↦ rw e (ap (λ z. (z, r, s)) ((==ℤ_iff rc (pos 0)).0 e))
    | inr e ↦ rw e refl
  ]
  chunks_join (x ∷ xs) (rc, r, s) = elim (Bool-cases (rc ==ℤ pos 0)) [
    | inl e ↦
        ap (λ q. feed_chunks q xs) (goes_on rc r s x e)
        ∙ chunks_join xs (feed callback r x s)
        ∙ sym (feed-append callback r x (concat xs) s)
        ∙ sym (goes_on rc r s (x ++ concat xs) e)
    | inr e ↦ stopped rc r s (x ∷ xs) e ∙ rw e refl
  ]

  -- line by line
  whole_stream :
      (ls : List Bytes) (s : S)
      → All (λ l. lacks b'\n' l ≡ true) ls
      → feed callback init (stream ls) s ≡ ((handed ls s).0, init, (handed ls s).1)
  unfolding feed feed_next
  whole_stream [] s h = refl
  whole_stream (l ∷ ls) s h =
      feed_line callback l (stream ls) s h.0 ∙ elim (Bool-cases (is_kept l)) [
        | inr k ↦ rw k (whole_stream ls s h.1)
        | inl k ↦ elim (Bool-cases ((callback (strip_cr l) s).0 ==ℤ pos 0)) [
          | inl g ↦ rw (k, g) (whole_stream ls (callback (strip_cr l) s).1 h.1)
          | inr g ↦ rw (k, g) refl
        ]
      ]

  -- A stream of lines, each with its end, that comes in chunks cut anywhere: the callback gets
  -- exactly the lines of at most 4095 bytes without a zero byte, in order and less the carriage
  -- return at their end, until it stops the reader, and the reader is then empty.
  pub feed_chunks-handed :
      (ls chunks : List Bytes) (s : S)
      → All (λ l. lacks b'\n' l ≡ true) ls
      → concat chunks ≡ stream ls
      → feed_chunks (pos 0, init, s) chunks ≡ ((handed ls s).0, init, (handed ls s).1)
  unfolding feed_next
  feed_chunks-handed ls chunks s h e =
      chunks_join chunks (pos 0, init, s) ∙ ap (λ t. feed callback init t s) e ∙ whole_stream ls s h
