-- ===== src/Calls/Capture.antt =====
-- helper/av.c: the samples of the microphone are cut into frames of 960.
use oma_q.Prelude.{
  ℕ, zero, suc, ◌+◌, ◌-◌, ◌≤◌, ◌<◌, ◌≡◌, refl, sym, ap, ◌∙◌, List, [], ◌∷◌, ◌++◌, length, take,
  drop, length-append, append_assoc, take_all, length-take, take-append-drop, length-drop, arith,
  some,
}
use oma_q.Prelude.Int.{ℤ}
use oma_q.Calls.{Filling, frame_samples, fill_round, accumulate_loop, capture_accumulate}

-- The reference: one sample after the other, a frame being handed over when it is full.
unfoldable pub sample_by_sample : List ℤ → Filling → Filling
sample_by_sample [] s = s
sample_by_sample (x ∷ pcm) s = sample_by_sample pcm (fill_round (x ∷ []) s)

abbrev pub HasRoom : Filling → Type 0
HasRoom s = length s.buffer < frame_samples

fill_round-HasRoom :
    (pcm : List ℤ) (s : Filling)
    → length s.buffer + length pcm ≤ frame_samples
    → HasRoom (fill_round pcm s)
unfolding fill_round
fill_round-HasRoom pcm s h = ground (arith, length-append s.buffer pcm)

fill_later :
    (xs ys : List ℤ) (s : Filling)
    → fill_round ys (record s { buffer = s.buffer ++ xs }) ≡ fill_round (xs ++ ys) s
unfolding fill_round
fill_later xs ys s = rw (append_assoc s.buffer xs ys) refl

fill_short :
    (x : ℤ) (s : Filling)
    → length s.buffer + 1 < frame_samples
    → fill_round (x ∷ []) s ≡ record s { buffer = s.buffer ++ x ∷ [] }
unfolding fill_round
fill_short x s h = ground (arith, length-append s.buffer (x ∷ []))

-- A round is as good as its samples one by one.
fill_round_lem :
    (x : ℤ) (pcm : List ℤ) (s : Filling)
    → length s.buffer + length (x ∷ pcm) ≤ frame_samples
    → fill_round (x ∷ pcm) s ≡ sample_by_sample (x ∷ pcm) s
unfolding sample_by_sample
fill_round_lem x [] s h = refl
fill_round_lem x (y ∷ pcm) s h =
    let e = fill_short x s (omega arith) in
    sym (fill_later (x ∷ []) (y ∷ pcm) s)
    ∙ ap (fill_round (y ∷ pcm)) (sym e)
    ∙ fill_round_lem y pcm (fill_round (x ∷ []) s)
        (omega (arith, ap (λ r. length r.buffer) e, length-append s.buffer (x ∷ [])))

sample_by_sample-append :
    (p q : List ℤ) (s : Filling)
    → sample_by_sample (p ++ q) s ≡ sample_by_sample q (sample_by_sample p s)
unfolding sample_by_sample
sample_by_sample-append [] q s = refl
sample_by_sample-append (x ∷ p) q s = sample_by_sample-append p q (fill_round (x ∷ []) s)

-- the first samples of a round, one or more
take_room :
    (room : ℕ) (x : ℤ) (pcm : List ℤ) (s : Filling)
    → 0 < room
    → length s.buffer + room ≤ frame_samples
    → fill_round (take room (x ∷ pcm)) s ≡ sample_by_sample (take room (x ∷ pcm)) s
take_room zero x pcm s h l = absurd (omega arith)
take_room (suc room) x pcm s h l =
    fill_round_lem x (take room pcm) s (omega (arith, length-take room pcm))

loop_lem :
    (fuel : ℕ) (pcm : List ℤ) (s : Filling)
    → length pcm ≤ fuel
    → HasRoom s
    → accumulate_loop fuel pcm s ≡ sample_by_sample pcm s
unfolding accumulate_loop sample_by_sample
loop_lem zero [] s h r = refl
loop_lem zero (x ∷ pcm) s h r = absurd (omega arith)
loop_lem (suc fuel) [] s h r = refl
loop_lem (suc fuel) (x ∷ pcm) s h r =
    let room = 960 - length s.buffer in
    let e = take_room room x pcm s (omega arith) (omega arith) in
    loop_lem fuel (drop room (x ∷ pcm)) (fill_round (take room (x ∷ pcm)) s)
      (omega (arith, length-drop room (x ∷ pcm)))
      (fill_round-HasRoom (take room (x ∷ pcm)) s (omega (arith, length-take room (x ∷ pcm))))
    ∙ ap (sample_by_sample (drop room (x ∷ pcm))) e
    ∙ sym (sample_by_sample-append (take room (x ∷ pcm)) (drop room (x ∷ pcm)) s)
    ∙ ap (λ p. sample_by_sample p s) (take-append-drop room (x ∷ pcm))

-- The chunks in which the samples come make no difference: the loop hands over the same frames as
-- if they came one by one, and keeps the same rest.
pub capture_accumulate_lem :
    (pcm : List ℤ) (s : Filling)
    → HasRoom s
    → capture_accumulate (some pcm) (length pcm) s ≡ sample_by_sample pcm s
unfolding capture_accumulate
capture_accumulate_lem pcm s r =
    ap (λ p. accumulate_loop (length pcm) p s) (take_all (length pcm) pcm (omega arith))
    ∙ loop_lem (length pcm) pcm s (omega arith) r
