-- ===== src/Calls/Pump.antt =====
-- helper/av.c: the frames of the microphone on their way to toxcore.
use oma_q.Prelude.{
  ℕ, zero, suc, ◌+◌, ◌<◌, ◌≡◌, refl, sym, ap, subst, Bool, true, false, not, ◌||◌, none, some, List,
  [], ◌∷◌, ◌++◌, ◌==◌, length, append-nil, append_assoc, ◌∙◌, Bool-cases, Option-cases, inl, inr,
  arith,
}
use oma_q.Calls.Rings.{Frame, Ring, pop, frames, length-frames_from, frames-pop, contents, uncons}
use oma_q.Calls.{Call, no_friend, pump_loop, pump, note_audio_error}
use oma_q.Calls.State.{CallOk, taken-CallOk, error-CallOk}

length-frames : (r : Ring) → length (frames r) ≡ r.count
unfolding frames
length-frames r = length-frames_from r.slots r.head r.count

pop-count : (r r' : Ring) (f : Frame) → pop r ≡ some (f, r') → r.count ≡ r'.count + 1
unfolding pop
pop-count r r' f h = ground arith

uncons-none : (q : List Frame) → uncons q ≡ none → q ≡ []
uncons-none [] h = refl
uncons-none (f ∷ q) h = cc

uncons-some : (q : List Frame) (f : Frame) (q' : List Frame) → uncons q ≡ some (f, q') → q ≡ f ∷ q'
uncons-some [] f q' h = cc
uncons-some (g ∷ q) f q' h = ground arith

pop-none : (r : Ring) → pop r ≡ none → frames r ≡ []
pop-none r h = uncons-none (frames r) (sym (frames-pop r) ∙ ap contents h)

pop-some : (r r' : Ring) (f : Frame) → pop r ≡ some (f, r') → frames r ≡ f ∷ frames r'
pop-some r r' f h = uncons-some (frames r) f (frames r') (sym (frames-pop r) ∙ ap contents h)

-- Toxcore takes the frames, one after the other, behind those that it has taken.
unfoldable pub Accepts : (List Frame → Frame → Bool) → List Frame → List Frame → Type 0
Accepts sends sent [] = Unit
Accepts sends sent (f ∷ fs) = (sends sent f ≡ true) × Accepts sends (sent ++ f ∷ []) fs

-- the frames that toxcore takes before the first that it does not
pub data Pumped (sends : List Frame → Frame → Bool) (c : Call) (sent : List Frame) (ok : Bool)
    (out : List Frame) (r : Call) : Type 0 where
  all :
      ok ≡ true
      → out ≡ sent ++ frames c.capture
      → frames r.capture ≡ []
      → Accepts sends sent (frames c.capture)
      → Pumped sends c sent ok out r
  some_left :
      ok ≡ false
      → (f : Frame) (done : List Frame) → out ≡ sent ++ done
      → frames c.capture ≡ done ++ f ∷ frames r.capture
      → r.error ≡ true
      → Accepts sends sent done
      → (c.call == no_friend || (not c.active || not (sends (sent ++ done) f))) ≡ true
      → Pumped sends c sent ok out r

Pumped-more :
    (sends : List Frame → Frame → Bool) (c : Call) (f : Frame) (r : Ring) (sent : List Frame)
    (ok : Bool) (out : List Frame) (c' : Call)
    → frames c.capture ≡ f ∷ frames r
    → sends sent f ≡ true
    → Pumped sends (record c { capture = r }) (sent ++ f ∷ []) ok out c'
    → Pumped sends c sent ok out c'
unfolding Accepts
Pumped-more sends c f r sent ok out c' e t (all h p q a) =
    all h (p ∙ append_assoc sent (f ∷ []) (frames r) ∙ ap (λ x. sent ++ x) (sym e)) q
      (subst (Accepts sends sent) (sym e) (t, a))
Pumped-more sends c f r sent ok out c' e t (some_left h g done p q x a z) =
    some_left h g (f ∷ done) (p ∙ append_assoc sent (f ∷ []) done) (e ∙ ap (◌∷◌ f) q) x (t, a)
      (ap (λ l. c.call == no_friend || (not c.active || not (sends l g)))
          (sym (append_assoc sent (f ∷ []) done))
        ∙ z)

pub pump_loop_total :
    (sends : List Frame → Frame → Bool) (fuel : ℕ) (sent : List Frame) (c : Call)
    → CallOk c
    → c.capture.count < fuel
    → (ok : Bool) × (out : List Frame) × (r : Call) × (pump_loop sends fuel sent c
        ≡ some (ok, out, r))
      × CallOk r
      × Pumped sends c sent ok out r
unfolding pump_loop Accepts
pump_loop_total sends zero sent c v h = absurd (omega arith)
pump_loop_total sends (suc fuel) sent c v h = elim (Option-cases (pop c.capture)) [
  | inl e ↦ (
    true,
    sent,
    c,
    rw (e, pump_loop) refl,
    v,
    all refl (rw (pop-none c.capture e) (sym (append-nil sent))) (pop-none c.capture e)
        (subst (Accepts sends sent) (sym (pop-none c.capture e)) tt),
  )
  | inr ((f, r), e) ↦
      elim (Bool-cases (c.call == no_friend || (not c.active || not (sends sent f)))) [
        | inl d ↦ (
          false,
          sent,
          note_audio_error c.call (record c { capture = r }),
          rw (e, pump_loop, d) refl,
          error-CallOk c.call (record c { capture = r }) (taken-CallOk c f r v e),
          some_left refl f [] (sym (append-nil sent)) (pop-some c.capture r f e) refl tt
              (rw (append-nil sent) d),
        )
        | inr d ↦
            let (ok, out, c', q, w, z) =
              pump_loop_total sends fuel (sent ++ f ∷ []) (record c { capture = r })
                (taken-CallOk c f r v e) (omega (arith, pop-count c.capture r f e)) in
            (
              ok,
              out,
              c',
              rw (e, pump_loop, d) q,
              w,
              Pumped-more sends c f r sent ok out c' (pop-some c.capture r f e) (ground arith) z,
            )
      ]
]

pub pump_total :
    (sends : List Frame → Frame → Bool) (c : Call)
    → CallOk c
    → (ok : Bool) × (out : List Frame) × (r : Call) × (pump sends c ≡ some (ok, out, r))
      × CallOk r
      × Pumped sends c [] ok out r
unfolding pump
pump_total sends c v = pump_loop_total sends 17 [] c v (omega arith)
