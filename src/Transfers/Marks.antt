-- ===== src/Transfers/Marks.antt =====
-- helper/file.c: when progress is reported. The arithmetic on 64 and 32 bits wraps around.
use native.Mathlib.Nat.{div-lt_iff_lt-mul, div-mul-le_self}
use oma_q.Prelude.{
  ℕ, suc, ◌+◌, ◌*◌, ◌/◌, ◌%◌, ◌^◌, ◌<◌, ◌≤◌, ◌≡◌, refl, sym, ap, subst, ◌∙◌, Bool, true, false, not,
  ◌&&◌, ◌||◌, Option, none, some, List, [], ◌∷◌, ltb, leb, ◌==◌, if◌then◌else◌, length, get_or, set,
  length-set, Bool-cases, Option-cases, inl, inr, some_inj, ◌↔◌, arith,
}
use oma_q.Transfers.{Files, Mark, no_mark, progress_interval_ms}
use oma_q.Transfers.Table.{Slot, empty_slot, taken, hits, held, mem}
use oma_q.Transfers.Slots.{held_new}
use oma_q.Transfers.State.{FilesOk, with_progress}

-- the first slot for a friend and a number, from slot i on
unfoldable pub mark_index : ℕ → ℕ → List (Slot Mark) → ℕ → Option ℕ
unfolding hits
mark_index f n [] i = none
mark_index f n (x ∷ s) i = if hits f n x then some i else mark_index f n s (suc i)

-- the slot for a new transfer: the first free one, or the one with the oldest report
unfoldable pub victim : List (Slot Mark) → ℕ → ℕ → ℕ → ℕ
victim [] i slot at = slot
victim (x ∷ s) i slot at =
    if not x.used
    then i
    else if ltb x.body.at at
    then victim s (suc i) i x.body.at
    else victim s (suc i) slot at

unfoldable pub percent_of : ℕ → ℕ → ℕ
percent_of done size = done * 100 % 2 ^ 64 / size % 2 ^ 32

-- no report yet: the progress is the same, or more and too soon
abbrev pub too_soon : Mark → ℕ → ℕ → Bool
too_soon m percent now =
    leb m.percent percent && (percent == m.percent || ltb now (m.at + progress_interval_ms))

unfoldable pub put_mark : ℕ → ℕ → ℕ → ℕ → ℕ → Files → Files
unfolding taken
put_mark i f n percent now w = record w {
  progress = set w.progress i (taken f n (record { at = now; percent = percent }));
}

abbrev pub due_slot : ℕ → ℕ → ℕ → ℕ → Files → Option ℕ → Bool × Files
due_slot f n percent now w none = (
  true,
  put_mark (victim w.progress 0 0 (get_or w.progress 0 (empty_slot no_mark)).body.at) f n percent
      now w,
)
due_slot f n percent now w (some i) =
    if too_soon (get_or w.progress i (empty_slot no_mark)).body percent now
    then (false, w)
    else (true, put_mark i f n percent now w)

unfoldable pub progress_due : ℕ → ℕ → ℕ → ℕ → ℕ → Files → Bool × Files
unfolding mark_index victim percent_of put_mark empty_slot
progress_due f n done size now w =
    if size == 0 || leb size done
    then (false, w)
    else due_slot f n (percent_of done size) now w (mark_index f n w.progress 0)

mark_none : (f n : ℕ) (s : List (Slot Mark)) (i : ℕ) → mark_index f n s i ≡ none → mem f n s ≡ false
unfolding mark_index
mark_none f n [] i h = refl
mark_none f n (x ∷ s) i h = ground (arith, mark_none f n s (suc i))

-- the mark that was found, and what is found when it is changed
record First (f n : ℕ) (s : List (Slot Mark)) (i k : ℕ) : Type 0 where
  j : ℕ
  index : k ≡ i + j
  content : (d : Slot Mark) → held f n s ≡ some (get_or s j d).body
  changed : (m : Mark) → held f n (set s j (taken f n m)) ≡ some m

hits-taken : (f n : ℕ) (m : Mark) → hits f n (taken f n m) ≡ true
unfolding hits taken
hits-taken f n m = ground arith

mark_some :
    (f n : ℕ) (s : List (Slot Mark)) (i k : ℕ) → mark_index f n s i ≡ some k → First f n s i k
unfolding mark_index held taken
mark_some f n [] i k h = cc
mark_some f n (x ∷ s) i k h = elim (Bool-cases (hits f n x)) [
  | inl e ↦ record {
    j = 0;
    index = ground arith;
    content = λ d. ground arith;
    changed = λ m. ground (arith, hits-taken f n m);
  }
  | inr e ↦
      let r = mark_some f n s (suc i) k (ground arith) in
      record {
        j = suc r.j;
        index = omega (arith, r.index);
        content = λ d. ground (arith, r.content d);
        changed = λ m. ground (arith, r.changed m);
      }
]

victim-bound :
    (s : List (Slot Mark)) (i slot at : ℕ) → slot < i + length s → victim s i slot at < i + length s
unfolding victim
victim-bound [] i slot at h = h
victim-bound (x ∷ s) i slot at h = elim (Bool-cases x.used) [
  | inr e ↦ rw e (omega arith)
  | inl e ↦ elim (Bool-cases (ltb x.body.at at)) [
    | inl g ↦ rw (e, g) (omega (arith, victim-bound s (suc i) i x.body.at (omega arith)))
    | inr g ↦ rw (e, g) (omega (arith, victim-bound s (suc i) slot at (omega arith)))
  ]
]

div_mono : (a b k : ℕ) → 0 < k → a ≤ b → a / k ≤ b / k
div_mono a b k p h = elim (Bool-cases (ltb (b / k) (a / k))) [
  | inr e ↦ ground arith
  | inl e ↦
      let q = (div-lt_iff_lt-mul {k = k} {x = b} {y = a / k} p).0 (ground arith) in
      absurd (omega (arith, q, div-mul-le_self a k, h))
]

no_wrap : (a : ℕ) → a < 2 ^ 57 → a * 100 % 2 ^ 64 ≡ a * 100
no_wrap a h = omega arith

-- A share of at most 100 is not touched by the wrap-around.
percent_of_mono :
    (a b size : ℕ) → a ≤ b → b < size → size < 2 ^ 57 → percent_of a size ≤ percent_of b size
unfolding percent_of
percent_of_mono a b size h l u =
    let p : 0 < size = omega arith in
    let small : (c : ℕ) → c < size → c * 100 / size < 100 =
      λ c k. (div-lt_iff_lt-mul p).1 (omega (arith, k)) in
    let sb = small b l in
    let sa = small a (omega arith) in
    let order = div_mono (a * 100) (b * 100) size p (omega arith) in
    rw (no_wrap a (omega arith), no_wrap b (omega arith)) (omega (arith, sa, sb, order))

-- What a call does to the mark of its transfer.
pub due_mark :
    (f n done size now : ℕ) (w : Files)
    → 0 < length w.progress
    → (progress_due f n done size now w).0 ≡ true
    → held f n (progress_due f n done size now w).1.progress
      ≡ some (record { at = now; percent = percent_of done size })
unfolding progress_due put_mark
due_mark f n done size now w l h = elim (Bool-cases (size == 0 || leb size done)) [
  | inl e ↦ ground arith
  | inr e ↦ elim (Option-cases (mark_index f n w.progress 0)) [
    | inl g ↦
        let d = get_or w.progress 0 (empty_slot no_mark) in
        let m : Mark = record { at = now; percent = percent_of done size } in
        let k = victim w.progress 0 0 d.body.at in
        rw (e, g)
          (held_new f n w.progress k (taken f n m)
            (omega (arith, victim-bound w.progress 0 0 d.body.at (omega (arith, l))))
            (hits-taken f n m) (mark_none f n w.progress 0 g))
    | inr (i, g) ↦
        let r = mark_some f n w.progress 0 i g in
        let same : i ≡ r.j = omega (arith, r.index) in
        elim (Bool-cases
          (too_soon (get_or w.progress i (empty_slot no_mark)).body (percent_of done size) now)) [
            | inl s ↦ absurd (ground (arith, h))
            | inr s ↦
                rw (e, g, s)
                  (subst
                    (λ k.
                      held f n (
                        set w.progress k
                          (taken f n (record { at = now; percent = percent_of done size })))
                      ≡ some (record { at = now; percent = percent_of done size }))
                    (sym same) (r.changed (record { at = now; percent = percent_of done size })))
          ]
  ]
]

held-mark : (f n : ℕ) (s : List (Slot Mark)) (i : ℕ) → mark_index f n s i ≡ none → held f n s ≡ none
unfolding mark_index held
held-mark f n [] i h = refl
held-mark f n (x ∷ s) i h = ground (arith, held-mark f n s (suc i))

answer :
    (b : Bool) (v w : Files) → (if◌then◌else◌ {A = Bool × Files} b (false, v) (true, w)).0 ≡ not b
answer true v w = refl
answer false v w = refl

-- A transfer with a mark is reported as the mark says.
due_iff_mark :
    (f n done size now : ℕ) (w : Files) (m : Mark)
    → done < size
    → held f n w.progress ≡ some m
    → (progress_due f n done size now w).0 ≡ not (too_soon m (percent_of done size) now)
unfolding progress_due
due_iff_mark f n done size now w m l h = elim (Option-cases (mark_index f n w.progress 0)) [
  | inl g ↦ absurd (ground (arith, held-mark f n w.progress 0 g))
  | inr (i, g) ↦
      let r = mark_some f n w.progress 0 i g in
      let same : i ≡ r.j = omega (arith, r.index) in
      let c : (get_or w.progress i (empty_slot no_mark)).body ≡ m = some_inj (
        ap (λ k. some (get_or w.progress k (empty_slot no_mark)).body) same
        ∙ sym (r.content (empty_slot no_mark))
        ∙ h) in
      let e : (size == 0 || leb size done) ≡ false = ground arith in
      rw (e, g, c)
        (answer (too_soon m (percent_of done size) now) w
          (put_mark i f n (percent_of done size) now w))
]

-- After a report of a transfer's progress, more progress of it is reported exactly if it is
-- another percent and 250 milliseconds have passed. (The size is below 2 ^ 57.)
pub progress_due_iff :
    {strict : Bool}
    → (f n done size now more later : ℕ) (w : Files) → FilesOk strict w
    → size < 2 ^ 57
    → done ≤ more
    → more < size
    → (progress_due f n done size now w).0 ≡ true
    → ((progress_due f n more size later (progress_due f n done size now w).1).0 ≡ true)
      ↔ ((percent_of done size < percent_of more size) × (now + progress_interval_ms ≤ later))
progress_due_iff f n done size now more later w ok u h l d =
    let p : 0 < length w.progress = omega (arith, ok.progress_length) in
    let m = due_mark f n done size now w p d in
    let e =
      due_iff_mark f n more size later (progress_due f n done size now w).1
        (record { at = now; percent = percent_of done size }) l m in
    let o = percent_of_mono done more size h l u in
    (λ q. ground (arith, e, o), λ q. ground (arith, e, o))

pub progress_due-FilesOk :
    {strict : Bool}
    → (f n done size now : ℕ) (w : Files) → FilesOk strict w
    → FilesOk strict (progress_due f n done size now w).1
unfolding progress_due
progress_due-FilesOk {strict} f n done size now w ok =
    elim (Bool-cases (size == 0 || leb size done)) [
      | inl e ↦ rw e ok
      | inr e ↦ rw e (slot_ok (mark_index f n w.progress 0))
    ]
  where
    mark_ok : (i : ℕ) → FilesOk strict (put_mark i f n (percent_of done size) now w)
    mark_ok i =
        let v : Slot Mark = taken f n (record { at = now; percent = percent_of done size }) in
        with_progress w (set w.progress i v) ok (length-set w.progress i v)

    slot_ok : (o : Option ℕ) → FilesOk strict (due_slot f n (percent_of done size) now w o).1
    slot_ok none =
        mark_ok (victim w.progress 0 0 (get_or w.progress 0 (empty_slot no_mark)).body.at)
    slot_ok (some i) =
        elim (Bool-cases
          (too_soon (get_or w.progress i (empty_slot no_mark)).body (percent_of done size) now)) [
            | inl s ↦ rw s ok
            | inr s ↦ rw s (mark_ok i)
          ]
