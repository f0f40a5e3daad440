-- ===== src/Calls/Rings.antt =====
-- helper/av.c: the rings of audio frames, 16 slots with a head and a count. A full ring loses its
-- oldest frame.
use oma_q.Prelude.{
  ℕ, zero, suc, ◌+◌, ◌-◌, ◌%◌, ◌≤◌, ◌<◌, ◌≡◌, refl, sym, ap, subst, ◌∙◌, Option, none, some, List,
  [], ◌∷◌, ◌++◌, ltb, ◌==◌, if◌then◌else◌, length, get_or, set, drop, replicate, length-set,
  get_or-set_self, get_or-set_ne, Bool-cases, inl, inr, arith,
}
use oma_q.Prelude.Int.{ℤ}

abbrev pub ring_frames : ℕ
ring_frames = 16

-- the samples of a frame, those in use
abbrev pub Frame : Type 0
Frame = List ℤ

pub record Ring : Type 0 where
  pub slots : List Frame
  pub head : ℕ
  pub count : ℕ

unfoldable pub ring_init : Ring
ring_init = record { slots = replicate ring_frames []; head = 0; count = 0 }

-- the step that makes room in a full ring
unfoldable pub make_room : Ring → Ring
make_room r =
    if r.count == ring_frames
    then record r { head = (r.head + 1) % ring_frames; count = r.count - 1 }
    else r

abbrev pub put : Ring → Frame → Ring
put r f = record r { slots = set r.slots ((r.head + r.count) % ring_frames) f; count = r.count + 1 }

unfoldable pub push : Ring → Frame → Ring
unfolding make_room
push r f = put (make_room r) f

unfoldable pub pop : Ring → Option (Frame × Ring)
pop r =
    if ltb 0 r.count
    then some (
      get_or r.slots r.head [],
      record r { head = (r.head + 1) % ring_frames; count = r.count - 1 },
    )
    else none

-- The frames that a ring holds, the oldest first.
unfoldable pub frames_from : List Frame → ℕ → ℕ → List Frame
frames_from s h zero = []
frames_from s h (suc n) = get_or s h [] ∷ frames_from s ((h + 1) % ring_frames) n

unfoldable pub frames : Ring → List Frame
frames r = frames_from r.slots r.head r.count

pub record RingOk (r : Ring) : Type 0 where
  pub slots_length : length r.slots ≡ ring_frames
  pub head_lt : r.head < ring_frames
  pub count_le : r.count ≤ ring_frames

pub init-RingOk : RingOk ring_init
unfolding ring_init
init-RingOk = record { slots_length = refl; head_lt = omega arith; count_le = omega arith }

pub push-RingOk : (r : Ring) (f : Frame) → RingOk r → RingOk (push r f)
unfolding push
push-RingOk r f v = elim (Bool-cases (r.count == ring_frames)) [
  | inl e ↦ record {
    slots_length =
        ground (arith, length-set r.slots ((((r.head + 1) % 16) + (r.count - 1)) % 16) f);
    head_lt = ground arith;
    count_le = ground arith;
  }
  | inr e ↦ record {
    slots_length = ground (arith, length-set r.slots ((r.head + r.count) % 16) f);
    head_lt = ground arith;
    count_le = ground arith;
  }
]

-- A write to a slot behind the frames changes none of them.
frames_from-set :
    (s : List Frame) (h m n : ℕ) (f : Frame)
    → h < 16
    → m < 16
    → n ≤ m
    → frames_from (set s ((h + m) % 16) f) h n ≡ frames_from s h n
unfolding frames_from
frames_from-set s h m zero f hh hm hn = refl
frames_from-set s h zero (suc n) f hh hm hn = absurd (omega arith)
frames_from-set s h (suc m) (suc n) f hh hm hn =
    let e : (h + suc m) % 16 ≡ ((h + 1) % 16 + m) % 16 = omega arith in
    rw (get_or-set_ne s ((h + suc m) % 16) h f [] (λ q. omega arith)) (
      ap (◌∷◌ (get_or s h [])) (
        subst (λ i. frames_from (set s i f) ((h + 1) % 16) n ≡ frames_from s ((h + 1) % 16) n)
          (sym e)
          (frames_from-set s ((h + 1) % 16) m n f (omega arith) (omega arith) (omega arith))))

-- the last of the frames
frames_from_snoc :
    (s : List Frame) (h n : ℕ)
    → h < 16
    → frames_from s h (suc n) ≡ frames_from s h n ++ get_or s ((h + n) % 16) [] ∷ []
unfolding frames_from
frames_from_snoc s h zero hh = ap (λ i. get_or s i [] ∷ []) (omega arith)
frames_from_snoc s h (suc n) hh =
    let e : ((h + 1) % 16 + n) % 16 ≡ (h + suc n) % 16 = omega arith in
    ap (◌∷◌ (get_or s h [])) (
      frames_from_snoc s ((h + 1) % 16) n (omega arith)
      ∙ ap (λ i. frames_from s ((h + 1) % 16) n ++ get_or s i [] ∷ []) e)

pub length-frames_from : (s : List Frame) (h n : ℕ) → length (frames_from s h n) ≡ n
unfolding frames_from
length-frames_from s h zero = refl
length-frames_from s h (suc n) = ap suc (length-frames_from s ((h + 1) % 16) n)

-- a frame put into a ring that has room
frames-put :
    (s : List Frame) (h n : ℕ) (f : Frame)
    → length s ≡ 16
    → h < 16
    → n < 16
    → frames_from (set s ((h + n) % 16) f) h (n + 1) ≡ frames_from s h n ++ f ∷ []
frames-put s h n f l hh hn =
    ap (frames_from (set s ((h + n) % 16) f) h) (omega arith)
    ∙ frames_from_snoc (set s ((h + n) % 16) f) h n hh
    ∙ ap (λ x. x ++ get_or (set s ((h + n) % 16) f) ((h + n) % 16) [] ∷ [])
        (frames_from-set s h n n f hh hn (omega arith))
    ∙ ap (λ x. frames_from s h n ++ x ∷ []) (get_or-set_self s ((h + n) % 16) f [] (omega arith))

-- the queue of at most 16 frames that a ring stands for, which loses its oldest when it is full
abbrev pub bounded : List Frame → Frame → List Frame
bounded q f = (if length q == ring_frames then drop 1 q else q) ++ f ∷ []

drop-frames_from :
    (s : List Frame) (h n : ℕ)
    → 0 < n
    → drop 1 (frames_from s h n) ≡ frames_from s ((h + 1) % 16) (n - 1)
unfolding frames_from
drop-frames_from s h zero p = absurd (omega arith)
drop-frames_from s h (suc n) p = ap (frames_from s ((h + 1) % 16)) (omega arith)

frames-push : (r : Ring) (f : Frame) → RingOk r → frames (push r f) ≡ bounded (frames r) f
unfolding push frames
frames-push r f v = elim (Bool-cases (r.count == ring_frames)) [
  | inl e ↦
      rw
        (
          length-frames_from r.slots r.head r.count,
          e,
          drop-frames_from r.slots r.head r.count (ground arith),
        )
        (frames-put r.slots ((r.head + 1) % 16) (r.count - 1) f v.slots_length (omega arith)
          (ground arith))
  | inr e ↦
      rw (length-frames_from r.slots r.head r.count, e)
        (frames-put r.slots r.head r.count f v.slots_length v.head_lt (ground arith))
]

pub pop-RingOk : (r r' : Ring) (f : Frame) → RingOk r → pop r ≡ some (f, r') → RingOk r'
unfolding pop
pop-RingOk r r' f v h = record {
  slots_length = ground arith;
  head_lt = ground arith;
  count_le = ground arith;
}

-- taking the oldest of the frames
abbrev pub uncons : List Frame → Option (Frame × List Frame)
uncons [] = none
uncons (f ∷ q) = some (f, q)

abbrev pub contents : Option (Frame × Ring) → Option (Frame × List Frame)
contents none = none
contents (some (f, r)) = some (f, frames r)

frames_from-pop :
    (s : List Frame) (h n : ℕ)
    → 0 < n
    → uncons (frames_from s h n) ≡ some (get_or s h [], frames_from s ((h + 1) % 16) (n - 1))
unfolding frames_from
frames_from-pop s h zero p = absurd (omega arith)
frames_from-pop s h (suc n) p =
    ap (λ k. some (get_or s h [], frames_from s ((h + 1) % 16) k)) (omega arith)

frames_from_empty : (s : List Frame) (h n : ℕ) → n ≡ 0 → uncons (frames_from s h n) ≡ none
unfolding frames_from
frames_from_empty s h zero e = refl
frames_from_empty s h (suc n) e = absurd (omega arith)

pub frames-pop : (r : Ring) → contents (pop r) ≡ uncons (frames r)
unfolding pop frames
frames-pop r = elim (Bool-cases (ltb 0 r.count)) [
  | inl e ↦ rw e (sym (frames_from-pop r.slots r.head r.count (ground arith)))
  | inr e ↦ rw e (sym (frames_from_empty r.slots r.head r.count (ground arith)))
]

-- A ring behaves as a queue of at most 16 frames: the new ring is empty, putting a frame in adds it
-- at the end, the oldest frame being lost if there are 16, and taking one out gives the oldest, or
-- none if there is none.
pub ring_refines :
    (frames ring_init ≡ [])
    × ((r : Ring) (f : Frame)
        → RingOk r
        → RingOk (push r f) × (frames (push r f) ≡ bounded (frames r) f))
    × ((r : Ring) → contents (pop r) ≡ uncons (frames r))
unfolding frames ring_init frames_from
ring_refines = (refl, λ r f v. (push-RingOk r f v, frames-push r f v), frames-pop)
