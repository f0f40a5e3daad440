-- ===== src/Rate/Windows/Budget.antt =====
-- helper/rate.c: how many calls a limiter with fixed windows accepts, over every run of calls.
use oma_q.Prelude.{
  ℕ, ◌+◌, ◌*◌, ◌≤◌, ◌<◌, ◌≡◌, ◌⊎◌, inl, inr, refl, sym, ap, subst, Bool, true, false, List, [], ◌∷◌,
  Bool-cases, arith,
}
use oma_q.Rate.Windows.{Meter, is_stale, refresh}

abbrev pub tick : Bool → ℕ
tick true = 1
tick false = 0

-- What a call does to a meter: it counts an accepted call, in the window that is on or in one that
-- begins, and accepts none above the limit.
pub data Ticks (len limit now : ℕ) (b : Bool) (m r : Meter) : Type 0 where
  same : b ≡ false → r ≡ m → Ticks len limit now b m r
  counted :
      r.window ≡ (refresh now len m).window
      → r.count ≡ (refresh now len m).count + tick b
      → r.count ≤ limit
      → Ticks len limit now b m r

-- A window goes on, or begins at this call.
refresh_cases :
    (now len : ℕ) (m : Meter)
    → ((refresh now len m ≡ m) × (m.window ≤ now) × (now < m.window + len))
      ⊎ (((refresh now len m).window ≡ now)
          × ((refresh now len m).count ≡ 0)
          × ((now < m.window) ⊎ (m.window + len ≤ now)))
unfolding refresh
refresh_cases now len m = elim (Bool-cases (is_stale now len m.window)) [
  | inl e ↦ inr (rw e refl, rw e refl, ground arith)
  | inr e ↦ inl (rw e refl, ground arith, ground arith)
]

module _ {S : Type 0} {X : Type 0} (step : S → X → Bool × S) (time : X → ℕ) where
  unfoldable pub after : S → List X → S
  after s [] = s
  after s (x ∷ xs) = after (step s x).1 xs

  unfoldable pub accepted : S → List X → ℕ
  accepted s [] = 0
  accepted s (x ∷ xs) = tick (step s x).0 + accepted (step s x).1 xs

  -- The calls come in the order of time, from `t` on and before `bound`.
  unfoldable pub Within : ℕ → ℕ → List X → Type 0
  Within t bound [] = Unit
  Within t bound (x ∷ xs) = (t ≤ time x) × (time x < bound) × Within (time x) bound xs

  module _ (meter : S → Meter) (len limit : ℕ)
      (law : (s : S) (x : X)
        → (meter s).count ≤ limit
        → Ticks len limit (time x) (step s x).0 (meter s) (meter (step s x).1)) where
    step_le : (s : S) (x : X) → (meter s).count ≤ limit → (meter (step s x).1).count ≤ limit
    step_le s x h = elim (law s x h) [
      | same b e ↦ subst (λ m. m.count ≤ limit) (sym e) h
      | counted w c l ↦ l
    ]

    pub after_le :
        (s : S) (xs : List X) → (meter s).count ≤ limit → (meter (after s xs)).count ≤ limit
    unfolding after
    after_le s [] h = h
    after_le s (x ∷ xs) h = after_le (step s x).1 xs (step_le s x h)

    -- while the window lasts
    in_one_window :
        (s : S) (t bound : ℕ) (xs : List X)
        → (meter s).count ≤ limit
        → (meter s).window ≤ t
        → bound ≤ (meter s).window + len
        → Within t bound xs
        → accepted s xs + (meter s).count ≤ limit
    unfolding accepted Within
    in_one_window s t bound [] h w b v = omega arith
    in_one_window s t bound (x ∷ xs) h w b (v, u, v') =
        let ih = in_one_window (step s x).1 (time x) bound xs (step_le s x h) in
        elim (law s x h) [
          | same n e ↦
              let ew = ap (λ m. m.window) e in
              let ec = ap (λ m. m.count) e in
              omega (arith, ih (omega (arith, ew)) (omega (arith, ew)) v', ec, ap tick n)
          | counted p q l ↦ elim (refresh_cases (time x) len (meter s)) [
            | inl (e, a, c) ↦
                let ew = ap (λ m. m.window) e in
                let ec = ap (λ m. m.count) e in
                omega (arith, ih (omega (arith, ew, p)) (omega (arith, ew, p)) v', ec, q)
            | inr (ew, ec, inl c) ↦ absurd (omega arith)
            | inr (ew, ec, inr c) ↦ absurd (omega arith)
          ]
        ]

    -- A window that begins in the time outlasts it.
    pub in_two_windows :
        (s : S) (t now : ℕ) (xs : List X)
        → (meter s).count ≤ limit
        → t ≤ now
        → Within now (t + len) xs
        → accepted s xs + (meter s).count ≤ 2 * limit
    unfolding accepted Within
    in_two_windows s t now [] h w v = omega arith
    in_two_windows s t now (x ∷ xs) h w (v, u, v') =
        let ih = in_two_windows (step s x).1 t (time x) xs (step_le s x h) (omega arith) v' in
        elim (law s x h) [
          | same n e ↦ omega (arith, ih, ap (λ m. m.count) e, ap tick n)
          | counted p q l ↦ elim (refresh_cases (time x) len (meter s)) [
            | inl (e, a, c) ↦ omega (arith, ih, ap (λ m. m.count) e, q)
            | inr (ew, ec, c) ↦
                let rest =
                  in_one_window (step s x).1 (time x) (t + len) xs (step_le s x h)
                    (omega (arith, ew, p)) (omega (arith, ew, p)) v' in
                omega (arith, rest, ec, q)
          ]
        ]
