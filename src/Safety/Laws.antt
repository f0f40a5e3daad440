-- ===== src/Safety/Laws.antt =====
-- helper/safety.c: what the safety code depends on.
use oma_q.Prelude.{
  ℕ, zero, suc, ◌*◌, ◌≤◌, ◌≡◌, inl, inr, refl, sym, ap, true, false, some, [], ◌∷◌, ◌++◌, ltb, take,
  drop, length-take, length-drop, length-append, take-append-drop, ◌∙◌, ◌⊎◌, length, Option-cases,
  Bool-cases, arith,
}
use oma_q.Prelude.Bytes.{Bytes, codes}
use oma_q.Safety.{lower_all, lower_hex64, groups, group16, strcmp_le, print_pair, safety_code}

strcmp_le_total : (a b : Bytes) → strcmp_le a b ≡ false → strcmp_le b a ≡ true
unfolding strcmp_le
strcmp_le_total [] b h = ground arith
strcmp_le_total (x ∷ a) [] h = refl
strcmp_le_total (x ∷ a) (y ∷ b) h = ground (arith, strcmp_le_total a b)

strcmp_le_antisym : (a b : Bytes) → strcmp_le a b ≡ true → strcmp_le b a ≡ true → a ≡ b
unfolding strcmp_le
strcmp_le_antisym [] [] h k = refl
strcmp_le_antisym [] (y ∷ b) h k = ground arith
strcmp_le_antisym (x ∷ a) [] h k = ground arith
strcmp_le_antisym (x ∷ a) (y ∷ b) h k = ground (arith, strcmp_le_antisym a b)

print_pair_comm : (n : ℕ) (a b : Bytes) → print_pair n a b ≡ print_pair n b a
print_pair_comm n a b = elim (Bool-cases (strcmp_le a b)) [
  | inr h ↦ rw (h, strcmp_le_total a b h) refl
  | inl h ↦ elim (Bool-cases (strcmp_le b a)) [
    | inr k ↦ rw (h, k) refl
    | inl k ↦ rw (strcmp_le_antisym a b h k) refl
  ]
]

-- Both friends see the same code: it does not depend on the order of the keys.
pub safety_code_comm : (a b : Bytes) (n : ℕ) → safety_code a b n ≡ safety_code b a n
unfolding safety_code
safety_code_comm a b n = elim (Bool-cases (ltb n 8)) [
  | inl h ↦ rw h refl
  | inr h ↦ elim (Option-cases (lower_hex64 a)) [
    | inl p ↦ elim (Option-cases (lower_hex64 b)) [
      | inl q ↦ rw (h, p, q) refl
      | inr (y, q) ↦ rw (h, q, p) refl
    ]
    | inr (x, p) ↦ elim (Option-cases (lower_hex64 b)) [
      | inl q ↦ rw (h, p, q) refl
      | inr (y, q) ↦ rw (h, p, q, p) (print_pair_comm n x y)
    ]
  ]
]

append_inj : (a b c d : Bytes) → length a ≡ length c → a ++ b ≡ c ++ d → (a ≡ c) × (b ≡ d)
append_inj [] b [] d h e = (refl, e)
append_inj [] b (y ∷ c) d h e = absurd (omega arith)
append_inj (x ∷ a) b [] d h e = absurd (omega arith)
append_inj (x ∷ a) b (y ∷ c) d h e = ground (arith, append_inj a b c d)

-- the first four bytes and what follows them determine a text of at least four
four_inj :
    (a b u v : Bytes)
    → 4 ≤ length a
    → 4 ≤ length b
    → take 4 a ++ u ≡ take 4 b ++ v
    → (take 4 a ≡ take 4 b) × (u ≡ v)
four_inj a b u v h k e =
    append_inj (take 4 a) u (take 4 b) v (omega (arith, length-take 4 a, length-take 4 b)) e

rejoin : (a b : Bytes) → take 4 a ≡ take 4 b → drop 4 a ≡ drop 4 b → a ≡ b
rejoin a b p q =
    sym (take-append-drop 4 a)
    ∙ ap (λ x. x ++ drop 4 a) p
    ∙ ap (λ x. take 4 b ++ x) q
    ∙ take-append-drop 4 b

tail_inj : {x : ℕ} {u v : Bytes} → x ∷ u ≡ x ∷ v → u ≡ v
tail_inj h = cc

groups_inj :
    (n : ℕ) (a b : Bytes) → length a ≡ 4 * n → length b ≡ 4 * n → groups n a ≡ groups n b → a ≡ b
unfolding groups
groups_inj zero [] [] h k e = refl
groups_inj zero (x ∷ a) b h k e = absurd (omega arith)
groups_inj zero [] (y ∷ b) h k e = absurd (omega arith)
groups_inj (suc n) a b h k e =
    let (p, q) =
      four_inj a b (groups n (drop 4 a)) (groups n (drop 4 b)) (omega arith) (omega arith)
        (tail_inj e) in
    rejoin a b p (
      groups_inj n (drop 4 a) (drop 4 b) (omega (arith, length-drop 4 a))
        (omega (arith, length-drop 4 b)) q)

group16_inj : (a b : Bytes) → length a ≡ 64 → length b ≡ 64 → group16 a ≡ group16 b → a ≡ b
unfolding group16
group16_inj a b h k e =
    let (p, q) =
      four_inj a b (groups 15 (drop 4 a)) (groups 15 (drop 4 b)) (omega arith) (omega arith) e in
    rejoin a b p (
      groups_inj 15 (drop 4 a) (drop 4 b) (omega (arith, length-drop 4 a))
        (omega (arith, length-drop 4 b)) q)

length-groups : (n : ℕ) (a : Bytes) → length a ≡ 4 * n → length (groups n a) ≡ 5 * n
unfolding groups
length-groups zero a h = omega arith
length-groups (suc n) a h = omega (
  arith,
  length-append (take 4 a) (groups n (drop 4 a)),
  length-take 4 a,
  length-groups n (drop 4 a) (omega (arith, length-drop 4 a)),
)

length-group16 : (a : Bytes) → length a ≡ 64 → length (group16 a) ≡ 79
unfolding group16
length-group16 a h = omega (
  arith,
  length-append (take 4 a) (groups 15 (drop 4 a)),
  length-take 4 a,
  length-groups 15 (drop 4 a) (omega (arith, length-drop 4 a)),
)

length-lower_all : (s x : Bytes) → lower_all s ≡ some x → length x ≡ length s
unfolding lower_all
length-lower_all [] x h = ground arith
length-lower_all (c ∷ s) x h = elim (Option-cases (lower_all s)) [
  | inl e ↦ ground arith
  | inr (y, e) ↦ ground (arith, length-lower_all s y e)
]

length-lower_hex64 : (s x : Bytes) → lower_hex64 s ≡ some x → length x ≡ 64
unfolding lower_hex64
length-lower_hex64 s x h = ground (arith, length-lower_all s x)

-- the text shown for two keys of lower-case digits
abbrev pair_text : Bytes → Bytes → Bytes
pair_text x y = group16 x ++ (codes " / " ++ group16 y)

pair_text_inj :
    (x y u v : Bytes)
    → length x ≡ 64
    → length y ≡ 64
    → length u ≡ 64
    → length v ≡ 64
    → pair_text x y ≡ pair_text u v
    → (x ≡ u) × (y ≡ v)
pair_text_inj x y u v hx hy hu hv e =
    let (p, q) =
      append_inj (group16 x) (codes " / " ++ group16 y) (group16 u) (codes " / " ++ group16 v)
        (omega (arith, length-group16 x hx, length-group16 u hu)) e in
    (
      group16_inj x u hx hu p,
      group16_inj y v hy hv (append_inj (codes " / ") _ (codes " / ") _ refl q).1,
    )

print_pair_cases :
    (n : ℕ) (x y s : Bytes) → print_pair n x y ≡ some s → (s ≡ pair_text x y) ⊎ (s ≡ pair_text y x)
print_pair_cases n x y s h = elim (Bool-cases (strcmp_le x y)) [
  | inl e ↦ inl (ground arith)
  | inr e ↦ inr (ground arith)
]

code_keys :
    (a b : Bytes) (n : ℕ) (s : Bytes)
    → safety_code a b n ≡ some s
    → (x : Bytes) × (y : Bytes) × (lower_hex64 a ≡ some x)
      × (lower_hex64 b ≡ some y)
      × ((s ≡ pair_text x y) ⊎ (s ≡ pair_text y x))
unfolding safety_code
code_keys a b n s h = elim (Option-cases (lower_hex64 a)) [
  | inl p ↦ ground arith
  | inr (x, p) ↦ elim (Option-cases (lower_hex64 b)) [
    | inl q ↦ ground arith
    | inr (y, q) ↦ (x, y, p, q, print_pair_cases n x y s (ground arith))
  ]
]

-- The code determines the two keys, less the case of their digits: pairs of keys with the same
-- code are the same, in this order or the other.
pub safety_code_inj :
    (a b c d : Bytes) (n m : ℕ) (s : Bytes)
    → safety_code a b n ≡ some s
    → safety_code c d m ≡ some s
    → ((lower_hex64 a ≡ lower_hex64 c) × (lower_hex64 b ≡ lower_hex64 d))
      ⊎ ((lower_hex64 a ≡ lower_hex64 d) × (lower_hex64 b ≡ lower_hex64 c))
safety_code_inj a b c d n m s h k =
    let (x, y, p, q, e) = code_keys a b n s h in
    let (u, v, p', q', e') = code_keys c d m s k in
    let lx = length-lower_hex64 a x p in
    let ly = length-lower_hex64 b y q in
    let lu = length-lower_hex64 c u p' in
    let lv = length-lower_hex64 d v q' in
    elim e [
      | inl f ↦ elim e' [
        | inl g ↦
            let (i, j) = pair_text_inj x y u v lx ly lu lv (sym f ∙ g) in
            inl (p ∙ ap some i ∙ sym p', q ∙ ap some j ∙ sym q')
        | inr g ↦
            let (i, j) = pair_text_inj x y v u lx ly lv lu (sym f ∙ g) in
            inr (p ∙ ap some i ∙ sym q', q ∙ ap some j ∙ sym p')
      ]
      | inr f ↦ elim e' [
        | inl g ↦
            let (j, i) = pair_text_inj y x u v ly lx lu lv (sym f ∙ g) in
            inr (p ∙ ap some i ∙ sym q', q ∙ ap some j ∙ sym p')
        | inr g ↦
            let (j, i) = pair_text_inj y x v u ly lx lv lu (sym f ∙ g) in
            inl (p ∙ ap some i ∙ sym p', q ∙ ap some j ∙ sym q')
      ]
    ]
