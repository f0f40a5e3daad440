-- ===== src/Json/Escapes.antt =====
-- helper/json_io.c: escaped texts pass the test of strings.
use oma_q.Prelude.{
  ℕ, zero, suc, ◌-◌, ◌<◌, ◌≤◌, ◌≡◌, refl, sym, ap, subst, ◌∙◌, true, false, some, [], ◌∷◌, ◌++◌,
  append_assoc, drop, ltb, leb, ◌==◌, within, length, Bool-cases, Option-cases, inl, inr, arith,
}
use oma_q.Prelude.Bytes.{Bytes}
use oma_q.Text.{next_char, utf8_from, utf8_bytes_ok}
use oma_q.Json.{quote, backslash, escape_char, rep_length, escape_from, json_escape}
use oma_q.Json.Strings.{put_sound}
use oma_q.Json.Validate.{
  char_need, all_continue, second_ok, validate_utf8_char, string_from, validate_string,
}

-- One byte below 0x80, escaped or not.
low_step :
    (c : ℕ) (rep x : Bytes)
    → c < 0x80
    → escape_char c ≡ some rep
    → string_from 0 (rep ++ x) ≡ string_from 0 x
unfolding escape_char string_from
low_step c rep x l h = elim (Bool-cases (c == quote)) [
  | inl e ↦
      let q : backslash ∷ quote ∷ [] ≡ rep = ground arith in
      subst (λ r. string_from 0 (r ++ x) ≡ string_from 0 x) q refl
  | inr e ↦ elim (Bool-cases (c == backslash)) [
    | inl f ↦
        let q : backslash ∷ backslash ∷ [] ≡ rep = ground arith in
        subst (λ r. string_from 0 (r ++ x) ≡ string_from 0 x) q refl
    | inr f ↦ elim (Bool-cases (c == 10)) [
      | inl g ↦
          let q : backslash ∷ b'n' ∷ [] ≡ rep = ground arith in
          subst (λ r. string_from 0 (r ++ x) ≡ string_from 0 x) q refl
      | inr g ↦ elim (Bool-cases (c == 13)) [
        | inl k ↦
            let q : backslash ∷ b'r' ∷ [] ≡ rep = ground arith in
            subst (λ r. string_from 0 (r ++ x) ≡ string_from 0 x) q refl
        | inr k ↦ elim (Bool-cases (c == 9)) [
          | inl m ↦
              let q : backslash ∷ b't' ∷ [] ≡ rep = ground arith in
              subst (λ r. string_from 0 (r ++ x) ≡ string_from 0 x) q refl
          | inr m ↦ elim (Bool-cases (ltb c 0x20)) [
            | inl n ↦ ground arith
            | inr n ↦
                let q : c ∷ [] ≡ rep = ground arith in
                let high : leb 0x80 c ≡ false = ground arith in
                subst (λ r. string_from 0 (r ++ x) ≡ string_from 0 x) q
                  (rw (e, n, high, f, string_from) refl)
          ]
        ]
      ]
    ]
  ]
]

high-escape_char : (c : ℕ) → 0x80 ≤ c → escape_char c ≡ some (c ∷ [])
unfolding escape_char
high-escape_char c l = ground arith

-- A byte from 0x80 on is left as it is.
high_byte :
    (r c : ℕ) (s e : Bytes)
    → 0x80 ≤ c
    → escape_from r (c ∷ s) ≡ some e
    → (t : Bytes) × (escape_from (r - 1) s ≡ some t) × (e ≡ c ∷ t)
unfolding escape_from
high_byte r c s e l h =
    let p = high-escape_char c l in
    put_sound r (c ∷ []) e (escape_from (r - 1) s) (ground (arith, h, p))

high_step :
    (c n : ℕ) (x : Bytes)
    → 0x80 ≤ c
    → validate_utf8_char c x ≡ some n
    → string_from 0 (c ∷ x) ≡ string_from n x
unfolding string_from
high_step c n x l h =
    let e1 : (c == quote) ≡ false = ground arith in
    let e2 : ltb c 0x20 ≡ false = ground arith in
    let e3 : leb 0x80 c ≡ true = ground arith in rw (e1, e2, e3, h, string_from) refl

-- The statement about a text, its escaped form and what stands behind.
Passes : Bytes → Bytes → Type 0
Passes s rest =
    (r : ℕ) (e : Bytes) → escape_from r s ≡ some e → string_from 0 (e ++ quote ∷ rest) ≡ some rest

module _ (c : ℕ) (left rest : Bytes) (ih : Passes left rest) where
  escape_char-Passes :
      (s : Bytes) → c < 0x80 → next_char false c s ≡ some left → Passes (c ∷ s) rest
  unfolding next_char escape_from Passes
  escape_char-Passes s l h r e x = elim (Option-cases (escape_char c)) [
    | inl p ↦ ground (arith, x, p)
    | inr (rep, p) ↦
        let q : s ≡ left = ground (arith, h) in
        let (t, y, z) =
          put_sound r rep e (escape_from (r - rep_length (escape_char c)) s)
            (ground (arith, x, p)) in
        let m =
          ih (r - rep_length (escape_char c)) t
            (ap (escape_from (r - rep_length (escape_char c))) (sym q) ∙ y) in
        subst (λ w. string_from 0 (w ++ quote ∷ rest) ≡ some rest) (sym z)
          (subst (λ w. string_from 0 w ≡ some rest) (sym (append_assoc rep t (quote ∷ rest)))
            (low_step c rep (t ++ quote ∷ rest) l p ∙ m))
  ]

-- A character of several bytes that the test for UTF-8 has read.
record Several (c : ℕ) (s left : Bytes) : Type 0 where
  n : ℕ
  need : char_need c ≡ some (suc n)
  continues : all_continue (suc n) s ≡ true
  second : second_ok c s ≡ true
  rest : left ≡ drop (suc n) s

module _ (c : ℕ) (left : Bytes) where
  two_bytes : (s : Bytes) → 0xc2 ≤ c → c ≤ 0xdf → next_char false c s ≡ some left → Several c s left
  unfolding next_char
  two_bytes [] l u h = ground (arith, h)
  two_bytes (b ∷ s) l u h = record {
    n = 0;
    need = ground arith;
    continues = ground (arith, h);
    second = ground arith;
    rest = ground (arith, h);
  }

  three_bytes :
      (s : Bytes) → 0xe0 ≤ c → c ≤ 0xef → next_char false c s ≡ some left → Several c s left
  unfolding next_char
  three_bytes [] l u h = ground (arith, h)
  three_bytes (b ∷ []) l u h = ground (arith, h)
  three_bytes (b ∷ d ∷ s) l u h = record {
    n = 1;
    need = ground arith;
    continues = ground (arith, h);
    second = ground (arith, h);
    rest = ground (arith, h);
  }

  four_bytes :
      (s : Bytes) → 0xf0 ≤ c → c ≤ 0xf4 → next_char false c s ≡ some left → Several c s left
  unfolding next_char
  four_bytes [] l u h = ground (arith, h)
  four_bytes (b ∷ []) l u h = ground (arith, h)
  four_bytes (b ∷ d ∷ []) l u h = ground (arith, h)
  four_bytes (b ∷ d ∷ g ∷ s) l u h = record {
    n = 2;
    need = ground arith;
    continues = ground (arith, h);
    second = ground (arith, h);
    rest = ground (arith, h);
  }

  no_character :
      (s : Bytes)
      → 0x80 ≤ c
      → within 0xc2 0xdf c ≡ false
      → within 0xe0 0xef c ≡ false
      → within 0xf0 0xf4 c ≡ false
      → next_char false c s ≡ some left
      → Several c s left
  unfolding next_char
  no_character s l e f g h = ground (arith, h)

  next_char-Several : (s : Bytes) → 0x80 ≤ c → next_char false c s ≡ some left → Several c s left
  next_char-Several s l h = elim (Bool-cases (within 0xc2 0xdf c)) [
    | inl e ↦ two_bytes s (ground arith) (ground arith) h
    | inr e ↦ elim (Bool-cases (within 0xe0 0xef c)) [
      | inl f ↦ three_bytes s (ground arith) (ground arith) h
      | inr f ↦ elim (Bool-cases (within 0xf0 0xf4 c)) [
        | inl g ↦ four_bytes s (ground arith) (ground arith) h
        | inr g ↦ no_character s l e f g h
      ]
    ]
  ]

-- The bytes behind the first one are left as they are.
all_continue-Passes :
    (n : ℕ) (s rest : Bytes)
    → all_continue n s ≡ true
    → Passes (drop n s) rest
    → (r : ℕ) (e : Bytes) → escape_from r s ≡ some e
    → (string_from n (e ++ quote ∷ rest) ≡ some rest) × (all_continue n (e ++ quote ∷ rest) ≡ true)
unfolding Passes string_from
all_continue-Passes zero s rest a p r e x = (p r e x, refl)
all_continue-Passes (suc n) [] rest a p r e x = ground arith
all_continue-Passes (suc n) (c ∷ s) rest a p r e x =
    let (t, y, z) = high_byte r c s e (ground arith) x in
    let (u, v) = all_continue-Passes n s rest (ground arith) p (r - 1) t y in
    let w : within 0x80 0xbf c ≡ true = ground arith in
    subst
      (λ q.
        (string_from (suc n) (q ++ quote ∷ rest) ≡ some rest)
        × (all_continue (suc n) (q ++ quote ∷ rest) ≡ true))
      (sym z) (u, rw w v)

second_kept :
    (n c r : ℕ) (s e x : Bytes)
    → all_continue (suc n) s ≡ true
    → escape_from r s ≡ some e
    → second_ok c (e ++ x) ≡ second_ok c s
second_kept n c r [] e x a h = ground arith
second_kept n c r (b ∷ s) e x a h =
    let (t, y, z) = high_byte r b s e (ground arith) h in ap (λ q. second_ok c (q ++ x)) z

Several-Passes :
    (c : ℕ) (s left rest : Bytes)
    → 0x80 ≤ c
    → Several c s left
    → Passes left rest
    → Passes (c ∷ s) rest
unfolding Passes validate_utf8_char
Several-Passes c s left rest l v p r e x =
    let (t, y, z) = high_byte r c s e l x in
    let (u, a) =
      all_continue-Passes (suc v.n) s rest v.continues (subst (λ w. Passes w rest) v.rest p) (r - 1)
        t y in
    let b = second_kept v.n c (r - 1) s t (quote ∷ rest) v.continues y ∙ v.second in
    let ok : validate_utf8_char c (t ++ quote ∷ rest) ≡ some (suc v.n) =
      rw (v.need, validate_utf8_char, a, b) refl in
    subst (λ w. string_from 0 (w ++ quote ∷ rest) ≡ some rest) (sym z)
      (high_step c (suc v.n) (t ++ quote ∷ rest) l ok ∙ u)

all_pass : (fuel : ℕ) (s rest : Bytes) → utf8_from fuel false s ≡ true → Passes s rest
unfolding utf8_from Passes escape_from string_from
all_pass zero s rest h r e x = ground arith
all_pass (suc fuel) [] rest h r e x =
    let q : [] ≡ e = ground (arith, x) in
    subst (λ w. string_from 0 (w ++ quote ∷ rest) ≡ some rest) q refl
all_pass (suc fuel) (c ∷ s) rest h r e x = elim (Option-cases (next_char false c s)) [
  | inl g ↦ ground arith
  | inr (left, g) ↦
      let ih = all_pass fuel left rest (ground (arith, h, g)) in
      elim (Bool-cases (ltb c 0x80)) [
        | inl l ↦ escape_char-Passes c left rest ih s (ground arith) g r e x
        | inr l ↦
            Several-Passes c s left rest (ground arith)
              (next_char-Several c left s (ground arith) g) ih r e x
      ]
]

-- The texts of events are valid JSON: whatever text in UTF-8 escaping accepts, the test of strings
-- accepts its escaped form between quotes, and goes on behind them.
pub validate_string-json_escape :
    (s e rest : Bytes) (outn : ℕ)
    → utf8_bytes_ok s false ≡ true
    → json_escape s outn ≡ some e
    → validate_string (quote ∷ (e ++ quote ∷ rest)) ≡ some rest
unfolding utf8_bytes_ok json_escape validate_string Passes
validate_string-json_escape s e rest outn u h =
    all_pass (suc (length s)) s rest u outn e (ground (arith, h))
