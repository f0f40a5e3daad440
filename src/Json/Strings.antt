-- ===== src/Json/Strings.antt =====
-- helper/json_io.c: what is escaped is read back.
use oma_q.Prelude.{
  ℕ, ◌+◌, ◌-◌, ◌<◌, ◌≤◌, ◌≡◌, refl, sym, ap, subst, ◌∙◌, Bool, true, false, Option, none, some, [],
  ◌∷◌, ◌++◌, ltb, ◌==◌, length, Bool-cases, Option-cases, inl, inr, arith,
}
use oma_q.Prelude.Bytes.{Bytes, lacks}
use oma_q.Text.{utf8_bytes_ok}
use oma_q.Json.{
  quote, backslash, unescape, keep, read_chars, parse_string, escape_char, put_rep, escape_from,
  json_escape,
}

-- The characters that escaping leaves as they are, and those that it writes as a letter behind a
-- backslash.
data Escaped (c : ℕ) : Type 0 where
  plain :
      escape_char c ≡ some (c ∷ [])
      → (c == quote) ≡ false
      → (c == backslash) ≡ false
      → ltb c 0x20 ≡ false
      → Escaped c
  letter : (d : ℕ) → escape_char c ≡ some (backslash ∷ d ∷ []) → unescape d ≡ some c → Escaped c
  return_sign : c ≡ 13 → Escaped c
  control : escape_char c ≡ none → Escaped c

escape_char-Escaped : (c : ℕ) → Escaped c
unfolding escape_char unescape
escape_char-Escaped c = elim (Bool-cases (c == quote)) [
  | inl e ↦ letter quote (ground arith) (ground arith)
  | inr e ↦ elim (Bool-cases (c == backslash)) [
    | inl f ↦ letter backslash (ground arith) (ground arith)
    | inr f ↦ elim (Bool-cases (c == 10)) [
      | inl g ↦ letter b'n' (ground arith) (ground arith)
      | inr g ↦ elim (Bool-cases (c == 13)) [
        | inl h ↦ return_sign (ground arith)
        | inr h ↦ elim (Bool-cases (c == 9)) [
          | inl k ↦ letter b't' (ground arith) (ground arith)
          | inr k ↦ elim (Bool-cases (ltb c 0x20)) [
            | inl m ↦ control (ground arith)
            | inr m ↦ plain (ground arith) e f m
          ]
        ]
      ]
    ]
  ]
]

pub put_sound :
    (room : ℕ) (rep s : Bytes) (r : Option Bytes)
    → put_rep room (some rep) r ≡ some s
    → (t : Bytes) × (r ≡ some t) × (s ≡ rep ++ t)
put_sound room rep s none h = ground arith
put_sound room rep s (some t) h = elim (Bool-cases (ltb room (length rep + 1))) [
  | inl e ↦ ground arith
  | inr e ↦ (t, refl, ground arith)
]

kept : (room c : ℕ) (t rest : Bytes) → 0 < room → keep room c (some (t, rest)) ≡ some (c ∷ t, rest)
kept room c t rest h = ground arith

read_plain :
    (room c : ℕ) (s : Bytes)
    → (c == quote) ≡ false
    → (c == backslash) ≡ false
    → ltb c 0x20 ≡ false
    → read_chars false room (c ∷ s) ≡ keep room c (read_chars false (room - 1) s)
unfolding read_chars
read_plain room c s e f g = rw (e, f, g, read_chars) refl

read_letter :
    (room c d : ℕ) (s : Bytes)
    → unescape d ≡ some c
    → read_chars false room (backslash ∷ d ∷ s) ≡ keep room c (read_chars false (room - 1) s)
unfolding read_chars
read_letter room c d s e = rw (e, read_chars) refl

read_escaped :
    (s e rest : Bytes) (r room : ℕ)
    → escape_from r s ≡ some e
    → lacks 13 s ≡ true
    → length s ≤ room
    → read_chars false room (e ++ quote ∷ rest) ≡ some (s, rest)
unfolding escape_from read_chars
read_escaped [] e rest r room h l b =
    let q : [] ≡ e = ground (arith, h) in
    subst (λ x. read_chars false room (x ++ quote ∷ rest) ≡ some ([], rest)) q refl
read_escaped (c ∷ s) e rest r room h l b = elim (escape_char-Escaped c) [
  | plain p q f g ↦
      let (t, x, y) = put_sound r (c ∷ []) e (escape_from (r - 1) s) (ground (arith, h, p)) in
      let ih = read_escaped s t rest (r - 1) (room - 1) x (ground (arith, l)) (omega arith) in
      subst (λ z. read_chars false room (z ++ quote ∷ rest) ≡ some (c ∷ s, rest)) (sym y)
        (read_plain room c (t ++ quote ∷ rest) q f g
          ∙ ap (keep room c) ih
          ∙ kept room c s rest (omega arith))
  | letter d p u ↦
      let (t, x, y) =
        put_sound r (backslash ∷ d ∷ []) e (escape_from (r - 2) s) (ground (arith, h, p)) in
      let ih = read_escaped s t rest (r - 2) (room - 1) x (ground (arith, l)) (omega arith) in
      subst (λ z. read_chars false room (z ++ quote ∷ rest) ≡ some (c ∷ s, rest)) (sym y)
        (read_letter room c d (t ++ quote ∷ rest) u
          ∙ ap (keep room c) ih
          ∙ kept room c s rest (omega arith))
  | return_sign p ↦ absurd (ground (arith, l, p))
  | control p ↦ ground (arith, h, p)
]

-- What is escaped is read back: a text without carriage returns, in UTF-8, that escaping accepts
-- is what the reader of strings finds between the quotes, and it goes on behind them, if the
-- array has room for the text and its terminator.
pub parse_string-json_escape :
    (s e rest : Bytes) (outn dstlen : ℕ)
    → json_escape s outn ≡ some e
    → lacks 13 s ≡ true
    → utf8_bytes_ok s false ≡ true
    → length s < dstlen
    → parse_string dstlen (quote ∷ (e ++ quote ∷ rest)) ≡ some (s, rest)
unfolding json_escape parse_string
parse_string-json_escape s e rest outn dstlen h l u b =
    let r = read_escaped s e rest outn (dstlen - 1) (ground (arith, h)) l (omega arith) in
    rw (r, u) refl

kept_sound :
    (room c : ℕ) (r : Option (Bytes × Bytes)) (v rest : Bytes)
    → keep room c r ≡ some (v, rest)
    → (t : Bytes) × (r ≡ some (t, rest)) × (v ≡ c ∷ t) × (0 < room)
kept_sound room c none v rest h = ground arith
kept_sound room c (some (t, q)) v rest h = elim (Bool-cases (room == 0)) [
  | inl e ↦ ground arith
  | inr e ↦ (t, ground arith, ground arith, ground arith)
]

-- The text fits, and what is left is shorter than what there was.
read_bounds :
    (s : Bytes) (behind : Bool) (room : ℕ) (v rest : Bytes)
    → read_chars behind room s ≡ some (v, rest)
    → (length v ≤ room) × (length rest < length s)
unfolding read_chars
read_bounds [] behind room v rest h = ground arith
read_bounds (c ∷ s) true room v rest h = elim (Option-cases (unescape c)) [
  | inl e ↦ ground arith
  | inr (d, e) ↦
      let (t, x, y, z) =
        kept_sound room d (read_chars false (room - 1) s) v rest (ground (arith, h, e)) in
      let (p, q) = read_bounds s false (room - 1) t rest x in
      (omega (arith, ap length y, p, z), omega arith)
]
read_bounds (c ∷ s) false room v rest h = elim (Bool-cases (c == quote)) [
  | inl e ↦ ground arith
  | inr e ↦ elim (Bool-cases (c == backslash)) [
    | inl f ↦
        let (p, q) = read_bounds s true room v rest (ground (arith, h, e, f)) in (p, omega arith)
    | inr f ↦ elim (Bool-cases (ltb c 0x20)) [
      | inl g ↦ ground arith
      | inr g ↦
          let (t, x, y, z) =
            kept_sound room c (read_chars false (room - 1) s) v rest
              (sym (read_plain room c s e f g) ∙ h) in
          let (p, q) = read_bounds s false (room - 1) t rest x in
          (omega (arith, ap length y, p, z), omega arith)
    ]
  ]
]

pub parse_string_bounds :
    (n : ℕ) (s v rest : Bytes)
    → 0 < n
    → parse_string n s ≡ some (v, rest)
    → (length v < n) × (utf8_bytes_ok v false ≡ true) × (length rest < length s)
unfolding parse_string
parse_string_bounds n [] v rest p h = ground arith
parse_string_bounds n (c ∷ s) v rest p h = elim (Bool-cases (c == quote)) [
  | inr e ↦ ground arith
  | inl e ↦ elim (Option-cases (read_chars false (n - 1) s)) [
    | inl f ↦ ground arith
    | inr ((t, q), f) ↦ elim (Bool-cases (utf8_bytes_ok t false)) [
      | inr u ↦ ground arith
      | inl u ↦
          let (a, b) = read_bounds s false (n - 1) t q f in
          (ground arith, ground arith, ground arith)
    ]
  ]
]
