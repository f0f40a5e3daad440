-- ===== src/Text/Encoding.antt =====
-- helper/text.c against the definition of UTF-8: the encodings of sequences of scalar values.
use oma_q.Prelude.{
  ℕ, zero, suc, ◌+◌, ◌/◌, ◌%◌, ◌≤◌, ◌<◌, ◌≡◌, refl, ◌∙◌, ◌≢◌, inl, inr, Bool, true, false, ◌||◌,
  some, List, [], ◌∷◌, ◌++◌, ltb, if◌then◌else◌, within, length, arith, Bool-cases, All,
  length-append,
}
use oma_q.Prelude.Bytes.{Bytes}
use oma_q.Text.{next_char, utf8_from, utf8_bytes_ok}

-- the UTF-8 form of a code point
unfoldable pub encode : ℕ → Bytes
encode c =
    if ltb c 0x80
    then c ∷ []
    else if ltb c 0x800
    then (0xc0 + c / 64) ∷ (0x80 + c % 64) ∷ []
    else if ltb c 0x10000
    then (0xe0 + c / 4096) ∷ (0x80 + c / 64 % 64) ∷ (0x80 + c % 64) ∷ []
    else (0xf0 + c / 262144) ∷ (0x80 + c / 4096 % 64) ∷ (0x80 + c / 64 % 64) ∷ (0x80 + c % 64) ∷ []

unfoldable pub encode_all : List ℕ → Bytes
encode_all [] = []
encode_all (c ∷ cs) = encode c ++ encode_all cs

abbrev pub is_control : ℕ → Bool
is_control c = ltb c 0x20 || within 0x7f 0x9f c

-- A Unicode scalar value other than U+0000, and no control character where those are refused.
pub record Allowed (reject : Bool) (c : ℕ) : Type 0 where
  pub nonzero : c ≢ 0
  pub in_range : c < 0x110000
  pub no_surrogate : within 0xd800 0xdfff c ≡ false
  pub no_control : reject ≡ true → is_control c ≡ false

-- One round reads back each of the four forms.
module _ (reject : Bool) (c : ℕ) (s : Bytes) (a : Allowed reject c) where
  read_one : c < 0x80 → next_char reject c s ≡ some s
  unfolding next_char
  read_one h = elim (Bool-cases reject) [
    | inl r ↦ ground (arith, a.nonzero, a.no_control r)
    | inr r ↦ ground (arith, a.nonzero)
  ]

  read_two : 0x80 ≤ c → c < 0x800 → next_char reject (0xc0 + c / 64) ((0x80 + c % 64) ∷ s) ≡ some s
  unfolding next_char
  read_two l h = elim (Bool-cases reject) [
    | inl r ↦ ground (arith, a.no_control r)
    | inr r ↦ ground arith
  ]

  read_three :
      0x800 ≤ c
      → c < 0x10000
      → next_char reject (0xe0 + c / 4096) ((0x80 + c / 64 % 64) ∷ (0x80 + c % 64) ∷ s) ≡ some s
  unfolding next_char
  read_three l h = ground (arith, a.no_surrogate)

  read_four :
      0x10000 ≤ c
      → next_char reject
          (0xf0 + c / 262144)
          ((0x80 + c / 4096 % 64) ∷ (0x80 + c / 64 % 64) ∷ (0x80 + c % 64) ∷ s)
        ≡ some s
  unfolding next_char
  read_four l = ground (arith, a.in_range)

  round-encode : (f : ℕ) → utf8_from (suc f) reject (encode c ++ s) ≡ utf8_from f reject s
  unfolding encode utf8_from
  round-encode f = elim (Bool-cases (ltb c 0x80)) [
    | inl one ↦ rw (one, read_one (ground arith), utf8_from) refl
    | inr more ↦ elim (Bool-cases (ltb c 0x800)) [
      | inl two ↦ rw (more, two, read_two (ground arith) (ground arith), utf8_from) refl
      | inr over ↦ elim (Bool-cases (ltb c 0x10000)) [
        | inl three ↦
            rw (more, over, three, read_three (ground arith) (ground arith), utf8_from) refl
        | inr four ↦ rw (more, over, four, read_four (ground arith), utf8_from) refl
      ]
    ]
  ]

pub length-encode : (c : ℕ) → 0 < length (encode c)
unfolding encode
length-encode c = ground arith

utf8_from-encode_all :
    (reject : Bool) (cs : List ℕ) (fuel : ℕ)
    → length (encode_all cs) < fuel
    → All (Allowed reject) cs
    → utf8_from fuel reject (encode_all cs) ≡ true
unfolding encode_all
utf8_from-encode_all reject cs zero f a = absurd (omega arith)
utf8_from-encode_all reject [] (suc fuel) f a = unfold utf8_from in refl
utf8_from-encode_all reject (c ∷ cs) (suc fuel) f a =
    round-encode reject c (encode_all cs) a.0 fuel
    ∙ utf8_from-encode_all reject cs fuel
        (omega (arith, length-append (encode c) (encode_all cs), length-encode c)) a.1

-- Every sequence of scalar values, none of them U+0000, passes in its UTF-8 form; where controls
-- are refused, if it has none.
pub utf8_bytes_ok-encode_all :
    (reject : Bool) (cs : List ℕ)
    → All (Allowed reject) cs
    → utf8_bytes_ok (encode_all cs) reject ≡ true
unfolding utf8_bytes_ok
utf8_bytes_ok-encode_all reject cs a =
    utf8_from-encode_all reject cs (suc (length (encode_all cs))) (omega arith) a
