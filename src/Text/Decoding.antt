-- ===== src/Text/Decoding.antt =====
-- helper/text.c: what passes the test is UTF-8.
use oma_q.Prelude.{
  ℕ, zero, suc, ◌+◌, ◌-◌, ◌*◌, ◌/◌, ◌%◌, ◌≤◌, ◌<◌, ◌≡◌, refl, ap, ◌∙◌, ◌⊎◌, inl, inr, Bool, true,
  some, List, [], ◌∷◌, ◌++◌, ltb, within, length, arith, Option-cases, All,
}
use oma_q.Prelude.Bytes.{Bytes}
use oma_q.Text.{next_char, utf8_from, utf8_bytes_ok}
use oma_q.Text.Encoding.{encode, encode_all, Allowed}

encode_three :
    (v : ℕ)
    → 0x800 ≤ v
    → v < 0x10000
    → encode v ≡ (0xe0 + v / 4096) ∷ (0x80 + v / 64 % 64) ∷ (0x80 + v % 64) ∷ []
unfolding encode
encode_three v l u = ground arith

encode_four :
    (v : ℕ)
    → 0x10000 ≤ v
    → encode v
      ≡ (0xf0 + v / 262144) ∷ (0x80 + v / 4096 % 64) ∷ (0x80 + v / 64 % 64) ∷ (0x80 + v % 64) ∷ []
unfolding encode
encode_four v l = ground arith

three_bytes :
    (first b c v : ℕ)
    → 0xe0 ≤ first
    → 0x80 ≤ b
    → b ≤ 0xbf
    → 0x80 ≤ c
    → c ≤ 0xbf
    → v ≡ (first - 0xe0) * 4096 + (b - 0x80) * 64 + (c - 0x80)
    → (0xe0 + v / 4096 ≡ first) × (0x80 + v / 64 % 64 ≡ b) × (0x80 + v % 64 ≡ c)
three_bytes first b c v h1 h2 h3 h4 h5 e = (omega arith, omega arith, omega arith)

four_bytes :
    (first b c d v : ℕ)
    → 0xf0 ≤ first
    → 0x80 ≤ b
    → b ≤ 0xbf
    → 0x80 ≤ c
    → c ≤ 0xbf
    → 0x80 ≤ d
    → d ≤ 0xbf
    → v ≡ (first - 0xf0) * 262144 + (b - 0x80) * 4096 + (c - 0x80) * 64 + (d - 0x80)
    → (0xf0 + v / 262144 ≡ first)
      × (0x80 + v / 4096 % 64 ≡ b)
      × (0x80 + v / 64 % 64 ≡ c)
      × (0x80 + v % 64 ≡ d)
four_bytes first b c d v h1 h2 h3 h4 h5 h6 h7 e =
    (omega arith, omega arith, omega arith, omega arith)

-- What an accepted round has read.
record Decoded (reject : Bool) (read left : Bytes) : Type 0 where
  value : ℕ
  allowed : Allowed reject value
  bytes : read ≡ encode value ++ left

module _ (reject : Bool) (first : ℕ) (t : Bytes) where
  decode_one :
      (rest : Bytes)
      → first < 0x80
      → next_char reject first rest ≡ some t
      → Decoded reject (first ∷ rest) t
  unfolding next_char encode
  decode_one rest l h = record {
    value = first;
    allowed = record {
      nonzero = ground arith;
      in_range = ground arith;
      no_surrogate = ground arith;
      no_control = ground arith;
    };
    bytes = ground arith;
  }

  decode_two :
      (b : ℕ) (s : Bytes)
      → 0xc2 ≤ first
      → first ≤ 0xdf
      → next_char reject first (b ∷ s) ≡ some t
      → Decoded reject (first ∷ b ∷ s) t
  unfolding next_char encode
  decode_two b s l u h = record {
    value = (first - 0xc0) * 64 + (b - 0x80);
    allowed = record {
      nonzero = ground arith;
      in_range = ground arith;
      no_surrogate = ground arith;
      no_control = ground arith;
    };
    bytes = ground arith;
  }

  decode_three :
      (b c : ℕ) (s : Bytes)
      → 0xe0 ≤ first
      → first ≤ 0xef
      → next_char reject first (b ∷ c ∷ s) ≡ some t
      → Decoded reject (first ∷ b ∷ c ∷ s) t
  unfolding next_char
  decode_three b c s l u h = record {
    value = (first - 0xe0) * 4096 + (b - 0x80) * 64 + (c - 0x80);
    allowed = record {
      nonzero = ground arith;
      in_range = ground arith;
      no_surrogate = ground arith;
      no_control = ground arith;
    };
    bytes = bytes;
  }
    where
      v : ℕ
      v = (first - 0xe0) * 4096 + (b - 0x80) * 64 + (c - 0x80)

      parts : (0xe0 + v / 4096 ≡ first) × (0x80 + v / 64 % 64 ≡ b) × (0x80 + v % 64 ≡ c)
      parts =
          three_bytes first b c v l (ground arith) (ground arith) (ground arith) (ground arith) refl

      bytes : first ∷ b ∷ c ∷ s ≡ encode v ++ t
      bytes =
          rw (encode_three v (ground arith) (ground arith), parts.0, parts.1, parts.2)
            (ground arith)

  decode_four :
      (b c d : ℕ) (s : Bytes)
      → 0xf0 ≤ first
      → first ≤ 0xf4
      → next_char reject first (b ∷ c ∷ d ∷ s) ≡ some t
      → Decoded reject (first ∷ b ∷ c ∷ d ∷ s) t
  unfolding next_char
  decode_four b c d s l u h = record {
    value = (first - 0xf0) * 262144 + (b - 0x80) * 4096 + (c - 0x80) * 64 + (d - 0x80);
    allowed = record {
      nonzero = ground arith;
      in_range = ground arith;
      no_surrogate = ground arith;
      no_control = ground arith;
    };
    bytes = bytes;
  }
    where
      v : ℕ
      v = (first - 0xf0) * 262144 + (b - 0x80) * 4096 + (c - 0x80) * 64 + (d - 0x80)

      parts :
          (0xf0 + v / 262144 ≡ first)
          × (0x80 + v / 4096 % 64 ≡ b)
          × (0x80 + v / 64 % 64 ≡ c)
          × (0x80 + v % 64 ≡ d)
      parts =
          four_bytes first b c d v l (ground arith) (ground arith) (ground arith) (ground arith)
            (ground arith) (ground arith) refl

      bytes : first ∷ b ∷ c ∷ d ∷ s ≡ encode v ++ t
      bytes = rw (encode_four v (ground arith), parts.0, parts.1, parts.2, parts.3) (ground arith)

-- A round that goes on has seen a lead byte of one of four ranges, and the bytes behind it.
data Lead (reject : Bool) (first : ℕ) (t : Bytes) : Bytes → Type 0 where
  one : {s : Bytes} → first < 0x80 → Lead reject first t s
  two : {b : ℕ} {s : Bytes} → 0xc2 ≤ first → first ≤ 0xdf → Lead reject first t (b ∷ s)
  three : {b c : ℕ} {s : Bytes} → 0xe0 ≤ first → first ≤ 0xef → Lead reject first t (b ∷ c ∷ s)
  four : {b c d : ℕ} {s : Bytes} → 0xf0 ≤ first → first ≤ 0xf4 → Lead reject first t (b ∷ c ∷ d ∷ s)

lead_ranges :
    (reject : Bool) (first : ℕ) (rest t : Bytes)
    → next_char reject first rest ≡ some t
    → (ltb first 0x80 ≡ true)
      ⊎ (within 0xc2 0xdf first ≡ true)
      ⊎ (within 0xe0 0xef first ≡ true)
      ⊎ (within 0xf0 0xf4 first ≡ true)
unfolding next_char
lead_ranges reject first rest t h = ground arith

lead :
    (reject : Bool) (first : ℕ) (rest t : Bytes)
    → next_char reject first rest ≡ some t
    → Lead reject first t rest
unfolding next_char
lead reject first [] t h = elim (lead_ranges reject first [] t h) [
  | inl r ↦ one (ground arith)
  | inr (inl r) ↦ absurd (ground arith)
  | inr (inr (inl r)) ↦ absurd (ground arith)
  | inr (inr (inr r)) ↦ absurd (ground arith)
]
lead reject first (b ∷ []) t h = elim (lead_ranges reject first (b ∷ []) t h) [
  | inl r ↦ one (ground arith)
  | inr (inl r) ↦ two (ground arith) (ground arith)
  | inr (inr (inl r)) ↦ absurd (ground arith)
  | inr (inr (inr r)) ↦ absurd (ground arith)
]
lead reject first (b ∷ c ∷ []) t h = elim (lead_ranges reject first (b ∷ c ∷ []) t h) [
  | inl r ↦ one (ground arith)
  | inr (inl r) ↦ two (ground arith) (ground arith)
  | inr (inr (inl r)) ↦ three (ground arith) (ground arith)
  | inr (inr (inr r)) ↦ absurd (ground arith)
]
lead reject first (b ∷ c ∷ d ∷ s) t h = elim (lead_ranges reject first (b ∷ c ∷ d ∷ s) t h) [
  | inl r ↦ one (ground arith)
  | inr (inl r) ↦ two (ground arith) (ground arith)
  | inr (inr (inl r)) ↦ three (ground arith) (ground arith)
  | inr (inr (inr r)) ↦ four (ground arith) (ground arith)
]

decode_lead :
    (reject : Bool) (first : ℕ) (rest t : Bytes)
    → Lead reject first t rest
    → next_char reject first rest ≡ some t
    → Decoded reject (first ∷ rest) t
decode_lead reject first rest t (one l) h = decode_one reject first t rest l h
decode_lead reject first (b ∷ s) t (two l u) h = decode_two reject first t b s l u h
decode_lead reject first (b ∷ c ∷ s) t (three l u) h = decode_three reject first t b c s l u h
decode_lead reject first (b ∷ c ∷ d ∷ s) t (four l u) h = decode_four reject first t b c d s l u h

decode_from :
    (fuel : ℕ) (reject : Bool) (s : Bytes)
    → utf8_from fuel reject s ≡ true
    → (cs : List ℕ) × (s ≡ encode_all cs) × All (Allowed reject) cs
unfolding utf8_from encode_all
decode_from zero reject s h = cc
decode_from (suc fuel) reject [] h = ([], refl, tt)
decode_from (suc fuel) reject (first ∷ rest) h = elim (Option-cases (next_char reject first rest)) [
  | inl e ↦ cc (rw (e, utf8_from) at h)
  | inr (t, e) ↦
      let d = decode_lead reject first rest t (lead reject first rest t e) e in
      let (cs, p, a) = decode_from fuel reject t (rw (e, utf8_from) at h) in
      (d.value ∷ cs, d.bytes ∙ ap (◌++◌ (encode d.value)) p, (d.allowed, a))
]

-- What passes is the UTF-8 form of a sequence of scalar values, none of them U+0000; where
-- controls are refused, it has none.
pub utf8_bytes_ok_sound :
    (s : Bytes) (reject : Bool)
    → utf8_bytes_ok s reject ≡ true
    → (cs : List ℕ) × (s ≡ encode_all cs) × All (Allowed reject) cs
unfolding utf8_bytes_ok
utf8_bytes_ok_sound s reject h = decode_from (suc (length s)) reject s h
