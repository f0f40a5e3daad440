-- ===== src/FileNames/Names.antt =====
-- helper/file.c: what the names of files may hold.
use oma_q.Prelude.{
  ℕ, zero, suc, ◌+◌, ◌*◌, ◌%◌, ◌≤◌, ◌<◌, ◌≡◌, refl, sym, ap, subst, ◌∙◌, ◌↔◌, ◌⊎◌, true, false, not,
  ◌||◌, leb, ◌==◌, Option, none, some, [], ◌∷◌, ◌++◌, ltb, within, length, Bool-cases, Option-cases,
  inl, inr, arith,
}
use oma_q.Prelude.Bytes.{Bytes, lacks}
use oma_q.Text.{next_char, utf8_from, utf8_bytes_ok}
use oma_q.FileNames.{
  lead_bits, continue_bits, refused_point, check_point, name_char, name_from, file_name_bytes_ok,
  file_basename, after_last_slash, has_dots, file_name_max,
}

-- the point that a round has accepted
record Accepted (n : ℕ) (o : Option (ℕ × Bytes)) (left : Bytes) : Type 0 where
  point : ℕ
  here : o ≡ some (point, left)
  fits : refused_point n point ≡ false

point_sound :
    (n : ℕ) (o : Option (ℕ × Bytes)) (left : Bytes)
    → check_point n o ≡ some left
    → Accepted n o left
point_sound n none left h = cc
point_sound n (some (c, s)) left h = elim (Bool-cases (refused_point n c)) [
  | inl e ↦ ground arith
  | inr e ↦ record { point = c; here = ground arith; fits = e }
]

-- what the loop over the bytes that follow has read
step_sound :
    (n codepoint b c : ℕ) (s left : Bytes)
    → continue_bits (suc n) codepoint (b ∷ s) ≡ some (c, left)
    → (within 0x80 0xbf b ≡ true) × (continue_bits n (codepoint * 64 + b % 64) s ≡ some (c, left))
unfolding continue_bits
step_sound n codepoint b c s left h = elim (Bool-cases (within 0x80 0xbf b)) [
  | inl e ↦ (e, ground arith)
  | inr e ↦ ground arith
]

module _ (lead : ℕ) (left : Bytes) where
  char_one :
      (rest : Bytes)
      → lead < 0x80
      → name_char lead rest ≡ some left
      → next_char true lead rest ≡ some left
  unfolding name_char lead_bits continue_bits next_char refused_point
  char_one rest l h = ground arith

  char_two :
      (rest : Bytes)
      → 0xc2 ≤ lead
      → lead ≤ 0xdf
      → name_char lead rest ≡ some left
      → next_char true lead rest ≡ some left
  unfolding name_char lead_bits continue_bits next_char refused_point
  char_two [] l u h = ground arith
  char_two (b ∷ s) l u h =
      let a = point_sound 1 (continue_bits 1 (lead % 32) (b ∷ s)) left (ground arith) in
      let (e, f) = step_sound 0 (lead % 32) b a.point s left a.here in ground (arith, a.fits)

  char_three :
      (rest : Bytes)
      → 0xe0 ≤ lead
      → lead ≤ 0xef
      → name_char lead rest ≡ some left
      → next_char true lead rest ≡ some left
  unfolding name_char lead_bits continue_bits next_char refused_point
  char_three [] l u h = ground arith
  char_three (b ∷ []) l u h = ground arith
  char_three (b ∷ c ∷ s) l u h =
      let a = point_sound 2 (continue_bits 2 (lead % 16) (b ∷ c ∷ s)) left (ground arith) in
      let (e, f) = step_sound 1 (lead % 16) b a.point (c ∷ s) left a.here in
      let (g, k) = step_sound 0 ((lead % 16) * 64 + b % 64) c a.point s left f in
      ground (arith, a.fits)

  char_four :
      (rest : Bytes)
      → 0xf0 ≤ lead
      → lead ≤ 0xf4
      → name_char lead rest ≡ some left
      → next_char true lead rest ≡ some left
  unfolding name_char lead_bits continue_bits next_char refused_point
  char_four [] l u h = ground arith
  char_four (b ∷ []) l u h = ground arith
  char_four (b ∷ c ∷ []) l u h = ground arith
  char_four (b ∷ c ∷ d ∷ s) l u h =
      let a = point_sound 3 (continue_bits 3 (lead % 8) (b ∷ c ∷ d ∷ s)) left (ground arith) in
      let (e, f) = step_sound 2 (lead % 8) b a.point (c ∷ d ∷ s) left a.here in
      let (g, k) = step_sound 1 ((lead % 8) * 64 + b % 64) c a.point (d ∷ s) left f in
      let (m, o) = step_sound 0 (((lead % 8) * 64 + b % 64) * 64 + c % 64) d a.point s left k in
      ground (arith, a.fits)

  char_other :
      (rest : Bytes)
      → ltb lead 0x80 ≡ false
      → within 0xc2 0xdf lead ≡ false
      → within 0xe0 0xef lead ≡ false
      → within 0xf0 0xf4 lead ≡ false
      → name_char lead rest ≡ some left
      → next_char true lead rest ≡ some left
  unfolding name_char lead_bits
  char_other rest e f g k h = ground arith

  char_utf8 :
      (rest : Bytes) → name_char lead rest ≡ some left → next_char true lead rest ≡ some left
  char_utf8 rest h = elim (Bool-cases (ltb lead 0x80)) [
    | inl e ↦ char_one rest (ground arith) h
    | inr e ↦ elim (Bool-cases (within 0xc2 0xdf lead)) [
      | inl f ↦ char_two rest (ground arith) (ground arith) h
      | inr f ↦ elim (Bool-cases (within 0xe0 0xef lead)) [
        | inl g ↦ char_three rest (ground arith) (ground arith) h
        | inr g ↦ elim (Bool-cases (within 0xf0 0xf4 lead)) [
          | inl k ↦ char_four rest (ground arith) (ground arith) h
          | inr k ↦ char_other rest e f g k h
        ]
      ]
    ]
  ]

name_utf8 : (fuel : ℕ) (s : Bytes) → name_from fuel s ≡ true → utf8_from fuel true s ≡ true
unfolding name_from utf8_from
name_utf8 zero s h = ground arith
name_utf8 (suc fuel) [] h = refl
name_utf8 (suc fuel) (lead ∷ rest) h = elim (Option-cases (name_char lead rest)) [
  | inl e ↦ ground arith
  | inr (left, e) ↦ rw (char_utf8 lead left rest e, utf8_from) (name_utf8 fuel left (ground arith))
]

-- The two tests of the code agree: the bytes of a name that passes the test of names pass the
-- test for UTF-8 without control characters, and there are 1 to 128 of them.
pub file_name_bytes_ok-utf8_bytes_ok :
    (s : Bytes)
    → file_name_bytes_ok s ≡ true
    → (utf8_bytes_ok s true ≡ true) × (0 < length s) × (length s ≤ file_name_max)
unfolding file_name_bytes_ok utf8_bytes_ok
file_name_bytes_ok-utf8_bytes_ok s h =
    (name_utf8 (suc (length s)) s (ground arith), ground arith, ground arith)

-- the part behind the last slash, with what stands before it
no_slash_left : (s : Bytes) → lacks b'/' s ≡ true → after_last_slash s ≡ s
unfolding after_last_slash
no_slash_left [] h = refl
no_slash_left (c ∷ s) h = rw h refl

slash_split :
    (s : Bytes) → lacks b'/' s ≡ false → (e : Bytes) × (s ≡ e ++ b'/' ∷ after_last_slash s)
unfolding after_last_slash
slash_split [] h = cc
slash_split (c ∷ s) h = elim (Bool-cases (lacks b'/' s)) [
  | inr g ↦ let (e, q) = slash_split s g in (c ∷ e, rw h (ap (◌∷◌ c) q))
  | inl g ↦
      let slash : c ≡ b'/' = ground arith in ([], rw (h, no_slash_left s g) (ap (λ x. x ∷ s) slash))
]

last_part : (s : Bytes) → lacks b'/' (after_last_slash s) ≡ true
unfolding after_last_slash
last_part [] = refl
last_part (c ∷ s) = elim (Bool-cases (lacks b'/' (c ∷ s))) [
  | inl e ↦ rw e e
  | inr e ↦ rw e (last_part s)
]

has_slash : (e b : Bytes) → lacks b'/' (e ++ b'/' ∷ b) ≡ false
has_slash [] b = ground arith
has_slash (c ∷ e) b = ground (arith, has_slash e b)

behind_slash : (e b : Bytes) → lacks b'/' b ≡ true → after_last_slash (e ++ b'/' ∷ b) ≡ b
unfolding after_last_slash
behind_slash [] b h = no_slash_left b h
behind_slash (c ∷ e) b h = rw (has_slash (c ∷ e) b) (behind_slash e b h)

-- Either the whole path, or what stands behind a slash.
abbrev pub IsLastPart : Bytes → Bytes → Type 0
IsLastPart path b = (path ≡ b) ⊎ ((e : Bytes) × (path ≡ e ++ b'/' ∷ b))

pub record SafeName (path b : Bytes) : Type 0 where
  pub last : IsLastPart path b
  pub no_slash : lacks b'/' b ≡ true
  pub no_dots : has_dots b ≡ false
  pub name_ok : file_name_bytes_ok b ≡ true

last_split : (path : Bytes) → IsLastPart path (after_last_slash path)
last_split path = elim (Bool-cases (lacks b'/' path)) [
  | inl e ↦ inl (sym (no_slash_left path e))
  | inr e ↦ inr (slash_split path e)
]

last_unique : (path b : Bytes) → IsLastPart path b → lacks b'/' b ≡ true → after_last_slash path ≡ b
last_unique path b (inl e) h = ap after_last_slash e ∙ no_slash_left b h
last_unique path b (inr (d, e)) h = ap after_last_slash e ∙ behind_slash d b h

pub file_basename-SafeName :
    (path b : Bytes) (n : ℕ) → file_basename path n ≡ some b → SafeName path b × (length b < n)
unfolding file_basename
file_basename-SafeName path b n h =
    let q : after_last_slash path ≡ b = ground arith in
    (
      record {
        last = subst (IsLastPart path) q (last_split path);
        no_slash = ground (arith, last_part path);
        no_dots = ground arith;
        name_ok = ground arith;
      },
      ground arith,
    )

basename_complete :
    (path b : Bytes) (n : ℕ) → SafeName path b → length b < n → file_basename path n ≡ some b
unfolding file_basename file_name_bytes_ok
basename_complete path b n s l =
    let q = last_unique path b s.last s.no_slash in
    let a = s.no_slash in
    let d = s.no_dots in
    let o = s.name_ok in
    let tests : (ltb n 2
          || (length b == 0
              || (not (lacks b'/' b)
                  || (has_dots b || (leb n (length b) || not (file_name_bytes_ok b))))))
        ≡ false =
      ground arith in
    rw (q, tests) refl

-- A path is sent under a name exactly if that is the whole path or stands behind a slash of it, has
-- no slash itself, so that the slash is the last, has no two dots in a row, passes the test of names,
-- and fits the array with its terminator.
pub file_basename_iff :
    (path b : Bytes) (n : ℕ) → (file_basename path n ≡ some b) ↔ (SafeName path b × (length b < n))
file_basename_iff path b n =
    (file_basename-SafeName path b n, λ (s, l). basename_complete path b n s l)
