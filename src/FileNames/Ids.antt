-- ===== src/FileNames/Ids.antt =====
-- helper/file.c: the identifiers of transfers.
use oma_q.Prelude.{
  ℕ, zero, suc, ◌+◌, ◌-◌, ◌*◌, ◌/◌, ◌%◌, ◌≤◌, ◌<◌, ◌≡◌, ◌↔◌, refl, sym, ap, ◌∙◌, true, false, not,
  ◌||◌, Option, none, some, [], ◌∷◌, ◌++◌, append_assoc, append-nil, ltb, ◌==◌, if◌then◌else◌,
  Bool-cases, inl, inr, arith,
}
use oma_q.Prelude.Bytes.{Bytes}
use oma_q.Prelude.Decimal.{
  print_digits, print_decimal, print_decimal-snoc, print_decimal_digit, print_decimal_head, pow10,
}
use oma_q.FileNames.{
  u32_max, is_digit, read_digits, padded, starts_with_digit, read_second, read_colon, file_id_parse,
}

-- what stands behind the digits that were read
abbrev NoDigit : Bytes → Type 0
NoDigit s = starts_with_digit s ≡ false

-- Reading on from a number adds its digits.
record Reads (a : ℕ) (s : Bytes) (v : ℕ) (rest : Bytes) : Type 0 where
  digits : Bytes
  split : s ≡ digits ++ rest
  printed : print_decimal v ≡ print_decimal a ++ digits
  in_range : v ≤ u32_max

read_sound :
    (a : ℕ) (s : Bytes) (v : ℕ) (rest : Bytes)
    → 0 < a
    → a ≤ u32_max
    → read_digits a s ≡ some (v, rest)
    → Reads a s v rest
unfolding read_digits
read_sound a [] v rest p l h = record {
  digits = [];
  split = ground arith;
  printed = ground (arith, append-nil (print_decimal a));
  in_range = ground arith;
}
read_sound a (c ∷ s) v rest p l h = elim (Bool-cases (is_digit c)) [
  | inr e ↦ record {
    digits = [];
    split = ground arith;
    printed = ground (arith, append-nil (print_decimal a));
    in_range = ground arith;
  }
  | inl e ↦ elim (Bool-cases (ltb u32_max (a * 10 + (c - b'0')))) [
    | inl o ↦ ground arith
    | inr o ↦
        let r =
          read_sound (a * 10 + (c - b'0')) s v rest (ground arith) (ground arith) (ground arith) in
        record {
          digits = c ∷ r.digits;
          split = ap (◌∷◌ c) r.split;
          printed =
              r.printed
              ∙ ap (λ x. x ++ r.digits)
                  (print_decimal-snoc a (c - b'0') p (omega arith) (ground arith))
              ∙ append_assoc (print_decimal a) ((b'0' + (c - b'0')) ∷ []) r.digits
              ∙ ap (λ x. print_decimal a ++ x ∷ r.digits) (ground arith);
          in_range = r.in_range;
        }
  ]
]

read_stop : (a : ℕ) (s : Bytes) → starts_with_digit s ≡ false → read_digits a s ≡ some (a, s)
unfolding read_digits
read_stop a [] h = refl
read_stop a (c ∷ s) h = ground arith

read_digit :
    (a c : ℕ) (s : Bytes)
    → is_digit c ≡ true
    → a * 10 + (c - b'0') ≤ u32_max
    → read_digits a (c ∷ s) ≡ read_digits (a * 10 + (c - b'0')) s
unfolding read_digits
read_digit a c s d h = ground arith

-- A number read from a digit on, where a zero is not followed by another digit.
read_number :
    (c : ℕ) (s : Bytes) (v : ℕ) (rest : Bytes)
    → is_digit c ≡ true
    → (c ≡ b'0' → starts_with_digit s ≡ false)
    → read_digits 0 (c ∷ s) ≡ some (v, rest)
    → (c ∷ s ≡ print_decimal v ++ rest) × (v ≤ u32_max)
unfolding read_digits
read_number c s v rest d z h = elim (Bool-cases (c == b'0')) [
  | inl e ↦
      let stop = read_stop 0 s (z (ground arith)) in
      let first = read_digit 0 c s d (ground arith) in
      (ground (arith, print_decimal_digit 0 (omega arith)), ground arith)
  | inr e ↦
      let r = read_sound (c - b'0') s v rest (ground arith) (ground arith) (ground arith) in
      (
        ap (◌∷◌ c) r.split
            ∙ ap (λ x. x ++ rest)
                (sym (
                  r.printed
                  ∙ ap (λ x. x ++ r.digits) (print_decimal_digit (c - b'0') (ground arith))
                  ∙ ap (λ x. x ∷ r.digits) (ground arith))),
        r.in_range,
      )
]

-- Reading back what was printed.
read_printed :
    (k n : ℕ) (rest : Bytes)
    → n < pow10 (suc k)
    → n ≤ u32_max
    → read_digits 0 (print_digits (suc k) n ++ rest) ≡ read_digits n rest
unfolding read_digits print_digits
read_printed zero n rest h l = ground arith
read_printed (suc k) n rest h l = elim (Bool-cases (ltb n 10)) [
  | inl e ↦ ground arith
  | inr e ↦
      rw (e, append_assoc (print_digits (suc k) (n / 10)) ((b'0' + n % 10) ∷ []) rest)
        (read_printed k (n / 10) ((b'0' + n % 10) ∷ rest) (omega arith) (omega arith)
          ∙ ground arith)
]

unpadded_colon :
    (c : ℕ) (s : Bytes) → padded true (c ∷ s) ≡ false → c ≡ b'0' → starts_with_digit s ≡ false
unpadded_colon c [] h e = refl
unpadded_colon c (d ∷ s) h e = ground arith

unpadded_end :
    (c : ℕ) (s : Bytes) → padded false (c ∷ s) ≡ false → c ≡ b'0' → starts_with_digit s ≡ false
unpadded_end c [] h e = refl
unpadded_end c (d ∷ s) h e = ground arith

second_sound :
    (o : Option (ℕ × Bytes)) (a x y : ℕ)
    → read_second a o ≡ some (x, y)
    → (a ≡ x) × (o ≡ some (y, []))
second_sound none a x y h = ground arith
second_sound (some (v, [])) a x y h = ground arith
second_sound (some (v, c ∷ s)) a x y h = ground arith

-- the second number
behind_colon :
    (s : Bytes) (a x y : ℕ)
    → (if not (starts_with_digit s) || padded false s
        then none
        else read_second a (read_digits 0 s))
      ≡ some (x, y)
    → (a ≡ x) × (s ≡ print_decimal y) × (y ≤ u32_max)
behind_colon [] a x y h = ground arith
behind_colon (c ∷ s) a x y h = elim (Bool-cases (is_digit c)) [
  | inr e ↦ ground arith
  | inl e ↦ elim (Bool-cases (padded false (c ∷ s))) [
    | inl q ↦ ground arith
    | inr q ↦
        let (ea, er) = second_sound (read_digits 0 (c ∷ s)) a x y (ground arith) in
        let (es, l) = read_number c s y [] e (unpadded_end c s q) er in
        (ea, es ∙ append-nil (print_decimal y), l)
  ]
]

colon_sound :
    (o : Option (ℕ × Bytes)) (x y : ℕ)
    → read_colon o ≡ some (x, y)
    → (o ≡ some (x, b':' ∷ print_decimal y)) × (y ≤ u32_max)
colon_sound none x y h = ground arith
colon_sound (some (a, [])) x y h = ground arith
colon_sound (some (a, c ∷ s)) x y h = elim (Bool-cases (c == b':')) [
  | inr e ↦ ground arith
  | inl e ↦ let (p, q, l) = behind_colon s a x y (ground arith) in (ground arith, l)
]

parse_sound :
    (s : Bytes) (a b : ℕ)
    → file_id_parse s ≡ some (a, b)
    → (a ≤ u32_max) × (b ≤ u32_max) × (s ≡ print_decimal a ++ b':' ∷ print_decimal b)
unfolding file_id_parse
parse_sound [] a b h = ground arith
parse_sound (c ∷ s) a b h = elim (Bool-cases (is_digit c)) [
  | inr e ↦ ground arith
  | inl e ↦ elim (Bool-cases (padded true (c ∷ s))) [
    | inl q ↦ ground arith
    | inr q ↦
        let (r, l) = colon_sound (read_digits 0 (c ∷ s)) a b (ground arith) in
        let (es, k) = read_number c s a (b':' ∷ print_decimal b) e (unpadded_colon c s q) r in
        (k, l, es)
  ]
]

head_colon : (c : ℕ) (s t : Bytes) → (c ≡ b'0' → s ≡ []) → padded true (c ∷ (s ++ b':' ∷ t)) ≡ false
head_colon c [] t h = ground arith
head_colon c (d ∷ s) t h = elim (Bool-cases (c == b'0')) [
  | inl e ↦ cc (h (ground arith))
  | inr e ↦ ground arith
]

head_end : (c : ℕ) (s : Bytes) → (c ≡ b'0' → s ≡ []) → padded false (c ∷ s) ≡ false
head_end c [] h = ground arith
head_end c (d ∷ s) h = elim (Bool-cases (c == b'0')) [
  | inl e ↦ cc (h (ground arith))
  | inr e ↦ ground arith
]

-- the first character of a printed number
record Head (n : ℕ) : Type 0 where
  first : ℕ
  others : Bytes
  printed : print_decimal n ≡ first ∷ others
  digit : is_digit first ≡ true
  alone : first ≡ b'0' → others ≡ []

first_character : (n : ℕ) → n ≤ u32_max → Head n
first_character n l =
    let (c, s, p, lo, hi, g, z) = print_decimal_head n (omega arith) in
    record {
      first = c;
      others = s;
      printed = p;
      digit = ground arith;
      alone = λ e. elim (Bool-cases (n == 0)) [
        | inl q ↦ z (ground arith)
        | inr q ↦ absurd (ground (arith, g (ground arith)))
      ];
    }

read_back :
    (n : ℕ) (rest : Bytes)
    → n ≤ u32_max
    → starts_with_digit rest ≡ false
    → read_digits 0 (print_decimal n ++ rest) ≡ some (n, rest)
unfolding print_decimal
read_back n rest l h = read_printed 19 n rest (omega arith) l ∙ read_stop n rest h

parse_total :
    (a b : ℕ)
    → a ≤ u32_max
    → b ≤ u32_max
    → file_id_parse (print_decimal a ++ b':' ∷ print_decimal b) ≡ some (a, b)
unfolding file_id_parse
parse_total a b la lb =
    let x = first_character a la in
    let y = first_character b lb in
    let ra = read_back a (b':' ∷ print_decimal b) la refl in
    let rb = ap (read_digits 0) (sym (append-nil (print_decimal b))) ∙ read_back b [] lb refl in
    rw
      (
        ra,
        ap (λ s. starts_with_digit (s ++ b':' ∷ print_decimal b)) x.printed ∙ x.digit,
        ap (λ s. padded true (s ++ b':' ∷ print_decimal b)) x.printed
            ∙ head_colon x.first x.others (print_decimal b) x.alone,
        ap starts_with_digit y.printed ∙ y.digit,
        ap (padded false) y.printed ∙ head_end y.first y.others y.alone,
        rb,
      )
      refl

-- An identifier is read as two numbers exactly if both are below 2 ^ 32 and it is their print: no
-- two texts name the same transfer.
pub file_id_parse_iff :
    (s : Bytes) (a b : ℕ)
    → (file_id_parse s ≡ some (a, b))
      ↔ ((a ≤ u32_max) × (b ≤ u32_max) × (s ≡ print_decimal a ++ b':' ∷ print_decimal b))
file_id_parse_iff s a b =
    (parse_sound s a b, λ (la, lb, e). ap file_id_parse e ∙ parse_total a b la lb)
