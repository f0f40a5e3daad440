-- ===== src/Json/Commands.antt =====
-- helper/json_io.c: what an accepted command holds.
use oma_q.Prelude.{
  ℕ, zero, suc, ◌+◌, ◌-◌, ◌*◌, ◌/◌, ◌<◌, ◌≤◌, ◌≡◌, refl, ap, subst, Bool, true, false, ◌&&◌, Option,
  none, some, List, [], ◌∷◌, ltb, leb, ◌==◌, if◌then◌else◌, length, All, Bool-cases, Option-cases,
  inl, inr, arith,
}
use oma_q.Prelude.Bytes.{Bytes, codes, bytes_eq, after_prefix, after_prefix_sound}
use oma_q.Prelude.Int.{ℤ, pos, negsuc}
use oma_q.LineReader.{json_line_max}
use oma_q.Text.{utf8_bytes_ok}
use oma_q.Json.{
  skip_ws, is_ws, is_digit, int_digits, minus, starts_with_digit, parse_int, parse_bool,
  parse_string, Shape, string, number, flag, Value, text_of, int_of, bool_of, keys, lookup, Op,
  parse_value, after_byte, read_pair, op_named, finish, read_pairs, starts_with, read_object,
  json_parse_op,
}
use oma_q.Json.Strings.{parse_string_bounds}

-- No key comes twice.
unfoldable pub Distinct : Op → Type 0
Distinct [] = Unit
Distinct ((k, v) ∷ s) = (lookup k s ≡ none) × Distinct s

-- an `int` of 32 bits, less the lowest one
abbrev pub InRange : ℤ → Type 0
InRange (pos n) = n ≤ 2147483647
InRange (negsuc n) = n < 2147483647

-- A value of the shape: a text fits its array with the terminator.
pub data Fits : Shape → Value → Type 0 where
  text_fits :
      (n : ℕ) (v : Bytes)
      → length v < n
      → utf8_bytes_ok v false ≡ true
      → Fits (string n) (text_of v)
  int_fits : (z : ℤ) → InRange z → Fits number (int_of z)
  bool_fits : (b : Bool) → Fits flag (bool_of b)

pub record Known (p : Bytes × Value) : Type 0 where
  pub shape : Shape
  pub known : lookup p.0 keys ≡ some shape
  pub fits : Fits shape p.1

pub record WellRead (op : Op) : Type 0 where
  pub distinct : Distinct op
  pub values : All Known op

skip_ws_bound : (s : Bytes) → length (skip_ws s) ≤ length s
unfolding skip_ws
skip_ws_bound [] = omega arith
skip_ws_bound (c ∷ s) = elim (Bool-cases (is_ws c)) [
  | inl e ↦ rw (e, skip_ws) (omega (arith, skip_ws_bound s))
  | inr e ↦ rw (e, skip_ws) (omega arith)
]

after_byte_bound : (c : ℕ) (s t : Bytes) → after_byte c s ≡ some t → length t < length s
after_byte_bound c [] t h = ground arith
after_byte_bound c (d ∷ s) t h =
    let b = skip_ws_bound s in
    elim (Bool-cases (d == c)) [ inl e ↦ ground arith | inr e ↦ ground arith ]

digits_bound :
    (s : Bytes) (v w : ℕ) (rest : Bytes)
    → v ≤ 2147483647
    → int_digits v s ≡ some (w, rest)
    → (w ≤ 2147483647) × (length rest ≤ length s)
unfolding int_digits
digits_bound [] v w rest l h = ground arith
digits_bound (c ∷ s) v w rest l h = elim (Bool-cases (is_digit c)) [
  | inr e ↦ ground arith
  | inl e ↦ elim (Bool-cases (ltb ((2147483647 - (c - b'0')) / 10) v)) [
    | inl o ↦ ground arith
    | inr o ↦
        let (a, b) =
          digits_bound s (v * 10 + (c - b'0')) w rest (ground arith) (ground (arith, h, e, o)) in
        (a, omega arith)
  ]
]

minus-InRange : (n : ℕ) → n ≤ 2147483647 → InRange (minus n)
minus-InRange zero h = omega arith
minus-InRange (suc n) h = omega arith

int_bound :
    (s : Bytes) (z : ℤ) (rest : Bytes)
    → parse_int s ≡ some (z, rest)
    → InRange z × (length rest ≤ length s)
unfolding parse_int
int_bound [] z rest h = ground arith
int_bound (c ∷ s) z rest h = elim (Bool-cases (c == b'-')) [
  | inl e ↦ elim (Option-cases (int_digits 0 s)) [
    | inl f ↦ ground arith
    | inr ((v, t), f) ↦ elim (Bool-cases (starts_with_digit s)) [
      | inr g ↦ ground arith
      | inl g ↦
          let (a, b) = digits_bound s 0 v t (omega arith) f in
          let q : minus v ≡ z = ground arith in
          let l : t ≡ rest = ground arith in
          (subst InRange q (minus-InRange v a), omega (arith, ap length l, b))
    ]
  ]
  | inr e ↦ elim (Option-cases (int_digits 0 (c ∷ s))) [
    | inl f ↦ ground arith
    | inr ((v, t), f) ↦ elim (Bool-cases (is_digit c)) [
      | inr g ↦ ground arith
      | inl g ↦
          let (a, b) = digits_bound (c ∷ s) 0 v t (omega arith) f in
          let q : pos v ≡ z = ground arith in
          let l : t ≡ rest = ground arith in (subst InRange q a, omega (arith, ap length l, b))
    ]
  ]
]

bool_bound :
    (s : Bytes) (b : Bool) (rest : Bytes) → parse_bool s ≡ some (b, rest) → length rest ≤ length s
unfolding parse_bool
bool_bound s b rest h = elim (Option-cases (after_prefix (codes "true") s)) [
  | inr (t, e) ↦
      let q = ap length (after_prefix_sound (codes "true") s t e) in ground (arith, h, e, q)
  | inl e ↦ elim (Option-cases (after_prefix (codes "false") s)) [
    | inr (t, f) ↦
        let q = ap length (after_prefix_sound (codes "false") s t f) in ground (arith, h, e, f, q)
    | inl f ↦ ground (arith, h, e, f)
  ]
]

abbrev room_of : Shape → ℕ
room_of (string n) = n
room_of number = 1
room_of flag = 1

lookup_room :
    (s : List (Bytes × Shape)) (k : Bytes) (a : Shape)
    → All (λ p. 0 < room_of p.1) s
    → lookup k s ≡ some a
    → 0 < room_of a
lookup_room [] k a p h = ground arith
lookup_room ((j, b) ∷ s) k a p h = elim (Bool-cases (bytes_eq k j)) [
  | inl e ↦ let q : b ≡ a = ground arith in subst (λ x. 0 < room_of x) q p.0
  | inr e ↦ lookup_room s k a p.1 (ground arith)
]

keys_room : All (λ p. 0 < room_of p.1) keys
keys_room = ground arith

value_bound :
    (shape : Shape) (s : Bytes) (v : Value) (rest : Bytes)
    → 0 < room_of shape
    → parse_value shape s ≡ some (v, rest)
    → Fits shape v × (length rest ≤ length s)
unfolding parse_value
value_bound (string n) s v rest p h = elim (Option-cases (parse_string n s)) [
  | inl e ↦ ground arith
  | inr ((t, r), e) ↦
      let (a, b, c) = parse_string_bounds n s t r p e in
      let q : text_of t ≡ v = ground arith in
      let l : r ≡ rest = ground arith in
      (subst (Fits (string n)) q (text_fits n t a b), omega (arith, ap length l, c))
]
value_bound number s v rest p h = elim (Option-cases (parse_int s)) [
  | inl e ↦ ground arith
  | inr ((z, r), e) ↦
      let (a, b) = int_bound s z r e in
      let q : int_of z ≡ v = ground arith in
      let l : r ≡ rest = ground arith in
      (subst (Fits number) q (int_fits z a), omega (arith, ap length l, b))
]
value_bound flag s v rest p h = elim (Option-cases (parse_bool s)) [
  | inl e ↦ ground arith
  | inr ((z, r), e) ↦
      let b = bool_bound s z r e in
      let q : bool_of z ≡ v = ground arith in
      let l : r ≡ rest = ground arith in
      (subst (Fits flag) q (bool_fits z), omega (arith, ap length l, b))
]

-- One more pair.
pair_sound :
    (op more : Op) (s rest : Bytes)
    → WellRead op
    → read_pair op s ≡ some (more, rest)
    → WellRead more × (length rest < length s)
unfolding read_pair Distinct
pair_sound op more s rest w h = elim (Option-cases (parse_string 32 s)) [
  | inl e ↦ ground arith
  | inr ((k, t), e) ↦
      let (a, b, c) = parse_string_bounds 32 s k t (omega arith) e in
      elim (Option-cases (lookup k op)) [
        | inr (v, f) ↦ ground (arith, h, e, f)
        | inl f ↦ elim (Option-cases (lookup k keys)) [
          | inl g ↦ ground (arith, h, e, f, g)
          | inr (shape, g) ↦ elim (Option-cases (after_byte b':' (skip_ws t))) [
            | inl m ↦ ground (arith, h, e, f, g, m)
            | inr (u, m) ↦ elim (Option-cases (parse_value shape u)) [
              | inl n ↦ ground (arith, h, e, f, g, m, n)
              | inr ((v, r), n) ↦
                  let (fits, d) =
                    value_bound shape u v r (lookup_room keys k shape keys_room g) n in
                  let x = after_byte_bound b':' (skip_ws t) u m in
                  let y = skip_ws_bound t in
                  let z = skip_ws_bound r in
                  let q : ((k, v) ∷ op) ≡ more = ground (arith, h, e, f, g, m, n) in
                  let l : skip_ws r ≡ rest = ground (arith, h, e, f, g, m, n) in
                  (
                    subst WellRead q (record {
                      distinct = (f, w.distinct);
                      values = (record { shape = shape; known = g; fits = fits }, w.values);
                    }),
                    omega (arith, ap length l, x, y, z, c, d),
                  )
            ]
          ]
        ]
      ]
]

-- What an accepted command holds: it names an operation, no key comes twice, every key is known,
-- and its value fits the field.
pub record Accepted (op : Op) : Type 0 where
  pub well_read : WellRead op
  pub named : op_named (lookup (codes "op") op) ≡ true

finish_sound :
    (op more : Op) (s : Bytes)
    → finish op s ≡ some more
    → (op ≡ more) × (op_named (lookup (codes "op") op) ≡ true)
finish_sound op more s h =
    elim (Bool-cases (length (skip_ws s) == 0 && op_named (lookup (codes "op") op))) [
      | inr e ↦ ground (arith, h, e)
      | inl e ↦ (ground (arith, h, e), ground arith)
    ]

pub record Read (r : Option (Option Op)) : Type 0 where
  pub result : Option Op
  pub returns : r ≡ some result
  pub accepted : (op : Op) → result ≡ some op → Accepted op

no_op : (r : Option (Option Op)) → r ≡ some none → Read r
no_op r e = record { result = none; returns = e; accepted = λ op h. cc }

pairs_total :
    (fuel : ℕ) (first : Bool) (op : Op) (s : Bytes)
    → length s < fuel
    → WellRead op
    → Read (read_pairs fuel first op s)
unfolding read_pairs
pairs_total zero first op s l w = absurd (omega arith)
pairs_total (suc fuel) first op [] l w = no_op (some none) refl
pairs_total (suc fuel) first op (c ∷ s) l w = elim (Bool-cases (c == b'}')) [
  | inl e ↦
      rw (e, read_pairs)
        (record {
          result = finish op s;
          returns = refl;
          accepted = λ more h.
              let (p, q) = finish_sound op more s h in
              subst Accepted p (record { well_read = w; named = q });
        })
  | inr e ↦ elim (Option-cases (if first then some (c ∷ s) else after_byte b',' (c ∷ s))) [
    | inl f ↦ rw (e, f, read_pairs) (no_op (some none) refl)
    | inr (t, f) ↦ elim (Option-cases (read_pair op t)) [
      | inl g ↦ rw (e, f, g, read_pairs) (no_op (some none) refl)
      | inr ((more, rest), g) ↦
          let (a, b) = pair_sound op more t rest w g in
          let shorter : length t ≤ length (c ∷ s) = separator first c s t f in
          rw (e, f, g, read_pairs) (pairs_total fuel false more rest (omega arith) a)
    ]
  ]
]
  where
    separator :
        (first : Bool) (c : ℕ) (s t : Bytes)
        → (if first then some (c ∷ s) else after_byte b',' (c ∷ s)) ≡ some t
        → length t ≤ length (c ∷ s)
    separator true c s t h = let q : (c ∷ s) ≡ t = ground arith in omega (arith, ap length q)
    separator false c s t h = omega (arith, after_byte_bound b',' (c ∷ s) t h)

object_total : (o : Option Bytes) → Read (read_object o)
unfolding Distinct
object_total none = no_op (some none) refl
object_total (some s) = elim (Bool-cases (starts_with b'}' s)) [
  | inl e ↦ rw e (no_op (some none) refl)
  | inr e ↦
      rw e (
        pairs_total (suc (length s)) true [] s (omega arith)
          (record { distinct = tt; values = tt }))
]

-- Reading a command always ends, with a refusal or with an operation that has a name, in which no
-- key comes twice, every key is known, a text is UTF-8 and fits its array with the terminator, and
-- a number is in the range of `int`.
pub json_parse_op_total : (line : Bytes) → Read (json_parse_op line)
unfolding json_parse_op
json_parse_op_total line = elim (Bool-cases (leb json_line_max (length line))) [
  | inl e ↦ rw e (no_op (some none) refl)
  | inr e ↦ rw e (object_total (after_byte b'{' (skip_ws line)))
]
