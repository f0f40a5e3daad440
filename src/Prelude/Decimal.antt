-- ===== src/Prelude/Decimal.antt =====
-- `%u` and `%llu`: decimal digits. Twenty of them are enough for an unsigned 64-bit number.
use Prim.Native.Nat.{ℕ, zero, suc, ◌+◌, ◌*◌, ◌/◌, ◌%◌, ◌<◌, ◌≤◌}
use mathlib.Core.Path.{◌≡◌, refl, ap, ◌∙◌}
use mathlib.Core.Bool.{false}
use mathlib.Core.Logic.{inl, inr}
use mathlib.Core.List.{[], ◌∷◌, ◌++◌}
use native.Mathlib.Omega.{arith}
use oma_q.Prelude.Tests.{ltb, Bool-cases, if◌then◌else◌}
use oma_q.Prelude.Bytes.{Bytes}

unfoldable pub print_digits : ℕ → ℕ → Bytes
print_digits zero n = []
print_digits (suc fuel) n =
    (if ltb n 10 then [] else print_digits fuel (n / 10)) ++ (b'0' + n % 10) ∷ []

unfoldable pub print_decimal : ℕ → Bytes
print_decimal n = print_digits 20 n

abbrev pub pow10 : ℕ → ℕ
pow10 zero = 1
pow10 (suc k) = 10 * pow10 k

-- the digits of a number with one more
pub print_digits-snoc :
    (k n d : ℕ)
    → 0 < n
    → d < 10
    → print_digits (suc k) (n * 10 + d) ≡ print_digits k n ++ (b'0' + d) ∷ []
unfolding print_digits
print_digits-snoc k n d p h = rw (big, quotient, digit) refl
  where
    big : ltb (n * 10 + d) 10 ≡ false
    big = ground arith

    quotient : (n * 10 + d) / 10 ≡ n
    quotient = omega arith

    digit : (n * 10 + d) % 10 ≡ d
    digit = omega arith

-- Fuel for the digits is enough.
pub print_digits-suc :
    (k n : ℕ) → n < pow10 (suc k) → print_digits (suc k) n ≡ print_digits (suc (suc k)) n
unfolding print_digits
print_digits-suc zero n h = ground arith
print_digits-suc (suc k) n h = elim (Bool-cases (ltb n 10)) [
  | inl e ↦ rw e refl
  | inr e ↦ rw (e, print_digits-suc k (n / 10) (omega arith)) refl
]

pub print_decimal-snoc :
    (n d : ℕ)
    → 0 < n
    → n < pow10 19
    → d < 10
    → print_decimal (n * 10 + d) ≡ print_decimal n ++ (b'0' + d) ∷ []
unfolding print_decimal
print_decimal-snoc n d p l h =
    print_digits-snoc 19 n d p h ∙ ap (λ s. s ++ (b'0' + d) ∷ []) (print_digits-suc 18 n l)

pub print_decimal_digit : (d : ℕ) → d < 10 → print_decimal d ≡ (b'0' + d) ∷ []
unfolding print_decimal print_digits
print_decimal_digit d h = ground arith

-- The first character is a digit, and 0 only in 0.
pub print_digits_head :
    (k n : ℕ)
    → n < pow10 (suc k)
    → (c : ℕ) × (s : Bytes) × (print_digits (suc k) n ≡ c ∷ s)
      × (b'0' ≤ c)
      × (c ≤ b'9')
      × (0 < n → b'0' < c)
      × (n ≡ 0 → s ≡ [])
unfolding print_digits
print_digits_head zero n h =
    (b'0' + n, [], ground arith, omega arith, omega arith, λ q. omega arith, λ q. refl)
print_digits_head (suc k) n h = elim (Bool-cases (ltb n 10)) [
  | inl e ↦ (b'0' + n, [], ground arith, omega arith, ground arith, λ q. omega arith, λ q. refl)
  | inr e ↦
      let (c, s, p, lo, hi, g, z) = print_digits_head k (n / 10) (omega arith) in
      (
        c,
        s ++ (b'0' + n % 10) ∷ [],
        rw (e, p) refl,
        lo,
        hi,
        λ q. g (ground arith),
        λ q. absurd (ground arith),
      )
]

pub print_decimal_head :
    (n : ℕ)
    → n < pow10 20
    → (c : ℕ) × (s : Bytes) × (print_decimal n ≡ c ∷ s)
      × (b'0' ≤ c)
      × (c ≤ b'9')
      × (0 < n → b'0' < c)
      × (n ≡ 0 → s ≡ [])
unfolding print_decimal
print_decimal_head n h = print_digits_head 19 n h
