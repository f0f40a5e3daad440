-- ===== src/Prelude/Bytes.antt =====
-- C strings and buffers as lists of bytes. A C string has no zero byte; what stands behind its
-- terminator is not modelled.
use Prim.Native.Char.{code}
use Prim.Native.String.{String}
use Prim.Native.Nat.{ℕ}
use mathlib.Core.Path.{◌≡◌, refl, ap, sym, ◌∙◌}
use mathlib.Core.Logic.{◌↔◌}
use mathlib.Core.Bool.{Bool, true, false, not, ◌&&◌, ◌||◌}
use mathlib.Core.Option.{Option, none, some}
use mathlib.Core.List.{List, [], ◌∷◌, ◌++◌}
use native.Mathlib.Omega.{arith}
use oma_q.Prelude.Tests.{◌==◌, if◌then◌else◌, within}

abbrev pub Bytes : Type 0
Bytes = List ℕ

-- The bytes of an ASCII text.
abbrev pub codes : String → Bytes
codes String.[] = []
codes (String.◌∷◌ c s) = code c ∷ codes s

-- `strcmp(a, b) == 0`
abbrev pub bytes_eq : Bytes → Bytes → Bool
bytes_eq [] [] = true
bytes_eq (x ∷ xs) (y ∷ ys) = x == y && bytes_eq xs ys
bytes_eq [] (y ∷ ys) = false
bytes_eq (x ∷ xs) [] = false

-- a loop that returns 0 at the first byte that fails the test
abbrev pub all_bytes : (ℕ → Bool) → Bytes → Bool
all_bytes p [] = true
all_bytes p (x ∷ xs) = p x && all_bytes p xs

-- `strncmp(s, p, strlen(p)) == 0`, with what follows the prefix
abbrev pub after_prefix : Bytes → Bytes → Option Bytes
after_prefix [] s = some s
after_prefix (p ∷ ps) [] = none
after_prefix (p ∷ ps) (c ∷ s) = if p == c then after_prefix ps s else none

-- `strchr(s, c)`: what stands before the first `c`, and what follows it
abbrev pub split_first : ℕ → Bytes → Option (Bytes × Bytes)
split_first c [] = none
split_first c (x ∷ s) =
    if x == c
    then some ([], s)
    else elim (split_first c s) [ none ↦ none | some (a, b) ↦ some (x ∷ a, b) ]

-- lower-case hexadecimal digits, as the code's key tests accept them
abbrev pub is_lower_hex : ℕ → Bool
is_lower_hex c = within b'0' b'9' c || within b'a' b'f' c

pub bytes_eq_refl : (xs : Bytes) → bytes_eq xs xs ≡ true
bytes_eq_refl [] = refl
bytes_eq_refl (x ∷ xs) = ground (arith, bytes_eq_refl xs)

pub bytes_eq→eq : (xs ys : Bytes) → bytes_eq xs ys ≡ true → xs ≡ ys
bytes_eq→eq [] [] h = refl
bytes_eq→eq [] (y ∷ ys) h = cc
bytes_eq→eq (x ∷ xs) [] h = cc
bytes_eq→eq (x ∷ xs) (y ∷ ys) h = ground (arith, bytes_eq→eq xs ys)

pub bytes_eq_iff : (xs ys : Bytes) → (bytes_eq xs ys ≡ true) ↔ (xs ≡ ys)
bytes_eq_iff xs ys = (bytes_eq→eq xs ys, λ e. ap (bytes_eq xs) (sym e) ∙ bytes_eq_refl xs)

pub after_prefix-append : (p s : Bytes) → after_prefix p (p ++ s) ≡ some s
after_prefix-append [] s = refl
after_prefix-append (x ∷ p) s = ground (arith, after_prefix-append p s)

-- No byte of the list is `c`.
abbrev pub lacks : ℕ → Bytes → Bool
lacks c = all_bytes λ x. not (x == c)

pub split_first-append :
    (c : ℕ) (a b : Bytes) → lacks c a ≡ true → split_first c (a ++ c ∷ b) ≡ some (a, b)
split_first-append c [] b h = ground arith
split_first-append c (x ∷ a) b h = ground (arith, split_first-append c a b)

pub split_first-none : (c : ℕ) (a : Bytes) → lacks c a ≡ true → split_first c a ≡ none
split_first-none c [] h = refl
split_first-none c (x ∷ a) h = ground (arith, split_first-none c a)

pub split_first_sound :
    (c : ℕ) (s a b : Bytes) → split_first c s ≡ some (a, b) → (s ≡ a ++ c ∷ b) × (lacks c a ≡ true)
split_first_sound c [] a b h = cc
split_first_sound c (x ∷ s) a b h = go (split_first c s) refl (split_first_sound c s)
  where
    go :
        (o : Option (Bytes × Bytes))
        → split_first c s ≡ o
        → ((a b : Bytes) → split_first c s ≡ some (a, b) → (s ≡ a ++ c ∷ b) × (lacks c a ≡ true))
        → (x ∷ s ≡ a ++ c ∷ b) × (lacks c a ≡ true)
    go none e ih = ground arith
    go (some (a', b')) e ih = ground (arith, ih a' b' e)

pub after_prefix_sound : (p s t : Bytes) → after_prefix p s ≡ some t → s ≡ p ++ t
after_prefix_sound [] s t h = ground arith
after_prefix_sound (x ∷ p) [] t h = cc
after_prefix_sound (x ∷ p) (c ∷ s) t h = ground (arith, after_prefix_sound p s t)
