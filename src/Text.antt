-- ===== src/Text.antt =====
-- helper/text.c and helper/text.h: the test that a byte string is UTF-8.
pub mod Encoding
pub mod Decoding
use oma_q.Prelude.{
  ℕ, zero, suc, Bool, true, false, not, ◌&&◌, ◌||◌, Option, none, some, List, [], ◌∷◌, ltb, leb,
  ◌==◌, if◌then◌else◌, within, length,
}
use oma_q.Prelude.Bytes.{Bytes}

abbrev continues : ℕ → Bool
continues b = within 0x80 0xbf b

-- the bytes behind a lead byte of two, three and four; `none` is the return of 0
two_rest : Bool → ℕ → Bytes → Option Bytes
two_rest reject first [] = none
two_rest reject first (b ∷ s) =
    if not (continues b) || (reject && (first == 0xc2 && leb b 0x9f)) then none else some s

three_rest : ℕ → Bytes → Option Bytes
three_rest first (b ∷ c ∷ s) =
    if not (continues b)
      || (not (continues c) || ((first == 0xe0 && ltb b 0xa0) || (first == 0xed && ltb 0x9f b)))
    then none
    else some s
three_rest first _ = none

four_rest : ℕ → Bytes → Option Bytes
four_rest first (b ∷ c ∷ d ∷ s) =
    if not (continues b)
      || (not (continues c)
          || (not (continues d)
              || ((first == 0xf0 && ltb b 0x90) || (first == 0xf4 && ltb 0x8f b))))
    then none
    else some s
four_rest first _ = none

-- One round of the loop: the bytes that are left, or `none` where it returns 0.
unfoldable pub next_char : Bool → ℕ → Bytes → Option Bytes
unfolding two_rest three_rest four_rest
next_char reject first rest =
    if first == 0 || (reject && (ltb first 0x20 || first == 0x7f))
    then none
    else if ltb first 0x80
    then some rest
    else if within 0xc2 0xdf first
    then two_rest reject first rest
    else if within 0xe0 0xef first
    then three_rest first rest
    else if within 0xf0 0xf4 first
    then four_rest first rest
    else none

unfoldable pub utf8_from : ℕ → Bool → Bytes → Bool
utf8_from zero reject s = false
utf8_from (suc fuel) reject [] = true
utf8_from (suc fuel) reject (first ∷ rest) = elim (next_char reject first rest) [
  | none ↦ false
  | some left ↦ utf8_from fuel reject left
]

-- Each round takes a byte or more, so the loop never runs out of this fuel.
unfoldable pub utf8_bytes_ok : Bytes → Bool → Bool
utf8_bytes_ok value reject = utf8_from (suc (length value)) reject value
