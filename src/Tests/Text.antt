-- ===== src/Tests/Text.antt =====
-- helper/text.c on short texts.
use oma_q.Prelude.{ℕ, ◌≡◌, refl, true, false, List, [], ◌∷◌, All, arith}
use oma_q.Prelude.Bytes.{Bytes}
use oma_q.Text.Encoding.{encode_all, Allowed, utf8_bytes_ok-encode_all}
use oma_q.Text.Decoding.{utf8_bytes_ok_sound}
use oma_q.Text.{next_char, utf8_from, utf8_bytes_ok}

-- "é€" and the emoji U+1F600
abbrev points : List ℕ
points = 0xe9 ∷ 0x20ac ∷ 0x1f600 ∷ []

abbrev text : Bytes
text = 0xc3 ∷ 0xa9 ∷ 0xe2 ∷ 0x82 ∷ 0xac ∷ 0xf0 ∷ 0x9f ∷ 0x98 ∷ 0x80 ∷ []

points-Allowed : All (Allowed true) points
points-Allowed = (ground arith, (ground arith, (ground arith, tt)))

utf8_bytes_ok-encode_all_example : utf8_bytes_ok (encode_all points) true ≡ true
utf8_bytes_ok-encode_all_example = utf8_bytes_ok-encode_all true points points-Allowed

utf8_bytes_ok_sound_example : (cs : List ℕ) × (text ≡ encode_all cs) × All (Allowed true) cs
unfolding utf8_bytes_ok utf8_from next_char
utf8_bytes_ok_sound_example = utf8_bytes_ok_sound text true refl

-- An overlong form, a surrogate and a control character are refused.
refused :
    (utf8_bytes_ok (0xc0 ∷ 0x80 ∷ []) false ≡ false)
    × (utf8_bytes_ok (0xed ∷ 0xa0 ∷ 0x80 ∷ []) false ≡ false)
    × (utf8_bytes_ok (0xc2 ∷ 0x85 ∷ []) true ≡ false)
    × (utf8_bytes_ok (0xc2 ∷ 0x85 ∷ []) false ≡ true)
unfolding utf8_bytes_ok utf8_from next_char
refused = (refl, refl, refl, refl)
