-- ===== src/Tests/Safety.antt =====
-- helper/safety.c on two keys.
use oma_q.Prelude.{◌≡◌, ◌⊎◌, refl, none, replicate}
use oma_q.Prelude.Bytes.{Bytes, codes}
use oma_q.Safety.{safety_code, lower_hex64, lower_all, group16, groups, strcmp_le}
use oma_q.Safety.Laws.{safety_code_comm, safety_code_inj}

abbrev upper_key : Bytes
upper_key = replicate 64 b'B'

abbrev lower_key : Bytes
lower_key = replicate 64 b'b'

abbrev digit_key : Bytes
digit_key = replicate 64 b'1'

abbrev code : Bytes
code =
    codes
      "1111 1111 1111 1111 1111 1111 1111 1111 1111 1111 1111 1111 1111 1111 1111 1111 / bbbb bbbb bbbb bbbb bbbb bbbb bbbb bbbb bbbb bbbb bbbb bbbb bbbb bbbb bbbb bbbb"

small_array : safety_code lower_key digit_key 161 ≡ none
unfolding safety_code lower_hex64 lower_all group16 groups strcmp_le
small_array = refl

safety_code_comm_example : safety_code upper_key digit_key 162 ≡ safety_code digit_key upper_key 162
safety_code_comm_example = safety_code_comm upper_key digit_key 162

safety_code_inj_example :
    ((lower_hex64 upper_key ≡ lower_hex64 digit_key)
      × (lower_hex64 digit_key ≡ lower_hex64 lower_key))
    ⊎ ((lower_hex64 upper_key ≡ lower_hex64 lower_key)
        × (lower_hex64 digit_key ≡ lower_hex64 digit_key))
unfolding safety_code lower_hex64 lower_all group16 groups strcmp_le
safety_code_inj_example =
    safety_code_inj upper_key digit_key digit_key lower_key 162 200 code refl refl
