-- ===== src/Wire/Ids.antt =====
-- helper/message.c: what an accepted identifier lacks, and what copies and prints leave as it is.
use oma_q.Prelude.{
  ℕ, ◌≤◌, ◌<◌, ◌≡◌, refl, Bool, true, false, Option, none, some, [], ◌∷◌, length, arith,
}
use oma_q.Prelude.Bytes.{Bytes, all_bytes, lacks}
use oma_q.Wire.{is_empty, is_id_byte, id_ok, copy_part, print_into, guard, ◌>>=◌, ◌>>◌}

id_bytes-lacks : (id : Bytes) → all_bytes is_id_byte id ≡ true → lacks b'|' id ≡ true
id_bytes-lacks [] h = refl
id_bytes-lacks (c ∷ id) h = ground (arith, id_bytes-lacks id)

pub id_ok-lacks : (id : Bytes) → id_ok id ≡ true → lacks b'|' id ≡ true
unfolding id_ok
id_ok-lacks id h = ground (arith, id_bytes-lacks id)

pub id_ok-nonempty : (id : Bytes) → id_ok id ≡ true → is_empty id ≡ false
unfolding id_ok
id_ok-nonempty id h = ground arith

pub id_ok-length : (id : Bytes) → id_ok id ≡ true → length id ≤ 96
unfolding id_ok
id_ok-length id h = ground arith

pub copy_part_fits : (n : ℕ) (s : Bytes) → length s < n → copy_part n s ≡ some s
unfolding copy_part
copy_part_fits n s h = ground arith

pub copy_part-eq-some : (n : ℕ) (s t : Bytes) → copy_part n s ≡ some t → (s ≡ t) × (length s < n)
unfolding copy_part
copy_part-eq-some n s t h = (ground arith, ground arith)

pub print_into-eq-some : (n : ℕ) (s t : Bytes) → print_into n s ≡ some t → (s ≡ t) × (length s < n)
unfolding print_into
print_into-eq-some n s t h = (ground arith, ground arith)

pub copy_part-none : (n : ℕ) (s : Bytes) → n ≤ length s → copy_part n s ≡ none
unfolding copy_part
copy_part-none n s h = ground arith

pub >>=-eq-some {ℓ κ} :
    {A : Type ℓ} {B : Type κ} (m : Option A) (f : A → Option B) {b : B}
    → (m >>= f) ≡ some b
    → (a : A) × (m ≡ some a) × (f a ≡ some b)
>>=-eq-some none f h = cc
>>=-eq-some (some a) f h = (a, refl, h)

pub guard-eq-some {ℓ} :
    {B : Type ℓ} (t : Bool) (k : Option B) {b : B}
    → (guard t >> k) ≡ some b
    → (t ≡ true) × (k ≡ some b)
guard-eq-some true k h = (refl, h)
guard-eq-some false k h = cc
