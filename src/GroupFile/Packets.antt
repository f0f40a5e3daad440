-- ===== src/GroupFile/Packets.antt =====
-- helper/group_file.c: the packets are read back as they were packed.
use oma_q.Prelude.{
  ℕ, ◌+◌, ◌-◌, ◌^◌, ◌<◌, ◌≤◌, ◌≡◌, refl, sym, ap, true, false, not, ◌&&◌, ◌||◌, some, ◌∷◌, ◌++◌,
  ltb, leb, ◌==◌, length, take, drop, length-append, take-append, drop-append, Bool-cases, inl, inr,
  arith, ◌∙◌, subst, append_assoc,
}
use oma_q.Prelude.Bytes.{Bytes}
use oma_q.GroupFile.{
  id_bytes, packet_max, data_max, data_type, magic, common, data_fixed, put_u64, get_from, get_u64,
  is_control, control_pack, control_unpack, common_ok, data_pack, data_unpack,
}

get_u64-put_u64 : (v : ℕ) (s : Bytes) → v < 2 ^ 64 → get_u64 (put_u64 v ++ s) ≡ v
unfolding get_u64 put_u64 get_from
get_u64-put_u64 v s h = omega arith

length-put_u64 : (v : ℕ) → length (put_u64 v) ≡ 8
unfolding put_u64
length-put_u64 v = refl

packed_control :
    (type : ℕ) (id : Bytes)
    → is_control type ≡ true
    → length id ≡ id_bytes
    → control_unpack (magic ++ type ∷ id) ≡ some (type, id)
unfolding control_unpack
packed_control type id c l = ground arith

-- A control packet with an identifier of 16 bytes is packed only with one of the five types, and is
-- then read back as it was.
pub control_unpack-control_pack :
    (outn type : ℕ) (id packet : Bytes)
    → length id ≡ id_bytes
    → control_pack outn type id ≡ some packet
    → (is_control type ≡ true) × (control_unpack packet ≡ some (type, id))
unfolding control_pack
control_unpack-control_pack outn type id packet l h = elim (Bool-cases (is_control type)) [
  | inl c ↦ (c, ground (arith, packed_control type id c l))
  | inr c ↦ ground arith
]

take_at : (n : ℕ) (xs ys : Bytes) → length xs ≡ n → take n (xs ++ ys) ≡ xs
take_at n xs ys h = subst (λ k. take k (xs ++ ys) ≡ xs) h (take-append xs ys)

drop_at : (n : ℕ) (xs ys : Bytes) → length xs ≡ n → drop n (xs ++ ys) ≡ ys
drop_at n xs ys h = subst (λ k. drop k (xs ++ ys) ≡ ys) h (drop-append xs ys)

-- what stands behind the identifier and the offset
drop_both :
    (id content : Bytes) (offset : ℕ)
    → length id ≡ id_bytes
    → drop 24 (id ++ (put_u64 offset ++ content)) ≡ content
drop_both id content offset l =
    ap (drop 24) (sym (append_assoc id (put_u64 offset) content))
    ∙ drop_at 24 (id ++ put_u64 offset) content
        (omega (arith, length-append id (put_u64 offset), length-put_u64 offset))

abbrev data_packet : Bytes → ℕ → Bytes → Bytes
data_packet id offset content = magic ++ data_type ∷ (id ++ (put_u64 offset ++ content))

length-data_packet :
    (id content : Bytes) (offset : ℕ)
    → length id ≡ id_bytes
    → length (data_packet id offset content) ≡ 30 + length content
length-data_packet id content offset l = omega (
  arith,
  length-append id (put_u64 offset ++ content),
  length-append (put_u64 offset) content,
  length-put_u64 offset,
)

fits_packet :
    (id content : Bytes) (offset n : ℕ)
    → n ≡ 30 + length content
    → 0 < length content
    → length content ≤ data_max
    → (not (leb common n && true)
        || (leb n data_fixed || (ltb packet_max n || ltb data_max (n - data_fixed))))
      ≡ false
fits_packet id content offset n e p m = ground arith

packed_data :
    (id content : Bytes) (offset : ℕ)
    → length id ≡ id_bytes
    → 0 < length content
    → length content ≤ data_max
    → offset < 2 ^ 64
    → data_unpack (data_packet id offset content)
      ≡ some (record { id = id; offset = offset; content = content })
unfolding data_unpack common_ok
packed_data id content offset l p m b =
    rw
      (
        fits_packet id content offset (length (data_packet id offset content))
            (length-data_packet id content offset l) p m,
        take_at 16 id (put_u64 offset ++ content) l,
        drop_at 16 id (put_u64 offset ++ content) l,
        get_u64-put_u64 offset content b,
        drop_both id content offset l,
      )
      refl

-- A piece of a file with an identifier of 16 bytes and a 64-bit offset, of at most 1343 bytes, is
-- read back as it was packed.
pub data_unpack-data_pack :
    (outn : ℕ) (id packet : Bytes) (offset : ℕ) (content : Bytes)
    → length id ≡ id_bytes
    → offset < 2 ^ 64
    → data_pack outn id offset content ≡ some packet
    → data_unpack packet ≡ some (record { id = id; offset = offset; content = content })
unfolding data_pack
data_unpack-data_pack outn id packet offset content l b h =
    elim (Bool-cases (length content == 0 || ltb data_max (length content))) [
      | inl e ↦ ground arith
      | inr e ↦ ground (arith, packed_data id content offset l (ground arith) (ground arith) b)
    ]
