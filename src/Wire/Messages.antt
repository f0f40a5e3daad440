-- ===== src/Wire/Messages.antt =====
-- helper/receipt.c: a packed message is unpacked to what was packed.
use oma_q.Prelude.{
  ℕ, ◌<◌, ◌≡◌, refl, sym, ap, ◌∙◌, ◌⊎◌, inl, inr, true, false, none, some, [], ◌∷◌, ◌++◌, ltb,
  if◌then◌else◌, length, arith, Bool-cases,
}
use oma_q.Prelude.Bytes.{Bytes, codes, bytes_eq, lacks, split_first, split_first-append}
use oma_q.Wire.Ids.{id_ok-lacks, id_ok-nonempty, id_ok-length, copy_part_fits, copy_part-none}
use oma_q.Wire.{
  id_ok, copy_part, print_into, reply_field, looks_like_message_id, message_pack, unpack_body,
  message_unpack,
}

-- what a packed message looks like
record Packed (id reply text wire : Bytes) : Type 0 where
  id_valid : id_ok id ≡ true
  reply_whole : lacks b'|' (reply_field reply) ≡ true
  bytes : wire ≡ codes "OQM1|" ++ id ++ b'|' ∷ (reply_field reply ++ b'|' ∷ text)

message_pack-Packed :
    (outn : ℕ) (id reply text wire : Bytes)
    → message_pack outn id reply text ≡ some wire
    → Packed id reply text wire
unfolding message_pack print_into
message_pack-Packed outn id reply text wire h = record {
  id_valid = ground arith;
  reply_whole = ground arith;
  bytes = ground arith;
}

-- "-" stands for no reply
abbrev pub reply_read : Bytes → Bytes
reply_read reply = if bytes_eq reply (codes "-") then [] else reply

-- the head of the wire is read whatever stands behind the identifier
unpack_head :
    (idn replyn textn : ℕ) (id rest : Bytes)
    → id_ok id ≡ true
    → length id < idn
    → message_unpack idn replyn textn (codes "OQM1|" ++ id ++ b'|' ∷ rest)
      ≡ unpack_body replyn textn id rest (split_first b'|' rest)
unfolding message_unpack
unpack_head idn replyn textn id rest v l =
    rw
      (
        split_first-append b'|' id rest (id_ok-lacks id v),
        id_ok-nonempty id v,
        copy_part_fits idn id l,
        v,
      )
      refl

looks_like-id_ok : (s : Bytes) → looks_like_message_id s ≡ id_ok s
unfolding looks_like_message_id
looks_like-id_ok s = elim (Bool-cases (ltb (length s) 97)) [
  | inl l ↦ rw (copy_part_fits 97 s (ground arith), looks_like_message_id) refl
  | inr g ↦ elim (Bool-cases (id_ok s)) [
    | inl v ↦ absurd (ground (arith, id_ok-length s v))
    | inr n ↦ rw (too_long s g, looks_like_message_id) (sym n)
  ]
]
  where
    too_long : (s : Bytes) → ltb (length s) 97 ≡ false → copy_part 97 s ≡ none
    too_long s g = copy_part-none 97 s (ground arith)

reply_field-id_ok :
    (reply : Bytes) → (reply ≡ []) ⊎ (id_ok reply ≡ true) → id_ok (reply_field reply) ≡ true
unfolding id_ok
reply_field-id_ok [] h = refl
reply_field-id_ok (c ∷ s) (inl e) = cc
reply_field-id_ok (c ∷ s) (inr v) = v

-- A packed message is unpacked to its identifier, its reply and its text, if the reply is empty or
-- an identifier, and the arrays have room; the reply "-" is read as none.
pub message_unpack-message_pack :
    (outn idn replyn textn : ℕ) (id reply text wire : Bytes)
    → (reply ≡ []) ⊎ (id_ok reply ≡ true)
    → length id < idn
    → length (reply_field reply) < replyn
    → length text < textn
    → message_pack outn id reply text ≡ some wire
    → message_unpack idn replyn textn wire
      ≡ some (record { id = id; reply = reply_read (reply_field reply); text = text })
unfolding unpack_body
message_unpack-message_pack outn idn replyn textn id reply text wire v li lr lt h =
    let p = message_pack-Packed outn id reply text wire h in
    ap (message_unpack idn replyn textn) p.bytes
    ∙ unpack_head idn replyn textn id _ p.id_valid li
    ∙ rw
        (
          split_first-append b'|' (reply_field reply) text p.reply_whole,
          looks_like-id_ok (reply_field reply),
          reply_field-id_ok reply v,
          copy_part_fits replyn (reply_field reply) lr,
          copy_part_fits textn text lt,
          unpack_body,
        )
        refl

-- A reply that is not an identifier packs all the same, and is then read as a part of the text.
pub message_unpack-message_pack_bad_reply :
    (outn idn replyn textn : ℕ) (id reply text wire : Bytes)
    → id_ok (reply_field reply) ≡ false
    → length id < idn
    → length (reply_field reply ++ b'|' ∷ text) < textn
    → message_pack outn id reply text ≡ some wire
    → message_unpack idn replyn textn wire
      ≡ some (record { id = id; reply = []; text = reply_field reply ++ b'|' ∷ text })
unfolding unpack_body
message_unpack-message_pack_bad_reply outn idn replyn textn id reply text wire v li lt h =
    let p = message_pack-Packed outn id reply text wire h in
    ap (message_unpack idn replyn textn) p.bytes
    ∙ unpack_head idn replyn textn id _ p.id_valid li
    ∙ rw
        (
          split_first-append b'|' (reply_field reply) text p.reply_whole,
          looks_like-id_ok (reply_field reply),
          v,
          copy_part_fits textn (reply_field reply ++ b'|' ∷ text) lt,
          unpack_body,
        )
        refl
