-- ===== src/Wire/Actions.antt =====
-- helper/message_action.c: edits, deletions and reactions, packed and unpacked.
use oma_q.Prelude.{
  ℕ, ◌<◌, ◌≡◌, refl, sym, ap, ◌∙◌, inl, inr, Bool, true, false, ◌&&◌, Option, none, some, List, [],
  ◌∷◌, ◌++◌, length, arith, Bool-cases, Option-cases, some_inj, drop,
}
use oma_q.Prelude.Bytes.{
  Bytes, codes, bytes_eq, bytes_eq→eq, lacks, after_prefix, split_first, split_first-append,
  split_first-none, after_prefix_sound,
}
use oma_q.Wire.Ids.{id_ok-lacks, id_ok-nonempty, copy_part_fits}
use oma_q.Wire.{
  id_ok, copy_part, print_into, reaction_ok, any_eq, reactions, edit_pack, edit_unpack, delete_pack,
  delete_unpack, guard, ◌>>=◌, reaction_pack, reaction_unpack, confirm_prefix, confirm_pack,
  confirm_unpack,
}

-- an identifier and what stands behind it, after a tag
record PackedAction (tag id body wire : Bytes) : Type 0 where
  id_valid : id_ok id ≡ true
  bytes : wire ≡ tag ++ id ++ b'|' ∷ body

edit_pack-PackedAction :
    (outn : ℕ) (id text wire : Bytes)
    → edit_pack outn id text ≡ some wire
    → PackedAction (codes "OQE1|") id text wire
unfolding edit_pack print_into
edit_pack-PackedAction outn id text wire h = record {
  id_valid = ground arith;
  bytes = ground arith;
}

reaction_pack-PackedAction :
    (outn : ℕ) (id emoji wire : Bytes)
    → reaction_pack outn id emoji ≡ some wire
    → PackedAction (codes "OQX1|") id emoji wire × (reaction_ok emoji ≡ true)
unfolding reaction_pack print_into
reaction_pack-PackedAction outn id emoji wire h =
    (record { id_valid = ground arith; bytes = ground arith }, ground arith)

-- A packed edit is unpacked to its identifier and its text, where the arrays have room.
pub edit_unpack-edit_pack :
    (outn idn textn : ℕ) (id text wire : Bytes)
    → length id < idn
    → length text < textn
    → edit_pack outn id text ≡ some wire
    → edit_unpack idn textn wire ≡ some (record { id = id; body = text })
unfolding edit_unpack
edit_unpack-edit_pack outn idn textn id text wire li lt h =
    let p = edit_pack-PackedAction outn id text wire h in
    ap (edit_unpack idn textn) p.bytes
    ∙ rw
        (
          split_first-append b'|' id text (id_ok-lacks id p.id_valid),
          id_ok-nonempty id p.id_valid,
          copy_part_fits idn id li,
          p.id_valid,
          copy_part_fits textn text lt,
        )
        refl

-- A packed deletion is unpacked to its identifier, where the array has room.
pub delete_unpack-delete_pack :
    (outn idn : ℕ) (id wire : Bytes)
    → length id < idn
    → delete_pack outn id ≡ some wire
    → delete_unpack idn wire ≡ some id
unfolding delete_pack print_into
delete_unpack-delete_pack outn idn id wire li h =
    ap (delete_unpack idn) bytes ∙ unfold delete_unpack in rw (copy_part_fits idn id li, valid) refl
  where
    bytes : wire ≡ codes "OQD1|" ++ id
    bytes = ground arith

    valid : id_ok id ≡ true
    valid = ground arith

-- A packed reaction is unpacked to its identifier and its emoji.
pub reaction_unpack-reaction_pack :
    (outn idn emojin : ℕ) (id emoji wire : Bytes)
    → length id < idn
    → length emoji < emojin
    → reaction_pack outn id emoji ≡ some wire
    → reaction_unpack idn emojin wire ≡ some (record { id = id; body = emoji })
unfolding reaction_unpack
reaction_unpack-reaction_pack outn idn emojin id emoji wire li le h =
    let (p, ok) = reaction_pack-PackedAction outn id emoji wire h in
    ap (reaction_unpack idn emojin) p.bytes
    ∙ rw
        (
          split_first-append b'|' id emoji (id_ok-lacks id p.id_valid),
          id_ok-nonempty id p.id_valid,
          copy_part_fits idn id li,
          p.id_valid,
          copy_part_fits emojin emoji le,
          ok,
        )
        refl

-- no accepted reaction has a separator in it
all_lack : List Bytes → Bool
all_lack [] = true
all_lack (x ∷ l) = lacks b'|' x && all_lack l

reactions-all_lack : all_lack reactions ≡ true
unfolding all_lack
reactions-all_lack = refl

any_eq-lacks :
    (s : Bytes) (l : List Bytes) → all_lack l ≡ true → any_eq s l ≡ true → lacks b'|' s ≡ true
unfolding any_eq all_lack
any_eq-lacks s [] a h = cc
any_eq-lacks s (x ∷ l) a h = elim (Bool-cases (bytes_eq s x)) [
  | inl e ↦ ap (lacks b'|') (bytes_eq→eq s x e) ∙ ground arith
  | inr n ↦ any_eq-lacks s l (ground arith) (ground arith)
]

reaction_ok-lacks : (emoji : Bytes) → reaction_ok emoji ≡ true → lacks b'|' emoji ≡ true
unfolding reaction_ok
reaction_ok-lacks emoji h = any_eq-lacks emoji reactions reactions-all_lack h

confirm_id : Bytes
confirm_id = codes "receipt-confirm-v1"

not_confirm :
    (id emoji wire start : Bytes)
    → PackedAction (codes "OQX1|") id emoji wire
    → wire ≡ confirm_prefix ++ start
    → emoji ≡ start
unfolding confirm_id
not_confirm id emoji wire start p e =
    ap (λ t. t.1)
      (some_inj (
        sym (split_first-append b'|' id emoji (id_ok-lacks id p.id_valid))
        ∙ ap (λ w. split_first b'|' (drop 5 w)) (sym p.bytes ∙ e)
        ∙ split_first-append b'|' confirm_id start refl))

-- Reactions and receipt confirmations begin with the same tag, and are told apart all the same: no
-- packed reaction is accepted as a confirmation,
pub confirm_unpack-reaction_pack :
    (outn idn staten targetn : ℕ) (id emoji wire : Bytes)
    → reaction_pack outn id emoji ≡ some wire
    → confirm_unpack idn staten targetn wire ≡ none
unfolding confirm_unpack
confirm_unpack-reaction_pack outn idn staten targetn id emoji wire h =
    let (p, ok) = reaction_pack-PackedAction outn id emoji wire h in
    elim (Option-cases (after_prefix confirm_prefix wire)) [
      | inl n ↦ rw (n, confirm_unpack) refl
      | inr (start, e) ↦
          let same =
            not_confirm id emoji wire start p (after_prefix_sound confirm_prefix wire start e) in
          rw
            (
              e,
              confirm_unpack,
              split_first-none b'|' start (ap (lacks b'|') (sym same) ∙ reaction_ok-lacks emoji ok),
            )
            refl
    ]

-- text with a separator in it is no reaction
lacks-append : (a b : Bytes) → lacks b'|' (a ++ b'|' ∷ b) ≡ false
lacks-append [] b = refl
lacks-append (c ∷ a) b = ground (arith, lacks-append a b)

reaction_ok-separator : (a b : Bytes) → reaction_ok (a ++ b'|' ∷ b) ≡ false
reaction_ok-separator a b = elim (Bool-cases (reaction_ok (a ++ b'|' ∷ b))) [
  | inl h ↦ cc (reaction_ok-lacks (a ++ b'|' ∷ b) h, lacks-append a b)
  | inr h ↦ h
]

copy_then_refuse :
    {A : Type 0} (n : ℕ) (s : Bytes) (f : Bytes → Option A)
    → f s ≡ none
    → (copy_part n s >>= f) ≡ none
unfolding copy_part
copy_then_refuse n s f h = ground (arith, h)

then_none {ℓ κ} :
    {A : Type ℓ} {B : Type κ} (m : Option A) (f : A → Option B)
    → ((a : A) → f a ≡ none)
    → (m >>= f) ≡ none
then_none none f h = refl
then_none (some a) f h = h a

-- Nor is any packed confirmation accepted as a reaction.
pub reaction_unpack-confirm_pack :
    (outn idn emojin : ℕ) (id state target wire : Bytes)
    → confirm_pack outn id state target ≡ some wire
    → reaction_unpack idn emojin wire ≡ none
unfolding reaction_unpack
reaction_unpack-confirm_pack outn idn emojin id state target wire h =
    ap (reaction_unpack idn emojin) bytes
    ∙ then_none (copy_part idn (codes "receipt-confirm-v1")) _ (λ id'.
      then_none (guard (id_ok id')) _ (λ _.
        copy_then_refuse emojin body _
          (rw (reaction_ok-separator state (id ++ b'|' ∷ target)) refl)))
  where
    body : Bytes
    body = state ++ b'|' ∷ (id ++ b'|' ∷ target)

    bytes : wire ≡ confirm_prefix ++ body
    bytes = unfold confirm_pack print_into in ground arith
