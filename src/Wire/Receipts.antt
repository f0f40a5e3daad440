-- ===== src/Wire/Receipts.antt =====
-- helper/receipt.c: receipts and their confirmations, packed and unpacked.
use oma_q.Prelude.{ℕ, ◌<◌, ◌≡◌, refl, sym, ap, ◌∙◌, true, false, some, [], ◌∷◌, ◌++◌, length, arith}
use oma_q.Prelude.Bytes.{Bytes, codes, bytes_eq, bytes_eq→eq, lacks, split_first-append}
use oma_q.Wire.Ids.{id_ok-lacks, id_ok-nonempty, copy_part_fits}
use oma_q.Wire.{
  is_empty, id_ok, print_into, is_receipt_state, receipt_pack, receipt_unpack, receipt_target_ok,
  confirm_prefix, confirm_pack, confirm_unpack,
}

is_receipt_state-nonempty : (state : Bytes) → is_receipt_state state ≡ true → is_empty state ≡ false
is_receipt_state-nonempty [] h = cc
is_receipt_state-nonempty (c ∷ s) h = refl

-- what a packed receipt looks like
record PackedReceipt (id state wire : Bytes) : Type 0 where
  id_valid : id_ok id ≡ true
  state_whole : lacks b'|' state ≡ true
  state_known : is_receipt_state state ≡ true
  bytes : wire ≡ codes "OQA1|" ++ state ++ b'|' ∷ id

receipt_pack-PackedReceipt :
    (outn : ℕ) (id state wire : Bytes)
    → receipt_pack outn id state ≡ some wire
    → PackedReceipt id state wire
unfolding receipt_pack print_into
receipt_pack-PackedReceipt outn id state wire h = record {
  id_valid = ground arith;
  state_whole = ground arith;
  state_known = ground arith;
  bytes = ground arith;
}

-- A packed receipt is unpacked to its state and its identifier, where the arrays have room.
pub receipt_unpack-receipt_pack :
    (outn idn staten : ℕ) (id state wire : Bytes)
    → length id < idn
    → length state < staten
    → receipt_pack outn id state ≡ some wire
    → receipt_unpack idn staten wire ≡ some (record { id = id; state = state })
unfolding receipt_unpack
receipt_unpack-receipt_pack outn idn staten id state wire li ls h =
    let p = receipt_pack-PackedReceipt outn id state wire h in
    ap (receipt_unpack idn staten) p.bytes
    ∙ rw
        (
          split_first-append b'|' state id p.state_whole,
          is_receipt_state-nonempty state p.state_known,
          copy_part_fits staten state ls,
          p.state_known,
          copy_part_fits idn id li,
          p.id_valid,
        )
        refl

-- what a packed confirmation looks like
record PackedConfirm (id state target wire : Bytes) : Type 0 where
  id_valid : id_ok id ≡ true
  state_known : bytes_eq state (codes "read") ≡ true
  target_valid : receipt_target_ok target ≡ true
  bytes : wire ≡ confirm_prefix ++ state ++ b'|' ∷ (id ++ b'|' ∷ target)

confirm_pack-PackedConfirm :
    (outn : ℕ) (id state target wire : Bytes)
    → confirm_pack outn id state target ≡ some wire
    → PackedConfirm id state target wire
unfolding confirm_pack print_into
confirm_pack-PackedConfirm outn id state target wire h = record {
  id_valid = ground arith;
  state_known = ground arith;
  target_valid = ground arith;
  bytes = ground arith;
}

-- A packed confirmation is unpacked to its state, its identifier and its target.
pub confirm_unpack-confirm_pack :
    (outn idn staten targetn : ℕ) (id state target wire : Bytes)
    → length id < idn
    → length state < staten
    → length target < targetn
    → confirm_pack outn id state target ≡ some wire
    → confirm_unpack idn staten targetn wire
      ≡ some (record { id = id; state = state; target = target })
unfolding confirm_unpack
confirm_unpack-confirm_pack outn idn staten targetn id state target wire li ls lt h =
    let p = confirm_pack-PackedConfirm outn id state target wire h in
    let is_read = bytes_eq→eq state (codes "read") p.state_known in
    ap (confirm_unpack idn staten targetn)
      (p.bytes ∙ ap (λ s. confirm_prefix ++ s ++ b'|' ∷ (id ++ b'|' ∷ target)) is_read)
    ∙ rw
        (
          copy_part_fits staten (codes "read") (omega (arith, ap length is_read)),
          split_first-append b'|' id target (id_ok-lacks id p.id_valid),
          id_ok-nonempty id p.id_valid,
          copy_part_fits idn id li,
          p.id_valid,
          copy_part_fits targetn target lt,
          p.target_valid,
        )
        (ap (λ s. some (record { id = id; state = s; target = target })) (sym is_read))
