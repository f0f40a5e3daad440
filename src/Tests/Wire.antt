-- ===== src/Tests/Wire.antt =====
-- helper/receipt.c and helper/message_action.c on short texts.
use oma_q.Prelude.{◌≡◌, refl, inr, none, some, [], ◌∷◌, ◌++◌, arith}
use oma_q.Prelude.Bytes.{Bytes, codes}
use oma_q.Wire.Messages.{message_unpack-message_pack}
use oma_q.Wire.Receipts.{confirm_unpack-confirm_pack}
use oma_q.Wire.Actions.{confirm_unpack-reaction_pack}
use oma_q.Wire.{
  id_ok, print_into, message_pack, message_unpack, receipt_target_ok, confirm_pack, confirm_unpack,
  any_eq, reaction_ok, reaction_pack,
}

abbrev id : Bytes
id = codes "m-1"

abbrev thumbs_up : Bytes
thumbs_up = 0xf0 ∷ 0x9f ∷ 0x91 ∷ 0x8d ∷ []

message_unpack-message_pack_example :
    message_unpack 64 64 64 (codes "OQM1|m-1|m-0|a|b")
    ≡ some (record { id = id; reply = codes "m-0"; text = codes "a|b" })
unfolding message_pack id_ok print_into
message_unpack-message_pack_example =
    message_unpack-message_pack 64 64 64 64 id (codes "m-0") (codes "a|b")
      (codes "OQM1|m-1|m-0|a|b") (inr refl) (omega arith) (omega arith) (omega arith) refl

confirm_unpack-confirm_pack_example :
    confirm_unpack 64 16 80 (codes "OQX1|receipt-confirm-v1|read|m-1|-")
    ≡ some (record { id = id; state = codes "read"; target = codes "-" })
unfolding confirm_pack id_ok print_into receipt_target_ok
confirm_unpack-confirm_pack_example =
    confirm_unpack-confirm_pack 64 64 16 80 id (codes "read") (codes "-")
      (codes "OQX1|receipt-confirm-v1|read|m-1|-") (omega arith) (omega arith) (omega arith) refl

-- even where the identifier is the tag of the confirmations
confirm_unpack-reaction_pack_example :
    confirm_unpack 64 16 80 (codes "OQX1|receipt-confirm-v1|" ++ thumbs_up) ≡ none
unfolding reaction_pack id_ok print_into reaction_ok any_eq
confirm_unpack-reaction_pack_example =
    confirm_unpack-reaction_pack 64 64 16 80 (codes "receipt-confirm-v1") thumbs_up
      (codes "OQX1|receipt-confirm-v1|" ++ thumbs_up) refl
