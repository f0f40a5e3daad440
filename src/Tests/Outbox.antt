-- ===== src/Tests/Outbox.antt =====
-- helper/receipt.c: an outbox of one receipt.
use oma_q.Prelude.{ℕ, ◌≡◌, ◌≢◌, refl, Bool, true, false, none, [], ◌∷◌}
use oma_q.Prelude.Bytes.{Bytes, codes}
use oma_q.Prelude.Int.{pos}
use oma_q.Wire.{id_ok}
use oma_q.Outbox.{
  Outbox, outbox_init, outbox_find, find_from, added, outbox_add, grow, receipt_conversation_ok,
  entry_of,
}
use oma_q.Outbox.Invariant.{Inv, start, add, Filled-Inv}
use oma_q.Outbox.Laws.{outbox_add_idem}

abbrev always : ℕ → Bool
always n = true

abbrev seven : Bytes
seven = codes "7"

abbrev message : Bytes
message = codes "m1"

abbrev one : Outbox
one = record { entries = entry_of seven message (pos 1000) ∷ []; capacity = 16 }

one_added : outbox_add always (pos 1000) outbox_init seven message ≡ (added, one)
unfolding outbox_add outbox_init outbox_find find_from grow receipt_conversation_ok id_ok
one_added = refl

above_friend : receipt_conversation_ok (codes "4294967296") ≡ false
unfolding receipt_conversation_ok
above_friend = refl

one-Inv : Inv (outbox_add always (pos 1000) outbox_init seven message).1
one-Inv = Filled-Inv (add always (pos 1000) {o = outbox_init} seven message start)

Filled-Inv_example : Inv (outbox_add always (pos 1000) outbox_init seven message).1
Filled-Inv_example = Filled-Inv (add always (pos 1000) {o = outbox_init} seven message start)

outbox_add_idem_example :
    (outbox_find (outbox_add always (pos 1000) outbox_init seven message).1 seven message ≢ none)
    × ((outbox_add always
          (pos 2000)
          (outbox_add always (pos 1000) outbox_init seven message).1
          seven
          message).1
        ≡ (outbox_add always (pos 1000) outbox_init seven message).1)
unfolding outbox_add outbox_init outbox_find find_from grow receipt_conversation_ok id_ok
outbox_add_idem_example =
    outbox_add_idem always (pos 1000) (pos 2000) outbox_init seven message (λ e. cc)
