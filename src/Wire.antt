-- ===== src/Wire.antt =====
-- The texts that travel over the transport: helper/receipt.c (messages and receipts) and
-- helper/message_action.c (edits, deletions and reactions), with the message identifiers of
-- helper/message.c. A packer answers `none` where the code returns -1; the sizes of the output
-- arrays are arguments. Pointers are not null; a reply that is null packs as an empty one.
pub mod Ids
pub mod Messages
pub mod Receipts
pub mod Actions
use mathlib.Core.Option
use oma_q.Prelude.{
  ℕ, ◌+◌, Bool, true, false, not, ◌&&◌, ◌||◌, Option, none, some, List, [], ◌∷◌, ◌++◌, ltb, leb,
  ◌==◌, if◌then◌else◌, within, length,
}
use oma_q.Prelude.Bytes.{
  Bytes, codes, bytes_eq, all_bytes, after_prefix, split_first, lacks, is_lower_hex,
}

abbrev pub is_empty : Bytes → Bool
is_empty [] = true
is_empty (c ∷ s) = false

abbrev pub is_id_byte : ℕ → Bool
is_id_byte c =
    within b'a' b'z' c
    || (within b'A' b'Z' c
        || (within b'0' b'9' c || (c == b'-' || (c == b'_' || (c == b':' || c == b'.')))))

-- `omaq_message_id_ok`
unfoldable pub id_ok : Bytes → Bool
id_ok id = not (is_empty id) && (leb (length id) 96 && all_bytes is_id_byte id)

-- `omaq_message_id_reserved`
unfoldable pub id_reserved : Bytes → Bool
id_reserved id = elim (after_prefix (codes "gf:") id) [ none ↦ false | some _ ↦ true ]

-- the `snprintf` into `out`, with the test of its result
unfoldable pub print_into : ℕ → Bytes → Option Bytes
print_into outn s = if ltb (length s) outn then some s else none

unfoldable pub copy_part : ℕ → Bytes → Option Bytes
copy_part outn s = if outn == 0 || ltb outn (length s + 1) then none else some s

infixl 5 ◌>>=◌
abbrev pub ◌>>=◌ {ℓ κ} : {A : Type ℓ} {B : Type κ} → Option A → (A → Option B) → Option B
none >>= f = none
some a >>= f = f a

abbrev pub guard : Bool → Option (Unit {0})
guard true = some tt
guard false = none

infixl 5 ◌>>◌
abbrev pub ◌>>◌ {ℓ} : {B : Type ℓ} → Option (Unit {0}) → Option B → Option B
m >> k = m >>= λ _. k

pub record WireMessage : Type 0 where
  pub id : Bytes
  pub reply : Bytes
  pub text : Bytes

pub record WireReceipt : Type 0 where
  pub id : Bytes
  pub state : Bytes

pub record WireConfirm : Type 0 where
  pub id : Bytes
  pub state : Bytes
  pub target : Bytes

-- the identifier of a message, with the new text or the emoji
pub record WireAction : Type 0 where
  pub id : Bytes
  pub body : Bytes

abbrev pub reply_field : Bytes → Bytes
reply_field reply = if is_empty reply then codes "-" else reply

unfoldable pub message_pack : ℕ → Bytes → Bytes → Bytes → Option Bytes
message_pack outn id reply text =
    if not (id_ok id) || not (lacks b'|' (reply_field reply))
    then none
    else print_into outn (codes "OQM1|" ++ id ++ b'|' ∷ (reply_field reply ++ b'|' ∷ text))

unfoldable pub looks_like_message_id : Bytes → Bool
looks_like_message_id s = elim (copy_part 97 s) [ none ↦ false | some id ↦ id_ok id ]

-- the text behind the identifier, with the reply where one stands before it
unfoldable pub unpack_body : ℕ → ℕ → Bytes → Bytes → Option (Bytes × Bytes) → Option WireMessage
unpack_body replyn textn id rest none = do
  text ← copy_part textn rest
  some (record { id = id; reply = []; text = text })
unpack_body replyn textn id rest (some (r, t)) =
    if looks_like_message_id r
    then (do
      reply ← copy_part replyn r
      text ← copy_part textn t
      some (record {
        id = id;
        reply = if bytes_eq reply (codes "-") then [] else reply;
        text = text;
      }))
    else (do text ← copy_part textn rest; some (record { id = id; reply = []; text = text }))

-- An array for the identifier, the reply and the text each.
unfoldable pub message_unpack : ℕ → ℕ → ℕ → Bytes → Option WireMessage
message_unpack idn replyn textn wire = do
  start ← after_prefix (codes "OQM1|") wire
  (first, rest) ← split_first b'|' start
  guard (not (is_empty first))
  id ← copy_part idn first
  guard (id_ok id)
  unpack_body replyn textn id rest (split_first b'|' rest)

abbrev pub is_receipt_state : Bytes → Bool
is_receipt_state state = bytes_eq state (codes "delivered") || bytes_eq state (codes "read")

unfoldable pub receipt_pack : ℕ → Bytes → Bytes → Option Bytes
receipt_pack outn id state =
    if not (id_ok id) || (not (lacks b'|' state) || not (is_receipt_state state))
    then none
    else print_into outn (codes "OQA1|" ++ state ++ b'|' ∷ id)

unfoldable pub receipt_unpack : ℕ → ℕ → Bytes → Option WireReceipt
receipt_unpack idn staten wire = do
  start ← after_prefix (codes "OQA1|") wire
  (first, rest) ← split_first b'|' start
  guard (not (is_empty first))
  state ← copy_part staten first
  guard (is_receipt_state state)
  id ← copy_part idn rest
  guard (id_ok id)
  some (record { id = id; state = state })

unfoldable pub receipt_target_ok : Bytes → Bool
receipt_target_ok target =
    bytes_eq target (codes "-") || (length target == 64 && all_bytes is_lower_hex target)

abbrev pub confirm_prefix : Bytes
confirm_prefix = codes "OQX1|receipt-confirm-v1|"

unfoldable pub confirm_pack : ℕ → Bytes → Bytes → Bytes → Option Bytes
confirm_pack outn id state target =
    if not (id_ok id) || (not (bytes_eq state (codes "read")) || not (receipt_target_ok target))
    then none
    else print_into outn (confirm_prefix ++ state ++ b'|' ∷ (id ++ b'|' ∷ target))

unfoldable pub confirm_unpack : ℕ → ℕ → ℕ → Bytes → Option WireConfirm
confirm_unpack idn staten targetn wire = do
  start ← after_prefix confirm_prefix wire
  (first, rest) ← split_first b'|' start
  guard (not (is_empty first))
  state ← copy_part staten first
  guard (bytes_eq state (codes "read"))
  (second, last) ← split_first b'|' rest
  guard (not (is_empty second))
  id ← copy_part idn second
  guard (id_ok id)
  target ← copy_part targetn last
  guard (receipt_target_ok target)
  some (record { id = id; state = state; target = target })

unfoldable pub edit_pack : ℕ → Bytes → Bytes → Option Bytes
edit_pack outn id text =
    if not (id_ok id) then none else print_into outn (codes "OQE1|" ++ id ++ b'|' ∷ text)

unfoldable pub edit_unpack : ℕ → ℕ → Bytes → Option WireAction
edit_unpack idn textn wire = do
  start ← after_prefix (codes "OQE1|") wire
  (first, rest) ← split_first b'|' start
  guard (not (is_empty first))
  id ← copy_part idn first
  guard (id_ok id)
  text ← copy_part textn rest
  some (record { id = id; body = text })

unfoldable pub delete_pack : ℕ → Bytes → Option Bytes
delete_pack outn id = if not (id_ok id) then none else print_into outn (codes "OQD1|" ++ id)

unfoldable pub delete_unpack : ℕ → Bytes → Option Bytes
delete_unpack idn wire = do
  rest ← after_prefix (codes "OQD1|") wire
  id ← copy_part idn rest
  guard (id_ok id)
  some id

-- the bytes of the reactions that are accepted
abbrev pub reactions : List Bytes
reactions =
    []
    ∷ (0xf0 ∷ 0x9f ∷ 0x98 ∷ 0x80 ∷ [])
    ∷ (0xf0 ∷ 0x9f ∷ 0x99 ∷ 0x82 ∷ [])
    ∷ (0xf0 ∷ 0x9f ∷ 0x98 ∷ 0x89 ∷ [])
    ∷ (0xf0 ∷ 0x9f ∷ 0x98 ∷ 0x8d ∷ [])
    ∷ (0xf0 ∷ 0x9f ∷ 0x98 ∷ 0x82 ∷ [])
    ∷ (0xf0 ∷ 0x9f ∷ 0x98 ∷ 0x85 ∷ [])
    ∷ (0xf0 ∷ 0x9f ∷ 0x99 ∷ 0x8c ∷ [])
    ∷ (0xf0 ∷ 0x9f ∷ 0x91 ∷ 0x8d ∷ [])
    ∷ (0xf0 ∷ 0x9f ∷ 0x91 ∷ 0x8e ∷ [])
    ∷ (0xe2 ∷ 0x9d ∷ 0xa4 ∷ 0xef ∷ 0xb8 ∷ 0x8f ∷ [])
    ∷ (0xf0 ∷ 0x9f ∷ 0x94 ∷ 0xa5 ∷ [])
    ∷ (0xe2 ∷ 0x9c ∷ 0xa8 ∷ [])
    ∷ (0xf0 ∷ 0x9f ∷ 0x8e ∷ 0x89 ∷ [])
    ∷ (0xf0 ∷ 0x9f ∷ 0x99 ∷ 0x8f ∷ [])
    ∷ (0xf0 ∷ 0x9f ∷ 0x98 ∷ 0xae ∷ [])
    ∷ (0xf0 ∷ 0x9f ∷ 0x98 ∷ 0xa2 ∷ [])
    ∷ (0xf0 ∷ 0x9f ∷ 0x98 ∷ 0xa1 ∷ [])
    ∷ (0xf0 ∷ 0x9f ∷ 0xa4 ∷ 0x94 ∷ [])
    ∷ (0xf0 ∷ 0x9f ∷ 0x91 ∷ 0x80 ∷ [])
    ∷ (0xe2 ∷ 0x9c ∷ 0x85 ∷ [])
    ∷ (0xf0 ∷ 0x9f ∷ 0x91 ∷ 0x8b ∷ [])
    ∷ (0xf0 ∷ 0x9f ∷ 0x92 ∷ 0xaf ∷ [])
    ∷ []

unfoldable pub any_eq : Bytes → List Bytes → Bool
any_eq s [] = false
any_eq s (x ∷ xs) = bytes_eq s x || any_eq s xs

-- `omaq_message_reaction_ok`
unfoldable pub reaction_ok : Bytes → Bool
reaction_ok emoji = any_eq emoji reactions

unfoldable pub reaction_pack : ℕ → Bytes → Bytes → Option Bytes
reaction_pack outn id emoji =
    if not (id_ok id) || not (reaction_ok emoji)
    then none
    else print_into outn (codes "OQX1|" ++ id ++ b'|' ∷ emoji)

unfoldable pub reaction_unpack : ℕ → ℕ → Bytes → Option WireAction
reaction_unpack idn emojin wire = do
  start ← after_prefix (codes "OQX1|") wire
  (first, rest) ← split_first b'|' start
  guard (not (is_empty first))
  id ← copy_part idn first
  guard (id_ok id)
  emoji ← copy_part emojin rest
  guard (reaction_ok emoji)
  some (record { id = id; body = emoji })
