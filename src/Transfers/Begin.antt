-- ===== src/Transfers/Begin.antt =====
-- helper/file.c: how transfers begin, what is sent of them, and the questions about them. What
-- the file system and toxcore answer is an argument.
use oma_q.Prelude.{
  ℕ, zero, suc, ◌+◌, ◌-◌, ◌/◌, ◌%◌, Bool, true, false, not, ◌&&◌, ◌||◌, Option, none, some, List,
  [], ◌∷◌, ◌++◌, ltb, leb, ◌==◌, if◌then◌else◌, length, take, drop,
}
use oma_q.Prelude.Bytes.{Bytes, codes, lacks}
use oma_q.Prelude.Decimal.{print_decimal}
use oma_q.FileNames.{file_basename, file_name_max, file_path_ok, has_dots}
use oma_q.Transfers.Table.{Slot, empty_slot, find}
use oma_q.Transfers.{
  Files, Xfer, no_xfer, no_offer, file_max, xfer_at, put_body, unlink, xf_drop, offer_drop,
  xf_index,
}

-- one hexadecimal digit, and n of them
abbrev pub hex_digit : ℕ → ℕ
hex_digit d = if ltb d 10 then b'0' + d else b'a' + (d - 10)

abbrev pub print_hex : ℕ → ℕ → Bytes
print_hex zero v = []
print_hex (suc n) v = print_hex n (v / 16) ++ hex_digit (v % 16) ∷ []

-- What a file is received into: the file that open_download_file makes for a name, the random
-- number, whether the two kinds of `open` succeed for a path, and `fchmod`.
pub record Receiving : Type 0 where
  pub download : Bytes → Option Bytes
  pub nonce : Option ℕ
  pub exclusive : Bytes → Bool
  pub overridden : Bytes → Bool
  pub chmod_ok : Bool

abbrev pub avatar_target : Receiving → Bytes → ℕ → ℕ → ℕ → Option ℕ → Option Bytes
avatar_target env dest destn f n none = none
avatar_target env dest destn f n (some nonce) =
    let target =
      dest
      ++ (codes ".incoming."
          ++ (print_decimal f ++ b'.' ∷ (print_decimal n ++ b'.' ∷ print_hex 8 nonce))) in
    if leb 512 (length target) || leb destn (length target)
    then none
    else if env.exclusive target
    then some target
    else none

-- the path of the file that is opened; an empty override is none
unfoldable pub recv_open : Receiving → ℕ → ℕ → Bytes → Bytes → ℕ → Bool → Option Bytes
recv_open env f n safe dest_override destn avatar =
    if length dest_override == 0
    then env.download safe
    else if not (file_path_ok dest_override) || leb destn (length dest_override)
    then none
    else if avatar
    then avatar_target env dest_override destn f n env.nonce
    else if env.overridden dest_override
    then some dest_override
    else none

-- what is done with the slot
unfoldable pub recv_slot :
    Bytes → ℕ → Bool → Files → Option ℕ × List (Slot Xfer) → Option Bytes × Files
unfolding xf_drop empty_slot
recv_slot dest size avatar w (none, t) = (none, unlink dest (record w { xf = t }))
recv_slot dest size avatar w (some i, t) =
    let v = record w { xf = t } in
    let x = (xfer_at i v).body in
    if leb 512 (length dest) then (none, unlink dest (xf_drop i v)) else (
      some dest,
      put_body i v
          (record x { sending = false; avatar = avatar; fp = some []; size = size; path = dest }),
    )

abbrev pub recv_opened : Receiving → ℕ → ℕ → ℕ → Bool → Files → Option Bytes → Option Bytes × Files
recv_opened env f n size avatar w none = (none, w)
recv_opened env f n size avatar w (some dest) =
    if not env.chmod_ok
    then (none, unlink dest w)
    else recv_slot dest size avatar w (find true f n no_xfer w.xf)

abbrev pub offer_done : ℕ → ℕ → Option Bytes × Files → Option Bytes × Files
offer_done f n (none, w) = (none, w)
offer_done f n (some dest, w) = (some dest, offer_drop f n w)

abbrev pub recv_named :
    Receiving → Bytes → ℕ → ℕ → ℕ → Bytes → ℕ → Bool → Files → Option Bytes → Option Bytes × Files
recv_named env conv f n size dest_override destn avatar w none = (none, w)
recv_named env conv f n size dest_override destn avatar w (some safe) =
    if not (lacks b'/' conv) || has_dots conv
    then (none, w)
    else offer_done f n
        (recv_opened env f n size avatar w (recv_open env f n safe dest_override destn avatar))

-- The path of the new file, none being -1.
unfoldable pub recv_begin :
    Receiving → Bytes → ℕ → ℕ → Bytes → ℕ → Bytes → ℕ → Bool → Files → Option Bytes × Files
unfolding recv_open recv_slot find offer_drop
recv_begin env conv f n name size dest_override destn avatar w =
    if size == 0 || ltb file_max size
    then (none, w)
    else recv_named env conv f n size dest_override destn avatar w
        (file_basename name (file_name_max + 1))

-- the slot of a file that toxcore has taken for sending
unfoldable pub send_slot :
    Bytes → Bytes → Bool → Files → ℕ → Option ℕ × List (Slot Xfer) → Option ℕ × Files
unfolding xf_drop empty_slot
send_slot path file avatar w fnum (none, t) = (none, record w { xf = t })
send_slot path file avatar w fnum (some i, t) =
    let v = record w { xf = t } in
    let x = (xfer_at i v).body in
    if leb 512 (length path) then (none, xf_drop i v) else (
      some fnum,
      put_body i v (record x {
        sending = true;
        avatar = avatar;
        fp = some file;
        size = length file;
        path = path;
      }),
    )

abbrev pub send_numbered : ℕ → Bytes → Bytes → Bool → Files → Option ℕ → Option ℕ × Files
send_numbered f path file avatar w none = (none, w)
send_numbered f path file avatar w (some fnum) =
    send_slot path file avatar w fnum (find true f fnum no_xfer w.xf)

abbrev pub send_opened : ℕ → Bytes → Bool → Option ℕ → Files → Option Bytes → Option ℕ × Files
send_opened f path avatar sent w none = (none, w)
send_opened f path avatar sent w (some file) = send_numbered f path file avatar w sent

-- `opened` is the file, if open_send_regular opens it, and `sent` the number from toxcore.
unfoldable pub send_begin : ℕ → Bytes → Option Bytes → Option ℕ → Files → Option ℕ × Files
unfolding send_slot find
send_begin f path opened sent w =
    elim (if file_path_ok path then file_basename path (file_name_max + 1) else none) [
      | none ↦ (none, w)
      | some name ↦ send_opened f path false sent w opened
    ]

unfoldable pub send_avatar_begin : ℕ → Bytes → Option Bytes → Option ℕ → Files → Option ℕ × Files
unfolding send_slot find
send_avatar_begin f path opened sent w =
    if not (file_path_ok path) then (none, w) else send_opened f path true sent w opened

-- -1, 0 behind the last chunk, and 0 with what was sent
pub data ChunkOut : Type 0 where
  failed finished : ChunkOut
  sent : Bytes → ChunkOut

abbrev pub read_out : Bytes → ℕ → ℕ → Bool → ChunkOut
read_out file pos len ready =
    let bytes = take len (drop pos file) in
    if not (length bytes == len) || not ready then failed else sent bytes

abbrev pub out_at : ℕ → Option Bytes → ℕ → ℕ → Bool → Files → ChunkOut × Files
out_at i none pos len ready w = (failed, w)
out_at i (some file) pos len ready w =
    if len == 0
    then (finished, xf_drop i w)
    else if ltb 65536 len
    then (failed, w)
    else (read_out file pos len ready, w)

-- `ready` says if `fseeko`, `malloc` and toxcore do what they are asked for.
unfoldable pub chunk_out : ℕ → ℕ → ℕ → ℕ → Bool → Files → ChunkOut × Files
unfolding xf_index xf_drop empty_slot
chunk_out f n pos len ready w = elim (xf_index f n w) [
  | none ↦ (failed, w)
  | some i ↦
      let x = (xfer_at i w).body in
      if not x.sending then (failed, w) else out_at i x.fp pos len ready w
]

-- the body of the transfer
unfoldable pub xfer_of : ℕ → ℕ → Files → Option Xfer
unfolding xf_index empty_slot
xfer_of f n w = elim (xf_index f n w) [ none ↦ none | some i ↦ some (xfer_at i w).body ]

abbrev pub test : (Xfer → Bool) → Option Xfer → Bool
test p none = false
test p (some x) = p x

unfoldable pub is_avatar : ℕ → ℕ → Files → Bool
unfolding xfer_of
is_avatar f n w = test (λ x. x.avatar) (xfer_of f n w)

unfoldable pub is_sending : ℕ → ℕ → Files → Bool
unfolding xfer_of
is_sending f n w = test (λ x. x.sending) (xfer_of f n w)

abbrev pub file_size : Option Xfer → Option ℕ
file_size none = none
file_size (some x) = if x.avatar then none else some x.size

-- the bytes that are there, and the size
abbrev pub receiving : Option Xfer → Option (ℕ × ℕ)
receiving none = none
receiving (some x) = if x.sending || x.avatar then none else some (x.got, x.size)

abbrev pub is_some : Option ℕ → Bool
is_some none = false
is_some (some i) = true

unfoldable pub can_cancel : ℕ → ℕ → Files → Bool
unfolding xf_index find
can_cancel f n w = is_some (xf_index f n w) || is_some ((find false f n no_offer w.offers).0)

abbrev pub any_used : {A : Type 0} → (Slot A → Bool) → List (Slot A) → Bool
any_used p [] = false
any_used p (x ∷ s) = (x.used && p x) || any_used p s

unfoldable pub busy : Files → Bool
busy w = any_used (λ _. true) w.xf || any_used (λ _. true) w.offers

unfoldable pub friend_active : ℕ → Files → Bool
friend_active f w = any_used (λ x. x.friend == f) w.xf || any_used (λ x. x.friend == f) w.offers
