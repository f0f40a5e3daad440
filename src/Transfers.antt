-- ===== src/Transfers.antt =====
-- helper/file.c: the transfers of files, their offers and the reports of progress. The answers of
-- toxcore and of the file system are arguments; an open file is the list of its bytes. Times are
-- those of a clock that is never negative, so `now - at < d` is written `now < at + d`.
pub mod Table
pub mod Slots
pub mod Search
pub mod State
pub mod Receive
pub mod Starts
pub mod Begin
pub mod Marks
pub mod Chunks
pub mod Whole
pub mod Reached
pub mod Offers
use mathlib.Core.Option
use oma_q.Prelude.{
  ℕ, zero, suc, ◌+◌, ◌-◌, ◌*◌, ◌/◌, ◌%◌, ◌^◌, Bool, true, false, not, ◌&&◌, ◌||◌, Option, none,
  some, List, [], ◌∷◌, ◌++◌, ltb, leb, ◌==◌, if◌then◌else◌, length, get_or, set, take, drop,
  replicate, map, min,
}
use oma_q.Prelude.Bytes.{Bytes}
use oma_q.FileNames.{file_basename, file_name_max}
use oma_q.Transfers.Table.{Slot, empty_slot, hits, find}

abbrev pub xfers : ℕ
xfers = 4

abbrev pub progress_slots : ℕ
progress_slots = 8

abbrev pub progress_interval_ms : ℕ
progress_interval_ms = 250

abbrev pub file_max : ℕ
file_max = 8 * 1024 * 1024

-- `fp` is none for a null pointer
pub record Xfer : Type 0 where
  pub sending : Bool
  pub fp : Option Bytes
  pub path : Bytes
  pub size : ℕ
  pub got : ℕ
  pub avatar : Bool

pub record Offer : Type 0 where
  pub size : ℕ
  pub name : Bytes

pub record Mark : Type 0 where
  pub at : ℕ
  pub percent : ℕ

abbrev pub no_xfer : Xfer
no_xfer = record { sending = false; fp = none; path = []; size = 0; got = 0; avatar = false }

abbrev pub no_offer : Offer
no_offer = record { size = 0; name = [] }

abbrev pub no_mark : Mark
no_mark = record { at = 0; percent = 0 }

-- With the paths that were unlinked, the last one first.
pub record Files : Type 0 where
  pub xf : List (Slot Xfer)
  pub offers : List (Slot Offer)
  pub progress : List (Slot Mark)
  pub unlinked : List Bytes

unfoldable pub files_init : Files
unfolding empty_slot
files_init = record {
  xf = replicate xfers (empty_slot no_xfer);
  offers = replicate xfers (empty_slot no_offer);
  progress = replicate progress_slots (empty_slot no_mark);
  unlinked = [];
}

abbrev pub xfer_at : ℕ → Files → Slot Xfer
xfer_at i w = get_or w.xf i (empty_slot no_xfer)

abbrev pub offer_at : ℕ → Files → Slot Offer
offer_at i w = get_or w.offers i (empty_slot no_offer)

abbrev pub unlink : Bytes → Files → Files
unlink path w = record w { unlinked = path ∷ w.unlinked }

unfoldable pub progress_forget : ℕ → ℕ → List (Slot Mark) → List (Slot Mark)
unfolding hits empty_slot
progress_forget f n = map λ m. if hits f n m then empty_slot no_mark else m

unfoldable pub xf_drop : ℕ → Files → Files
unfolding progress_forget empty_slot
xf_drop i w = if not (xfer_at i w).used then w else record w {
  progress = progress_forget (xfer_at i w).friend (xfer_at i w).fnum w.progress;
  xf = set w.xf i (empty_slot no_xfer);
}

abbrev pub offer_found : Bytes → ℕ → Files → Option ℕ × List (Slot Offer) → Bool × Files
offer_found safe size w (none, t) = (false, record w { offers = t })
offer_found safe size w (some i, t) = (
  true,
  record w {
    offers =
        set t i (record (get_or t i (empty_slot no_offer)) {
          body = record { size = size; name = safe };
        });
  },
)

abbrev pub offer_named : ℕ → ℕ → ℕ → Files → Option Bytes → Bool × Files
offer_named f n size w none = (false, w)
offer_named f n size w (some safe) = offer_found safe size w (find true f n no_offer w.offers)

unfoldable pub offer_store : ℕ → ℕ → Bytes → ℕ → Files → Bool × Files
unfolding find empty_slot
offer_store f n name size w =
    if ltb file_max size || size == 0
    then (false, w)
    else offer_named f n size w (file_basename name (file_name_max + 1))

-- The name, written to an array of `cap` bytes unless that is 0, and the size.
unfoldable pub offer_lookup : ℕ → ℕ → ℕ → Files → Option (Option Bytes × ℕ)
unfolding find empty_slot
offer_lookup f n cap w = elim ((find false f n no_offer w.offers).0) [
  | none ↦ none
  | some i ↦
      let o = (offer_at i w).body in
      if cap == 0
      then some (none, o.size)
      else if leb cap (length o.name)
      then none
      else some (some o.name, o.size)
]

unfoldable pub offer_drop : ℕ → ℕ → Files → Files
unfolding find empty_slot
offer_drop f n w = elim ((find false f n no_offer w.offers).0) [
  | none ↦ w
  | some i ↦ record w { offers = set w.offers i (empty_slot no_offer) }
]

-- the index of the transfer
unfoldable pub xf_index : ℕ → ℕ → Files → Option ℕ
unfolding find
xf_index f n w = (find false f n no_xfer w.xf).0

unfoldable pub drop_partial : ℕ → Files → Files
unfolding empty_slot
drop_partial i w =
    let x = (xfer_at i w).body in
    if not x.sending && not (length x.path == 0) then unlink x.path w else w

unfoldable pub drop_transfer : ℕ → ℕ → Files → Files
unfolding drop_partial xf_drop offer_drop xf_index
drop_transfer f n w =
    offer_drop f n (elim (xf_index f n w) [ none ↦ w | some i ↦ xf_drop i (drop_partial i w) ])

-- With what toxcore answers to the cancelling packet.
abbrev pub cancel : Bool → ℕ → ℕ → Files → Bool × Files
cancel true f n w = (true, drop_transfer f n w)
cancel false f n w = (false, w)

-- the loop over the slots from i on
abbrev pub reset_loop : ℕ → ℕ → Files → Files
reset_loop zero i w = w
reset_loop (suc n) i w =
    reset_loop n (suc i) (xf_drop i (if (xfer_at i w).used then drop_partial i w else w))

unfoldable pub reset : Files → Files
unfolding xf_drop drop_partial empty_slot
reset w = record (reset_loop xfers 0 w) {
  offers = replicate xfers (empty_slot no_offer);
  progress = replicate progress_slots (empty_slot no_mark);
}

-- `fwrite` behind `fseeko`: a gap before the position is filled with zeros.
unfoldable pub write_at : Bytes → ℕ → Bytes → Bytes
write_at file pos bytes =
    take pos file ++ (replicate (pos - length file) 0 ++ (bytes ++ drop (pos + length bytes) file))

-- 1, 0 and -1
pub data ChunkIn : Type 0 where
  complete : Bytes → ChunkIn
  stored refused : ChunkIn

-- A chunk without bytes ends the transfer.
unfoldable pub end_in : ℕ → ℕ → Files → ChunkIn × Files
unfolding xf_drop empty_slot
end_in i cap w =
    let x = (xfer_at i w).body in
    if not (x.got == x.size)
    then (refused, w)
    else if not (cap == 0) && leb cap (length x.path)
    then (refused, w)
    else (complete x.path, xf_drop i w)

abbrev pub put_body : ℕ → Files → Xfer → Files
put_body i w b = record w { xf = set w.xf i (record (xfer_at i w) { body = b }) }

-- `seeks` says if `fseeko` succeeds, `written` is what `fwrite` returns
unfoldable pub store_in : ℕ → Bytes → ℕ → Bytes → Bool → ℕ → Files → ChunkIn × Files
unfolding write_at empty_slot
store_in i file pos bytes seeks written w =
    let x = (xfer_at i w).body in
    let len = length bytes in
    let after = write_at file pos (take written bytes) in
    if ltb x.size pos || ltb (x.size - pos) len
    then (refused, w)
    else if not seeks
    then (refused, w)
    else if not (written == len)
    then (refused, put_body i w (record x { fp = some after }))
    else if ltb (2 ^ 64 - 1 - pos) len
    then (refused, put_body i w (record x { fp = some after }))
    else (
      stored,
      put_body i w
          (record x { fp = some after; got = if ltb x.got (pos + len) then pos + len else x.got }),
    )

abbrev pub chunk_at : ℕ → Option Bytes → ℕ → Bytes → ℕ → Bool → ℕ → Files → ChunkIn × Files
chunk_at i none pos bytes cap seeks written w = (refused, w)
chunk_at i (some file) pos bytes cap seeks written w =
    if length bytes == 0 then end_in i cap w else store_in i file pos bytes seeks written w

unfoldable pub chunk_in : ℕ → ℕ → ℕ → Bytes → ℕ → Bool → ℕ → Files → ChunkIn × Files
unfolding end_in store_in xf_index empty_slot
chunk_in f n pos bytes cap seeks written w = elim (xf_index f n w) [
  | none ↦ (refused, w)
  | some i ↦
      let x = (xfer_at i w).body in
      if x.sending then (refused, w) else chunk_at i x.fp pos bytes cap seeks written w
]
