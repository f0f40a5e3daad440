-- ===== src/Transfers/Reached.antt =====
-- helper/file.c: the states that the calls lead to.
use oma_q.Prelude.{ℕ, ◌≡◌, Bool, false, Option, some, length}
use oma_q.Prelude.Bytes.{Bytes}
use oma_q.Transfers.{
  Files, Xfer, files_init, chunk_in, offer_store, offer_drop, drop_transfer, cancel, reset,
}
use oma_q.Transfers.Table.{held, mem}
use oma_q.Transfers.Begin.{Receiving, recv_begin, send_begin, send_avatar_begin, chunk_out}
use oma_q.Transfers.Marks.{progress_due}

-- Any sequence of calls.
pub data Reached : Files → Type 0 where
  initial : Reached files_init
  offered :
      (w : Files) (f n : ℕ) (name : Bytes) (size : ℕ)
      → Reached w
      → Reached (offer_store f n name size w).1
  withdrawn : (w : Files) (f n : ℕ) → Reached w → Reached (offer_drop f n w)
  begun :
      (w : Files) (env : Receiving) (conv : Bytes) (f n : ℕ) (name : Bytes) (size : ℕ)
      (dest_override : Bytes) (destn : ℕ) (avatar : Bool)
      → Reached w
      → Reached (recv_begin env conv f n name size dest_override destn avatar w).1
  sent_file :
      (w : Files) (f : ℕ) (path : Bytes) (opened : Option Bytes) (number : Option ℕ)
      → Reached w
      → Reached (send_begin f path opened number w).1
  sent_avatar :
      (w : Files) (f : ℕ) (path : Bytes) (opened : Option Bytes) (number : Option ℕ)
      → Reached w
      → Reached (send_avatar_begin f path opened number w).1
  chunk_came :
      (w : Files) (f n pos : ℕ) (bytes : Bytes) (cap : ℕ) (seeks : Bool) (written : ℕ)
      → Reached w
      → Reached (chunk_in f n pos bytes cap seeks written w).1
  chunk_asked :
      (w : Files) (f n pos len : ℕ) (ready : Bool)
      → Reached w
      → Reached (chunk_out f n pos len ready w).1
  reported :
      (w : Files) (f n done size now : ℕ) → Reached w → Reached (progress_due f n done size now w).1
  dropped : (w : Files) (f n : ℕ) → Reached w → Reached (drop_transfer f n w)
  canceled : (w : Files) (told : Bool) (f n : ℕ) → Reached w → Reached (cancel told f n w).1
  emptied : (w : Files) → Reached w → Reached (reset w)

-- A run in which no file is received under a number that a transfer of the friend has at the time.
unfoldable pub FreshNumbers : {w : Files} → Reached w → Type 0
FreshNumbers initial = Unit
FreshNumbers (offered v f n name size r) = FreshNumbers r
FreshNumbers (withdrawn v f n r) = FreshNumbers r
FreshNumbers (begun v env conv f n name size o destn avatar r) =
    (mem f n v.xf ≡ false) × FreshNumbers r
FreshNumbers (sent_file v f path opened number r) = FreshNumbers r
FreshNumbers (sent_avatar v f path opened number r) = FreshNumbers r
FreshNumbers (chunk_came v f n pos bytes cap seeks written r) = FreshNumbers r
FreshNumbers (chunk_asked v f n pos len ready r) = FreshNumbers r
FreshNumbers (reported v f n done size now r) = FreshNumbers r
FreshNumbers (dropped v f n r) = FreshNumbers r
FreshNumbers (canceled v told f n r) = FreshNumbers r
FreshNumbers (emptied v r) = FreshNumbers r

-- the file behind a path that is handed over
pub record Delivered (f n : ℕ) (path : Bytes) (w : Files) : Type 0 where
  pub body : Xfer
  pub file : Bytes
  pub here : held f n w.xf ≡ some body
  pub receives : body.sending ≡ false
  pub opened : body.fp ≡ some file
  pub placed : body.path ≡ path
  pub filled : length file ≡ body.size

-- what the slot of a delivered file holds
record Full (x : Xfer) (path : Bytes) : Type 0 where
  file : Bytes
  receives : x.sending ≡ false
  opened : x.fp ≡ some file
  whole : x.got ≡ x.size
  placed : x.path ≡ path
