-- ===== src/Transfers/Starts.antt =====
-- helper/file.c: the calls that begin transfers keep the tables well-formed.
use oma_q.Prelude.{
  ℕ, ◌+◌, ◌≤◌, ◌≡◌, refl, ap, subst, Bool, true, false, not, ◌||◌, Option, none, some, List, [],
  ltb, leb, ◌==◌, if◌then◌else◌, length, get_or, Bool-cases, Option-cases, inl, inr, arith,
}
use oma_q.Prelude.Bytes.{Bytes, lacks}
use oma_q.FileNames.{file_basename, file_path_ok, file_name_max, has_dots}
use oma_q.Transfers.{Files, Xfer, no_xfer, file_max, xfer_at, xf_drop}
use oma_q.Transfers.Begin.{
  recv_slot, send_slot, recv_begin, recv_open, recv_opened, offer_done, send_begin,
  send_avatar_begin, send_opened, Receiving,
}
use oma_q.Transfers.Search.{find-Unique, find-Fresh}
use oma_q.Transfers.Table.{Slot, empty_slot, taken, find, mem}
use oma_q.Transfers.State.{
  XferOk, FilesOk, sending-BodyOk, put_body-FilesOk, xf_drop-FilesOk, unlink-FilesOk,
  offer_drop-FilesOk, with_xf,
}

pub offer_done_lem :
    {strict : Bool}
    → (f n : ℕ) (r : Option Bytes × Files) → FilesOk strict r.1
    → FilesOk strict (offer_done f n r).1
offer_done_lem f n (none, w) ok = ok
offer_done_lem f n (some dest, w) ok = offer_drop-FilesOk f n w ok

taken-XferOk : {strict : Bool} → (f n : ℕ) → XferOk strict (taken f n no_xfer)
unfolding taken
taken-XferOk f n = record {
  got_low = λ t y s e. cc;
  file_low = λ y s e. cc;
  size_low = λ y s e. cc;
}

module _ {strict : Bool} (f n : ℕ) (w : Files) (ok : FilesOk strict w) where
  -- the slot that a new transfer gets
  find_ok :
      (r : Option ℕ × List (Slot Xfer))
      → find true f n no_xfer w.xf ≡ r
      → FilesOk strict (record w { xf = r.1 })
  find_ok r e =
      let (u, a, l) =
        find-Unique true f n no_xfer (XferOk _) w.xf ok.xf_unique ok.xf_ok (taken-XferOk f n) in
      subst (λ t. FilesOk strict (record w { xf = t.1 })) e
        (with_xf w (find true f n no_xfer w.xf).1 ok l u a)

  send_slot_ok :
      (path file : Bytes) (avatar : Bool) (r : Option ℕ × List (Slot Xfer))
      → find true f n no_xfer w.xf ≡ r
      → FilesOk strict (send_slot path file avatar w n r).1
  unfolding send_slot
  send_slot_ok path file avatar (none, t) e = find_ok (none, t) e
  send_slot_ok path file avatar (some i, t) e =
      let v : Files = record w { xf = t } in
      elim (Bool-cases (leb 512 (length path))) [
        | inl l ↦ rw l (xf_drop-FilesOk i v (find_ok (some i, t) e))
        | inr l ↦ rw l (
            put_body-FilesOk i v
              (record (xfer_at i v).body {
                sending = true;
                avatar = avatar;
                fp = some file;
                size = length file;
                path = path;
              })
              (find_ok (some i, t) e)
              (sending-BodyOk
                (record (xfer_at i v).body {
                  sending = true;
                  avatar = avatar;
                  fp = some file;
                  size = length file;
                  path = path;
                })
                refl))
      ]

  -- In the slot of a friend and a number that had none, no bytes have come yet.
  fresh_got :
      (i : ℕ) (t : List (Slot Xfer))
      → mem f n w.xf ≡ false
      → find true f n no_xfer w.xf ≡ (some i, t)
      → (get_or t i (empty_slot no_xfer)).body.got ≡ 0
  unfolding taken
  fresh_got i t m e =
      ap (λ s. s.body.got) ((find-Fresh f n no_xfer w.xf i t m e).content (empty_slot no_xfer))

  recv_slot_ok :
      (dest : Bytes) (size : ℕ) (avatar : Bool) (r : Option ℕ × List (Slot Xfer))
      → size ≤ file_max
      → (strict ≡ true → mem f n w.xf ≡ false)
      → find true f n no_xfer w.xf ≡ r
      → FilesOk strict (recv_slot dest size avatar w r).1
  unfolding recv_slot
  recv_slot_ok dest size avatar (none, t) b m e =
      unlink-FilesOk dest (record w { xf = t }) (find_ok (none, t) e)
  recv_slot_ok dest size avatar (some i, t) b m e =
      let v : Files = record w { xf = t } in
      elim (Bool-cases (leb 512 (length dest))) [
        | inl l ↦
            rw l (unlink-FilesOk dest (xf_drop i v) (xf_drop-FilesOk i v (find_ok (some i, t) e)))
        | inr l ↦ rw l (
            put_body-FilesOk i v
              (record (xfer_at i v).body {
                sending = false;
                avatar = avatar;
                fp = some [];
                size = size;
                path = dest;
              })
              (find_ok (some i, t) e)
              (record {
                got_low = λ h y _ q. omega (arith, fresh_got i t (m h) e);
                file_low = λ y _ q. ground (arith, q);
                size_low = λ y _ q. b;
              }))
      ]

  recv_opened_ok :
      (env : Receiving) (size : ℕ) (avatar : Bool) (o : Option Bytes)
      → size ≤ file_max
      → (strict ≡ true → mem f n w.xf ≡ false)
      → FilesOk strict (recv_opened env f n size avatar w o).1
  recv_opened_ok env size avatar none b m = ok
  recv_opened_ok env size avatar (some dest) b m = elim (Bool-cases env.chmod_ok) [
    | inr e ↦ rw e (unlink-FilesOk dest w ok)
    | inl e ↦ rw e (recv_slot_ok dest size avatar (find true f n no_xfer w.xf) b m refl)
  ]

  pub recv_begin-FilesOk :
      (env : Receiving) (conv name : Bytes) (size : ℕ) (dest_override : Bytes) (destn : ℕ)
      (avatar : Bool)
      → (strict ≡ true → mem f n w.xf ≡ false)
      → FilesOk strict (recv_begin env conv f n name size dest_override destn avatar w).1
  unfolding recv_begin
  recv_begin-FilesOk env conv name size dest_override destn avatar m =
      elim (Bool-cases (size == 0 || ltb file_max size)) [
        | inl e ↦ rw e ok
        | inr e ↦ elim (Option-cases (file_basename name (file_name_max + 1))) [
          | inl g ↦ rw (e, g) ok
          | inr (safe, g) ↦ elim (Bool-cases (not (lacks b'/' conv) || has_dots conv)) [
            | inl h ↦ rw (e, g, h) ok
            | inr h ↦
                let o = recv_open env f n safe dest_override destn avatar in
                rw (e, g, h)
                  (offer_done_lem f n (recv_opened env f n size avatar w o)
                    (recv_opened_ok env size avatar o (ground arith) m))
          ]
        ]
      ]

send_opened_ok :
    {strict : Bool}
    → (f : ℕ) (path : Bytes) (avatar : Bool) (sent : Option ℕ) (w : Files) (o : Option Bytes)
    → FilesOk strict w
    → FilesOk strict (send_opened f path avatar sent w o).1
send_opened_ok f path avatar sent w none ok = ok
send_opened_ok f path avatar none w (some file) ok = ok
send_opened_ok f path avatar (some n) w (some file) ok =
    send_slot_ok f n w ok path file avatar (find true f n no_xfer w.xf) refl

pub send_begin-FilesOk :
    {strict : Bool}
    → (f : ℕ) (path : Bytes) (opened : Option Bytes) (sent : Option ℕ) (w : Files)
    → FilesOk strict w
    → FilesOk strict (send_begin f path opened sent w).1
      × FilesOk strict (send_avatar_begin f path opened sent w).1
unfolding send_begin send_avatar_begin
send_begin-FilesOk {strict} f path opened sent w ok = (
  plain,
  elim (Bool-cases (file_path_ok path)) [
    | inl e ↦ rw e (send_opened_ok f path true sent w opened ok)
    | inr e ↦ rw e ok
  ],
)
  where
    plain : FilesOk strict (send_begin f path opened sent w).1
    plain =
        elim (Option-cases
          (if file_path_ok path then file_basename path (file_name_max + 1) else none)) [
            | inl e ↦ rw (e, send_begin) ok
            | inr (name, e) ↦ rw (e, send_begin) (send_opened_ok f path false sent w opened ok)
          ]
