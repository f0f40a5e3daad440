-- ===== src/Transfers/Whole.antt =====
-- helper/file.c: a file that is received whole.
use oma_q.Prelude.{
  concat, ℕ, ◌+◌, ◌<◌, ◌≡◌, refl, sym, ap, subst, ◌∙◌, Bool, true, false, not, ◌||◌, Option, none,
  some, List, [], ltb, leb, ◌==◌, length, get_or, set, set-set, Bool-cases, Option-cases, inl, inr,
  All, arith,
}
use oma_q.Prelude.Bytes.{Bytes, lacks}
use oma_q.FileNames.{file_basename, file_name_max, has_dots}
use oma_q.Transfers.{Files, Xfer, no_xfer, no_offer, file_max, offer_drop, complete, chunk_in}
use oma_q.Transfers.Table.{Slot, empty_slot, taken, find, held, hits, mem}
use oma_q.Transfers.Slots.{held_new}
use oma_q.Transfers.Search.{Fresh, find-Fresh}
use oma_q.Transfers.Begin.{Receiving, recv_begin, recv_open, recv_slot, recv_opened, offer_done}
use oma_q.Transfers.State.{FilesOk}
use oma_q.Transfers.Starts.{recv_begin-FilesOk}
use oma_q.Transfers.Chunks.{Filling, end_marker, store_all-Filling, store_all}

offer_drop-xf : (f n : ℕ) (w : Files) → (offer_drop f n w).xf ≡ w.xf
unfolding offer_drop
offer_drop-xf f n w = elim (Option-cases ((find false f n no_offer w.offers).0)) [
  | inl e ↦ rw (e, offer_drop) refl
  | inr (i, e) ↦ rw (e, offer_drop) refl
]

-- what is held behind a beginning
record Begun (f n : ℕ) (dest : Bytes) (size : ℕ) (w : Files) : Type 0 where
  body : Xfer
  here : held f n w.xf ≡ some body
  receives : body.sending ≡ false
  opened : body.fp ≡ some []
  counted : body.got ≡ 0
  sized : body.size ≡ size
  placed : body.path ≡ dest

module _ (f n : ℕ) (dest : Bytes) (size : ℕ) (avatar : Bool) (w : Files)
    (m : mem f n w.xf ≡ false) where
  recv_slot-Begun :
      (target : Bytes) (r : Option ℕ × List (Slot Xfer)) (v : Files)
      → find true f n no_xfer w.xf ≡ r
      → recv_slot target size avatar w r ≡ (some dest, v)
      → Begun f n dest size v
  unfolding recv_slot taken hits
  recv_slot-Begun target (none, t) v e h = ground arith
  recv_slot-Begun target (some i, t) v e h = elim (Bool-cases (leb 512 (length target))) [
    | inl l ↦ ground arith
    | inr l ↦
        let x : Fresh f n no_xfer w.xf i t = find-Fresh f n no_xfer w.xf i t m e in
        let s : get_or t i (empty_slot no_xfer) ≡ taken f n no_xfer =
          x.content (empty_slot no_xfer) in
        let b : Xfer = record no_xfer {
          sending = false;
          avatar = avatar;
          fp = some [];
          size = size;
          path = target;
        } in
        let g : Slot Xfer → Slot Xfer = λ y. record y {
          body = record y.body {
            sending = false;
            avatar = avatar;
            fp = some [];
            size = size;
            path = target;
          };
        } in
        let p : target ≡ dest = ground (arith, h) in
        let vx : (recv_slot target size avatar w (some i, t)).1.xf
            ≡ set t i (g (get_or t i (empty_slot no_xfer))) =
          rw l refl in
        let vs : v.xf ≡ set w.xf i (taken f n b) =
          ap (λ q. q.1.xf) (sym h)
          ∙ vx
          ∙ ap (λ y. set t i (g y)) s
          ∙ ap (λ u. set u i (taken f n b)) x.written
          ∙ set-set w.xf i (taken f n no_xfer) (taken f n b) in
        record {
          body = b;
          here = ap (held f n) vs ∙ held_new f n w.xf i (taken f n b) x.bound (ground arith) m;
          receives = refl;
          opened = refl;
          counted = refl;
          sized = refl;
          placed = p;
        }
  ]

  recv_opened-Begun :
      (env : Receiving) (o : Option Bytes) (v : Files)
      → recv_opened env f n size avatar w o ≡ (some dest, v)
      → Begun f n dest size v
  recv_opened-Begun env none v h = ground arith
  recv_opened-Begun env (some target) v h = elim (Bool-cases env.chmod_ok) [
    | inr e ↦ ground arith
    | inl e ↦ recv_slot-Begun target (find true f n no_xfer w.xf) v refl (ground (arith, h))
  ]

  offer_done-Begun :
      (r : Option Bytes × Files) (v : Files)
      → ((u : Files) → r ≡ (some dest, u) → Begun f n dest size u)
      → offer_done f n r ≡ (some dest, v)
      → Begun f n dest size v
  offer_done-Begun (none, u) v b h = ground arith
  offer_done-Begun (some target, u) v b h =
      let p : target ≡ dest = ground (arith, h) in
      let x = b u (ap (λ t. (some t, u)) p) in
      let e : v.xf ≡ u.xf = ap (λ q. q.1.xf) (sym h) ∙ offer_drop-xf f n u in
      record {
        body = x.body;
        here = ap (held f n) e ∙ x.here;
        receives = x.receives;
        opened = x.opened;
        counted = x.counted;
        sized = x.sized;
        placed = x.placed;
      }

  begin_filling :
      {strict : Bool}
      → (env : Receiving) (conv name dest_override : Bytes) (destn : ℕ) (v : Files)
      → FilesOk strict w
      → recv_begin env conv f n name size dest_override destn avatar w ≡ (some dest, v)
      → Filling strict f n dest size [] v
  unfolding recv_begin
  begin_filling {strict} env conv name dest_override destn v ok h =
      elim (Bool-cases (size == 0 || ltb file_max size)) [
        | inl e ↦ ground arith
        | inr e ↦ elim (Option-cases (file_basename name (file_name_max + 1))) [
          | inl g ↦ ground arith
          | inr (safe, g) ↦ elim (Bool-cases (not (lacks b'/' conv) || has_dots conv)) [
            | inl q ↦ ground arith
            | inr q ↦
                let o = recv_open env f n safe dest_override destn avatar in
                let x =
                  offer_done-Begun (recv_opened env f n size avatar w o) v (recv_opened-Begun env o)
                    (ground (arith, h)) in
                record {
                  ok =
                      subst (λ r. FilesOk strict r.1) h
                        (recv_begin-FilesOk f n w ok env conv name size dest_override destn avatar
                          (λ _. m));
                  body = x.body;
                  here = x.here;
                  receives = x.receives;
                  opened = x.opened;
                  counted = x.counted;
                  sized = x.sized;
                  placed = x.placed;
                }
          ]
        ]
      ]

-- A file that has begun to be received comes whole: if its chunks come one behind the other and
-- are as many bytes as its size in all, each of them is stored, the file then holds their bytes
-- in order, and the end marker hands its path over and frees the transfer. (There is no other
-- transfer with its number, every write succeeds, and the path fits its array.)
pub recv_whole :
    {strict : Bool}
    → (env : Receiving) (conv : Bytes) (f n : ℕ) (name : Bytes) (size : ℕ) (dest_override : Bytes)
      (destn cap : ℕ) (avatar : Bool) (dest : Bytes) (chunks : List Bytes) (w v : Files)
    → FilesOk strict w
    → mem f n w.xf ≡ false
    → recv_begin env conv f n name size dest_override destn avatar w ≡ (some dest, v)
    → All (λ c. 0 < length c) chunks
    → length (concat chunks) ≡ size
    → length dest < cap
    → let r = store_all f n cap 0 chunks v in
      let e = chunk_in f n size [] cap true 0 r.1 in
      (r.0 ≡ true)
      × Filling strict f n dest size (concat chunks) r.1
      × (e.0 ≡ complete dest)
      × (held f n e.1.xf ≡ none)
recv_whole env conv f n name size dest_override destn cap avatar dest chunks w v ok m h a l p =
    let b = begin_filling f n dest size avatar w m env conv name dest_override destn v ok h in
    let (s, q) = store_all-Filling f n cap dest size chunks [] v b a (omega (arith, l)) in
    let (c, d) =
      end_marker f n cap dest size (concat chunks) size true 0 (store_all f n cap 0 chunks v).1 q l
        p in
    (s, q, c, d)
