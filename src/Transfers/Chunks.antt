-- ===== src/Transfers/Chunks.antt =====
-- helper/file.c: the bytes of a file that is received.
use oma_q.Prelude.{
  concat, ℕ, zero, suc, ◌+◌, ◌-◌, ◌^◌, ◌<◌, ◌≤◌, ◌≡◌, refl, sym, ap, subst, ◌∙◌, Bool, true, false,
  not, ◌&&◌, ◌||◌, none, some, List, [], ◌∷◌, ◌++◌, append-nil, append_assoc, ltb, leb, ◌==◌,
  length, length-append, drop, take_all, All, All-get_or, arith,
}
use oma_q.Prelude.Bytes.{Bytes}
use oma_q.Transfers.{
  Files, Xfer, no_xfer, file_max, xfer_at, put_body, xf_drop, xf_index, write_at, complete, stored,
  refused, end_in, store_in, chunk_in,
}
use oma_q.Transfers.Table.{empty_slot, find, held, hits}
use oma_q.Transfers.Slots.{held-set_body, held_clear}
use oma_q.Transfers.Search.{locate}
use oma_q.Transfers.State.{BodyOk, XferOk, FilesOk, empty-XferOk}
use oma_q.Transfers.Receive.{chunk_in-FilesOk}

drop_past : (k : ℕ) (s : Bytes) → length s ≤ k → drop k s ≡ []
drop_past zero [] h = refl
drop_past zero (x ∷ s) h = absurd (omega arith)
drop_past (suc k) [] h = refl
drop_past (suc k) (x ∷ s) h = drop_past k s (omega arith)

-- A write at the end of the file.
write_at_end :
    (file : Bytes) (pos : ℕ) (bytes : Bytes)
    → length file ≡ pos
    → write_at file pos bytes ≡ file ++ bytes
unfolding write_at
write_at_end file pos bytes h =
    let gap : pos - length file ≡ 0 = omega arith in
    rw (take_all pos file (omega arith), gap, drop_past (pos + length bytes) file (omega arith))
      (ap (λ s. file ++ s) (append-nil bytes))

-- the transfer of a file whose first bytes have come, in order
pub record Filling (strict : Bool) (f n : ℕ) (dest : Bytes) (size : ℕ) (file : Bytes) (w : Files)
    : Type 0 where
  pub ok : FilesOk strict w
  pub body : Xfer
  pub here : held f n w.xf ≡ some body
  pub receives : body.sending ≡ false
  pub opened : body.fp ≡ some file
  pub counted : body.got ≡ length file
  pub sized : body.size ≡ size
  pub placed : body.path ≡ dest

index_of :
    (f n : ℕ) (w : Files) (i : ℕ)
    → find false f n no_xfer w.xf ≡ (some i, w.xf)
    → xf_index f n w ≡ some i
unfolding xf_index
index_of f n w i e = ap (λ r. r.0) e

grown : Xfer → Bytes → Xfer
grown x file = record x { fp = some file; got = length file }

store_next :
    (i : ℕ) (file bytes : Bytes) (w : Files) (x : Xfer)
    → (xfer_at i w).body ≡ x
    → x.got ≡ length file
    → 0 < length bytes
    → length file + length bytes ≤ x.size
    → x.size ≤ file_max
    → store_in i file (length file) bytes true (length bytes) w
      ≡ (stored, put_body i w (grown x (file ++ bytes)))
unfolding store_in grown
store_next i file bytes w x b g p l m =
    let e1 : (ltb x.size (length file) || ltb (x.size - length file) (length bytes)) ≡ false =
      ground arith in
    let e2 : (length bytes == length bytes) ≡ true = ground arith in
    let e3 : ltb (2 ^ 64 - 1 - length file) (length bytes) ≡ false = ground arith in
    let e4 : ltb x.got (length file + length bytes) ≡ true = ground arith in
    rw
      (
        b,
        e1,
        e2,
        e3,
        e4,
        take_all (length bytes) bytes (omega arith),
        write_at_end file (length file) bytes refl,
        sym (length-append file bytes),
      )
      refl

not_empty : (bytes : Bytes) → 0 < length bytes → (length bytes == 0) ≡ false
not_empty bytes h = ground arith

module _ {strict : Bool} (f n cap : ℕ) (dest : Bytes) (size : ℕ) where
  -- the next chunk
  next_chunk :
      (file bytes : Bytes) (w : Files)
      → Filling strict f n dest size file w
      → 0 < length bytes
      → length file + length bytes ≤ size
      → ((chunk_in f n (length file) bytes cap true (length bytes) w).0 ≡ stored)
        × Filling strict f n dest size
            (file ++ bytes)
            (chunk_in f n (length file) bytes cap true (length bytes) w).1
  unfolding chunk_in grown
  next_chunk file bytes w r p l =
      let at = locate f n no_xfer w.xf r.body r.ok.xf_unique r.here in
      let k = at.index in
      let b : (xfer_at k w).body ≡ r.body =
        ap (λ x. x.body) (at.direct (empty_slot no_xfer)) ∙ at.content in
      let small =
        (subst (BodyOk _) b
            (All-get_or (XferOk _) w.xf k (empty_slot no_xfer) r.ok.xf_ok empty-XferOk)).size_low
          file r.receives r.opened in
      let stores = store_next k file bytes w r.body b r.counted p (omega (arith, r.sized)) small in
      let whole : chunk_in f n (length file) bytes cap true (length bytes) w
          ≡ (stored, put_body k w (grown r.body (file ++ bytes))) =
        rw
          (
            index_of f n w k at.search,
            chunk_in,
            ap (λ x. x.sending) b ∙ r.receives,
            ap (λ x. x.fp) b ∙ r.opened,
            not_empty bytes p,
          )
          stores in
      (
        ap (λ q. q.0) whole,
        record {
          ok = chunk_in-FilesOk f n (length file) bytes cap true (length bytes) w r.ok;
          body = grown r.body (file ++ bytes);
          here =
              ap (λ q. held f n q.1.xf) whole
              ∙ held-set_body f n w.xf k at.slot (empty_slot no_xfer) (grown r.body (file ++ bytes))
                  r.ok.xf_unique at.there at.key;
          receives = r.receives;
          opened = refl;
          counted = refl;
          sized = r.sized;
          placed = r.placed;
        },
      )

  -- The end marker hands over the file if all its bytes have come.
  pub end_marker :
      (file : Bytes) (pos : ℕ) (seeks : Bool) (written : ℕ) (w : Files)
      → Filling strict f n dest size file w
      → length file ≡ size
      → length dest < cap
      → ((chunk_in f n pos [] cap seeks written w).0 ≡ complete dest)
        × (held f n (chunk_in f n pos [] cap seeks written w).1.xf ≡ none)
  unfolding chunk_in end_in xf_drop hits empty_slot
  end_marker file pos seeks written w r e l =
      let at = locate f n no_xfer w.xf r.body r.ok.xf_unique r.here in
      let k = at.index in
      let d : xfer_at k w ≡ at.slot = at.direct (empty_slot no_xfer) in
      let b : (xfer_at k w).body ≡ r.body = ap (λ x. x.body) d ∙ at.content in
      let u : (xfer_at k w).used ≡ true = ap (λ x. x.used) d ∙ ground (arith, at.key) in
      let full : (r.body.got == r.body.size) ≡ true = ground (arith, r.counted, r.sized) in
      let room : (not (cap == 0) && leb cap (length r.body.path)) ≡ false =
        ground (arith, r.placed) in
      let whole : chunk_in f n pos [] cap seeks written w ≡ (complete dest, xf_drop k w) =
        rw
          (
            index_of f n w k at.search,
            chunk_in,
            ap (λ x. x.sending) b ∙ r.receives,
            ap (λ x. x.fp) b ∙ r.opened,
            ap (λ x. x.got == x.size) b ∙ full,
            ap (λ x. not (cap == 0) && leb cap (length x.path)) b ∙ room,
            ap (λ x. x.path) b ∙ r.placed,
          )
          refl in
      (
        ap (λ q. q.0) whole,
        ap (λ q. held f n q.1.xf) whole
            ∙ rw u (
                held_clear f n w.xf k at.slot (empty_slot no_xfer) r.ok.xf_unique at.there at.key
                  refl),
      )

-- Chunk after chunk from a position on, each written whole: whether all are stored.
unfoldable pub store_all : ℕ → ℕ → ℕ → ℕ → List Bytes → Files → Bool × Files
store_all f n cap pos [] w = (true, w)
store_all f n cap pos (c ∷ cs) w =
    let r = chunk_in f n pos c cap true (length c) w in
    let rest = store_all f n cap (pos + length c) cs r.1 in
    elim r.0 [ stored ↦ rest | refused ↦ (false, r.1) | complete path ↦ (false, r.1) ]

module _ {strict : Bool} (f n cap : ℕ) (dest : Bytes) (size : ℕ) where
  pub store_all-Filling :
      (cs : List Bytes) (file : Bytes) (w : Files)
      → Filling strict f n dest size file w
      → All (λ c. 0 < length c) cs
      → length file + length (concat cs) ≤ size
      → ((store_all f n cap (length file) cs w).0 ≡ true)
        × Filling strict f n dest size (file ++ concat cs) (store_all f n cap (length file) cs w).1
  unfolding store_all
  store_all-Filling [] file w r a l =
      (refl, subst (λ s. Filling strict f n dest size s w) (sym (append-nil file)) r)
  store_all-Filling (c ∷ cs) file w r a l =
      let (e, q) =
        next_chunk f n cap dest size file c w r a.0 (omega (arith, length-append c (concat cs))) in
      let w1 : Files = (chunk_in f n (length file) c cap true (length c) w).1 in
      let (x, y) =
        store_all-Filling cs (file ++ c) w1 q a.1
          (omega (arith, length-append file c, length-append c (concat cs), l)) in
      let pos = length-append file c in
      rw (e, store_all)
        (
          subst (λ p. (store_all f n cap p cs w1).0 ≡ true) pos x,
          subst
              (λ s.
                Filling strict f n dest size s (store_all f n cap (length file + length c) cs w1).1)
              (append_assoc file c (concat cs))
              (subst
                (λ p.
                  Filling strict f n dest size ((file ++ c) ++ concat cs)
                    (store_all f n cap p cs w1).1)
                pos y),
        )
