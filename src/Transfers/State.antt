-- ===== src/Transfers/State.antt =====
-- helper/file.c: what holds of the tables after every call.
use oma_q.Prelude.{
  ℕ, zero, suc, ◌+◌, ◌<◌, ◌≤◌, ◌≡◌, refl, sym, ap, subst, ◌∙◌, Bool, true, false, not, ◌&&◌, ◌||◌,
  Option, none, some, List, [], ◌∷◌, ltb, ◌==◌, if◌then◌else◌, length, get_or, set, replicate, map,
  All, All-set, length-set, Bool-cases, Option-cases, inl, inr, arith,
}
use oma_q.Prelude.Bytes.{Bytes}
use oma_q.FileNames.{file_basename, file_name_bytes_ok, file_name_max}
use oma_q.FileNames.Names.{file_basename-SafeName}
use oma_q.Transfers.{
  Files, Xfer, Offer, Mark, no_xfer, no_offer, no_mark, xfers, progress_slots, file_max, files_init,
  xfer_at, put_body, unlink, xf_drop, progress_forget, offer_drop, offer_store, offer_found,
  xf_index, drop_partial, drop_transfer, cancel, reset, reset_loop,
}
use oma_q.Transfers.Table.{Slot, empty_slot, find, hits, Unique}
use oma_q.Transfers.Slots.{Unique-put, Unique-set_body}
use oma_q.Transfers.Search.{find-Unique, find-none, find-All-set}

-- A file that is received holds no more bytes than its size, which is at most 8 MiB. If the test is
-- strict, it also holds the bytes up to the highest one that came; that is lost where a transfer is
-- begun again under its number.
pub record BodyOk (strict : Bool) (x : Xfer) : Type 0 where
  pub got_low :
      strict ≡ true → (file : Bytes) → x.sending ≡ false → x.fp ≡ some file → x.got ≤ length file
  pub file_low : (file : Bytes) → x.sending ≡ false → x.fp ≡ some file → length file ≤ x.size
  pub size_low : (file : Bytes) → x.sending ≡ false → x.fp ≡ some file → x.size ≤ file_max

pub record OfferOk (x : Slot Offer) : Type 0 where
  pub positive : x.used ≡ true → 0 < x.body.size
  pub small : x.used ≡ true → x.body.size ≤ file_max
  pub named : x.used ≡ true → file_name_bytes_ok x.body.name ≡ true

abbrev pub XferOk : Bool → Slot Xfer → Type 0
XferOk strict x = BodyOk strict x.body

pub record FilesOk (strict : Bool) (w : Files) : Type 0 where
  pub xf_length : length w.xf ≡ xfers
  pub offers_length : length w.offers ≡ xfers
  pub progress_length : length w.progress ≡ progress_slots
  pub xf_unique : Unique w.xf
  pub offers_unique : Unique w.offers
  pub xf_ok : All (XferOk strict) w.xf
  pub offers_ok : All OfferOk w.offers

no_file-BodyOk : {strict : Bool} → (x : Xfer) → x.fp ≡ none → BodyOk strict x
no_file-BodyOk x h = record {
  got_low = λ t f s e. cc;
  file_low = λ f s e. cc;
  size_low = λ f s e. cc;
}

pub sending-BodyOk : {strict : Bool} → (x : Xfer) → x.sending ≡ true → BodyOk strict x
sending-BodyOk x h = record {
  got_low = λ t f s e. cc;
  file_low = λ f s e. cc;
  size_low = λ f s e. cc;
}

pub empty-XferOk : {strict : Bool} → XferOk strict (empty_slot no_xfer)
unfolding empty_slot
empty-XferOk = no_file-BodyOk no_xfer refl

empty-OfferOk : OfferOk (empty_slot no_offer)
unfolding empty_slot
empty-OfferOk = record { positive = λ e. cc; small = λ e. cc; named = λ e. cc }

Unique-empty :
    {A : Type 0} → (s : List (Slot A)) (i : ℕ) (z : A) → Unique s → Unique (set s i (empty_slot z))
unfolding empty_slot
Unique-empty s i z u = Unique-put s i (empty_slot z) u (λ e. cc)

unused-Unique : {A : Type 0} → (n : ℕ) (z : A) → Unique (replicate n (empty_slot z))
unfolding Unique empty_slot
unused-Unique zero z = tt
unused-Unique (suc n) z = ((λ e. cc), unused-Unique n z)

All-replicate : {A : Type 0} → (P : A → Type 0) (n : ℕ) (a : A) → P a → All P (replicate n a)
All-replicate P zero a p = tt
All-replicate P (suc n) a p = (p, All-replicate P n a p)

pub files_init-FilesOk : {strict : Bool} → FilesOk strict files_init
unfolding files_init
files_init-FilesOk = record {
  xf_length = refl;
  offers_length = refl;
  progress_length = refl;
  xf_unique = unused-Unique xfers no_xfer;
  offers_unique = unused-Unique xfers no_offer;
  xf_ok = All-replicate (XferOk _) xfers (empty_slot no_xfer) empty-XferOk;
  offers_ok = All-replicate OfferOk xfers (empty_slot no_offer) empty-OfferOk;
}

length-map : {A B : Type 0} → (f : A → B) (s : List A) → length (map f s) ≡ length s
length-map f [] = refl
length-map f (x ∷ s) = ap suc (length-map f s)

-- The operations change a table at a time.
pub with_xf :
    {strict : Bool}
    → (w : Files) (t : List (Slot Xfer)) → FilesOk strict w
    → length t ≡ length w.xf
    → Unique t
    → All (XferOk strict) t
    → FilesOk strict (record w { xf = t })
with_xf w t ok l u a = record {
  xf_length = l ∙ ok.xf_length;
  offers_length = ok.offers_length;
  progress_length = ok.progress_length;
  xf_unique = u;
  offers_unique = ok.offers_unique;
  xf_ok = a;
  offers_ok = ok.offers_ok;
}

with_offers :
    {strict : Bool}
    → (w : Files) (t : List (Slot Offer)) → FilesOk strict w
    → length t ≡ length w.offers
    → Unique t
    → All OfferOk t
    → FilesOk strict (record w { offers = t })
with_offers w t ok l u a = record {
  xf_length = ok.xf_length;
  offers_length = l ∙ ok.offers_length;
  progress_length = ok.progress_length;
  xf_unique = ok.xf_unique;
  offers_unique = u;
  xf_ok = ok.xf_ok;
  offers_ok = a;
}

pub with_progress :
    {strict : Bool}
    → (w : Files) (t : List (Slot Mark)) → FilesOk strict w
    → length t ≡ length w.progress
    → FilesOk strict (record w { progress = t })
with_progress w t ok l = record {
  xf_length = ok.xf_length;
  offers_length = ok.offers_length;
  progress_length = l ∙ ok.progress_length;
  xf_unique = ok.xf_unique;
  offers_unique = ok.offers_unique;
  xf_ok = ok.xf_ok;
  offers_ok = ok.offers_ok;
}

pub unlink-FilesOk :
    {strict : Bool} → (path : Bytes) (w : Files) → FilesOk strict w → FilesOk strict (unlink path w)
unlink-FilesOk path w ok = record {
  xf_length = ok.xf_length;
  offers_length = ok.offers_length;
  progress_length = ok.progress_length;
  xf_unique = ok.xf_unique;
  offers_unique = ok.offers_unique;
  xf_ok = ok.xf_ok;
  offers_ok = ok.offers_ok;
}

pub put_body-FilesOk :
    {strict : Bool}
    → (i : ℕ) (w : Files) (b : Xfer) → FilesOk strict w
    → BodyOk strict b
    → FilesOk strict (put_body i w b)
put_body-FilesOk i w b ok h =
    let v : Slot Xfer = record (xfer_at i w) { body = b } in
    with_xf w (set w.xf i v) ok (length-set w.xf i v)
      (Unique-set_body w.xf i (empty_slot no_xfer) b ok.xf_unique)
      (All-set (XferOk _) w.xf i v ok.xf_ok h)

pub xf_drop-FilesOk :
    {strict : Bool} → (i : ℕ) (w : Files) → FilesOk strict w → FilesOk strict (xf_drop i w)
unfolding xf_drop progress_forget
xf_drop-FilesOk i w ok = elim (Bool-cases (xfer_at i w).used) [
  | inr e ↦ rw e ok
  | inl e ↦
      let e0 : Slot Xfer = empty_slot no_xfer in
      let p = progress_forget (xfer_at i w).friend (xfer_at i w).fnum w.progress in
      let v = record w { progress = p } in
      rw e (
        with_xf v (set w.xf i e0)
          (with_progress w p ok (
            length-map
              (λ m.
                if hits (xfer_at i w).friend (xfer_at i w).fnum m then empty_slot no_mark else m)
              w.progress))
          (length-set w.xf i e0) (Unique-empty w.xf i no_xfer ok.xf_unique)
          (All-set (XferOk _) w.xf i e0 ok.xf_ok empty-XferOk))
]

pub offer_drop-FilesOk :
    {strict : Bool} → (f n : ℕ) (w : Files) → FilesOk strict w → FilesOk strict (offer_drop f n w)
unfolding offer_drop
offer_drop-FilesOk f n w ok = elim (Option-cases ((find false f n no_offer w.offers).0)) [
  | inl e ↦ rw (e, offer_drop) ok
  | inr (i, e) ↦
      let e0 : Slot Offer = empty_slot no_offer in
      rw (e, offer_drop)
        (with_offers w (set w.offers i e0) ok (length-set w.offers i e0)
          (Unique-empty w.offers i no_offer ok.offers_unique)
          (All-set OfferOk w.offers i e0 ok.offers_ok empty-OfferOk))
]

pub drop_partial-FilesOk :
    {strict : Bool} → (i : ℕ) (w : Files) → FilesOk strict w → FilesOk strict (drop_partial i w)
unfolding drop_partial
drop_partial-FilesOk i w ok =
    elim (Bool-cases
      (not (xfer_at i w).body.sending && not (length (xfer_at i w).body.path == 0))) [
        | inl e ↦ rw e (unlink-FilesOk (xfer_at i w).body.path w ok)
        | inr e ↦ rw e ok
      ]

pub drop_transfer-FilesOk :
    {strict : Bool}
    → (f n : ℕ) (w : Files) → FilesOk strict w
    → FilesOk strict (drop_transfer f n w)
unfolding drop_transfer
drop_transfer-FilesOk f n w ok = elim (Option-cases (xf_index f n w)) [
  | inl e ↦ rw e (offer_drop-FilesOk f n w ok)
  | inr (i, e) ↦ rw e (
      offer_drop-FilesOk f n (xf_drop i (drop_partial i w))
        (xf_drop-FilesOk i (drop_partial i w) (drop_partial-FilesOk i w ok)))
]

pub cancel-FilesOk :
    {strict : Bool}
    → (told : Bool) (f n : ℕ) (w : Files) → FilesOk strict w
    → FilesOk strict (cancel told f n w).1
cancel-FilesOk true f n w ok = drop_transfer-FilesOk f n w ok
cancel-FilesOk false f n w ok = ok

reset_loop-FilesOk :
    {strict : Bool} → (n i : ℕ) (w : Files) → FilesOk strict w → FilesOk strict (reset_loop n i w)
reset_loop-FilesOk zero i w ok = ok
reset_loop-FilesOk (suc n) i w ok = elim (Bool-cases (xfer_at i w).used) [
  | inl e ↦ rw e (
      reset_loop-FilesOk n (suc i) (xf_drop i (drop_partial i w))
        (xf_drop-FilesOk i (drop_partial i w) (drop_partial-FilesOk i w ok)))
  | inr e ↦ rw e (reset_loop-FilesOk n (suc i) (xf_drop i w) (xf_drop-FilesOk i w ok))
]

pub reset-FilesOk : {strict : Bool} → (w : Files) → FilesOk strict w → FilesOk strict (reset w)
unfolding reset
reset-FilesOk w ok =
    let r = reset_loop-FilesOk xfers 0 w ok in
    record {
      xf_length = r.xf_length;
      offers_length = refl;
      progress_length = refl;
      xf_unique = r.xf_unique;
      offers_unique = unused-Unique xfers no_offer;
      xf_ok = r.xf_ok;
      offers_ok = All-replicate OfferOk xfers (empty_slot no_offer) empty-OfferOk;
    }

All-unit : {A : Type 0} → (s : List A) → All (λ _. Unit {0}) s
All-unit [] = tt
All-unit (x ∷ s) = (tt, All-unit s)

offer_found-FilesOk :
    {strict : Bool}
    → (safe : Bytes) (f n size : ℕ) (w : Files) → FilesOk strict w
    → file_name_bytes_ok safe ≡ true
    → 0 < size
    → size ≤ file_max
    → (r : Option ℕ × List (Slot Offer)) → find true f n no_offer w.offers ≡ r
    → FilesOk strict (offer_found safe size w r).1
offer_found-FilesOk safe f n size w ok ob a b (none, t) e =
    let same = find-none true f n no_offer w.offers (ap (λ r. r.0) e) in
    rw (sym (ap (λ r. r.1) e) ∙ same) ok
offer_found-FilesOk safe f n size w ok ob a b (some i, t) e =
    let (u, _, l) =
      find-Unique true f n no_offer (λ _. Unit) w.offers ok.offers_unique (All-unit w.offers) tt in
    let body : Offer = record { size = size; name = safe } in
    let v : Slot Offer = record (get_or t i (empty_slot no_offer)) { body = body } in
    with_offers w (set t i v) ok (length-set t i v ∙ ap (λ r. length r.1) (sym e) ∙ l)
      (Unique-set_body t i (empty_slot no_offer) body (subst (λ r. Unique r.1) e u))
      (subst (λ r. All OfferOk (set r.1 i v)) e
        (find-All-set true f n no_offer OfferOk w.offers i v ok.offers_ok
          (record { positive = λ _. a; small = λ _. b; named = λ _. ob }) (ap (λ r. r.0) e)))

-- An offer is taken with a name that has passed the tests.
pub offer_store-FilesOk :
    {strict : Bool}
    → (f n : ℕ) (name : Bytes) (size : ℕ) (w : Files) → FilesOk strict w
    → FilesOk strict (offer_store f n name size w).1
unfolding offer_store
offer_store-FilesOk f n name size w ok = elim (Bool-cases (ltb file_max size || size == 0)) [
  | inl e ↦ rw e ok
  | inr e ↦ elim (Option-cases (file_basename name (file_name_max + 1))) [
    | inl g ↦ rw (e, g) ok
    | inr (safe, g) ↦
        let ob = (file_basename-SafeName name safe (file_name_max + 1) g).0.name_ok in
        rw (e, g)
          (offer_found-FilesOk safe f n size w ok ob (ground arith) (ground arith)
            (find true f n no_offer w.offers) refl)
  ]
]
