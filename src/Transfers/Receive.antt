-- ===== src/Transfers/Receive.antt =====
-- helper/file.c: the calls that move the bytes of transfers keep the tables well-formed.
use oma_q.Prelude.{
  ℕ, ◌+◌, ◌-◌, ◌^◌, ◌≤◌, ◌≡◌, Bool, true, false, not, ◌&&◌, ◌||◌, some, ◌++◌, ltb, leb, ◌==◌,
  if◌then◌else◌, length, take, drop, replicate, All-get_or, length-append, length-take, length-drop,
  length-replicate, Bool-cases, Option-cases, inl, inr, arith,
}
use oma_q.Prelude.Bytes.{Bytes}
use oma_q.Transfers.{Files, Xfer, no_xfer, xfer_at, xf_index, write_at, end_in, store_in, chunk_in}
use oma_q.Transfers.Begin.{chunk_out}
use oma_q.Transfers.Table.{empty_slot}
use oma_q.Transfers.State.{BodyOk, XferOk, FilesOk, empty-XferOk, put_body-FilesOk, xf_drop-FilesOk}

pub length-write_at :
    (file : Bytes) (pos : ℕ) (bytes : Bytes)
    → (length file ≤ length (write_at file pos bytes))
      × (pos + length bytes ≤ length (write_at file pos bytes))
      × ((m : ℕ) → length file ≤ m → pos + length bytes ≤ m → length (write_at file pos bytes) ≤ m)
unfolding write_at
length-write_at file pos bytes =
    let r : Bytes = replicate (pos - length file) 0 in
    let d : Bytes = drop (pos + length bytes) file in
    let e1 = length-append (take pos file) (r ++ (bytes ++ d)) in
    let e2 = length-append r (bytes ++ d) in
    let e3 = length-append bytes d in
    let e4 = length-take pos file in
    let e5 : length r ≡ pos - length file = length-replicate (pos - length file) 0 in
    let e6 = length-drop (pos + length bytes) file in
    (omega arith, omega arith, λ m h k. omega arith)

-- The bodies behind a write: nothing, some or all of the bytes are in the file.
after_write :
    {strict : Bool}
    → (x : Xfer) (file bytes : Bytes) (pos k g : ℕ) → BodyOk strict x
    → x.sending ≡ false
    → x.fp ≡ some file
    → pos ≤ x.size
    → length bytes ≤ x.size - pos
    → (strict ≡ true → g ≤ length (write_at file pos (take k bytes)))
    → BodyOk strict (record x { fp = some (write_at file pos (take k bytes)); got = g })
after_write x file bytes pos k g ok s f p l h =
    let (a, b, c) = length-write_at file pos (take k bytes) in
    let t = length-take k bytes in
    let top = ok.file_low file s f in
    let size = ok.size_low file s f in
    let bound = c x.size top (omega arith) in
    record {
      got_low = λ q y _ e. ground (arith, e, h q);
      file_low = λ y _ e. ground (arith, e);
      size_low = λ y _ e. size;
    }

xf_at-BodyOk :
    {strict : Bool} → (i : ℕ) (w : Files) → FilesOk strict w → BodyOk strict (xfer_at i w).body
xf_at-BodyOk i w ok = All-get_or (XferOk _) w.xf i (empty_slot no_xfer) ok.xf_ok empty-XferOk

pub end_in-FilesOk :
    {strict : Bool} → (i cap : ℕ) (w : Files) → FilesOk strict w → FilesOk strict (end_in i cap w).1
unfolding end_in
end_in-FilesOk i cap w ok = elim (Bool-cases ((xfer_at i w).body.got == (xfer_at i w).body.size)) [
  | inr e ↦ rw e ok
  | inl e ↦ elim (Bool-cases (not (cap == 0) && leb cap (length (xfer_at i w).body.path))) [
    | inl g ↦ rw (e, g) ok
    | inr g ↦ rw (e, g) (xf_drop-FilesOk i w ok)
  ]
]

store_in-FilesOk :
    {strict : Bool}
    → (i : ℕ) (file : Bytes) (pos : ℕ) (bytes : Bytes) (seeks : Bool) (written : ℕ) (w : Files)
    → FilesOk strict w
    → (xfer_at i w).body.sending ≡ false
    → (xfer_at i w).body.fp ≡ some file
    → FilesOk strict (store_in i file pos bytes seeks written w).1
unfolding store_in
store_in-FilesOk {strict} i file pos bytes seeks written w ok s f =
    let x : Xfer = (xfer_at i w).body in
    let good = xf_at-BodyOk i w ok in
    let (a, b, c) = length-write_at file pos (take written bytes) in
    elim (Bool-cases (ltb x.size pos || ltb (x.size - pos) (length bytes))) [
      | inl e ↦ rw e ok
      | inr e ↦ elim (Bool-cases seeks) [
        | inr k ↦ rw (e, k) ok
        | inl k ↦
            let after =
              λ (g : ℕ) (h : strict ≡ true → g ≤ length (write_at file pos (take written bytes))).
                put_body-FilesOk i w
                  (record x { fp = some (write_at file pos (take written bytes)); got = g }) ok
                  (after_write x file bytes pos written g good s f (ground arith) (ground arith)
                    h) in
            elim (Bool-cases (written == length bytes)) [
              | inr m ↦ rw (e, k, m) (after x.got (λ q. omega (arith, a, good.got_low q file s f)))
              | inl m ↦ elim (Bool-cases (ltb (2 ^ 64 - 1 - pos) (length bytes))) [
                | inl o ↦
                    rw (e, k, m, o) (after x.got (λ q. omega (arith, a, good.got_low q file s f)))
                | inr o ↦
                    let t = length-take written bytes in
                    rw (e, k, m, o)
                      (after (if ltb x.got (pos + length bytes) then pos + length bytes else x.got)
                        (λ q. ground (arith, a, b, good.got_low q file s f, t)))
              ]
            ]
      ]
    ]

pub chunk_in-FilesOk :
    {strict : Bool}
    → (f n pos : ℕ) (bytes : Bytes) (cap : ℕ) (seeks : Bool) (written : ℕ) (w : Files)
    → FilesOk strict w
    → FilesOk strict (chunk_in f n pos bytes cap seeks written w).1
unfolding chunk_in
chunk_in-FilesOk f n pos bytes cap seeks written w ok = elim (Option-cases (xf_index f n w)) [
  | inl e ↦ rw (e, chunk_in) ok
  | inr (i, e) ↦ elim (Bool-cases (xfer_at i w).body.sending) [
    | inl s ↦ rw (e, chunk_in, s) ok
    | inr s ↦ elim (Option-cases (xfer_at i w).body.fp) [
      | inl g ↦ rw (e, chunk_in, s, g) ok
      | inr (file, g) ↦ elim (Bool-cases (length bytes == 0)) [
        | inl z ↦ rw (e, chunk_in, s, g, z) (end_in-FilesOk i cap w ok)
        | inr z ↦
            rw (e, chunk_in, s, g, z) (store_in-FilesOk i file pos bytes seeks written w ok s g)
      ]
    ]
  ]
]

pub chunk_out-FilesOk :
    {strict : Bool}
    → (f n pos len : ℕ) (ready : Bool) (w : Files) → FilesOk strict w
    → FilesOk strict (chunk_out f n pos len ready w).1
unfolding chunk_out
chunk_out-FilesOk f n pos len ready w ok = elim (Option-cases (xf_index f n w)) [
  | inl e ↦ rw (e, chunk_out) ok
  | inr (i, e) ↦ elim (Bool-cases (xfer_at i w).body.sending) [
    | inr s ↦ rw (e, chunk_out, s) ok
    | inl s ↦ elim (Option-cases (xfer_at i w).body.fp) [
      | inl g ↦ rw (e, chunk_out, s, g) ok
      | inr (file, g) ↦ elim (Bool-cases (len == 0)) [
        | inl z ↦ rw (e, chunk_out, s, g, z) (xf_drop-FilesOk i w ok)
        | inr z ↦ elim (Bool-cases (ltb 65536 len)) [
          | inl k ↦ rw (e, chunk_out, s, g, z, k) ok
          | inr k ↦ rw (e, chunk_out, s, g, z, k) ok
        ]
      ]
    ]
  ]
]
