-- ===== src/Tests/Transfers.antt =====
-- helper/file.c: a file that is offered, received in two chunks and handed over.
use oma_q.Prelude.{
  concat, ◌+◌, ◌≡◌, ◌≤◌, ◌<◌, ◌↔◌, refl, Bool, true, false, Option, none, some, List, [], ◌∷◌,
  arith,
}
use oma_q.Prelude.Bytes.{Bytes, codes}
use oma_q.FileNames.{
  file_basename, after_last_slash, has_dots, file_name_bytes_ok, name_from, name_char, lead_bits,
  continue_bits, refused_point, format_control,
}
use oma_q.Transfers.{
  xfer_at, Files, ChunkIn, files_init, chunk_in, store_in, end_in, write_at, xf_index, xf_drop,
  progress_forget, complete, offer_store, offer_lookup, offer_drop, progress_interval_ms,
}
use oma_q.Transfers.Table.{empty_slot, taken, hits, find, find_loop, held}
use oma_q.Transfers.Begin.{Receiving, recv_begin, recv_open, recv_slot}
use oma_q.Transfers.Marks.{progress_due, percent_of, put_mark, mark_index, victim, progress_due_iff}
use oma_q.Transfers.State.{files_init-FilesOk}
use oma_q.Transfers.Chunks.{Filling, store_all}
use oma_q.Transfers.Whole.{recv_whole}
use oma_q.Transfers.Offers.{Answer, Updated, told, offers_refine}

abbrev env : Receiving
env = record {
  download = λ name. some (codes "/d/a");
  nonce = some 5;
  exclusive = λ path. true;
  overridden = λ path. true;
  chmod_ok = true;
}

abbrev started : Option Bytes × Files
started = recv_begin env (codes "conv") 7 65536 (codes "a") 3 [] 512 false files_init

started_at : started.0 ≡ some (codes "/d/a")
unfolding recv_begin recv_open recv_slot find find_loop hits taken empty_slot files_init offer_drop
    has_dots file_basename after_last_slash file_name_bytes_ok name_from name_char lead_bits
    continue_bits refused_point format_control
started_at = refl

abbrev chunks : List Bytes
chunks = (1 ∷ 2 ∷ []) ∷ (3 ∷ []) ∷ []

abbrev offered_once : Bool × Files
offered_once = offer_store 7 65536 (codes "x/a") 3 files_init

sized_up : offer_lookup 7 65536 0 offered_once.1 ≡ some (none, 3)
unfolding offer_lookup offer_store find find_loop hits taken empty_slot files_init has_dots
    file_basename after_last_slash file_name_bytes_ok name_from name_char lead_bits continue_bits
    refused_point format_control
sized_up = refl

looked_up : offer_lookup 7 65536 129 offered_once.1 ≡ some (some (codes "a"), 3)
unfolding offer_lookup offer_store find find_loop hits taken empty_slot files_init has_dots
    file_basename after_last_slash file_name_bytes_ok name_from name_char lead_bits continue_bits
    refused_point format_control
looked_up = refl

offers_refine_example :
    Answer 7 65536 (codes "x/a") 3 files_init.offers offered_once.0 offered_once.1.offers
    × Updated 7 65536 none files_init.offers (offer_drop 7 65536 files_init).offers
    × (offer_lookup 7 65536 2 files_init ≡ told 2 (held 7 65536 files_init.offers))
    × (offer_lookup 7 65536 129 files_init ≡ elim (held 7 65536 files_init.offers) [
      | none ↦ none
      | some o ↦ some (some o.name, o.size)
    ])
offers_refine_example =
    offers_refine {strict = true} 7 65536 (codes "x/a") 3 2 129 files_init files_init-FilesOk
      (omega arith)

abbrev reported : Bool × Files
reported = progress_due 7 65536 1 100 1000 files_init

progress_due_iff_example :
    ((progress_due 7 65536 2 100 1300 reported.1).0 ≡ true)
    ↔ ((percent_of 1 100 < percent_of 2 100) × (1000 + progress_interval_ms ≤ 1300))
unfolding progress_due mark_index put_mark victim percent_of taken empty_slot files_init hits
progress_due_iff_example =
    progress_due_iff 7 65536 1 100 1000 2 1300 files_init (files_init-FilesOk {strict = true})
      (omega arith) (omega arith) (omega arith) refl

recv_whole_example :
    let r = store_all 7 65536 512 0 chunks started.1 in
    let e = chunk_in 7 65536 3 [] 512 true 0 r.1 in
    (r.0 ≡ true)
    × Filling true 7 65536 (codes "/d/a") 3 (concat chunks) r.1
    × (e.0 ≡ complete (codes "/d/a"))
    × (held 7 65536 e.1.xf ≡ none)
unfolding recv_begin recv_open recv_slot find find_loop hits taken empty_slot files_init offer_drop
    has_dots file_basename after_last_slash file_name_bytes_ok name_from name_char lead_bits
    continue_bits refused_point format_control
recv_whole_example =
    recv_whole env (codes "conv") 7 65536 (codes "a") 3 [] 512 512 false (codes "/d/a") chunks
      files_init started.1 (files_init-FilesOk {strict = true}) refl refl
      (omega arith, (omega arith, tt)) refl (omega arith)

abbrev two_in : ChunkIn × Files
two_in = chunk_in 7 65536 0 (1 ∷ 2 ∷ 3 ∷ []) 512 true 3 started.1

-- The file is begun again under the number in use: the new file is empty, but the count of the bytes
-- that came for the old one stays, and the end marker hands the empty file over.
abbrev begun_again : Files
begun_again = (recv_begin env (codes "conv") 7 65536 (codes "a") 3 [] 512 false two_in.1).1

stale_count :
    ((chunk_in 7 65536 3 [] 512 true 0 begun_again).0 ≡ complete (codes "/d/a"))
    × ((xfer_at 0 begun_again).body.fp ≡ some [])
unfolding chunk_in end_in store_in write_at xf_index xf_drop progress_forget recv_begin recv_open
    recv_slot find find_loop hits taken empty_slot files_init offer_drop has_dots file_basename
    after_last_slash file_name_bytes_ok name_from name_char lead_bits continue_bits refused_point
    format_control
stale_count = (refl, refl)
