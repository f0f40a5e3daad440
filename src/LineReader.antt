-- ===== src/LineReader.antt =====
-- helper/line_reader.c and helper/line_reader.h: the commands of a client, cut into lines. The
-- buffer is a list of the `length` bytes in use. The callback is a parameter: it takes a line and a
-- state, and stops the reader by a code other than 0. Pointers are not null.
pub mod Chunks
pub mod Framing
pub mod Lines
use oma_q.Prelude.{
  ℕ, ◌+◌, Bool, true, false, not, ◌&&◌, List, [], ◌∷◌, ◌++◌, leb, ◌==◌, if◌then◌else◌, length,
}
use oma_q.Prelude.Bytes.{Bytes}
use oma_q.Prelude.Int.{ℤ, pos, ◌==ℤ◌}

abbrev pub json_line_max : ℕ
json_line_max = 4096

pub record LineReader : Type 0 where
  pub buffer : Bytes
  pub discard : Bool

abbrev pub init : LineReader
init = record { buffer = []; discard = false }

-- the `\r` that stands before the end of the line
unfoldable pub strip_cr : Bytes → Bytes
strip_cr [] = []
strip_cr (c ∷ []) = if c == b'\r' then [] else c ∷ []
strip_cr (c ∷ d ∷ s) = c ∷ strip_cr (d ∷ s)

-- What one byte does: the reader goes on, or a line is complete (and the reader is empty again).
pub data Action : Type 0 where
  continue : LineReader → Action
  deliver : Bytes → Action

unfoldable pub step : LineReader → ℕ → Action
step r c =
    if r.discard
    then continue (if c == b'\n' then init else r)
    else if c == 0
    then continue (record { buffer = []; discard = true })
    else if c == b'\n'
    then deliver (strip_cr r.buffer)
    else if leb json_line_max (length r.buffer + 1)
    then continue (record { buffer = []; discard = true })
    else continue (record r { buffer = r.buffer ++ c ∷ [] })

module _ {S : Type 0} (callback : Bytes → S → ℤ × S) where
  unfoldable pub feed : LineReader → Bytes → S → ℤ × LineReader × S
  feed r [] s = (pos 0, r, s)
  feed r (c ∷ cs) s = elim (step r c) [
    | continue r' ↦ feed r' cs s
    | deliver l ↦
        let (rc, s') = callback l s in
        elim (rc ==ℤ pos 0) [ true ↦ feed init cs s' | false ↦ (rc, init, s') ]
  ]

  -- the reader after a chunk, fed with the next one unless the callback stopped it
  unfoldable pub feed_next : ℤ × LineReader × S → Bytes → ℤ × LineReader × S
  feed_next (rc, r, s) cs = if rc ==ℤ pos 0 then feed r cs s else (rc, r, s)
