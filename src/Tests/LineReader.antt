-- ===== src/Tests/LineReader.antt =====
-- helper/line_reader.c with a callback that keeps the lines.
use oma_q.Prelude.{◌≡◌, refl, false, List, [], ◌∷◌, ◌++◌}
use oma_q.Prelude.Bytes.{Bytes, codes}
use oma_q.Prelude.Int.{ℤ, pos}
use oma_q.LineReader.Lines.{feed_chunks, feed_chunks-handed}
use oma_q.LineReader.Framing.{feed_line, after_line}
use oma_q.LineReader.{init, step, strip_cr, feed}

abbrev keep : Bytes → List Bytes → ℤ × List Bytes
keep l log = (pos 0, log ++ l ∷ [])

two_lines :
    feed keep init (codes "ab\r\ncd\nx") []
    ≡ (pos 0, record { buffer = codes "x"; discard = false }, codes "ab" ∷ codes "cd" ∷ [])
unfolding feed step strip_cr
two_lines = refl

feed_chunks-handed_example :
    feed_chunks keep (pos 0, init, []) (codes "ab\r" ∷ codes "\nc" ∷ codes "d\n" ∷ [])
    ≡ (pos 0, init, codes "ab" ∷ codes "cd" ∷ [])
unfolding strip_cr
feed_chunks-handed_example =
    feed_chunks-handed keep (codes "ab\r" ∷ codes "cd" ∷ [])
      (codes "ab\r" ∷ codes "\nc" ∷ codes "d\n" ∷ []) [] (refl, (refl, tt)) refl

feed_line_example :
    feed keep init (codes "ab\r" ++ b'\n' ∷ codes "cd\n") []
    ≡ after_line keep (codes "ab\r") (codes "cd\n") []
feed_line_example = feed_line keep (codes "ab\r") (codes "cd\n") [] refl
