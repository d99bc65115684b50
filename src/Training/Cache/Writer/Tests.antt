-- ===== src/Training/Cache/Writer/Tests.antt =====
-- A cache of two sequences, and one that is given up.
use waldo.Base.{arith, ◌≡◌, refl, false, [], ◌∷◌, All}
use waldo.Base.Results.{ok, err}
use waldo.Training.Cache.Tests.{encoded, written_bytes, sequence, sequence-IsCached}
use waldo.Training.Cache.Writer.{PreparedCacheWriter, append, append_all, new_writer, close_chunk}
use waldo.Training.Cache.Writer.Unbounded.{append_all-unbounded}
use waldo.Training.Cache.Writer.Stored.{read_chunks, IsTold, append_all-read_chunks}

abbrev writer : PreparedCacheWriter
unfolding append_all
writer = elim (append_all (new_writer 1000) (sequence ∷ sequence ∷ [])) [
  | ok last ↦ last
  | err e ↦ new_writer 0
]

two_rows : writer.sequences ≡ 2
unfolding append_all
two_rows = refl

given_up : append (new_writer 10) sequence ≡ ok (record (new_writer 10) { enabled = false })
unfolding append
given_up = refl

append_all-read_chunks_example :
    (read_chunks (close_chunk writer).chunks ≡ ok (sequence ∷ sequence ∷ []))
    × All IsTold (close_chunk writer).chunks
unfolding append_all
append_all-read_chunks_example =
    append_all-read_chunks 1000 (sequence ∷ sequence ∷ []) writer
      (sequence-IsCached, (sequence-IsCached, tt)) refl refl

append_all-unbounded_example :
    (writer : PreparedCacheWriter) × (append_all (new_writer 0) (sequence ∷ sequence ∷ [])
      ≡ ok writer)
    × (read_chunks (close_chunk writer).chunks ≡ ok (sequence ∷ sequence ∷ []))
    × All IsTold (close_chunk writer).chunks
append_all-unbounded_example =
    append_all-unbounded (sequence ∷ sequence ∷ []) (sequence-IsCached, (sequence-IsCached, tt))
      ((encoded, written_bytes, omega arith), ((encoded, written_bytes, omega arith), tt))
