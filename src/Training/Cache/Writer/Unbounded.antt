-- ===== src/Training/Cache/Writer/Unbounded.antt =====
-- A cache with no bound on its size, in internal/training/prepared_cache.go: `Append` succeeds.
use waldo.Base.{
  ◌+◌, ◌≤◌, ◌≡◌, refl, ap, ◌∙◌, true, false, not, [], ◌∷◌, List, length, ltb, arith, All,
  if◌then◌else◌,
}
use waldo.Base.Bytes.{Bytes}
use waldo.Base.Results.{ok, ◌>>=◌}
use waldo.Training.Cache.{CachedSequence, prepared_chunk_limit, encode_prepared_sequence}
use waldo.Training.Cache.RoundTrip.{IsCached}
use waldo.Training.Cache.Writer.{
  PreparedCacheWriter, append, append_encoded, append_all, close_chunk, magic_bytes, new_writer,
  write_sequence,
}
use waldo.Training.Cache.Writer.Stored.{IsTold, read_chunks, append_all-read_chunks}

-- The sequence is encoded, and alone fits into a chunk.
abbrev pub IsSmall : CachedSequence → Type 0
IsSmall t =
    (encoded : Bytes) × (encode_prepared_sequence t ≡ ok encoded)
    × (length encoded + magic_bytes ≤ prepared_chunk_limit)

append_encoded-unbounded :
    (writer : PreparedCacheWriter) (t : CachedSequence) (encoded : Bytes)
    → length encoded + magic_bytes ≤ prepared_chunk_limit
    → writer.max_bytes ≡ 0
    → append_encoded writer t encoded ≡ ok (write_sequence writer t encoded)
unfolding append_encoded
append_encoded-unbounded writer t encoded small free =
    let fits : ltb prepared_chunk_limit (length encoded + magic_bytes) ≡ false =
      ground (arith, small) in
    rw (fits, free) refl

append-unbounded :
    (writer : PreparedCacheWriter) (t : CachedSequence) (small : IsSmall t)
    → writer.enabled ≡ true
    → writer.max_bytes ≡ 0
    → append writer t ≡ ok (write_sequence writer t small.0)
unfolding append
append-unbounded writer t (encoded, same, small) enabled free =
    let rest = encode_prepared_sequence t >>= λ bytes. append_encoded writer t bytes in
    ap (λ on. if not on then ok writer else rest) enabled
    ∙ ap (λ found. found >>= λ bytes. append_encoded writer t bytes) same
    ∙ append_encoded-unbounded writer t encoded small free

append_all-on :
    (writer : PreparedCacheWriter) (sequences : List CachedSequence)
    → All IsSmall sequences
    → writer.enabled ≡ true
    → writer.max_bytes ≡ 0
    → (last : PreparedCacheWriter) × (append_all writer sequences ≡ ok last) × (last.enabled ≡ true)
unfolding append_all write_sequence
append_all-on writer [] small enabled free = (writer, refl, enabled)
append_all-on writer (t ∷ sequences) small enabled free =
    rw (append-unbounded writer t small.0 enabled free)
      (append_all-on (write_sequence writer t small.0.0) sequences small.1 enabled free)

-- A new cache with no bound on its size takes every list of sequences that are encoded, alone fit
-- into a chunk, and satisfy `IsCached`: each has the dimensions and the words that the decoder asks
-- for, and consumes as many targets as its mask has, which `Append` does not test. The chunks, once the last is closed, read back as these sequences
-- in their order, each chunk as it is on record and within the limit.
pub append_all-unbounded :
    (sequences : List CachedSequence)
    → All IsCached sequences
    → All IsSmall sequences
    → (writer : PreparedCacheWriter) × (append_all (new_writer 0) sequences ≡ ok writer)
      × (read_chunks (close_chunk writer).chunks ≡ ok sequences)
      × All IsTold (close_chunk writer).chunks
append_all-unbounded sequences v small =
    let (writer, e, enabled) = append_all-on (new_writer 0) sequences small refl refl in
    let (read, told) = append_all-read_chunks 0 sequences writer v e enabled in
    (writer, e, read, told)
