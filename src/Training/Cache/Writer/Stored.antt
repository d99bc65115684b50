-- ===== src/Training/Cache/Writer/Stored.antt =====
-- What the chunks of internal/training/prepared_cache.go hold: the sequences that were appended.
use waldo.Base.{
  ℕ, ◌+◌, ◌≤◌, ◌≡◌, refl, sym, ap, ◌∙◌, subst, Bool, true, false, not, List, [], ◌∷◌, ◌++◌,
  append_assoc, append-nil, length, ltb, arith, if◌then◌else◌, All, Bool-cases, inl, inr,
}
use waldo.Base.Bytes.{bytes_eq_refl}
use waldo.Base.Results.{Result, ok, ◌>>=◌, reject_if, bind_ok, then_ok, else_ok, ok_injective}
use waldo.Training.Cache.{
  CachedSequence, CacheError, exceeds_chunk, prepared_chunk_magic, prepared_chunk_limit,
  encode_prepared_sequence, decode_prepared_chunk, decoded_of,
}
use waldo.Training.Cache.Words.{read_bytes-append}
use waldo.Training.Cache.RoundTrip.{
  IsCached, raw_sequence, raw_sequences, encode_prepared_sequence-raw, chunk_read, decode_loop-raw,
}
use waldo.Training.Cache.Writer.{
  ChunkFile, PreparedCacheWriter, closed, close_chunk, write_sequence, append_encoded, append,
  append_all, new_writer, magic_bytes,
}
use waldo.Training.Cache.Writer.Held.{IsChunk, IsHeld, IsOpen, closed-IsHeld, written_file-IsOpen}

-- The sequences that were appended are held, unless the cache was given up.
IsKept : PreparedCacheWriter → List CachedSequence → Type 0
IsKept writer done = writer.enabled ≡ true → IsOpen writer.file writer.chunks done

append_encoded-IsKept :
    (writer next : PreparedCacheWriter) (done : List CachedSequence) (t : CachedSequence)
    → IsCached t
    → IsOpen writer.file writer.chunks done
    → append_encoded writer t (raw_sequence t) ≡ ok next
    → IsKept next (done ++ t ∷ [])
unfolding append_encoded IsKept
append_encoded-IsKept writer next done t v held h =
    let (_, e0, h0) =
      bind_ok
        (reject_if (ltb prepared_chunk_limit (length (raw_sequence t) + magic_bytes)) exceeds_chunk)
        _ h in
    rw (← ok_injective h0) (choice _ (ground (arith, e0)))
  where
    choice :
        (too_large : Bool)
        → length (raw_sequence t) + magic_bytes ≤ prepared_chunk_limit
        → (if too_large
            then record writer { enabled = false }
            else write_sequence writer t (raw_sequence t)).enabled
          ≡ true
        → IsOpen
            (if too_large
              then record writer { enabled = false }
              else write_sequence writer t (raw_sequence t)).file
            (if too_large
              then record writer { enabled = false }
              else write_sequence writer t (raw_sequence t)).chunks
            (done ++ t ∷ [])
    choice true fits e = absurd (cc e)
    choice false fits e =
        unfold write_sequence in written_file-IsOpen writer.file writer.chunks done t v fits held

append-IsKept :
    (writer next : PreparedCacheWriter) (done : List CachedSequence) (t : CachedSequence)
    → IsCached t
    → IsKept writer done
    → append writer t ≡ ok next
    → IsKept next (done ++ t ∷ [])
unfolding append IsKept
append-IsKept writer next done t v held h = elim (Bool-cases writer.enabled) [
  | inr e ↦
      let same = ok_injective (
        then_ok (not writer.enabled) (ok writer)
          (encode_prepared_sequence t >>= λ encoded. append_encoded writer t encoded) h
          (ap not e)) in
      λ enabled. absurd (cc (sym e ∙ ap (λ (w : PreparedCacheWriter). w.enabled) same ∙ enabled))
  | inl e ↦
      let (encoded, e1, h1) = bind_ok (encode_prepared_sequence t) _ (
        else_ok (not writer.enabled) (ok writer)
          (encode_prepared_sequence t >>= λ encoded. append_encoded writer t encoded) h
          (ap not e)) in
      let raw : encoded ≡ raw_sequence t =
        ok_injective (sym e1 ∙ encode_prepared_sequence-raw t v) in
      append_encoded-IsKept writer next done t v (held e)
        (ap (append_encoded writer t) (sym raw) ∙ h1)
]

append_all-IsKept :
    (writer last : PreparedCacheWriter) (done sequences : List CachedSequence)
    → All IsCached sequences
    → IsKept writer done
    → append_all writer sequences ≡ ok last
    → IsKept last (done ++ sequences)
unfolding append_all
append_all-IsKept writer last done [] v held h =
    rw (← ok_injective h) (subst (IsKept writer) (sym (append-nil done)) held)
append_all-IsKept writer last done (t ∷ sequences) v held h =
    let (next, e0, h0) = bind_ok (append writer t) _ h in
    subst (IsKept last) (append_assoc done (t ∷ []) sequences) (
      append_all-IsKept next last (done ++ t ∷ []) sequences v.1
        (append-IsKept writer next done t v.0 held e0) h0)

-- The chunks are read one after the other.
pub read_chunks : List ChunkFile → Result CacheError (List CachedSequence)
unfolding decode_prepared_chunk
read_chunks [] = ok []
read_chunks (c ∷ chunks) = do
  found ← decode_prepared_chunk c.bytes
  rest ← read_chunks chunks
  ok (found.sequences ++ rest)

-- What the manifest says of a chunk is what `decodePreparedChunk` finds in it, and it is no larger
-- than a chunk may be.
abbrev pub IsTold : ChunkFile → Type 0
IsTold c =
    (sequences : List CachedSequence) × (decode_prepared_chunk c.bytes
      ≡ ok (record { sequences = sequences; first = c.first_ordinal; last = c.last_ordinal }))
    × (c.rows ≡ length sequences)
    × (length c.bytes ≤ prepared_chunk_limit)

IsChunk-IsTold :
    (c : ChunkFile) (s : CachedSequence) (here : List CachedSequence)
    → IsChunk c s here
    → (told : IsTold c) × (told.0 ≡ s ∷ here)
unfolding decoded_of
IsChunk-IsTold c s here chunk =
    let body = raw_sequences (s ∷ here) in
    (
      (
        s ∷ here,
        rw (chunk.begins, chunk.ends)
            (ap decode_prepared_chunk chunk.written
              ∙ chunk_read (prepared_chunk_magic ++ body) prepared_chunk_magic body (s ∷ here)
                  (read_bytes-append magic_bytes prepared_chunk_magic body refl)
                  (bytes_eq_refl prepared_chunk_magic)
                  (decode_loop-raw (length body) (s ∷ here) (omega arith) chunk.cached)),
        chunk.counted,
        chunk.short,
      ),
      refl,
    )

read_chunks-held :
    (chunks : List ChunkFile) (sequences : List CachedSequence)
    → IsHeld chunks sequences
    → (read_chunks chunks ≡ ok sequences) × All IsTold chunks
unfolding read_chunks IsHeld
read_chunks-held [] sequences held = (ap ok (sym held), tt)
read_chunks-held (c ∷ chunks) sequences (s, here, rest, same, chunk, held) =
    let ((found, read, counted, short), found_here) = IsChunk-IsTold c s here chunk in
    let (others, told) = read_chunks-held chunks rest held in
    (
      rw (read, others)
          (ap ok (ap (λ (ts : List CachedSequence). ts ++ rest) found_here ∙ sym same)),
      ((found, read, counted, short), told),
    )

-- Let a new cache with any bound on its size be given sequences that satisfy `IsCached`: each has
-- the dimensions and the words that the decoder asks for, and consumes as many targets as its mask
-- has, which `Append` does not test. If `Append` fails on none and the cache has not been given up,
-- then the chunks, once the last is closed, read back as these sequences in their order. Of each chunk the rows and the first and the last ordinal on
-- record are those read from it, and it is within the limit of a chunk.
pub append_all-read_chunks :
    (max_bytes : ℕ) (sequences : List CachedSequence) (writer : PreparedCacheWriter)
    → All IsCached sequences
    → append_all (new_writer max_bytes) sequences ≡ ok writer
    → writer.enabled ≡ true
    → (read_chunks (close_chunk writer).chunks ≡ ok sequences)
      × All IsTold (close_chunk writer).chunks
unfolding close_chunk
append_all-read_chunks max_bytes sequences writer v h enabled =
    read_chunks-held (closed writer.file writer.chunks) sequences (
      closed-IsHeld writer.file writer.chunks sequences (
        unfold IsKept in
        append_all-IsKept (new_writer max_bytes) writer [] sequences v
          (unfold IsKept IsOpen IsHeld in λ _. refl) h enabled))
