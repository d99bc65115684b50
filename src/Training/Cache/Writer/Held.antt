-- ===== src/Training/Cache/Writer/Held.antt =====
-- What the open file and the closed chunks of internal/training/prepared_cache.go hold, and what
-- writing one more sequence to them does.
use waldo.Base.{
  ℕ, ◌+◌, ◌≤◌, ◌<◌, ◌≡◌, refl, sym, ap, ◌∙◌, subst, false, Option, none, some, List, [], ◌∷◌, ◌++◌,
  append_assoc, append-nil, length, length-append, arith, if◌then◌else◌, All, All-append,
  Bool-cases, inl, inr,
}
use waldo.Base.Bytes.{Bytes}
use waldo.Training.Cache.{CachedSequence, prepared_chunk_magic, prepared_chunk_limit, last_ordinal}
use waldo.Training.Cache.RoundTrip.{
  raw_sequences-append, raw_sequences_single, raw_sequences-pos, IsCached, raw_sequence,
  raw_sequences,
}
use waldo.Training.Cache.Writer.{
  ChunkFile, closed, begins_chunk, new_file, longer_file, written_file, magic_bytes,
}

-- The chunk holds the sequences, and is told of as it is.
pub record IsChunk (c : ChunkFile) (s : CachedSequence) (sequences : List CachedSequence)
    : Type 0 where
  pub cached : All IsCached (s ∷ sequences)
  pub written : c.bytes ≡ prepared_chunk_magic ++ raw_sequences (s ∷ sequences)
  pub counted : c.rows ≡ length (s ∷ sequences)
  pub begins : c.first_ordinal ≡ s.ordinal
  pub ends : c.last_ordinal ≡ last_ordinal s.ordinal sequences
  pub short : length c.bytes ≤ prepared_chunk_limit

last_ordinal-append :
    (o : ℕ) (sequences : List CachedSequence) (t : CachedSequence)
    → last_ordinal o (sequences ++ t ∷ []) ≡ t.ordinal
last_ordinal-append o [] t = refl
last_ordinal-append o (s ∷ sequences) t = last_ordinal-append s.ordinal sequences t

new_file-IsChunk :
    (t : CachedSequence)
    → IsCached t
    → length (raw_sequence t) + magic_bytes ≤ prepared_chunk_limit
    → IsChunk (new_file t (raw_sequence t)) t []
new_file-IsChunk t v h = record {
  cached = (v, tt);
  written = ap (λ raw. prepared_chunk_magic ++ raw) (sym (raw_sequences_single t));
  counted = refl;
  begins = refl;
  ends = refl;
  short = omega (arith, h, length-append prepared_chunk_magic (raw_sequence t));
}

longer_file-IsChunk :
    (c : ChunkFile) (s : CachedSequence) (sequences : List CachedSequence) (t : CachedSequence)
    → IsCached t
    → length c.bytes + length (raw_sequence t) ≤ prepared_chunk_limit
    → IsChunk c s sequences
    → IsChunk (longer_file c t (raw_sequence t)) s (sequences ++ t ∷ [])
longer_file-IsChunk c s sequences t v h chunk = record {
  cached = (chunk.cached.0, All-append IsCached sequences (t ∷ []) chunk.cached.1 (v, tt));
  written =
      ap (λ bytes. bytes ++ raw_sequence t) chunk.written
      ∙ append_assoc prepared_chunk_magic (raw_sequences (s ∷ sequences)) (raw_sequence t)
      ∙ ap (λ raw. prepared_chunk_magic ++ (raw_sequences (s ∷ sequences) ++ raw))
          (sym (raw_sequences_single t))
      ∙ ap (λ raw. prepared_chunk_magic ++ raw)
          (sym (raw_sequences-append (s ∷ sequences) (t ∷ [])));
  counted = omega (arith, chunk.counted, length-append sequences (t ∷ []));
  begins = chunk.begins;
  ends = sym (last_ordinal-append s.ordinal sequences t);
  short = omega (arith, h, length-append c.bytes (raw_sequence t));
}

-- The chunks hold the sequences, in order.
unfoldable pub IsHeld : List ChunkFile → List CachedSequence → Type 0
IsHeld [] sequences = sequences ≡ []
IsHeld (c ∷ chunks) sequences =
    (s : CachedSequence) × (here : List CachedSequence) × (rest : List CachedSequence) × (sequences
      ≡ s ∷ (here ++ rest))
    × IsChunk c s here
    × IsHeld chunks rest

IsHeld-append :
    (chunks : List ChunkFile) (sequences : List CachedSequence) (c : ChunkFile) (s : CachedSequence)
    (here : List CachedSequence)
    → IsHeld chunks sequences
    → IsChunk c s here
    → IsHeld (chunks ++ c ∷ []) (sequences ++ s ∷ here)
unfolding IsHeld
IsHeld-append [] sequences c s here held chunk = (
  s,
  here,
  [],
  ap (λ done. done ++ s ∷ here) held ∙ ap (λ ts. s ∷ ts) (sym (append-nil here)),
  chunk,
  refl,
)
IsHeld-append (d ∷ chunks) sequences c s here (t, there, rest, same, first, held) chunk = (
  t,
  there,
  rest ++ s ∷ here,
  ap (λ done. done ++ s ∷ here) same ∙ ap (λ ts. t ∷ ts) (append_assoc there rest (s ∷ here)),
  first,
  IsHeld-append chunks rest c s here held chunk,
)

-- The open file holds the last of the sequences, the closed chunks those before.
unfoldable pub IsOpen : Option ChunkFile → List ChunkFile → List CachedSequence → Type 0
IsOpen none chunks sequences = IsHeld chunks sequences
IsOpen (some file) chunks sequences =
    (before : List CachedSequence) × (s : CachedSequence) × (here : List CachedSequence)
    × (sequences ≡ before ++ s ∷ here)
    × IsHeld chunks before
    × IsChunk file s here

pub closed-IsHeld :
    (file : Option ChunkFile) (chunks : List ChunkFile) (sequences : List CachedSequence)
    → IsOpen file chunks sequences
    → IsHeld (closed file chunks) sequences
unfolding closed IsOpen
closed-IsHeld none chunks sequences h = h
closed-IsHeld (some file) chunks sequences (before, s, here, same, held, chunk) =
    subst (IsHeld (chunks ++ file ∷ [])) (sym same)
      (IsHeld-append chunks before file s here held chunk)

begins_chunk-room :
    (file : ChunkFile) (s : CachedSequence) (here : List CachedSequence) (encoded : Bytes)
    → IsChunk file s here
    → begins_chunk (some file) encoded ≡ false
    → length file.bytes + length encoded ≤ prepared_chunk_limit
unfolding begins_chunk
begins_chunk-room file s here encoded chunk h =
    let size =
      ap length chunk.written ∙ length-append prepared_chunk_magic (raw_sequences (s ∷ here)) in
    let some_bytes : 0 < length (raw_sequences (s ∷ here)) = raw_sequences-pos s here in
    ground (arith, h, size, some_bytes)

pub written_file-IsOpen :
    (file : Option ChunkFile) (chunks : List ChunkFile) (done : List CachedSequence)
    (t : CachedSequence)
    → IsCached t
    → length (raw_sequence t) + magic_bytes ≤ prepared_chunk_limit
    → IsOpen file chunks done
    → IsOpen
        (some (written_file (begins_chunk file (raw_sequence t)) file t (raw_sequence t)))
        (if begins_chunk file (raw_sequence t) then closed file chunks else chunks)
        (done ++ t ∷ [])
unfolding IsOpen
written_file-IsOpen none chunks done t v h held =
    unfold begins_chunk written_file closed in (done, t, [], refl, held, new_file-IsChunk t v h)
written_file-IsOpen (some file) chunks done t v h (before, s, here, same, held, chunk) =
    elim (Bool-cases (begins_chunk (some file) (raw_sequence t))) [
      | inl e ↦ rw e (
          unfold written_file in
          (
            done,
            t,
            [],
            refl,
            closed-IsHeld (some file) chunks done
                (unfold IsOpen in (before, s, here, same, held, chunk)),
            new_file-IsChunk t v h,
          ))
      | inr e ↦ rw e (
          unfold written_file in
          (
            before,
            s,
            here ++ t ∷ [],
            ap (λ ts. ts ++ t ∷ []) same ∙ append_assoc before (s ∷ here) (t ∷ []),
            held,
            longer_file-IsChunk file s here t v
                (begins_chunk-room file s here (raw_sequence t) chunk e) chunk,
          ))
    ]
