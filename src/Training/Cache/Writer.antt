-- ===== src/Training/Cache/Writer.antt =====
-- The writer of internal/training/prepared_cache.go: `Append` and `closeChunk`. A chunk is the bytes
-- of its file with what the manifest says of it, less its path and its digest; failures of the file
-- system are left out.
mod Held
pub mod Stored
pub mod Unbounded
mod Tests
use waldo.Base.{
  ℕ, zero, suc, ◌+◌, Bool, true, false, not, ◌&&◌, Option, none, some, List, [], ◌∷◌, ◌++◌, length,
  ltb, if◌then◌else◌,
}
use waldo.Base.Bytes.{Bytes}
use waldo.Base.Results.{Result, ok, err, ◌>>=◌, ◌>>◌, reject_if}
use waldo.Training.Cache.{
  CachedSequence, CacheError, exceeds_chunk, prepared_chunk_magic, prepared_chunk_limit,
  encode_prepared_sequence,
}

pub record ChunkFile : Type 0 where
  pub bytes : Bytes
  pub rows : ℕ
  pub first_ordinal : ℕ
  pub last_ordinal : ℕ

pub record PreparedCacheWriter : Type 0 where
  pub enabled : Bool
  pub file : Option ChunkFile
  pub chunks : List ChunkFile
  pub total_bytes : ℕ
  pub max_bytes : ℕ
  pub sequences : ℕ

-- `closeChunk`
pub closed : Option ChunkFile → List ChunkFile → List ChunkFile
closed none chunks = chunks
closed (some file) chunks = chunks ++ file ∷ []

pub close_chunk : PreparedCacheWriter → PreparedCacheWriter
unfolding closed
close_chunk writer = record writer { file = none; chunks = closed writer.file writer.chunks }

abbrev pub magic_bytes : ℕ
magic_bytes = length prepared_chunk_magic

-- Whether the sequence begins a chunk.
pub begins_chunk : Option ChunkFile → Bytes → Bool
begins_chunk none encoded = true
begins_chunk (some file) encoded =
    ltb magic_bytes (length file.bytes)
    && ltb prepared_chunk_limit (length file.bytes + length encoded)

abbrev pub new_file : CachedSequence → Bytes → ChunkFile
new_file sequence encoded = record {
  bytes = prepared_chunk_magic ++ encoded;
  rows = 1;
  first_ordinal = sequence.ordinal;
  last_ordinal = sequence.ordinal;
}

abbrev pub longer_file : ChunkFile → CachedSequence → Bytes → ChunkFile
longer_file file sequence encoded = record {
  bytes = file.bytes ++ encoded;
  rows = file.rows + 1;
  first_ordinal = file.first_ordinal;
  last_ordinal = sequence.ordinal;
}

-- The file that is written to: a new one, or the one that is open.
pub written_file : Bool → Option ChunkFile → CachedSequence → Bytes → ChunkFile
written_file true file sequence encoded = new_file sequence encoded
written_file false none sequence encoded = new_file sequence encoded
written_file false (some file) sequence encoded = longer_file file sequence encoded

pub write_sequence : PreparedCacheWriter → CachedSequence → Bytes → PreparedCacheWriter
unfolding begins_chunk close_chunk written_file
write_sequence writer sequence encoded =
    let begins = begins_chunk writer.file encoded in
    record writer {
      file = some (written_file begins writer.file sequence encoded);
      chunks = if begins then closed writer.file writer.chunks else writer.chunks;
      total_bytes =
          writer.total_bytes + (if begins then magic_bytes + length encoded else length encoded);
      sequences = writer.sequences + 1;
    }

-- Behind the encoding. A cache that would grow too large is given up.
pub append_encoded :
    PreparedCacheWriter → CachedSequence → Bytes → Result CacheError PreparedCacheWriter
unfolding write_sequence begins_chunk
append_encoded writer sequence encoded = do
  reject_if (ltb prepared_chunk_limit (length encoded + magic_bytes)) exceeds_chunk
  let additional =
      if begins_chunk writer.file encoded then length encoded + magic_bytes else length encoded
  ok (
      if ltb 0 writer.max_bytes && ltb writer.max_bytes (writer.total_bytes + additional)
      then record writer { enabled = false }
      else write_sequence writer sequence encoded)

-- `Append`
pub append : PreparedCacheWriter → CachedSequence → Result CacheError PreparedCacheWriter
unfolding append_encoded encode_prepared_sequence
append writer sequence =
    if not writer.enabled
    then ok writer
    else (encode_prepared_sequence sequence >>= λ encoded. append_encoded writer sequence encoded)

-- The calls of `Append` of a run.
pub append_all : PreparedCacheWriter → List CachedSequence → Result CacheError PreparedCacheWriter
unfolding append
append_all writer [] = ok writer
append_all writer (sequence ∷ sequences) = do
  next ← append writer sequence
  append_all next sequences

abbrev pub new_writer : ℕ → PreparedCacheWriter
new_writer max_bytes = record {
  enabled = true;
  file = none;
  chunks = [];
  total_bytes = 0;
  max_bytes = max_bytes;
  sequences = 0;
}
