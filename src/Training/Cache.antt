-- ===== src/Training/Cache.antt =====
-- internal/training/prepared_cache.go: the chunks in which prepared sequences are kept. A reader is
-- the bytes that are left to read.
mod Words
mod Masks
pub mod RoundTrip
pub mod Tests
pub mod Writer
use waldo.Base.{
  ℕ, zero, suc, ◌+◌, ◌-◌, ◌*◌, ◌/◌, ◌%◌, ◌^◌, Bool, true, false, not, ◌&&◌, ◌||◌, List, [], ◌∷◌,
  ◌++◌, length, take, drop, count, min, ltb, leb, ◌==◌, if◌then◌else◌,
}
use waldo.Base.Bytes.{Bytes, codes, bytes_eq, little_endian}
use waldo.Base.Strings.{bytes_less}
use waldo.Base.Results.{Result, ok, err, ◌>>=◌, ◌>>◌, reject_if}
use waldo.Training.Capacity.{max_int64}

-- A `PreparedSequence`; its consumption is a map, here the pairs in the order of the names.
pub record CachedSequence : Type 0 where
  pub ordinal : ℕ
  pub tokens : List ℕ
  pub loss_mask : List Bool
  pub consumption : List (Bytes × ℕ)

pub data CacheError : Type 0 where
  invalid_dimensions : CacheError
  invalid_token : CacheError
  invalid_consumption : CacheError
  short_read : CacheError
  bad_magic : CacheError
  bad_sequence_header : CacheError
  bad_loss_mask : CacheError
  empty_corpus : CacheError
  unordered_corpora : CacheError
  consumption_overflows : CacheError
  consumption_differs : CacheError
  empty_chunk : CacheError
  exceeds_chunk : CacheError

-- `preparedChunkMagic` and `preparedChunkLimit`
abbrev pub prepared_chunk_magic : Bytes
prepared_chunk_magic = codes "OWPS3" ++ 0 ∷ 0 ∷ 1 ∷ []

abbrev pub prepared_chunk_limit : ℕ
prepared_chunk_limit = 16 * 2 ^ 20

abbrev pub max_uint32 : ℕ
max_uint32 = 2 ^ 32 - 1

abbrev pub max_uint16 : ℕ
max_uint16 = 2 ^ 16 - 1

-- `binary.Write` of an unsigned number, in little endian and as many bytes as are given.
pub put_little_endian : ℕ → ℕ → Bytes
put_little_endian zero n = []
put_little_endian (suc size) n = n % 256 ∷ put_little_endian size (n / 256)

pub encode_tokens : List ℕ → Result CacheError Bytes
unfolding put_little_endian
encode_tokens [] = ok []
encode_tokens (token ∷ tokens) = do
  reject_if (ltb max_uint32 token) invalid_token
  rest ← encode_tokens tokens
  ok (put_little_endian 4 token ++ rest)

-- A byte with a bit for each value of the mask, the first the lowest.
pub byte_of : List Bool → ℕ
byte_of [] = 0
byte_of (b ∷ bits) = (if b then 1 else 0) + 2 * byte_of bits

-- The bytes of the mask. Each takes up eight values, so the length is enough fuel.
pub pack_loop : ℕ → List Bool → Bytes
unfolding byte_of
pack_loop zero mask = []
pack_loop (suc fuel) [] = []
pack_loop (suc fuel) (b ∷ mask) = byte_of (take 8 (b ∷ mask)) ∷ pack_loop fuel (drop 8 (b ∷ mask))

abbrev pub is_unnamed : Bytes → Bool
is_unnamed [] = true
is_unnamed (c ∷ name) = false

pub encode_consumption : List (Bytes × ℕ) → Result CacheError Bytes
unfolding put_little_endian
encode_consumption [] = ok []
encode_consumption ((corpus, amount) ∷ consumption) = do
  reject_if (is_unnamed corpus || ltb max_uint16 (length corpus)) invalid_consumption
  rest ← encode_consumption consumption
  ok (put_little_endian 2 (length corpus) ++ (corpus ++ (put_little_endian 8 amount ++ rest)))

-- `encodePreparedSequence`
pub encode_prepared_sequence : CachedSequence → Result CacheError Bytes
unfolding put_little_endian encode_tokens pack_loop encode_consumption
encode_prepared_sequence sequence = do
  reject_if
      (ltb (length sequence.tokens) 2
        || not (length sequence.loss_mask == length sequence.tokens - 1)
        || ltb max_uint32 (length sequence.tokens)
        || ltb max_uint32 (length sequence.consumption))
      invalid_dimensions
  tokens ← encode_tokens sequence.tokens
  consumption ← encode_consumption sequence.consumption
  ok (
      put_little_endian 8 sequence.ordinal
      ++ (put_little_endian 4 (length sequence.tokens)
          ++ (put_little_endian 4 (length sequence.consumption)
              ++ (tokens
                  ++ (pack_loop (length sequence.loss_mask) sequence.loss_mask ++ consumption)))))

-- `io.ReadFull`, and `binary.Read` of an unsigned number.
pub read_bytes : ℕ → Bytes → Result CacheError (Bytes × Bytes)
read_bytes size input =
    if ltb (length input) size then err short_read else ok (take size input, drop size input)

pub read_uint : ℕ → Bytes → Result CacheError (ℕ × Bytes)
unfolding read_bytes little_endian
read_uint size input = do (bytes, rest) ← read_bytes size input; ok (little_endian bytes, rest)

pub decode_tokens : ℕ → Bytes → Result CacheError (List ℕ × Bytes)
unfolding read_uint
decode_tokens zero input = ok ([], input)
decode_tokens (suc left) input = do
  (token, rest) ← read_uint 4 input
  (tokens, after) ← decode_tokens left rest
  ok (token ∷ tokens, after)

-- The lowest bits of a byte.
pub bits_of : ℕ → ℕ → List Bool
bits_of zero byte = []
bits_of (suc size) byte = (byte % 2 == 1) ∷ bits_of size (byte / 2)

-- The values of the mask, eight to a byte.
pub unpack_mask : ℕ → Bytes → List Bool
unfolding bits_of
unpack_mask size [] = []
unpack_mask size (byte ∷ packed) = bits_of (min 8 size) byte ++ unpack_mask (size - 8) packed

abbrev pub last_byte : Bytes → ℕ
last_byte [] = 0
last_byte (byte ∷ []) = byte
last_byte (byte ∷ next ∷ packed) = last_byte (next ∷ packed)

-- Bits behind the mask are set in its last byte.
pub has_stray_bits : ℕ → Bytes → Bool
has_stray_bits size packed = not (size % 8 == 0) && not (last_byte packed / 2 ^ (size % 8) == 0)

-- The loop over the corpora, with the name before and the sum so far.
pub decode_consumption : ℕ → Bytes → ℕ → Bytes → Result CacheError ((List (Bytes × ℕ) × ℕ) × Bytes)
unfolding read_uint bytes_less
decode_consumption zero previous consumed input = ok (([], consumed), input)
decode_consumption (suc left) previous consumed input = do
  (size, rest) ← read_uint 2 input
  reject_if (size == 0) empty_corpus
  (corpus, behind) ← read_bytes size rest
  reject_if (not (bytes_less previous corpus)) unordered_corpora
  (amount, after) ← read_uint 8 behind
  reject_if (ltb max_int64 amount) invalid_consumption
  reject_if (ltb (max_int64 - consumed) amount) consumption_overflows
  ((consumption, total), end) ← decode_consumption left corpus (consumed + amount) after
  ok (((corpus, amount) ∷ consumption, total), end)

-- One round of the loop of `decodePreparedChunk`.
pub decode_sequence : Bytes → Result CacheError (CachedSequence × Bytes)
unfolding read_uint read_bytes decode_tokens has_stray_bits unpack_mask decode_consumption
decode_sequence input = do
  (ordinal, r0) ← read_uint 8 input
  (token_count, r1) ← read_uint 4 r0
  (consumption_count, r2) ← read_uint 4 r1
  reject_if
      (ltb max_int64 ordinal
        || ltb token_count 2
        || ltb (prepared_chunk_limit / 4) token_count
        || ltb token_count consumption_count)
      bad_sequence_header
  (tokens, r3) ← decode_tokens token_count r2
  (packed, r4) ← read_bytes ((token_count - 1 + 7) / 8) r3
  reject_if (has_stray_bits (token_count - 1) packed) bad_loss_mask
  let mask = unpack_mask (token_count - 1) packed
  ((consumption, consumed), r5) ← decode_consumption consumption_count [] 0 r4
  reject_if (not (consumed == count (λ b. b) mask)) consumption_differs
  ok (
    record { ordinal = ordinal; tokens = tokens; loss_mask = mask; consumption = consumption },
    r5,
  )

-- The loop, up to the end of the input. A round takes a byte or more, so the length is enough fuel.
unfoldable pub decode_loop : ℕ → Bytes → Result CacheError (List CachedSequence)
unfolding decode_sequence
decode_loop zero input = ok []
decode_loop (suc fuel) [] = ok []
decode_loop (suc fuel) (byte ∷ input) = do
  (sequence, rest) ← decode_sequence (byte ∷ input)
  sequences ← decode_loop fuel rest
  ok (sequence ∷ sequences)

-- The sequences that are consumed, with the first and the last ordinal.
pub record Decoded : Type 0 where
  pub sequences : List CachedSequence
  pub first : ℕ
  pub last : ℕ

abbrev pub last_ordinal : ℕ → List CachedSequence → ℕ
last_ordinal ordinal [] = ordinal
last_ordinal ordinal (sequence ∷ sequences) = last_ordinal sequence.ordinal sequences

pub decoded_of : List CachedSequence → Result CacheError Decoded
decoded_of [] = err empty_chunk
decoded_of (sequence ∷ sequences) = ok (record {
  sequences = sequence ∷ sequences;
  first = sequence.ordinal;
  last = last_ordinal sequence.ordinal sequences;
})

-- `decodePreparedChunk`; its rows are the number of sequences.
pub decode_prepared_chunk : Bytes → Result CacheError Decoded
unfolding read_bytes bytes_eq decode_loop decoded_of
decode_prepared_chunk input = do
  (magic, rest) ← read_bytes (length prepared_chunk_magic) input
  reject_if (not (bytes_eq magic prepared_chunk_magic)) bad_magic
  sequences ← decode_loop (length rest) rest
  decoded_of sequences
