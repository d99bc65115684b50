-- ===== src/Training/Cache/RoundTrip.antt =====
-- The sequences that internal/training/prepared_cache.go writes to a chunk are read from it.
use waldo.Base.{
  append-nil, ℕ, zero, suc, ◌+◌, ◌-◌, ◌/◌, ◌≤◌, ◌<◌, ◌≡◌, refl, sym, ap, ◌∙◌, Bool, true, false,
  not, ◌||◌, List, [], ◌∷◌, ◌++◌, append_assoc, length, length-append, count, arith, ltb, ◌==◌, All,
}
use waldo.Base.Bytes.{Bytes, bytes_eq, bytes_eq_refl}
use waldo.Base.Strings.{bytes_less}
use waldo.Base.Results.{Result, ok, ◌>>=◌}
use waldo.Training.Capacity.{max_int64}
use waldo.Training.Cache.{
  CachedSequence, CacheError, prepared_chunk_magic, prepared_chunk_limit, max_uint32, max_uint16,
  put_little_endian, encode_tokens, pack_loop, is_unnamed, encode_consumption,
  encode_prepared_sequence, read_bytes, decode_tokens, unpack_mask, has_stray_bits,
  decode_consumption, decode_sequence, decode_loop, last_ordinal, decoded_of, decode_prepared_chunk,
}
use waldo.Training.Cache.Words.{
  length-put_little_endian, read_bytes-append, read_uint-put_little_endian,
}
use waldo.Training.Cache.Masks.{unpack_mask-pack_loop, length-pack_loop, has_stray_bits-pack_loop}

-- Sequences that are encoded one behind the other.
pub encode_sequences : List CachedSequence → Result CacheError Bytes
unfolding encode_prepared_sequence
encode_sequences [] = ok []
encode_sequences (sequence ∷ sequences) = do
  encoded ← encode_prepared_sequence sequence
  rest ← encode_sequences sequences
  ok (encoded ++ rest)

-- A chunk of encoded sequences.
unfoldable pub encode_chunk : List CachedSequence → Result CacheError Bytes
unfolding encode_sequences
encode_chunk sequences = do
  encoded ← encode_sequences sequences
  ok (prepared_chunk_magic ++ encoded)

-- The names rise, none is empty, and their lengths can be written.
abbrev pub AreOrdered : Bytes → List (Bytes × ℕ) → Type 0
AreOrdered previous [] = Unit {0}
AreOrdered previous ((corpus, amount) ∷ consumption) =
    (bytes_less previous corpus ≡ true)
    × (length corpus ≤ max_uint16)
    × AreOrdered corpus consumption

abbrev pub total_of : List (Bytes × ℕ) → ℕ
total_of [] = 0
total_of ((corpus, amount) ∷ consumption) = amount + total_of consumption

-- A sequence that a chunk can hold, as the decoder asks for it. That the consumption is that of the
-- targets, and that the corpora are no more than the tokens, is tested by the decoder alone, not by
-- `encodePreparedSequence`.
pub record IsCached (s : CachedSequence) : Type 0 where
  pub small : s.ordinal ≤ max_int64
  pub some_tokens : 2 ≤ length s.tokens
  pub fits : length s.tokens ≤ prepared_chunk_limit / 4
  pub words : All (λ token. token ≤ max_uint32) s.tokens
  pub masked : length s.loss_mask ≡ length s.tokens - 1
  pub few : length s.consumption ≤ length s.tokens
  pub ordered : AreOrdered [] s.consumption
  pub counted : total_of s.consumption ≡ count (λ b. b) s.loss_mask

raw_tokens : List ℕ → Bytes
raw_tokens [] = []
raw_tokens (token ∷ tokens) = put_little_endian 4 token ++ raw_tokens tokens

encode_tokens-raw :
    (tokens : List ℕ)
    → All (λ token. token ≤ max_uint32) tokens
    → encode_tokens tokens ≡ ok (raw_tokens tokens)
unfolding encode_tokens raw_tokens
encode_tokens-raw [] h = refl
encode_tokens-raw (token ∷ tokens) h =
    let fits : ltb max_uint32 token ≡ false = ground (arith, h) in
    rw (fits, encode_tokens-raw tokens h.1) refl

decode_tokens-raw :
    (tokens : List ℕ) (rest : Bytes)
    → All (λ token. token ≤ max_uint32) tokens
    → decode_tokens (length tokens) (raw_tokens tokens ++ rest) ≡ ok (tokens, rest)
unfolding decode_tokens raw_tokens
decode_tokens-raw [] rest h = refl
decode_tokens-raw (token ∷ tokens) rest h =
    rw
      (
        append_assoc (put_little_endian 4 token) (raw_tokens tokens) rest,
        read_uint-put_little_endian 4 token (raw_tokens tokens ++ rest) (omega (arith, h)),
        decode_tokens-raw tokens rest h.1,
      )
      refl

raw_consumption : List (Bytes × ℕ) → Bytes
raw_consumption [] = []
raw_consumption ((corpus, amount) ∷ consumption) =
    put_little_endian 2 (length corpus)
    ++ (corpus ++ (put_little_endian 8 amount ++ raw_consumption consumption))

named : (previous corpus : Bytes) → bytes_less previous corpus ≡ true → is_unnamed corpus ≡ false
unfolding bytes_less
named [] [] h = absurd (cc h)
named (x ∷ previous) [] h = absurd (cc h)
named previous (c ∷ corpus) h = refl

sized : (corpus : Bytes) → is_unnamed corpus ≡ false → (length corpus == 0) ≡ false
sized [] h = absurd (cc h)
sized (c ∷ corpus) h = ground arith

encode_consumption-raw :
    (previous : Bytes) (consumption : List (Bytes × ℕ))
    → AreOrdered previous consumption
    → encode_consumption consumption ≡ ok (raw_consumption consumption)
unfolding encode_consumption raw_consumption
encode_consumption-raw previous [] h = refl
encode_consumption-raw previous ((corpus, amount) ∷ consumption) h =
    let fits : ltb max_uint16 (length corpus) ≡ false = ground (arith, h) in
    rw (named previous corpus h.0, fits, encode_consumption-raw corpus consumption h.2) refl

decode_consumption-raw :
    (previous : Bytes) (consumed : ℕ) (consumption : List (Bytes × ℕ)) (rest : Bytes)
    → AreOrdered previous consumption
    → consumed + total_of consumption ≤ max_int64
    → decode_consumption
        (length consumption)
        previous
        consumed
        (raw_consumption consumption ++ rest)
      ≡ ok ((consumption, consumed + total_of consumption), rest)
unfolding decode_consumption raw_consumption
decode_consumption-raw previous consumed [] rest h small =
    ap (λ (n : ℕ). ok (([], n), rest)) (omega arith)
decode_consumption-raw previous consumed ((corpus, amount) ∷ consumption) rest h small =
    let amounts = put_little_endian 8 amount ++ raw_consumption consumption in
    let fits : ltb max_int64 amount ≡ false = ground (arith, small) in
    let room : ltb (max_int64 - consumed) amount ≡ false = ground (arith, small) in
    rw
      (
        append_assoc (put_little_endian 2 (length corpus)) (corpus ++ amounts) rest,
        read_uint-put_little_endian 2 (length corpus) ((corpus ++ amounts) ++ rest)
            (omega (arith, h)),
        sized corpus (named previous corpus h.0),
        append_assoc corpus amounts rest,
        read_bytes-append (length corpus) corpus (amounts ++ rest) refl,
        h.0,
        append_assoc (put_little_endian 8 amount) (raw_consumption consumption) rest,
        read_uint-put_little_endian 8 amount (raw_consumption consumption ++ rest)
            (omega (arith, small)),
        fits,
        room,
        decode_consumption-raw corpus (consumed + amount) consumption rest h.2
            (omega (arith, small)),
      )
      (ap (λ (n : ℕ). ok (((corpus, amount) ∷ consumption, n), rest)) (omega arith))

raw_body : CachedSequence → Bytes
raw_body s =
    raw_tokens s.tokens
    ++ (pack_loop (length s.loss_mask) s.loss_mask ++ raw_consumption s.consumption)

pub raw_sequence : CachedSequence → Bytes
unfolding raw_body
raw_sequence s =
    put_little_endian 8 s.ordinal
    ++ (put_little_endian 4 (length s.tokens)
        ++ (put_little_endian 4 (length s.consumption) ++ raw_body s))

pub encode_prepared_sequence-raw :
    (s : CachedSequence) → IsCached s → encode_prepared_sequence s ≡ ok (raw_sequence s)
unfolding encode_prepared_sequence raw_sequence
encode_prepared_sequence-raw s v =
    let sound : (ltb (length s.tokens) 2
          || not (length s.loss_mask == length s.tokens - 1)
          || ltb max_uint32 (length s.tokens)
          || ltb max_uint32 (length s.consumption))
        ≡ false =
      ground (arith, v.some_tokens, v.masked, v.fits, v.few) in
    rw
      (sound, encode_tokens-raw s.tokens v.words, encode_consumption-raw [] s.consumption v.ordered)
      refl

count-le : (mask : List Bool) → count (λ b. b) mask ≤ length mask
count-le [] = omega arith
count-le (true ∷ mask) = omega (arith, count-le mask)
count-le (false ∷ mask) = omega (arith, count-le mask)

decode_sequence-raw :
    (s : CachedSequence) (rest : Bytes)
    → IsCached s
    → decode_sequence (raw_sequence s ++ rest) ≡ ok (s, rest)
unfolding decode_sequence raw_sequence raw_body
decode_sequence-raw s rest v =
    let tokens = length s.tokens in
    let amount = length s.consumption in
    let packed = pack_loop (length s.loss_mask) s.loss_mask in
    let pairs = raw_consumption s.consumption in
    let body = raw_tokens s.tokens ++ (packed ++ pairs) in
    let header : (ltb max_int64 s.ordinal
          || ltb tokens 2
          || ltb (prepared_chunk_limit / 4) tokens
          || ltb tokens amount)
        ≡ false =
      ground (arith, v.small, v.some_tokens, v.fits, v.few) in
    let size : length packed ≡ (tokens - 1 + 7) / 8 =
      length-pack_loop (length s.loss_mask) s.loss_mask (omega arith)
      ∙ ap (λ (n : ℕ). (n + 7) / 8) v.masked in
    let clean : has_stray_bits (tokens - 1) packed ≡ false =
      ap (λ (n : ℕ). has_stray_bits n packed) (sym v.masked)
      ∙ has_stray_bits-pack_loop (length s.loss_mask) s.loss_mask (omega arith) in
    let mask : unpack_mask (tokens - 1) packed ≡ s.loss_mask =
      ap (λ (n : ℕ). unpack_mask n packed) (sym v.masked)
      ∙ unpack_mask-pack_loop (length s.loss_mask) s.loss_mask (omega arith) in
    let same : (0 + total_of s.consumption == count (λ b. b) s.loss_mask) ≡ true =
      ground (arith, v.counted) in
    let room : 0 + total_of s.consumption ≤ max_int64 =
      omega (arith, v.counted, count-le s.loss_mask, v.masked, v.fits) in
    rw
      (
        append_assoc (put_little_endian 8 s.ordinal)
            (put_little_endian 4 tokens ++ (put_little_endian 4 amount ++ body)) rest,
        read_uint-put_little_endian 8 s.ordinal
            ((put_little_endian 4 tokens ++ (put_little_endian 4 amount ++ body)) ++ rest)
            (omega (arith, v.small)),
        append_assoc (put_little_endian 4 tokens) (put_little_endian 4 amount ++ body) rest,
        read_uint-put_little_endian 4 tokens ((put_little_endian 4 amount ++ body) ++ rest)
            (omega (arith, v.fits)),
        append_assoc (put_little_endian 4 amount) body rest,
        read_uint-put_little_endian 4 amount (body ++ rest) (omega (arith, v.fits, v.few)),
        header,
        append_assoc (raw_tokens s.tokens) (packed ++ pairs) rest,
        decode_tokens-raw s.tokens ((packed ++ pairs) ++ rest) v.words,
        append_assoc packed pairs rest,
        read_bytes-append ((tokens - 1 + 7) / 8) packed (pairs ++ rest) size,
        clean,
        mask,
        decode_consumption-raw [] 0 s.consumption rest v.ordered room,
        same,
      )
      refl

raw_sequence-pos :
    (s : CachedSequence) (rest : Bytes) → length rest < length (raw_sequence s ++ rest)
unfolding raw_sequence
raw_sequence-pos s rest =
    let body =
      put_little_endian 4 (length s.tokens)
      ++ (put_little_endian 4 (length s.consumption) ++ raw_body s) in
    omega (
      arith,
      length-append (put_little_endian 8 s.ordinal ++ body) rest,
      length-append (put_little_endian 8 s.ordinal) body,
      length-put_little_endian 8 s.ordinal,
    )

pub raw_sequences : List CachedSequence → Bytes
raw_sequences [] = []
raw_sequences (s ∷ sequences) = raw_sequence s ++ raw_sequences sequences

pub raw_sequences-append :
    (xs ys : List CachedSequence) → raw_sequences (xs ++ ys) ≡ raw_sequences xs ++ raw_sequences ys
unfolding raw_sequences
raw_sequences-append [] ys = refl
raw_sequences-append (x ∷ xs) ys =
    rw (raw_sequences-append xs ys)
      (sym (append_assoc (raw_sequence x) (raw_sequences xs) (raw_sequences ys)))

pub raw_sequences_single : (s : CachedSequence) → raw_sequences (s ∷ []) ≡ raw_sequence s
unfolding raw_sequences
raw_sequences_single s = append-nil (raw_sequence s)

pub raw_sequences-pos :
    (s : CachedSequence) (sequences : List CachedSequence)
    → 0 < length (raw_sequences (s ∷ sequences))
unfolding raw_sequences
raw_sequences-pos s sequences = omega (arith, raw_sequence-pos s (raw_sequences sequences))

encode_sequences-raw :
    (sequences : List CachedSequence)
    → All IsCached sequences
    → encode_sequences sequences ≡ ok (raw_sequences sequences)
unfolding encode_sequences raw_sequences
encode_sequences-raw [] v = refl
encode_sequences-raw (s ∷ sequences) v =
    rw (encode_prepared_sequence-raw s v.0, encode_sequences-raw sequences v.1) refl

decode_loop_step :
    (fuel : ℕ) (input rest : Bytes) (s : CachedSequence) (sequences : List CachedSequence)
    → 0 < length input
    → decode_sequence input ≡ ok (s, rest)
    → decode_loop fuel rest ≡ ok sequences
    → decode_loop (suc fuel) input ≡ ok (s ∷ sequences)
unfolding decode_loop
decode_loop_step fuel [] rest s sequences h e f = absurd (omega (arith, h))
decode_loop_step fuel (byte ∷ input) rest s sequences h e f = rw (e, f) refl

pub decode_loop-raw :
    (fuel : ℕ) (sequences : List CachedSequence)
    → length (raw_sequences sequences) ≤ fuel
    → All IsCached sequences
    → decode_loop fuel (raw_sequences sequences) ≡ ok sequences
unfolding decode_loop raw_sequences
decode_loop-raw zero [] h v = refl
decode_loop-raw (suc fuel) [] h v = refl
decode_loop-raw zero (s ∷ sequences) h v =
    absurd (omega (arith, h, raw_sequence-pos s (raw_sequences sequences)))
decode_loop-raw (suc fuel) (s ∷ sequences) h v =
    let positive = raw_sequence-pos s (raw_sequences sequences) in
    decode_loop_step fuel (raw_sequence s ++ raw_sequences sequences) (raw_sequences sequences) s
      sequences (omega (arith, positive)) (decode_sequence-raw s (raw_sequences sequences) v.0)
      (decode_loop-raw fuel sequences (omega (arith, h, positive)) v.1)

pub chunk_read :
    (input magic rest : Bytes) (sequences : List CachedSequence)
    → read_bytes (length prepared_chunk_magic) input ≡ ok (magic, rest)
    → bytes_eq magic prepared_chunk_magic ≡ true
    → decode_loop (length rest) rest ≡ ok sequences
    → decode_prepared_chunk input ≡ decoded_of sequences
unfolding decode_prepared_chunk
chunk_read input magic rest sequences read known decoded = rw (read, known, decoded) refl

-- For sequences that a chunk can hold, the chunk is written, and `decodePreparedChunk` gives from it
-- the sequences, as they were and in order, with the ordinals of the first and the last.
pub decode_prepared_chunk-encode_chunk :
    (s : CachedSequence) (sequences : List CachedSequence)
    → All IsCached (s ∷ sequences)
    → (bytes : Bytes) × (encode_chunk (s ∷ sequences) ≡ ok bytes)
      × (decode_prepared_chunk bytes
          ≡ ok (record {
            sequences = s ∷ sequences;
            first = s.ordinal;
            last = last_ordinal s.ordinal sequences;
          }))
unfolding encode_chunk
decode_prepared_chunk-encode_chunk s sequences v =
    let body = raw_sequences (s ∷ sequences) in
    (
      prepared_chunk_magic ++ body,
      rw (encode_sequences-raw (s ∷ sequences) v) refl,
      chunk_read (prepared_chunk_magic ++ body) prepared_chunk_magic body (s ∷ sequences)
            (read_bytes-append (length prepared_chunk_magic) prepared_chunk_magic body refl)
            (bytes_eq_refl prepared_chunk_magic)
            (decode_loop-raw (length body) (s ∷ sequences) (omega arith) v)
          ∙ (unfold decoded_of in refl),
    )
