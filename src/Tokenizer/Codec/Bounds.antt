-- ===== src/Tokenizer/Codec/Bounds.antt =====
-- The range and the number of the tokens of `bpeCodec.Encode`, internal/tokenizer/trained.go.
use waldo.Base.{
  ℕ, zero, suc, ◌+◌, ◌≤◌, ◌<◌, ◌≡◌, ap, inl, inr, some, List, [], ◌∷◌, ◌++◌, map, arith, length,
  length-append, length-map, concat, All, All-append, All-concat, Bool-cases, ltb,
}
use waldo.Base.Bytes.{Bytes, IsBytes}
use waldo.Tokenizer.Utf8.{Tables}
use waldo.Tokenizer.Chunks.{byte_bpe_chunks}
use waldo.Tokenizer.Chunks.Concat.{concat-byte_bpe_chunks}
use waldo.Tokenizer.Merge.{Pair, PairMap, find, merge_pair}
use waldo.Tokenizer.Merge.Laws.{length-merge_pair, All-merge_pair}
use waldo.Tokenizer.Artifact.{Artifact}
use waldo.Tokenizer.Codec.{
  Best, build, best_pair, merge_loop, encode_chunk, encode_chunks, encode, count,
}
use waldo.Tokenizer.Codec.Build.{IsLoaded, HasTable, build-IsLoaded}
use waldo.Tokenizer.Codec.RoundTrip.{find-best_pair}

abbrev pub InVocabulary : ℕ → ℕ → Type 0
InVocabulary size token = (3 ≤ token) × (token < size)

length-merge_loop :
    (fuel : ℕ) (ranks : PairMap) (symbols : List ℕ)
    → length (merge_loop fuel ranks symbols) ≤ length symbols
unfolding merge_loop
length-merge_loop zero ranks symbols = omega arith
length-merge_loop (suc fuel) ranks symbols =
    let best : Best = best_pair ranks symbols in
    ground (
      arith,
      length-merge_loop fuel ranks (merge_pair symbols best.pair (259 + best.rank)),
      length-merge_pair symbols best.pair (259 + best.rank),
    )

length-encode_chunks :
    (ranks : PairMap) (chunks : List Bytes) (result : List ℕ)
    → length (encode_chunks ranks chunks result) ≤ length result + length (concat chunks)
unfolding encode_chunks encode_chunk
length-encode_chunks ranks [] result = omega arith
length-encode_chunks ranks (chunk ∷ chunks) result = omega (
  arith,
  length-encode_chunks ranks chunks (result ++ encode_chunk ranks chunk),
  length-append result (encode_chunk ranks chunk),
  length-append chunk (concat chunks),
  length-merge_loop (length chunk) ranks (map (λ value. value + 3) chunk),
  length-map chunk (λ value. value + 3),
)

module _ (size : ℕ) (ranks : PairMap)
    (ranked : (p : Pair) (k : ℕ) → find ranks p ≡ some k → 259 + k < size) where
  merge_loop-InVocabulary :
      (fuel : ℕ) (symbols : List ℕ)
      → All (InVocabulary size) symbols
      → All (InVocabulary size) (merge_loop fuel ranks symbols)
  unfolding merge_loop
  merge_loop-InVocabulary zero symbols h = h
  merge_loop-InVocabulary (suc fuel) symbols h =
      elim (Bool-cases (ltb (length ranks) (best_pair ranks symbols).rank)) [
        | inl stop ↦ rw (stop, All) h
        | inr more ↦
            rw (more, All)
              (merge_loop-InVocabulary fuel _ (
                All-merge_pair (InVocabulary size) symbols _ _
                  (omega (arith, ranked _ _ (find-best_pair ranks symbols more))) h))
      ]

  bytes-InVocabulary :
      259 ≤ size
      → (chunk : Bytes) → IsBytes chunk
      → All (InVocabulary size) (map (λ value. value + 3) chunk)
  bytes-InVocabulary fits [] h = tt
  bytes-InVocabulary fits (b ∷ chunk) h = (omega arith, bytes-InVocabulary fits chunk h.1)

  encode_chunks-InVocabulary :
      259 ≤ size
      → (chunks : List Bytes) (result : List ℕ) → All IsBytes chunks
      → All (InVocabulary size) result
      → All (InVocabulary size) (encode_chunks ranks chunks result)
  unfolding encode_chunks encode_chunk
  encode_chunks-InVocabulary fits [] result bytes h = h
  encode_chunks-InVocabulary fits (chunk ∷ chunks) result bytes h =
      encode_chunks-InVocabulary fits chunks _ bytes.1 (
        All-append (InVocabulary size) result _ h
          (merge_loop-InVocabulary (length chunk) _ (bytes-InVocabulary fits chunk bytes.0)))

-- Every token of an encoded text of bytes is at least 3, so none of the pad, begin and end ids, and
-- below the vocabulary size, for an artifact whose table is in order; and `Count` is at most the
-- number of bytes.
pub encode_bounds :
    (tables : Tables) (artifact : Artifact) (text : Bytes)
    → HasTable artifact
    → IsBytes text
    → All (InVocabulary artifact.vocabulary_size) (encode tables (build artifact) text)
      × (count tables (build artifact) text ≤ length text)
unfolding encode count
encode_bounds tables artifact text table bytes = (in_vocabulary, short)
  where
    loaded : IsLoaded (length artifact.merges) (build artifact).ranks (build artifact).token_bytes
    loaded = build-IsLoaded artifact table

    in_vocabulary :
        All
          (InVocabulary artifact.vocabulary_size)
          (encode_chunks (build artifact).ranks (byte_bpe_chunks tables text) [])
    in_vocabulary =
        encode_chunks-InVocabulary artifact.vocabulary_size (build artifact).ranks
          (λ p k e. omega (arith, loaded.earlier p k e, table.1)) (omega (arith, table.1)) _ []
          (All-concat (λ b. b < 256) _ (rw concat-byte_bpe_chunks bytes)) tt

    short :
        length (encode_chunks (build artifact).ranks (byte_bpe_chunks tables text) []) ≤ length text
    short = omega (
      arith,
      length-encode_chunks (build artifact).ranks (byte_bpe_chunks tables text) [],
      ap (λ (xs : Bytes). length xs) (concat-byte_bpe_chunks tables text),
    )
