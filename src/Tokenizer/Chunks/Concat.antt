-- ===== src/Tokenizer/Chunks/Concat.antt =====
-- The bytes and the sizes of the chunks of `byteBPEChunks`, internal/tokenizer/trained.go.
use waldo.Base.{
  ℕ, zero, suc, ◌≤◌, ◌<◌, ◌≡◌, refl, inl, inr, false, Option, none, some, List, [], ◌∷◌, ◌∙◌, ◌-◌,
  ◌++◌, append-nil, append_assoc, arith, length, take, drop, concat, concat-append,
  take-append-drop, length-take, length-drop, All, All-append, Bool-cases, ltb, tests,
  if◌then◌else◌,
}
use waldo.Base.Bytes.{Bytes}
use waldo.Tokenizer.Utf8.{Tables, decode_rune}
use waldo.Tokenizer.Chunks.{
  Kind, LexicalRun, classify, max_bpe_chunk_bytes, runs_loop, lexical_runs, split_loop,
  append_split_chunks, chunks_loop, byte_bpe_chunks,
}

abbrev spelled : List LexicalRun → Bytes
spelled [] = []
spelled (run ∷ runs) = run.bytes ++ spelled runs

-- No byte is lost by the cut into runs, whatever the widths of the runes.
spelled-runs_loop :
    (tables : Tables) (pending : Bytes) (current : Option Kind) (skip : ℕ) (text : Bytes)
    → spelled (runs_loop tables pending current skip text) ≡ pending ++ text
unfolding runs_loop
spelled-runs_loop tables [] current skip [] = refl
spelled-runs_loop tables (p ∷ pending) current skip [] = ground arith
spelled-runs_loop tables pending current (suc skip) (b ∷ rest) =
    spelled-runs_loop tables (pending ++ b ∷ []) current skip rest
    ∙ append_assoc pending (b ∷ []) rest
spelled-runs_loop tables pending current zero (b ∷ rest) = ground (
  arith,
  spelled-runs_loop tables (b ∷ []) (some kind) width rest,
  spelled-runs_loop tables (pending ++ b ∷ []) (some kind) width rest,
  append_assoc pending (b ∷ []) rest,
)
  where
    kind : Kind
    kind = classify tables b (decode_rune (b ∷ rest))

    width : ℕ
    width = (decode_rune (b ∷ rest)).size - 1

concat-snoc :
    (chunks : List Bytes) (chunk : Bytes) → concat (chunks ++ chunk ∷ []) ≡ concat chunks ++ chunk
concat-snoc chunks chunk = simp (concat-append, append-nil)

append-empty : (xs ys : Bytes) → length ys ≤ 0 → xs ++ ys ≡ xs
append-empty xs [] h = append-nil xs
append-empty xs (y ∷ ys) h = absurd (omega arith)

concat-split_loop :
    (fuel : ℕ) (chunks : List Bytes) (value : Bytes)
    → length value < fuel
    → concat (split_loop fuel chunks value) ≡ concat chunks ++ value
unfolding split_loop
concat-split_loop zero chunks value h = absurd (omega arith)
concat-split_loop (suc fuel) chunks value h = ground (
  arith,
  concat-split_loop fuel (chunks ++ first ∷ []) rest,
  length-drop 64 value,
  concat-snoc chunks first,
  concat-snoc chunks value,
  append_assoc (concat chunks) first rest,
  take-append-drop 64 value,
  append-empty (concat chunks) value,
)
  where
    first : Bytes
    first = take max_bpe_chunk_bytes value

    rest : Bytes
    rest = drop max_bpe_chunk_bytes value

concat-append_split_chunks :
    (chunks : List Bytes) (value : Bytes)
    → concat (append_split_chunks chunks value) ≡ concat chunks ++ value
unfolding append_split_chunks
concat-append_split_chunks chunks value =
    concat-split_loop (suc (length value)) chunks value (omega arith)

concat-chunks_loop :
    (runs : List LexicalRun) (whitespace : Bytes) (chunks : List Bytes)
    → concat (chunks_loop runs whitespace chunks) ≡ concat chunks ++ (whitespace ++ spelled runs)
unfolding chunks_loop
concat-chunks_loop [] whitespace chunks = ground (
  arith,
  append-nil whitespace,
  concat-append_split_chunks chunks whitespace,
  append-empty (concat chunks) whitespace,
)
concat-chunks_loop (run ∷ runs) whitespace chunks = ground (
  arith,
  concat-chunks_loop runs (whitespace ++ run.bytes) chunks,
  concat-chunks_loop runs [] (append_split_chunks chunks (whitespace ++ run.bytes)),
  concat-append_split_chunks chunks (whitespace ++ run.bytes),
  append_assoc whitespace run.bytes (spelled runs),
  append_assoc (concat chunks) (whitespace ++ run.bytes) (spelled runs),
)

-- The chunks of a text, in order, are the text: no byte is lost, added or moved.
pub concat-byte_bpe_chunks :
    (tables : Tables) (text : Bytes) → concat (byte_bpe_chunks tables text) ≡ text
unfolding byte_bpe_chunks lexical_runs
concat-byte_bpe_chunks tables text =
    concat-chunks_loop (lexical_runs tables text) [] [] ∙ spelled-runs_loop tables [] none 0 text

abbrev pub IsChunk : Bytes → Type 0
IsChunk chunk = (1 ≤ length chunk) × (length chunk ≤ max_bpe_chunk_bytes)

split_loop-IsChunk :
    (fuel : ℕ) (chunks : List Bytes) (value : Bytes)
    → All IsChunk chunks
    → All IsChunk (split_loop fuel chunks value)
unfolding split_loop
split_loop-IsChunk zero chunks value h = h
split_loop-IsChunk (suc fuel) chunks value h = elim (Bool-cases (ltb 64 (length value))) [
  | inl more ↦
      rw (more, All)
        (split_loop-IsChunk fuel (chunks ++ take 64 value ∷ []) (drop 64 value) (
          All-append IsChunk chunks (take 64 value ∷ []) h
            ((omega (tests, length-take 64 value), omega (arith, length-take 64 value)), tt)))
  | inr last ↦ rw (last, All) (last_chunk last)
]
  where
    last_chunk :
        ltb 64 (length value) ≡ false
        → All IsChunk (if ltb 0 (length value) then chunks ++ value ∷ [] else chunks)
    last_chunk last = elim (Bool-cases (ltb 0 (length value))) [
      | inl some_left ↦
          rw (some_left, All)
            (All-append IsChunk chunks (value ∷ []) h ((omega tests, omega tests), tt))
      | inr empty ↦ rw (empty, All) h
    ]

split_IsChunk :
    (chunks : List Bytes) (value : Bytes)
    → All IsChunk chunks
    → All IsChunk (append_split_chunks chunks value)
unfolding append_split_chunks
split_IsChunk chunks value = split_loop-IsChunk (suc (length value)) chunks value

chunks_loop-IsChunk :
    (runs : List LexicalRun) (whitespace : Bytes) (chunks : List Bytes)
    → All IsChunk chunks
    → All IsChunk (chunks_loop runs whitespace chunks)
unfolding chunks_loop
chunks_loop-IsChunk [] whitespace chunks h = elim (Bool-cases (ltb 0 (length whitespace))) [
  | inl some_left ↦ rw (some_left, All) (split_IsChunk chunks whitespace h)
  | inr empty ↦ rw (empty, All) h
]
chunks_loop-IsChunk (run ∷ runs) whitespace chunks h = elim (Bool-cases run.is_space) [
  | inl e ↦ rw (e, All) (chunks_loop-IsChunk runs (whitespace ++ run.bytes) chunks h)
  | inr e ↦
      rw (e, All)
        (chunks_loop-IsChunk runs [] (append_split_chunks chunks (whitespace ++ run.bytes))
          (split_IsChunk chunks (whitespace ++ run.bytes) h))
]

-- Every chunk of a text is of 1 to 64 bytes.
pub byte_bpe_chunks-IsChunk :
    (tables : Tables) (text : Bytes) → All IsChunk (byte_bpe_chunks tables text)
unfolding byte_bpe_chunks
byte_bpe_chunks-IsChunk tables text = chunks_loop-IsChunk (lexical_runs tables text) [] [] tt
