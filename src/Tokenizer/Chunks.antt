-- ===== src/Tokenizer/Chunks.antt =====
-- `lexicalRuns`, `byteBPEChunks` and `appendSplitChunks` of internal/tokenizer/trained.go.
pub mod Concat
use waldo.Base.{
  ℕ, zero, suc, ◌-◌, Bool, true, false, not, ◌&&◌, ◌||◌, Option, none, some, List, [], ◌∷◌, ◌++◌,
  ltb, ◌==◌, if◌then◌else◌, length, take, drop,
}
use waldo.Base.Bytes.{Bytes}
use waldo.Tokenizer.Utf8.{Tables, Rune, rune_error, decode_rune}

abbrev pub max_bpe_chunk_bytes : ℕ
max_bpe_chunk_bytes = 64

-- The kinds 0, 1 and 2 of `lexicalRuns`.
pub data Kind : Type 0 where
  word space other : Kind

unfoldable pub kind_eq : Kind → Kind → Bool
kind_eq word word = true
kind_eq space space = true
kind_eq other other = true
kind_eq _ _ = false

pub record LexicalRun : Type 0 where
  pub bytes : Bytes
  pub is_space : Bool

-- The kind of the rune that starts at the byte `b`, decoded as `rune`.
unfoldable pub classify : Tables → ℕ → Rune → Kind
classify tables b rune =
    let value = if rune.value == rune_error && rune.size == 1 then b else rune.value in
    if tables.is_letter value || tables.is_number value || value == b'_'
    then word
    else if tables.is_space value
    then space
    else other

-- `current != -1 && kind != current`, with `none` for -1.
unfoldable pub boundary : Option Kind → Kind → Bool
boundary none kind = false
boundary (some current) kind = not (kind_eq kind current)

-- `current == 1`
unfoldable pub current_is_space : Option Kind → Bool
current_is_space none = false
current_is_space (some current) = kind_eq current space

-- The loop of `lexicalRuns` at `index`: `pending` is `text[start:index]`, the last argument is
-- `text[index:]`, and `skip` counts the bytes that `index += size` has still to pass.
unfoldable pub runs_loop : Tables → Bytes → Option Kind → ℕ → Bytes → List LexicalRun
runs_loop tables pending current skip [] =
    if ltb 0 (length pending)
    then record { bytes = pending; is_space = current_is_space current } ∷ []
    else []
runs_loop tables pending current (suc skip) (b ∷ rest) =
    runs_loop tables (pending ++ b ∷ []) current skip rest
runs_loop tables pending current zero (b ∷ rest) =
    let rune = decode_rune (b ∷ rest) in
    let kind = classify tables b rune in
    elim (boundary current kind) [
      | true ↦
          record { bytes = pending; is_space = current_is_space current }
          ∷ runs_loop tables (b ∷ []) (some kind) (rune.size - 1) rest
      | false ↦ runs_loop tables (pending ++ b ∷ []) (some kind) (rune.size - 1) rest
    ]

pub lexical_runs : Tables → Bytes → List LexicalRun
unfolding runs_loop
lexical_runs tables text = runs_loop tables [] none 0 text

-- `for len(value) > maxBPEChunkBytes`; each round takes 64 bytes, so fuel above the length is
-- enough.
split_loop : ℕ → List Bytes → Bytes → List Bytes
split_loop zero chunks value = chunks
split_loop (suc fuel) chunks value = elim (ltb max_bpe_chunk_bytes (length value)) [
  | true ↦
      split_loop fuel (chunks ++ take max_bpe_chunk_bytes value ∷ [])
        (drop max_bpe_chunk_bytes value)
  | false ↦ if ltb 0 (length value) then chunks ++ value ∷ [] else chunks
]

unfoldable pub append_split_chunks : List Bytes → Bytes → List Bytes
unfolding split_loop
append_split_chunks chunks value = split_loop (suc (length value)) chunks value

-- The loop over the runs, with the whitespace and the chunks so far.
pub chunks_loop : List LexicalRun → Bytes → List Bytes → List Bytes
chunks_loop [] whitespace chunks =
    if ltb 0 (length whitespace) then append_split_chunks chunks whitespace else chunks
chunks_loop (run ∷ runs) whitespace chunks = elim run.is_space [
  | true ↦ chunks_loop runs (whitespace ++ run.bytes) chunks
  | false ↦ chunks_loop runs [] (append_split_chunks chunks (whitespace ++ run.bytes))
]

unfoldable pub byte_bpe_chunks : Tables → Bytes → List Bytes
unfolding lexical_runs chunks_loop
byte_bpe_chunks tables text = chunks_loop (lexical_runs tables text) [] []
