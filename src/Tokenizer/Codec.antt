-- ===== src/Tokenizer/Codec.antt =====
-- `bpeCodec` of internal/tokenizer/trained.go: how `Artifact.Codec` builds it, `Encode`, `Count`
-- and `Decode`. The codec of a legacy artifact is in waldo.Tokenizer.Legacy.
pub mod Build
pub mod RoundTrip
pub mod Normal
pub mod Bounds
use waldo.Base.{
  ℕ, zero, suc, ◌+◌, Bool, true, false, ◌&&◌, Option, none, some, List, [], ◌∷◌, ◌++◌, map, ltb,
  leb, ◌==◌, if◌then◌else◌, length, get_or, set, replicate,
}
use waldo.Base.Bytes.{Bytes, codes}
use waldo.Tokenizer.Utf8.{Tables}
use waldo.Tokenizer.Chunks.{byte_bpe_chunks}
use waldo.Tokenizer.Merge.{Pair, PairMap, merge_pair, find, put}
use waldo.Tokenizer.Artifact.{Artifact, Merge}

pub record BpeCodec : Type 0 where
  pub name : Bytes
  pub ranks : PairMap
  pub token_bytes : List Bytes

-- `for value := 0; value < 256; value++`, with the rounds left first.
unfoldable pub byte_tokens : ℕ → ℕ → List Bytes → List Bytes
byte_tokens zero value tokens = tokens
byte_tokens (suc rounds) value tokens =
    byte_tokens rounds (value + 1) (set tokens (value + 3) (value ∷ []))

-- The loop over the merges.
unfoldable pub load_merges : ℕ → List Merge → PairMap → List Bytes → PairMap × List Bytes
load_merges index [] ranks tokens = (ranks, tokens)
load_merges index (merge ∷ merges) ranks tokens =
    load_merges (index + 1) merges (put ranks merge index)
      (set tokens (259 + index) (get_or tokens merge.left [] ++ get_or tokens merge.right []))

-- `Artifact.Codec` behind its checks, for an artifact of schema 2.
unfoldable pub build : Artifact → BpeCodec
build artifact =
    let loaded =
      load_merges 0 artifact.merges []
        (byte_tokens 256 0 (replicate artifact.vocabulary_size [])) in
    record {
      name = artifact.name ++ codes "@" ++ artifact.revision;
      ranks = loaded.0;
      token_bytes = loaded.1;
    }

pub record Best : Type 0 where
  pub rank : ℕ
  pub pair : Pair

-- The body of the search for the pair of least rank.
unfoldable pub improve : PairMap → Pair → Best → Best
improve ranks value best = elim (find ranks value) [
  | none ↦ best
  | some rank ↦ if ltb rank best.rank then record { rank = rank; pair = value } else best
]

unfoldable pub best_loop : PairMap → List ℕ → Best → Best
best_loop ranks [] best = best
best_loop ranks (x ∷ []) best = best
best_loop ranks (x ∷ y ∷ rest) best =
    best_loop ranks (y ∷ rest) (improve ranks (record { left = x; right = y }) best)

unfoldable pub best_pair : PairMap → List ℕ → Best
best_pair ranks symbols =
    best_loop ranks symbols
      (record { rank = length ranks + 1; pair = record { left = 0; right = 0 } })

-- The loop of `Encode` over one chunk. A merge makes the symbols fewer, so their number is enough
-- fuel.
unfoldable pub merge_loop : ℕ → PairMap → List ℕ → List ℕ
merge_loop zero ranks symbols = symbols
merge_loop (suc fuel) ranks symbols =
    let best = best_pair ranks symbols in
    elim (ltb (length ranks) best.rank) [
      | true ↦ symbols
      | false ↦ merge_loop fuel ranks (merge_pair symbols best.pair (259 + best.rank))
    ]

unfoldable pub encode_chunk : PairMap → Bytes → List ℕ
encode_chunk ranks chunk = merge_loop (length chunk) ranks (map (λ value. value + 3) chunk)

pub encode_chunks : PairMap → List Bytes → List ℕ → List ℕ
encode_chunks ranks [] result = result
encode_chunks ranks (chunk ∷ chunks) result =
    encode_chunks ranks chunks (result ++ encode_chunk ranks chunk)

-- `Encode`
unfoldable pub encode : Tables → BpeCodec → Bytes → List ℕ
encode tables codec text = encode_chunks codec.ranks (byte_bpe_chunks tables text) []

-- `Count`
pub count : Tables → BpeCodec → Bytes → ℕ
count tables codec text = length (encode tables codec text)

pub decode_loop : List Bytes → List ℕ → Bytes → Bytes
decode_loop token_bytes [] output = output
decode_loop token_bytes (token ∷ tokens) output = decode_loop token_bytes tokens (
    if leb 3 token && ltb token (length token_bytes)
    then output ++ get_or token_bytes token []
    else output)

-- `Decode`
unfoldable pub decode : BpeCodec → List ℕ → Bytes
decode codec tokens = decode_loop codec.token_bytes tokens []
