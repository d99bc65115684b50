-- ===== src/Tokenizer/Artifact.antt =====
-- `Artifact` of internal/tokenizer/trained.go and its `Validate`.
pub mod Valid
use waldo.Base.{
  ℕ, ◌+◌, Bool, true, false, not, ◌&&◌, ◌||◌, Option, none, some, List, [], ◌∷◌, ◌++◌, ltb, leb,
  ◌==◌, if◌then◌else◌, length, any,
}
use waldo.Base.Bytes.{Bytes, codes, bytes_eq}
use waldo.Base.Results.{Result, ok, err, ◌>>=◌, ◌>>◌, reject_if}
use waldo.Tokenizer.Chunks.{max_bpe_chunk_bytes}
use waldo.Tokenizer.Merge.{Pair, pair_eq}

abbrev pub trained_kind : Bytes
trained_kind = codes "waldo-trained-tokenizer"

abbrev pub trained_name : Bytes
trained_name = codes "waldo/byte-bpe"

abbrev pub legacy_trained_name : Bytes
legacy_trained_name = codes "waldo/bytepiece"

-- A `Merge` has the fields of a `pair`.
abbrev pub Merge : Type 0
Merge = Pair

pub record Artifact : Type 0 where
  pub kind : Bytes
  pub schema : ℕ
  pub name : Bytes
  pub revision : Bytes
  pub vocabulary_size : ℕ
  pub pad_id : ℕ
  pub bos_id : ℕ
  pub eos_id : ℕ
  pub training_input_sha256 : Bytes
  pub corpus_bom_sha256 : Bytes
  pub training_bytes : ℕ
  pub merges : List Merge
  pub pieces : List Bytes

-- The encodings of Go's library: base64 with its errors, and the hexadecimal SHA-256 of the JSON of
-- an artifact, with the error of `json.Marshal`.
pub record Encodings : Type 0 where
  pub decode_base64 : Bytes → Option Bytes
  pub json_sha256 : Artifact → Option Bytes

pub data ArtifactError : Type 0 where
  identity : ArtifactError
  merge_at : ℕ → ArtifactError
  piece : ArtifactError
  revision_differs : ArtifactError

unfoldable pub is_trained_name : Bytes → Bool
is_trained_name name = bytes_eq name trained_name || bytes_eq name legacy_trained_name

-- `artifactRevision`
unfoldable pub artifact_revision : Encodings → Artifact → Option Bytes
artifact_revision env artifact = elim (env.json_sha256 (record artifact { revision = [] })) [
  | none ↦ none
  | some digest ↦ some (codes "sha256:" ++ digest)
]

-- The loop over the merges, with those seen so far.
unfoldable pub check_merges : ℕ → List Merge → List Merge → Result ArtifactError Unit
check_merges index [] seen = ok tt
check_merges index (merge ∷ merges) seen =
    let new_symbol = 259 + index in
    if ltb merge.left 3
      || ltb merge.right 3
      || leb new_symbol merge.left
      || leb new_symbol merge.right
      || any (pair_eq merge) seen
    then err (merge_at index)
    else check_merges (index + 1) merges (merge ∷ seen)

-- The loop over the legacy pieces, with the decoded pieces seen so far.
pub check_pieces : Encodings → List Bytes → List Bytes → Result ArtifactError Unit
check_pieces env [] seen = ok tt
check_pieces env (encoded ∷ pieces) seen = elim (env.decode_base64 encoded) [
  | none ↦ err piece
  | some decoded ↦
      if ltb (length decoded) 2
        || ltb max_bpe_chunk_bytes (length decoded)
        || any (bytes_eq decoded) seen
      then err piece
      else check_pieces env pieces (decoded ∷ seen)
]

unfoldable pub check_revision : Encodings → Artifact → Result ArtifactError Unit
check_revision env artifact = elim (artifact_revision env artifact) [
  | none ↦ err revision_differs
  | some want ↦ reject_if (not (bytes_eq artifact.revision want)) revision_differs
]

-- The first test of `Validate`.
unfoldable pub identity_wrong : Artifact → Bool
identity_wrong artifact =
    not (bytes_eq artifact.kind trained_kind)
    || not (artifact.pad_id == 0)
    || not (artifact.bos_id == 1)
    || not (artifact.eos_id == 2)
    || not (length artifact.training_input_sha256 == 64)
    || not (length artifact.corpus_bom_sha256 == 64)
    || ltb artifact.training_bytes 1

-- The `switch` of `Validate`.
unfoldable pub check_schema : Encodings → Artifact → Result ArtifactError Unit
check_schema env artifact =
    if artifact.schema == 2 && bytes_eq artifact.name trained_name
    then (do
      reject_if
          (not (length artifact.pieces == 0)
            || not (artifact.vocabulary_size == 259 + length artifact.merges))
          identity
      check_merges 0 artifact.merges [])
    else if artifact.schema == 1 && bytes_eq artifact.name legacy_trained_name
    then (do
      reject_if
          (not (length artifact.merges == 0)
            || not (artifact.vocabulary_size == 259 + length artifact.pieces))
          identity
      check_pieces env artifact.pieces [])
    else err identity

-- `Artifact.Validate`
unfoldable pub validate : Encodings → Artifact → Result ArtifactError Unit
validate env artifact = do
  reject_if (identity_wrong artifact) identity
  check_schema env artifact
  check_revision env artifact
