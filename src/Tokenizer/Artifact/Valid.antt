-- ===== src/Tokenizer/Artifact/Valid.antt =====
-- The form of an artifact, for `Artifact.Validate` of internal/tokenizer/trained.go.
use waldo.Base.{
  ℕ, ◌+◌, ◌≤◌, ◌<◌, ◌≡◌, refl, ◌↔◌, ◌⊎◌, inl, inr, true, false, ◌&&◌, some, List, [], ◌∷◌, arith,
  ◌==◌, length, any, Bool-cases, Option-cases,
}
use waldo.Base.Bytes.{Bytes, bytes_eq, bytes_eq_iff}
use waldo.Base.Results.{ok}
use waldo.Tokenizer.Chunks.{max_bpe_chunk_bytes}
use waldo.Tokenizer.Merge.{pair_eq}
use waldo.Tokenizer.Artifact.{
  Artifact, Merge, Encodings, trained_kind, trained_name, legacy_trained_name, artifact_revision,
  check_merges, check_pieces, check_revision, identity_wrong, check_schema, validate,
}

-- Each merge refers to byte symbols or to symbols of earlier merges.
abbrev pub InOrder : ℕ → List Merge → Type 0
InOrder index [] = Unit {0}
InOrder index (merge ∷ merges) =
    ((3 ≤ merge.left)
      × (3 ≤ merge.right)
      × (merge.left < 259 + index)
      × (merge.right < 259 + index))
    × InOrder (index + 1) merges

-- No merge stands twice, nor among those seen.
abbrev pub AreNew : List Merge → List Merge → Type 0
AreNew seen [] = Unit {0}
AreNew seen (merge ∷ merges) = (any (pair_eq merge) seen ≡ false) × AreNew (merge ∷ seen) merges

pub check_merges_sound :
    (merges : List Merge) (index : ℕ) (seen : List Merge)
    → check_merges index merges seen ≡ ok tt
    → InOrder index merges × AreNew seen merges
unfolding check_merges
check_merges_sound [] index seen h = (tt, tt)
check_merges_sound (merge ∷ merges) index seen h =
    ground (arith, check_merges_sound merges (index + 1) (merge ∷ seen))

check_merges_complete :
    (merges : List Merge) (index : ℕ) (seen : List Merge)
    → InOrder index merges
    → AreNew seen merges
    → check_merges index merges seen ≡ ok tt
unfolding check_merges
check_merges_complete [] index seen h k = refl
check_merges_complete (merge ∷ merges) index seen h k =
    ground (arith, check_merges_complete merges (index + 1) (merge ∷ seen) h.1 k.1)

-- Each piece decodes to 2 to 64 bytes, and not to those of an earlier piece.
abbrev pub ArePieces : Encodings → List Bytes → List Bytes → Type 0
ArePieces env seen [] = Unit {0}
ArePieces env seen (encoded ∷ pieces) =
    (decoded : Bytes) × (env.decode_base64 encoded ≡ some decoded)
    × (2 ≤ length decoded)
    × (length decoded ≤ max_bpe_chunk_bytes)
    × (any (bytes_eq decoded) seen ≡ false)
    × ArePieces env (decoded ∷ seen) pieces

pub check_pieces_sound :
    (env : Encodings) (pieces seen : List Bytes)
    → check_pieces env pieces seen ≡ ok tt
    → ArePieces env seen pieces
unfolding check_pieces
check_pieces_sound env [] seen h = tt
check_pieces_sound env (encoded ∷ pieces) seen h = elim (Option-cases (env.decode_base64 encoded)) [
  | inl e ↦ absurd (ground arith)
  | inr (decoded, e) ↦ (
    decoded,
    e,
    ground arith,
    ground arith,
    ground arith,
    check_pieces_sound env pieces (decoded ∷ seen) (ground arith),
  )
]

check_pieces_complete :
    (env : Encodings) (pieces seen : List Bytes)
    → ArePieces env seen pieces
    → check_pieces env pieces seen ≡ ok tt
unfolding check_pieces
check_pieces_complete env [] seen h = refl
check_pieces_complete env (encoded ∷ pieces) seen (decoded, e, low, high, new, rest) =
    ground (arith, check_pieces_complete env pieces (decoded ∷ seen) rest)

-- The form of an artifact of schema 2, and of the legacy schema 1.
pub record IsTrained (artifact : Artifact) : Type 0 where
  pub schema : artifact.schema ≡ 2
  pub name : artifact.name ≡ trained_name
  pub no_pieces : length artifact.pieces ≡ 0
  pub size : artifact.vocabulary_size ≡ 259 + length artifact.merges
  pub ordered : InOrder 0 artifact.merges
  pub distinct : AreNew [] artifact.merges

pub record IsLegacy (env : Encodings) (artifact : Artifact) : Type 0 where
  pub schema : artifact.schema ≡ 1
  pub name : artifact.name ≡ legacy_trained_name
  pub no_merges : length artifact.merges ≡ 0
  pub size : artifact.vocabulary_size ≡ 259 + length artifact.pieces
  pub pieces : ArePieces env [] artifact.pieces

pub record IsIdentified (env : Encodings) (artifact : Artifact) : Type 0 where
  pub kind : artifact.kind ≡ trained_kind
  pub pad : artifact.pad_id ≡ 0
  pub bos : artifact.bos_id ≡ 1
  pub eos : artifact.eos_id ≡ 2
  pub input_digest : length artifact.training_input_sha256 ≡ 64
  pub corpus_digest : length artifact.corpus_bom_sha256 ≡ 64
  pub not_empty : 1 ≤ artifact.training_bytes
  pub pinned : artifact_revision env artifact ≡ some artifact.revision

check_schema_sound :
    (env : Encodings) (artifact : Artifact)
    → check_schema env artifact ≡ ok tt
    → IsTrained artifact ⊎ IsLegacy env artifact
unfolding check_schema
check_schema_sound env artifact h =
    elim (Bool-cases (artifact.schema == 2 && bytes_eq artifact.name trained_name)) [
      | inl current ↦ inl (trained current)
      | inr other ↦ inr (legacy other)
    ]
  where
    trained :
        (artifact.schema == 2 && bytes_eq artifact.name trained_name) ≡ true → IsTrained artifact
    trained current =
        ground
          (arith, bytes_eq_iff artifact.name trained_name, check_merges_sound artifact.merges 0 [])

    legacy :
        (artifact.schema == 2 && bytes_eq artifact.name trained_name) ≡ false
        → IsLegacy env artifact
    legacy other = ground (
      arith,
      bytes_eq_iff artifact.name legacy_trained_name,
      check_pieces_sound env artifact.pieces [],
    )

check_schema_complete :
    (env : Encodings) (artifact : Artifact)
    → IsTrained artifact ⊎ IsLegacy env artifact
    → check_schema env artifact ≡ ok tt
unfolding check_schema
check_schema_complete env artifact (inl t) = ground (
  arith,
  bytes_eq_iff artifact.name trained_name,
  check_merges_complete artifact.merges 0 [] t.ordered t.distinct,
)
check_schema_complete env artifact (inr l) = ground (
  arith,
  bytes_eq_iff artifact.name legacy_trained_name,
  check_pieces_complete env artifact.pieces [] l.pieces,
)

identity_sound :
    (env : Encodings) (artifact : Artifact)
    → identity_wrong artifact ≡ false
    → check_revision env artifact ≡ ok tt
    → IsIdentified env artifact
unfolding identity_wrong check_revision
identity_sound env artifact h k = elim (Option-cases (artifact_revision env artifact)) [
  | inl missing ↦ absurd (ground arith)
  | inr (want, e) ↦
      ground (arith, bytes_eq_iff artifact.kind trained_kind, bytes_eq_iff artifact.revision want)
]

identity_complete :
    (env : Encodings) (artifact : Artifact)
    → IsIdentified env artifact
    → (identity_wrong artifact ≡ false) × (check_revision env artifact ≡ ok tt)
unfolding identity_wrong check_revision
identity_complete env artifact h = ground (
  arith,
  bytes_eq_iff artifact.kind trained_kind,
  bytes_eq_iff artifact.revision artifact.revision,
)

validate_parts :
    (env : Encodings) (artifact : Artifact)
    → validate env artifact ≡ ok tt
    → (identity_wrong artifact ≡ false)
      × (check_schema env artifact ≡ ok tt)
      × (check_revision env artifact ≡ ok tt)
unfolding validate
validate_parts env artifact h = ground arith

-- `Validate` accepts exactly the artifacts with the right identity and revision that are trained
-- artifacts of schema 2 or legacy artifacts of schema 1.
pub validate_iff :
    (env : Encodings) (artifact : Artifact)
    → (validate env artifact ≡ ok tt)
      ↔ (IsIdentified env artifact × (IsTrained artifact ⊎ IsLegacy env artifact))
validate_iff env artifact = (sound, complete)
  where
    sound :
        validate env artifact ≡ ok tt
        → IsIdentified env artifact × (IsTrained artifact ⊎ IsLegacy env artifact)
    sound h =
        let (a, b, c) = validate_parts env artifact h in
        (identity_sound env artifact a c, check_schema_sound env artifact b)

    complete :
        IsIdentified env artifact × (IsTrained artifact ⊎ IsLegacy env artifact)
        → validate env artifact ≡ ok tt
    complete h =
        let (a, c) = identity_complete env artifact h.0 in
        unfold validate in simp (a, check_schema_complete env artifact h.1, c)
