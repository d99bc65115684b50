-- ===== src/Tokenizer/Codecs.antt =====
-- `Artifact.Codec` of internal/tokenizer/trained.go: the codec of an artifact of either schema.
pub mod RoundTrip
use waldo.Base.{ℕ, Bool, true, false, List, ◌==◌}
use waldo.Base.Bytes.{Bytes}
use waldo.Base.Results.{Result, ok, err, ◌>>=◌, ◌>>◌}
use waldo.Tokenizer.Utf8.{Tables}
use waldo.Tokenizer.Artifact.{Artifact, ArtifactError, Encodings, validate}
use waldo.Tokenizer.Codec as Bpe
use waldo.Tokenizer.Codec.{BpeCodec}
use waldo.Tokenizer.Legacy
use waldo.Tokenizer.Legacy.{LegacyCodec}

-- The implementations of the interface `Codec` of internal/tokenizer that this file has.
pub data Codec : Type 0 where
  bpe : BpeCodec → Codec
  legacy : LegacyCodec → Codec

-- `Artifact.Codec`
unfoldable pub codec : Encodings → Artifact → Result ArtifactError Codec
codec env artifact = do
  validate env artifact
  elim (artifact.schema == 1) [
    | true ↦ ok (legacy (Legacy.new_legacy_codec env artifact))
    | false ↦ ok (bpe (Bpe.build artifact))
  ]

-- The methods `Encode`, `Decode` and `Count` of the interface.
unfoldable pub encode : Tables → Codec → Bytes → List ℕ
encode tables (bpe c) text = Bpe.encode tables c text
encode tables (legacy c) text = Legacy.encode c text

unfoldable pub decode : Encodings → Codec → List ℕ → Bytes
decode env (bpe c) tokens = Bpe.decode c tokens
decode env (legacy c) tokens = Legacy.decode env c tokens

unfoldable pub count : Tables → Codec → Bytes → ℕ
count tables (bpe c) text = Bpe.count tables c text
count tables (legacy c) text = Legacy.count c text
