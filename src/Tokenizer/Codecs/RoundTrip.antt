-- ===== src/Tokenizer/Codecs/RoundTrip.antt =====
-- `Encode` and then `Decode` of what `Artifact.Codec` of internal/tokenizer/trained.go returns.
use waldo.Base.{◌≡◌, ◌⊎◌, inl, inr, arith}
use waldo.Base.Bytes.{Bytes, IsBytes}
use waldo.Base.Results.{ok, bind_ok}
use waldo.Tokenizer.Utf8.{Tables}
use waldo.Tokenizer.Artifact.{Artifact, Encodings, validate}
use waldo.Tokenizer.Artifact.Valid.{IsTrained, IsLegacy, validate_iff}
use waldo.Tokenizer.Codec as Bpe
use waldo.Tokenizer.Codec.RoundTrip as BpeRoundTrip
use waldo.Tokenizer.Legacy
use waldo.Tokenizer.Legacy.RoundTrip as LegacyRoundTrip
use waldo.Tokenizer.Codecs.{Codec, bpe, legacy, codec, encode, decode}

codec-cases :
    (env : Encodings) (artifact : Artifact) (c : Codec)
    → codec env artifact ≡ ok c
    → (IsTrained artifact × (c ≡ bpe (Bpe.build artifact)))
      ⊎ (IsLegacy env artifact × (c ≡ legacy (Legacy.new_legacy_codec env artifact)))
unfolding codec
codec-cases env artifact c e =
    let (_, valid, chosen) = bind_ok (validate env artifact) _ e in
    elim ((validate_iff env artifact).0 valid).1 [
      | inl t ↦ inl (t, ground (arith, t.schema))
      | inr l ↦ inr (l, ground (arith, l.schema))
    ]

-- Whenever `Artifact.Codec` returns a codec, whichever the schema of the artifact, `Decode` gives
-- back every text of bytes from the tokens of `Encode`.
pub decode-encode :
    (tables : Tables) (env : Encodings) (artifact : Artifact) (c : Codec) (text : Bytes)
    → codec env artifact ≡ ok c
    → IsBytes text
    → decode env c (encode tables c text) ≡ text
decode-encode tables env artifact c text made bytes = elim (codec-cases env artifact c made) [
  | inl (t, e) ↦ rw e (
      unfold encode decode in
      BpeRoundTrip.decode-encode tables artifact text (t.ordered, t.size) bytes)
  | inr (l, e) ↦
      rw e (unfold encode decode in LegacyRoundTrip.decode-encode env artifact text l bytes)
]
