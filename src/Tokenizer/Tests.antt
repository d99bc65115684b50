-- ===== src/Tokenizer/Tests.antt =====
-- The tokenizer on small inputs, and its theorems at them.
use waldo.Base.{
  ◌≤◌, ◌≡◌, ◌↔◌, ◌⊎◌, refl, true, false, none, some, [], ◌∷◌, arith, ltb, leb, ◌==◌, concat,
  replicate, All,
}
use waldo.Base.Bytes.{codes, bytes_eq}
use waldo.Base.Results.{ok, err}
use waldo.Tokenizer.Utf8.{Tables, decode_rune}
use waldo.Tokenizer.Chunks.{
  byte_bpe_chunks, runs_loop, append_split_chunks, classify, boundary, current_is_space, kind_eq,
}
use waldo.Tokenizer.Chunks.Concat.{IsChunk, concat-byte_bpe_chunks, byte_bpe_chunks-IsChunk}
use waldo.Tokenizer.Merge.{Pair, find, put, find_or_zero, merge_pair, sequence_pair_counts}
use waldo.Tokenizer.Merge.Laws.{occurrences, sequence_pair_counts-occurrences}
use waldo.Tokenizer.Artifact.{
  Artifact, merge_at, Encodings, validate, identity_wrong, check_schema, check_merges,
  check_revision, artifact_revision, trained_kind, trained_name, is_trained_name,
}
use waldo.Tokenizer.Artifact.Valid.{IsIdentified, IsTrained, IsLegacy, validate_iff}
use waldo.Tokenizer.Codec as Bpe
use waldo.Tokenizer.Codec.{
  byte_tokens, load_merges, build, best_loop, best_pair, improve, merge_loop, encode_chunk,
  encode_chunks,
}
use waldo.Tokenizer.Codec.Normal.{AllPairs, encode_chunk_normal}
use waldo.Tokenizer.Codec.Bounds.{InVocabulary, encode_bounds}
use waldo.Tokenizer.Codecs.{bpe, codec, encode, decode}
use waldo.Tokenizer.Codecs.RoundTrip.{decode-encode}

-- The ASCII part of the tables of Unicode.
abbrev ascii : Tables
ascii = record {
  is_letter = λ c. leb b'a' c;
  is_number = λ c. ltb c b':';
  is_space = λ c. c == b' ';
}

abbrev letters_only : Tables
letters_only = record {
  is_letter = λ c. leb b'a' c;
  is_number = λ c. false;
  is_space = λ c. c == b' ';
}

abbrev plain : Encodings
plain = record { decode_base64 = λ b. some b; json_sha256 = λ _. some (codes "00") }

abbrev ab : Pair
ab = record { left = 100; right = 101 }

abbrev sample : Artifact
sample = record {
  kind = trained_kind;
  schema = 2;
  name = trained_name;
  revision = codes "sha256:00";
  vocabulary_size = 261;
  pad_id = 0;
  bos_id = 1;
  eos_id = 2;
  training_input_sha256 = replicate 64 b'0';
  corpus_bom_sha256 = replicate 64 b'0';
  training_bytes = 7;
  merges = ab ∷ record { left = 259; right = 259 } ∷ [];
  pieces = [];
}

sample_chunks :
    byte_bpe_chunks letters_only (codes "ab  c,d ")
    ≡ codes "ab" ∷ codes "  c" ∷ codes "," ∷ codes "d" ∷ codes " " ∷ []
unfolding byte_bpe_chunks runs_loop append_split_chunks decode_rune classify boundary
    current_is_space kind_eq
sample_chunks = refl

sample_tokens : encode_chunk (build sample).ranks (codes "ababab") ≡ 260 ∷ 259 ∷ []
unfolding encode_chunk build byte_tokens load_merges put find merge_loop best_pair best_loop improve
    merge_pair
sample_tokens = refl

codec-sample : codec plain sample ≡ ok (bpe (build sample))
unfolding codec validate identity_wrong check_schema check_merges check_revision artifact_revision
    bytes_eq
codec-sample = refl

sample_valid : validate plain sample ≡ ok tt
unfolding validate identity_wrong check_schema check_merges check_revision artifact_revision
    bytes_eq
sample_valid = refl

sample_name : is_trained_name sample.name ≡ true
unfolding is_trained_name bytes_eq
sample_name = refl

-- A merge of a symbol that is not there yet is refused.
later_merge : check_merges 0 (record { left = 259; right = 100 } ∷ []) [] ≡ err (merge_at 0)
unfolding check_merges
later_merge = refl

decode-encode_example :
    decode plain (bpe (build sample)) (encode ascii (bpe (build sample)) (codes "abab ab"))
    ≡ codes "abab ab"
decode-encode_example =
    decode-encode ascii plain sample (bpe (build sample)) (codes "abab ab") codec-sample
      (omega arith)

validate_iff_example :
    (validate plain sample ≡ ok tt)
    ↔ (IsIdentified plain sample × (IsTrained sample ⊎ IsLegacy plain sample))
validate_iff_example = validate_iff plain sample

encode_chunk_normal_example :
    AllPairs
      (λ p. find (build sample).ranks p ≡ none)
      (encode_chunk (build sample).ranks (codes "ababab"))
encode_chunk_normal_example = encode_chunk_normal sample (codes "ababab") (refl, (refl, tt))

encode_bounds_example :
    All (InVocabulary 261) (Bpe.encode ascii (build sample) (codes "abab"))
    × (Bpe.count ascii (build sample) (codes "abab") ≤ 4)
encode_bounds_example = encode_bounds ascii sample (codes "abab") (omega arith) (omega arith)

concat-byte_bpe_chunks_example : concat (byte_bpe_chunks ascii (codes "a  b")) ≡ codes "a  b"
concat-byte_bpe_chunks_example = concat-byte_bpe_chunks ascii (codes "a  b")

byte_bpe_chunks-IsChunk_example : All IsChunk (byte_bpe_chunks ascii (codes "a  b"))
byte_bpe_chunks-IsChunk_example = byte_bpe_chunks-IsChunk ascii (codes "a  b")

sequence_pair_counts-occurrences_example :
    find_or_zero (sequence_pair_counts (100 ∷ 101 ∷ 100 ∷ 101 ∷ [])) ab
    ≡ occurrences ab (100 ∷ 101 ∷ 100 ∷ 101 ∷ [])
sequence_pair_counts-occurrences_example =
    sequence_pair_counts-occurrences (100 ∷ 101 ∷ 100 ∷ 101 ∷ []) ab
