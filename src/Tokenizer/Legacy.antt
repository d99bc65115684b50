-- ===== src/Tokenizer/Legacy.antt =====
-- `legacyCodec` of internal/tokenizer/trained.go: greedy matching of the pieces of a schema 1
-- artifact.
pub mod RoundTrip
use waldo.Base.{
  ℕ, zero, suc, ◌+◌, ◌-◌, Bool, true, false, ◌&&◌, Option, none, some, List, [], ◌∷◌, ◌++◌, ltb,
  leb, ◌==◌, if◌then◌else◌, length, get_or, take, drop,
}
use waldo.Base.Bytes.{Bytes, codes, bytes_eq}
use waldo.Tokenizer.Artifact.{Artifact, Encodings}

pub record LegacyPiece : Type 0 where
  pub bytes : Bytes
  pub id : ℕ

-- `map[byte][]legacyPiece`; a missing key has no pieces.
abbrev pub PieceMap : Type 0
PieceMap = ℕ → List LegacyPiece

pub record LegacyCodec : Type 0 where
  pub name : Bytes
  pub pieces : List Bytes
  pub by_first : PieceMap

-- The decoded piece, and nil where the decoding fails.
pub decoded_piece : Encodings → Bytes → Bytes
decoded_piece env encoded = elim (env.decode_base64 encoded) [ none ↦ [] | some piece ↦ piece ]

pub add_piece : ℕ → LegacyPiece → PieceMap → PieceMap
add_piece first piece table b = if b == first then table b ++ piece ∷ [] else table b

-- The loop over the pieces; `piece[0]` exists, since `Validate` wants two bytes.
pub load_pieces : Encodings → ℕ → List Bytes → PieceMap → PieceMap
load_pieces env index [] table = table
load_pieces env index (encoded ∷ pieces) table =
    let piece = decoded_piece env encoded in
    load_pieces env (index + 1) pieces
      (add_piece (get_or piece 0 0) (record { bytes = piece; id = 259 + index }) table)

-- `sort.Slice` by falling length.
pub insert_piece : LegacyPiece → List LegacyPiece → List LegacyPiece
insert_piece p [] = p ∷ []
insert_piece p (q ∷ qs) =
    if ltb (length p.bytes) (length q.bytes) then q ∷ insert_piece p qs else p ∷ q ∷ qs

pub sort_pieces : List LegacyPiece → List LegacyPiece
unfolding insert_piece
sort_pieces [] = []
sort_pieces (p ∷ ps) = insert_piece p (sort_pieces ps)

-- `newLegacyCodec`
pub new_legacy_codec : Encodings → Artifact → LegacyCodec
new_legacy_codec env artifact = record {
  name = artifact.name ++ codes "@" ++ artifact.revision;
  pieces = artifact.pieces;
  by_first = λ b. sort_pieces (load_pieces env 0 artifact.pieces (λ _. []) b);
}

pub match_piece : List LegacyPiece → Bytes → Option LegacyPiece
match_piece [] input = none
match_piece (piece ∷ pieces) input =
    if leb (length piece.bytes) (length input)
      && bytes_eq (take (length piece.bytes) input) piece.bytes
    then some piece
    else match_piece pieces input

-- `for len(input) > 0`; each round takes a byte or more, so the length is enough fuel.
pub legacy_loop : ℕ → PieceMap → Bytes → List ℕ → List ℕ
legacy_loop zero table input result = result
legacy_loop (suc fuel) table [] result = result
legacy_loop (suc fuel) table (b ∷ input) result = elim (match_piece (table b) (b ∷ input)) [
  | some piece ↦
      legacy_loop fuel table (drop (length piece.bytes) (b ∷ input)) (result ++ piece.id ∷ [])
  | none ↦ legacy_loop fuel table input (result ++ (b + 3) ∷ [])
]

-- `Encode`
unfoldable pub encode : LegacyCodec → Bytes → List ℕ
encode codec text = legacy_loop (length text) codec.by_first text []

-- `Count`
unfoldable pub count : LegacyCodec → Bytes → ℕ
count codec text = length (encode codec text)

-- What `Decode` appends for a token.
pub legacy_bytes : Encodings → List Bytes → ℕ → Bytes
legacy_bytes env pieces token =
    if leb 3 token && leb token 258
    then (token - 3) ∷ []
    else if leb 259 token && ltb (token - 259) (length pieces)
    then decoded_piece env (get_or pieces (token - 259) [])
    else []

pub legacy_decode_loop : Encodings → List Bytes → List ℕ → Bytes → Bytes
legacy_decode_loop env pieces [] output = output
legacy_decode_loop env pieces (token ∷ tokens) output =
    legacy_decode_loop env pieces tokens (output ++ legacy_bytes env pieces token)

-- `Decode`
unfoldable pub decode : Encodings → LegacyCodec → List ℕ → Bytes
decode env codec tokens = legacy_decode_loop env codec.pieces tokens []
