-- ===== src/Tokenizer/Legacy/RoundTrip.antt =====
-- `Encode` and then `Decode` of `legacyCodec`, internal/tokenizer/trained.go.
use waldo.Base.{
  ℕ, zero, suc, ◌+◌, ◌≤◌, ◌<◌, ◌≡◌, refl, sym, ◌∙◌, ap, inl, inr, some, List, [], ◌∷◌, ◌++◌,
  append-nil, append_assoc, arith, length, get_or, take, drop, take-append-drop, length-drop, All,
  All-append, All-drop, Bool-cases, Option-cases, ltb, ◌==◌,
}
use waldo.Base.Bytes.{Bytes, IsBytes, bytes_eq_sound}
use waldo.Tokenizer.Artifact.{Artifact, Encodings}
use waldo.Tokenizer.Artifact.Valid.{ArePieces, IsLegacy}
use waldo.Tokenizer.Legacy.{
  LegacyPiece, PieceMap, decoded_piece, add_piece, load_pieces, insert_piece, sort_pieces,
  new_legacy_codec, match_piece, legacy_loop, encode, legacy_bytes, legacy_decode_loop, decode,
}

module _ (env : Encodings) (pieces : List Bytes) where
  -- A piece of the table stands for the bytes that its id decodes to.
  abbrev IsKnown : LegacyPiece → Type 0
  IsKnown q = (2 ≤ length q.bytes) × (legacy_bytes env pieces q.id ≡ q.bytes)

  add_piece-IsKnown :
      (first : ℕ) (q : LegacyPiece) (table : PieceMap)
      → IsKnown q
      → ((b : ℕ) → All IsKnown (table b))
      → (b : ℕ) → All IsKnown (add_piece first q table b)
  unfolding add_piece
  add_piece-IsKnown first q table known h b = elim (Bool-cases (b == first)) [
    | inl e ↦ rw (e, All) (All-append IsKnown (table b) (q ∷ []) (h b) (known, tt))
    | inr e ↦ rw (e, All) (h b)
  ]

  legacy_bytes_piece :
      (index : ℕ)
      → index < length pieces
      → legacy_bytes env pieces (259 + index) ≡ decoded_piece env (get_or pieces index [])
  unfolding legacy_bytes
  legacy_bytes_piece index h = ground arith

  load_pieces-IsKnown :
      (rest seen : List Bytes) (index : ℕ) (table : PieceMap)
      → ArePieces env seen rest
      → index + length rest ≡ length pieces
      → ((j : ℕ) → get_or rest j [] ≡ get_or pieces (index + j) [])
      → ((b : ℕ) → All IsKnown (table b))
      → (b : ℕ) → All IsKnown (load_pieces env index rest table b)
  unfolding load_pieces
  load_pieces-IsKnown [] seen index table valid e suffix h b = h b
  load_pieces-IsKnown (encoded ∷ rest) seen index table (decoded, is_decoded, low, high, new, valid)
        e suffix h b =
      load_pieces-IsKnown rest (decoded ∷ seen) (index + 1) _ valid (omega arith)
        (λ j. suffix (suc j) ∙ ap (λ n. get_or pieces n []) (omega arith))
        (add_piece-IsKnown _ _ table
          (piece_size, legacy_bytes_piece index (omega arith) ∙ ap (decoded_piece env) here) h)
        b
    where
      piece_size : 2 ≤ length (decoded_piece env encoded)
      piece_size = unfold decoded_piece in rw (is_decoded, decoded_piece) low

      here : get_or pieces index [] ≡ encoded
      here = ap (λ n. get_or pieces n []) (omega arith) ∙ sym (suffix 0)

  insert_piece-IsKnown :
      (p : LegacyPiece) (qs : List LegacyPiece)
      → IsKnown p
      → All IsKnown qs
      → All IsKnown (insert_piece p qs)
  unfolding insert_piece
  insert_piece-IsKnown p [] known h = (known, tt)
  insert_piece-IsKnown p (q ∷ qs) known h =
      elim (Bool-cases (ltb (length p.bytes) (length q.bytes))) [
        | inl e ↦ rw (e, All) (h.0, insert_piece-IsKnown p qs known h.1)
        | inr e ↦ rw (e, All) (known, h)
      ]

  sort_pieces-IsKnown : (qs : List LegacyPiece) → All IsKnown qs → All IsKnown (sort_pieces qs)
  unfolding sort_pieces
  sort_pieces-IsKnown [] h = tt
  sort_pieces-IsKnown (q ∷ qs) h =
      insert_piece-IsKnown q (sort_pieces qs) h.0 (sort_pieces-IsKnown qs h.1)

  match_piece_sound :
      (qs : List LegacyPiece) (input : Bytes) (q : LegacyPiece)
      → All IsKnown qs
      → match_piece qs input ≡ some q
      → IsKnown q × (take (length q.bytes) input ≡ q.bytes)
  unfolding match_piece
  match_piece_sound [] input q h e = absurd (ground arith)
  match_piece_sound (p ∷ qs) input q h e = ground (
    arith,
    bytes_eq_sound (take (length p.bytes) input) p.bytes,
    match_piece_sound qs input q h.1,
  )

  abbrev spell : List ℕ → Bytes
  spell [] = []
  spell (token ∷ tokens) = legacy_bytes env pieces token ++ spell tokens

  spell-append : (xs ys : List ℕ) → spell (xs ++ ys) ≡ spell xs ++ spell ys
  spell-append [] ys = refl
  spell-append (x ∷ xs) ys = simp (spell-append xs ys, append_assoc)

  decode_loop-spell :
      (tokens : List ℕ) (output : Bytes)
      → legacy_decode_loop env pieces tokens output ≡ output ++ spell tokens
  unfolding legacy_decode_loop
  decode_loop-spell [] output = sym (append-nil output)
  decode_loop-spell (token ∷ tokens) output = simp (decode_loop-spell tokens, append_assoc)

  legacy_bytes_byte : (b : ℕ) → b < 256 → legacy_bytes env pieces (b + 3) ≡ b ∷ []
  unfolding legacy_bytes
  legacy_bytes_byte b h = ground arith

  spell-legacy_loop :
      (table : PieceMap) (known : (b : ℕ) → All IsKnown (table b)) (fuel : ℕ) (input : Bytes)
      (result : List ℕ)
      → length input ≤ fuel
      → IsBytes input
      → spell (legacy_loop fuel table input result) ≡ spell result ++ input
  unfolding legacy_loop
  spell-legacy_loop table known zero [] result h bytes = sym (append-nil (spell result))
  spell-legacy_loop table known zero (b ∷ input) result h bytes = absurd (omega arith)
  spell-legacy_loop table known (suc fuel) [] result h bytes = sym (append-nil (spell result))
  spell-legacy_loop table known (suc fuel) (b ∷ input) result h bytes =
      elim (Option-cases (match_piece (table b) (b ∷ input))) [
        | inl e ↦
            rw (e, spell)
              (spell-legacy_loop table known fuel input (result ++ (b + 3) ∷ []) (omega arith)
                  bytes.1
                ∙ byte_step)
        | inr (q, e) ↦
            let (is_known, prefix) = match_piece_sound (table b) (b ∷ input) q (known b) e in
            rw (e, spell)
              (spell-legacy_loop table known fuel (drop (length q.bytes) (b ∷ input))
                  (result ++ q.id ∷ [])
                  (omega (arith, length-drop (length q.bytes) (b ∷ input), is_known.0))
                  (All-drop (λ c. c < 256) (length q.bytes) (b ∷ input) bytes)
                ∙ piece_step q is_known.1 prefix)
      ]
    where
      byte_step : spell (result ++ (b + 3) ∷ []) ++ input ≡ spell result ++ b ∷ input
      byte_step = simp (spell-append, legacy_bytes_byte b bytes.0, append-nil, append_assoc)

      piece_step :
          (q : LegacyPiece)
          → legacy_bytes env pieces q.id ≡ q.bytes
          → take (length q.bytes) (b ∷ input) ≡ q.bytes
          → spell (result ++ q.id ∷ []) ++ drop (length q.bytes) (b ∷ input)
            ≡ spell result ++ b ∷ input
      piece_step q decodes prefix =
          simp (spell-append, append-nil, append_assoc)
            (ap (λ (xs : Bytes). spell result ++ (xs ++ drop (length q.bytes) (b ∷ input)))
                (decodes ∙ sym prefix)
              ∙ ap (λ (xs : Bytes). spell result ++ xs)
                  (take-append-drop (length q.bytes) (b ∷ input)))

-- For every legacy artifact that `Validate` accepts and every text of bytes, decoding the encoded
-- text gives the text back.
pub decode-encode :
    (env : Encodings) (artifact : Artifact) (text : Bytes)
    → IsLegacy env artifact
    → IsBytes text
    → decode env (new_legacy_codec env artifact) (encode (new_legacy_codec env artifact) text)
      ≡ text
unfolding decode encode new_legacy_codec
decode-encode env artifact text legacy bytes =
    decode_loop-spell env artifact.pieces _ []
    ∙ spell-legacy_loop env artifact.pieces _ known (length text) text [] (omega arith) bytes
  where
    known :
        (b : ℕ)
        → All
            (IsKnown env artifact.pieces)
            (sort_pieces (load_pieces env 0 artifact.pieces (λ _. []) b))
    known b = sort_pieces-IsKnown env artifact.pieces _ (
        load_pieces-IsKnown env artifact.pieces artifact.pieces [] 0 (λ _. []) legacy.pieces
          (omega arith) (λ j. ap (λ n. get_or artifact.pieces n []) (omega arith)) (λ _. tt) b)
