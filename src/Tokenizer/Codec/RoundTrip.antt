-- ===== src/Tokenizer/Codec/RoundTrip.antt =====
-- `Encode` and then `Decode` of `bpeCodec`, internal/tokenizer/trained.go.
use waldo.Base.{
  ℕ, zero, suc, ◌+◌, ◌≤◌, ◌<◌, ◌≡◌, refl, sym, ◌∙◌, ◌⊎◌, inl, inr, false, ◌&&◌, some, List, [], ◌∷◌,
  ◌++◌, map, append-nil, append_assoc, arith, tests, length, get_or, concat, All, All-concat,
  Bool-cases, Option-cases, ltb, leb, le→leb, lt→ltb, if◌then◌else◌,
}
use waldo.Base.Bytes.{Bytes, IsBytes}
use waldo.Tokenizer.Utf8.{Tables}
use waldo.Tokenizer.Chunks.{byte_bpe_chunks}
use waldo.Tokenizer.Chunks.Concat.{concat-byte_bpe_chunks}
use waldo.Tokenizer.Merge.{Pair, PairMap, find, merge_pair}
use waldo.Tokenizer.Artifact.{Artifact}
use waldo.Tokenizer.Codec.{
  Best, build, improve, best_loop, best_pair, merge_loop, encode_chunk, encode_chunks, encode,
  decode_loop, decode,
}
use waldo.Tokenizer.Codec.Build.{IsLoaded, HasTable, build-IsLoaded, length-build}

-- A best pair is one of the table with its rank, or none was found.
abbrev pub IsFound : PairMap → Best → Type 0
IsFound ranks best = (find ranks best.pair ≡ some best.rank) ⊎ (best.rank ≡ length ranks + 1)

improve-IsFound :
    (ranks : PairMap) (value : Pair) (best : Best)
    → IsFound ranks best
    → IsFound ranks (improve ranks value best)
unfolding improve
improve-IsFound ranks value best h = elim (Option-cases (find ranks value)) [
  | inl e ↦ rw (e, improve) h
  | inr (rank, e) ↦ elim (Bool-cases (ltb rank best.rank)) [
    | inl less ↦ rw (e, improve) (rw less (inl e))
    | inr more ↦ rw (e, improve) (rw more h)
  ]
]

best_loop-IsFound :
    (ranks : PairMap) (symbols : List ℕ) (best : Best)
    → IsFound ranks best
    → IsFound ranks (best_loop ranks symbols best)
unfolding best_loop
best_loop-IsFound ranks [] best h = h
best_loop-IsFound ranks (x ∷ []) best h = h
best_loop-IsFound ranks (x ∷ y ∷ rest) best h =
    best_loop-IsFound ranks (y ∷ rest) _ (improve-IsFound ranks _ best h)

-- A pair whose rank passes the test of `Encode` stands in the table with that rank.
pub find-best_pair :
    (ranks : PairMap) (symbols : List ℕ)
    → ltb (length ranks) (best_pair ranks symbols).rank ≡ false
    → find ranks (best_pair ranks symbols).pair ≡ some (best_pair ranks symbols).rank
unfolding best_pair
find-best_pair ranks symbols small =
    elim (best_loop-IsFound ranks symbols
      (record { rank = length ranks + 1; pair = record { left = 0; right = 0 } }) (inr refl)) [
        | inl e ↦ e
        | inr e ↦ absurd (omega tests)
      ]

-- What a token stands for in `Decode`.
piece : List Bytes → ℕ → Bytes
piece table token = if leb 3 token && ltb token (length table) then get_or table token [] else []

abbrev spell : List Bytes → List ℕ → Bytes
spell table [] = []
spell table (token ∷ tokens) = piece table token ++ spell table tokens

decode_loop-spell :
    (table : List Bytes) (tokens : List ℕ) (output : Bytes)
    → decode_loop table tokens output ≡ output ++ spell table tokens
unfolding decode_loop piece
decode_loop-spell table [] output = sym (append-nil output)
decode_loop-spell table (token ∷ tokens) output = ground (
  arith,
  decode_loop-spell table tokens output,
  decode_loop-spell table tokens (output ++ get_or table token []),
  append_assoc output (get_or table token []) (spell table tokens),
)

spell-append :
    (table : List Bytes) (xs ys : List ℕ)
    → spell table (xs ++ ys) ≡ spell table xs ++ spell table ys
spell-append table [] ys = refl
spell-append table (x ∷ xs) ys = simp (spell-append table xs ys, append_assoc)

spell-merge_pair :
    (table : List Bytes) (symbols : List ℕ) (p : Pair) (replacement : ℕ)
    → piece table replacement ≡ piece table p.left ++ piece table p.right
    → spell table (merge_pair symbols p replacement) ≡ spell table symbols
unfolding merge_pair
spell-merge_pair table [] p replacement h = refl
spell-merge_pair table (x ∷ []) p replacement h = refl
spell-merge_pair table (x ∷ y ∷ rest) p replacement h = ground (
  arith,
  spell-merge_pair table rest p replacement h,
  spell-merge_pair table (y ∷ rest) p replacement h,
  append_assoc (piece table x) (piece table y) (spell table rest),
)

module _ (count : ℕ) (ranks : PairMap) (table : List Bytes) (loaded : IsLoaded count ranks table)
    (fits : length table ≡ 259 + count) where
  piece-in_table :
      (token : ℕ) → 3 ≤ token → token < length table → piece table token ≡ get_or table token []
  unfolding piece
  piece-in_table token low high = rw (le→leb 3 token low, lt→ltb token (length table) high)

  piece-merged :
      (p : Pair) (k : ℕ)
      → find ranks p ≡ some k
      → piece table (259 + k) ≡ piece table p.left ++ piece table p.right
  piece-merged p k e =
      let (small, left_low, right_low, left_high, right_high) = loaded.earlier p k e in
      rw
        (
          piece-in_table (259 + k) (omega arith) (omega arith),
          piece-in_table p.left left_low (omega arith),
          piece-in_table p.right right_low (omega arith),
        )
        (loaded.spells p k e)

  spell-bytes :
      (chunk : Bytes) → IsBytes chunk → spell table (map (λ value. value + 3) chunk) ≡ chunk
  spell-bytes [] h = refl
  spell-bytes (b ∷ chunk) h = rw (
    piece-in_table (b + 3) (omega arith) (omega arith),
    loaded.bytes b h.0,
    spell-bytes chunk h.1,
  )

  spell-merge_loop :
      (fuel : ℕ) (symbols : List ℕ)
      → spell table (merge_loop fuel ranks symbols) ≡ spell table symbols
  unfolding merge_loop
  spell-merge_loop zero symbols = refl
  spell-merge_loop (suc fuel) symbols =
      let best : Best = best_pair ranks symbols in
      ground (
        arith,
        spell-merge_loop fuel (merge_pair symbols best.pair (259 + best.rank)),
        spell-merge_pair table symbols best.pair (259 + best.rank),
        piece-merged best.pair best.rank,
        find-best_pair ranks symbols,
      )

  spell-encode_chunks :
      (chunks : List Bytes) (result : List ℕ)
      → All IsBytes chunks
      → spell table (encode_chunks ranks chunks result) ≡ spell table result ++ concat chunks
  unfolding encode_chunks encode_chunk
  spell-encode_chunks [] result h = sym (append-nil (spell table result))
  spell-encode_chunks (chunk ∷ chunks) result h =
      spell-encode_chunks chunks _ h.1
      ∙ rw
          (
            spell-append table result (encode_chunk ranks chunk),
            spell-merge_loop (length chunk) (map (λ value. value + 3) chunk),
            spell-bytes chunk h.0,
          )
          (append_assoc (spell table result) chunk (concat chunks))

-- For every text of bytes, decoding the encoded text with the codec built for an artifact whose
-- merges are in order, each on byte symbols or earlier merges, and whose vocabulary size is 259
-- plus their number gives the text back.
pub decode-encode :
    (tables : Tables) (artifact : Artifact) (text : Bytes)
    → HasTable artifact
    → IsBytes text
    → decode (build artifact) (encode tables (build artifact) text) ≡ text
unfolding decode encode
decode-encode tables artifact text table bytes =
    decode_loop-spell (build artifact).token_bytes _ []
    ∙ spell-encode_chunks (length artifact.merges) (build artifact).ranks
        (build artifact).token_bytes (build-IsLoaded artifact table)
        (length-build artifact ∙ table.1) (byte_bpe_chunks tables text) []
        (All-concat (λ b. b < 256) _ (rw concat-byte_bpe_chunks bytes))
    ∙ concat-byte_bpe_chunks tables text
