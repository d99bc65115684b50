-- ===== src/Tokenizer/Codec/Normal.antt =====
-- Where the merge loop of `bpeCodec.Encode` in internal/tokenizer/trained.go stops.
use waldo.Base.{
  ℕ, zero, suc, ◌+◌, ◌≤◌, ◌<◌, ◌≡◌, refl, ◌∙◌, ◌⊎◌, inl, inr, false, none, some, List, [], ◌∷◌,
  replicate, arith, tests, length, length-map, Bool-cases, Option-cases, ap, any, ltb, ==_refl,
}
use waldo.Base.Bytes.{Bytes}
use waldo.Tokenizer.Merge.{Pair, pair_eq, PairMap, find, put, merge_pair}
use waldo.Tokenizer.Merge.Laws.{occurrences, length-merge_pair_lt, find-put}
use waldo.Tokenizer.Artifact.{Artifact, Merge}
use waldo.Tokenizer.Artifact.Valid.{AreNew}
use waldo.Tokenizer.Codec.{
  Best, build, improve, best_loop, best_pair, merge_loop, encode_chunk, byte_tokens, load_merges,
}

-- A statement about each pair of neighbours.
abbrev pub AllPairs : (Pair → Type 0) → List ℕ → Type 0
AllPairs P [] = Unit {0}
AllPairs P (x ∷ []) = Unit {0}
AllPairs P (x ∷ y ∷ rest) = P (record { left = x; right = y }) × AllPairs P (y ∷ rest)

AllPairs-map :
    (P Q : Pair → Type 0) (symbols : List ℕ)
    → ((p : Pair) → P p → Q p)
    → AllPairs P symbols
    → AllPairs Q symbols
AllPairs-map P Q [] f h = tt
AllPairs-map P Q (x ∷ []) f h = tt
AllPairs-map P Q (x ∷ y ∷ rest) f h = (f _ h.0, AllPairs-map P Q (y ∷ rest) f h.1)

improve-le : (ranks : PairMap) (p : Pair) (best : Best) → (improve ranks p best).rank ≤ best.rank
unfolding improve
improve-le ranks p best = ground arith

improve-le_rank :
    (ranks : PairMap) (p : Pair) (best : Best) (k : ℕ)
    → find ranks p ≡ some k
    → (improve ranks p best).rank ≤ k
unfolding improve
improve-le_rank ranks p best k e = ground arith

best_loop-le :
    (ranks : PairMap) (symbols : List ℕ) (best : Best)
    → (best_loop ranks symbols best).rank ≤ best.rank
unfolding best_loop
best_loop-le ranks [] best = omega arith
best_loop-le ranks (x ∷ []) best = omega arith
best_loop-le ranks (x ∷ y ∷ rest) best = omega (
  arith,
  best_loop-le ranks (y ∷ rest) (improve ranks (record { left = x; right = y }) best),
  improve-le ranks (record { left = x; right = y }) best,
)

-- The pair has no rank below the bound.
abbrev pub NoneBelow : PairMap → ℕ → Pair → Type 0
NoneBelow ranks bound p = (k : ℕ) → find ranks p ≡ some k → bound ≤ k

best_loop_least :
    (ranks : PairMap) (symbols : List ℕ) (best : Best)
    → AllPairs (NoneBelow ranks (best_loop ranks symbols best).rank) symbols
unfolding best_loop
best_loop_least ranks [] best = tt
best_loop_least ranks (x ∷ []) best = tt
best_loop_least ranks (x ∷ y ∷ rest) best =
    let p : Pair = record { left = x; right = y } in
    (
      λ k e. omega (
        arith,
        best_loop-le ranks (y ∷ rest) (improve ranks p best),
        improve-le_rank ranks p best k e,
      ),
      best_loop_least ranks (y ∷ rest) (improve ranks p best),
    )

best_pair_least :
    (ranks : PairMap) (symbols : List ℕ)
    → AllPairs (NoneBelow ranks (best_pair ranks symbols).rank) symbols
unfolding best_pair
best_pair_least ranks symbols = best_loop_least ranks symbols _

-- What the search returns stands in the sequence, or is what it was given.
improve-cases :
    (ranks : PairMap) (p : Pair) (best : Best)
    → (improve ranks p best ≡ best) ⊎ ((improve ranks p best).pair ≡ p)
unfolding improve
improve-cases ranks p best = ground arith

best_loop-occurrences :
    (ranks : PairMap) (symbols : List ℕ) (best : Best)
    → (best_loop ranks symbols best ≡ best)
      ⊎ (0 < occurrences (best_loop ranks symbols best).pair symbols)
unfolding best_loop occurrences
best_loop-occurrences ranks [] best = inl refl
best_loop-occurrences ranks (x ∷ []) best = inl refl
best_loop-occurrences ranks (x ∷ y ∷ rest) best =
    let p : Pair = record { left = x; right = y } in
    elim (best_loop-occurrences ranks (y ∷ rest) (improve ranks p best)) [
      | inr later ↦ inr (omega arith)
      | inl same ↦ elim (improve-cases ranks p best) [
        | inl kept ↦ inl (same ∙ kept)
        | inr here ↦ inr (rw (same, here, ==_refl x, ==_refl y) (omega arith))
      ]
    ]

module _ (ranks : PairMap)
    (dense : (p : Pair) (k : ℕ) → find ranks p ≡ some k → k < length ranks) where
  none-of-NoneBelow :
      (bound : ℕ)
      → length ranks < bound
      → (p : Pair) → NoneBelow ranks bound p
      → find ranks p ≡ none
  none-of-NoneBelow bound h p least = elim (Option-cases (find ranks p)) [
    | inl e ↦ e
    | inr (k, e) ↦ absurd (omega (arith, dense p k e, least k e))
  ]

  merge_shortens :
      (symbols : List ℕ)
      → ltb (length ranks) (best_pair ranks symbols).rank ≡ false
      → length
          (merge_pair symbols (best_pair ranks symbols).pair (259 + (best_pair ranks symbols).rank))
        < length symbols
  unfolding best_pair
  merge_shortens symbols small =
      let start : Best = record {
        rank = length ranks + 1;
        pair = record { left = 0; right = 0 };
      } in
      elim (best_loop-occurrences ranks symbols start) [
        | inl same ↦ absurd (omega (tests, ap (λ (b : Best). b.rank) same))
        | inr here ↦ length-merge_pair_lt symbols _ _ here
      ]

  merge_loop_normal :
      (fuel : ℕ) (symbols : List ℕ)
      → length symbols ≤ fuel
      → AllPairs (λ p. find ranks p ≡ none) (merge_loop fuel ranks symbols)
  unfolding merge_loop
  merge_loop_normal zero [] h = tt
  merge_loop_normal zero (x ∷ symbols) h = absurd (omega arith)
  merge_loop_normal (suc fuel) symbols h =
      elim (Bool-cases (ltb (length ranks) (best_pair ranks symbols).rank)) [
        | inl stop ↦
            rw (stop, AllPairs)
              (AllPairs-map (NoneBelow ranks (best_pair ranks symbols).rank)
                (λ p. find ranks p ≡ none) symbols
                (none-of-NoneBelow (best_pair ranks symbols).rank (omega tests))
                (best_pair_least ranks symbols))
        | inr more ↦
            rw (more, AllPairs)
              (merge_loop_normal fuel
                (merge_pair symbols (best_pair ranks symbols).pair
                  (259 + (best_pair ranks symbols).rank))
                (omega (arith, merge_shortens symbols more)))
      ]

-- The ranks after the merges below `index`, which are `seen`.
record IsDense (index : ℕ) (ranks : PairMap) (seen : List Merge) : Type 0 where
  size : length ranks ≡ index
  small : (p : Pair) (k : ℕ) → find ranks p ≡ some k → k < index
  absent : (p : Pair) → any (pair_eq p) seen ≡ false → find ranks p ≡ none

length-put :
    (ranks : PairMap) (p : Pair) (v : ℕ)
    → find ranks p ≡ none
    → length (put ranks p v) ≡ length ranks + 1
unfolding find put
length-put [] p v h = omega arith
length-put ((q, w) ∷ ranks) p v h = ground (arith, length-put ranks p v)

load_merges-IsDense :
    (merges : List Merge) (index finish : ℕ) (ranks : PairMap) (tokens : List Bytes)
    (seen : List Merge)
    → AreNew seen merges
    → index + length merges ≡ finish
    → IsDense index ranks seen
    → (length (load_merges index merges ranks tokens).0 ≡ finish)
      × ((p : Pair) (k : ℕ)
          → find (load_merges index merges ranks tokens).0 p ≡ some k
          → k < finish)
unfolding load_merges
load_merges-IsDense [] index finish ranks tokens seen new e h =
    (omega (arith, h.size), λ p k f. omega (arith, h.small p k f))
load_merges-IsDense (merge ∷ merges) index finish ranks tokens seen new e h =
    load_merges-IsDense merges (index + 1) finish (put ranks merge index) _ (merge ∷ seen) new.1
      (omega arith)
      (record {
        size = omega (arith, h.size, length-put ranks merge index (h.absent merge new.0));
        small = λ p k f. ground (arith, find-put ranks merge p index, h.small p k);
        absent = λ p f. ground (arith, find-put ranks merge p index, h.absent p);
      })

IsDense-nil : IsDense 0 [] []
unfolding find
IsDense-nil = record { size = refl; small = λ p k f. absurd (ground arith); absent = λ p f. refl }

build_dense :
    (artifact : Artifact)
    → AreNew [] artifact.merges
    → (p : Pair) (k : ℕ) → find (build artifact).ranks p ≡ some k
    → k < length (build artifact).ranks
unfolding build
build_dense artifact new p k e = let (size, small) = dense in omega (arith, size, small p k e)
  where
    tokens : List Bytes
    tokens = byte_tokens 256 0 (replicate artifact.vocabulary_size [])

    dense :
        (length (load_merges 0 artifact.merges [] tokens).0 ≡ length artifact.merges)
        × ((q : Pair) (j : ℕ)
            → find (load_merges 0 artifact.merges [] tokens).0 q ≡ some j
            → j < length artifact.merges)
    dense =
        load_merges-IsDense artifact.merges 0 (length artifact.merges) [] tokens [] new
          (omega arith) IsDense-nil

-- With the codec of an artifact whose merges are distinct, the symbols that `Encode` gives for a
-- chunk hold no two neighbours that the table merges: its loop has stopped by its test.
pub encode_chunk_normal :
    (artifact : Artifact) (chunk : Bytes)
    → AreNew [] artifact.merges
    → AllPairs
        (λ p. find (build artifact).ranks p ≡ none)
        (encode_chunk (build artifact).ranks chunk)
unfolding encode_chunk
encode_chunk_normal artifact chunk new =
    merge_loop_normal (build artifact).ranks (build_dense artifact new) (length chunk) _
      (omega (arith, length-map chunk (λ value. value + 3)))
