-- ===== src/Tokenizer/Merge.antt =====
-- Pairs of symbols: `pair`, `Merge`, `mergePair` and `sequencePairCounts` of
-- internal/tokenizer/trained.go. A symbol is an int of Go that is never negative here.
pub mod Laws
use waldo.Base.{
  ℕ, suc, ◌+◌, Bool, true, false, ◌&&◌, Option, none, some, List, [], ◌∷◌, ◌==◌, if◌then◌else◌,
}

pub record Pair : Type 0 where
  pub left : ℕ
  pub right : ℕ

abbrev pub pair_eq : Pair → Pair → Bool
pair_eq p q = p.left == q.left && p.right == q.right

-- `mergePair`: from left to right, each occurrence of the pair becomes the replacement.
unfoldable pub merge_pair : List ℕ → Pair → ℕ → List ℕ
merge_pair [] selected replacement = []
merge_pair (x ∷ []) selected replacement = x ∷ []
merge_pair (x ∷ y ∷ rest) selected replacement = elim (x == selected.left && y == selected.right) [
  | true ↦ replacement ∷ merge_pair rest selected replacement
  | false ↦ x ∷ merge_pair (y ∷ rest) selected replacement
]

-- A map with pairs as keys.
abbrev pub PairMap : Type 0
PairMap = List (Pair × ℕ)

unfoldable pub find : PairMap → Pair → Option ℕ
find [] p = none
find ((q, v) ∷ m) p = if pair_eq q p then some v else find m p

-- `m[p] = v`
unfoldable pub put : PairMap → Pair → ℕ → PairMap
put [] p v = (p, v) ∷ []
put ((q, w) ∷ m) p v = if pair_eq q p then (q, v) ∷ m else (q, w) ∷ put m p v

-- The value of a missing key is 0.
pub find_or_zero : PairMap → Pair → ℕ
unfolding find
find_or_zero m p = elim (find m p) [ none ↦ 0 | some v ↦ v ]

counts_loop : List ℕ → PairMap → PairMap
counts_loop [] counts = counts
counts_loop (x ∷ []) counts = counts
counts_loop (x ∷ y ∷ rest) counts =
    let p : Pair = record { left = x; right = y } in
    counts_loop (y ∷ rest) (put counts p (find_or_zero counts p + 1))

-- `sequencePairCounts`
pub sequence_pair_counts : List ℕ → PairMap
unfolding counts_loop put find_or_zero
sequence_pair_counts symbols = counts_loop symbols []
