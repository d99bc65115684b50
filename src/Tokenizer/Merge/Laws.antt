-- ===== src/Tokenizer/Merge/Laws.antt =====
-- `mergePair` and `sequencePairCounts` of internal/tokenizer/trained.go on a sequence.
use waldo.Base.{
  ℕ, ◌+◌, ◌≤◌, ◌<◌, ◌≡◌, refl, ◌&&◌, some, List, [], ◌∷◌, arith, length, ◌==◌, if◌then◌else◌, All,
  inl, inr, Bool-cases,
}
use waldo.Tokenizer.Merge.{
  Pair, pair_eq, PairMap, merge_pair, find, put, find_or_zero, counts_loop, sequence_pair_counts,
}

pub find-put :
    (m : PairMap) (p q : Pair) (v : ℕ)
    → find (put m p v) q ≡ (if pair_eq p q then some v else find m q)
unfolding find put
find-put [] p q v = refl
find-put ((r, w) ∷ m) p q v = ground (arith, find-put m p q v)

-- How often the pair stands in the sequence, overlaps included.
unfoldable pub occurrences : Pair → List ℕ → ℕ
occurrences p [] = 0
occurrences p (x ∷ []) = 0
occurrences p (x ∷ y ∷ rest) =
    (if x == p.left && y == p.right then 1 else 0) + occurrences p (y ∷ rest)

find-bump :
    (counts : PairMap) (q p : Pair)
    → find_or_zero (put counts q (find_or_zero counts q + 1)) p
      ≡ find_or_zero counts p + (if q.left == p.left && q.right == p.right then 1 else 0)
unfolding find_or_zero
find-bump counts q p = ground (arith, find-put counts q p (find_or_zero counts q + 1))

find-counts_loop :
    (symbols : List ℕ) (counts : PairMap) (p : Pair)
    → find_or_zero (counts_loop symbols counts) p ≡ find_or_zero counts p + occurrences p symbols
unfolding counts_loop occurrences
find-counts_loop [] counts p = omega arith
find-counts_loop (x ∷ []) counts p = omega arith
find-counts_loop (x ∷ y ∷ rest) counts p =
    let q : Pair = record { left = x; right = y } in
    omega (
      arith,
      find-counts_loop (y ∷ rest) (put counts q (find_or_zero counts q + 1)) p,
      find-bump counts q p,
    )

pub length-merge_pair :
    (symbols : List ℕ) (p : Pair) (replacement : ℕ)
    → length (merge_pair symbols p replacement) ≤ length symbols
unfolding merge_pair
length-merge_pair [] p replacement = omega arith
length-merge_pair (x ∷ []) p replacement = omega arith
length-merge_pair (x ∷ y ∷ rest) p replacement =
    ground (arith, length-merge_pair rest p replacement, length-merge_pair (y ∷ rest) p replacement)

-- A merge makes a sequence that holds the pair strictly shorter.
pub length-merge_pair_lt :
    (symbols : List ℕ) (p : Pair) (replacement : ℕ)
    → 0 < occurrences p symbols
    → length (merge_pair symbols p replacement) < length symbols
unfolding merge_pair occurrences
length-merge_pair_lt [] p replacement h = absurd (omega arith)
length-merge_pair_lt (x ∷ []) p replacement h = absurd (omega arith)
length-merge_pair_lt (x ∷ y ∷ rest) p replacement h =
    ground
      (arith, length-merge_pair rest p replacement, length-merge_pair_lt (y ∷ rest) p replacement)

-- The counts of a sequence are the numbers of its adjacent pairs.
pub sequence_pair_counts-occurrences :
    (symbols : List ℕ) (p : Pair)
    → find_or_zero (sequence_pair_counts symbols) p ≡ occurrences p symbols
unfolding sequence_pair_counts find_or_zero
sequence_pair_counts-occurrences symbols p = omega (arith, find-counts_loop symbols [] p)

-- Symbols of a merged sequence are those of the sequence, or the replacement.
pub All-merge_pair :
    (P : ℕ → Type 0) (symbols : List ℕ) (p : Pair) (replacement : ℕ)
    → P replacement
    → All P symbols
    → All P (merge_pair symbols p replacement)
unfolding merge_pair
All-merge_pair P [] p replacement hr h = tt
All-merge_pair P (x ∷ []) p replacement hr h = h
All-merge_pair P (x ∷ y ∷ rest) p replacement hr h =
    elim (Bool-cases (x == p.left && y == p.right)) [
      | inl e ↦ rw (e, All) (hr, All-merge_pair P rest p replacement hr h.1.1)
      | inr e ↦ rw (e, All) (h.0, All-merge_pair P (y ∷ rest) p replacement hr h.1)
    ]
