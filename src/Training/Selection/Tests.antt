-- ===== src/Training/Selection/Tests.antt =====
-- The rows drawn from two small shards, and the theorem at them.
use waldo.Base.{ℕ, ◌≡◌, refl, [], ◌∷◌, List, All, length, arith}
use waldo.Base.Bytes.{Bytes, codes}
use waldo.Training.Selection.{
  Input, IndexedInputGroup, EvaluationCandidate, Library, selection_id, put_big_endian,
  indexed_evaluation_candidates,
}
use waldo.Training.Selection.Distinct.{
  IsGroup, IsRow, NoneTwice, indexed_evaluation_candidates-NoneTwice,
}

abbrev pub library : Library
library = record {
  sum256 = λ value. 0 ∷ 0 ∷ 0 ∷ 0 ∷ 0 ∷ 0 ∷ 1 ∷ 2 ∷ 0 ∷ 0 ∷ 0 ∷ 0 ∷ 0 ∷ 0 ∷ 0 ∷ 3 ∷ [];
  print_int = λ n. n ∷ [];
}

abbrev pub inputs : List Input
inputs =
    (record { sha256 = codes "x"; records = 4; corpus = codes "c" })
    ∷ (record { sha256 = codes "y"; records = 2; corpus = codes "c" })
    ∷ []

abbrev group : IndexedInputGroup
group = record { name = codes "c"; inputs = 0 ∷ 1 ∷ []; records = 6 }

abbrev pub candidate : Bytes → ℕ → ℕ → EvaluationCandidate
candidate shard input row = record {
  key = selection_id library shard row;
  corpus = codes "c";
  input = input;
  row = row;
}

-- 258 % 6 is 0. 3 % 5 + 1 and 6 have the divisor 2, so the step is 5.
three_drawn :
    indexed_evaluation_candidates library inputs group 7 3
    ≡ candidate (codes "x") 0 0 ∷ candidate (codes "y") 1 1 ∷ candidate (codes "y") 1 0 ∷ []
unfolding indexed_evaluation_candidates
three_drawn = refl

two_bytes : put_big_endian 3 258 ≡ 0 ∷ 1 ∷ 2 ∷ []
unfolding put_big_endian
two_bytes = refl

group-IsGroup : IsGroup inputs group
group-IsGroup = record {
  placed = ((_, refl), ((_, refl), tt));
  distinct = (refl, (refl, tt));
  counted = refl;
}

indexed_evaluation_candidates-NoneTwice_example :
    (length (indexed_evaluation_candidates library inputs group 7 6) ≡ 6)
    × All
        (IsRow library inputs (0 ∷ 1 ∷ []))
        (indexed_evaluation_candidates library inputs group 7 6)
    × NoneTwice (indexed_evaluation_candidates library inputs group 7 6)
indexed_evaluation_candidates-NoneTwice_example =
    indexed_evaluation_candidates-NoneTwice library inputs group 7 6 group-IsGroup (omega arith)
      (omega arith)
