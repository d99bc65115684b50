-- ===== src/Training/Selection.antt =====
-- The held-out rows that internal/training/stream.go draws from an indexed corpus.
pub mod Stride
pub mod Distinct
pub mod Indexed
pub mod Tests
use waldo.Base.{
  ℕ, zero, suc, ◌+◌, ◌-◌, ◌*◌, ◌/◌, ◌%◌, ◌^◌, Bool, true, false, not, ◌&&◌, ◌||◌, Option, none,
  some, List, [], ◌∷◌, ◌++◌, length, take, drop, get_elem?, ltb, leb, ◌==◌, if◌then◌else◌,
}
use waldo.Base.Bytes.{Bytes, codes}

-- What the code reads of a shard of the corpus.
pub record Input : Type 0 where
  pub sha256 : Bytes
  pub records : ℕ
  pub corpus : Bytes

pub record IndexedInputGroup : Type 0 where
  pub name : Bytes
  pub inputs : List ℕ
  pub records : ℕ

pub record EvaluationCandidate : Type 0 where
  pub key : Bytes
  pub corpus : Bytes
  pub input : ℕ
  pub row : ℕ

-- SHA-256, and `fmt.Sprint` of an int64.
pub record Library : Type 0 where
  pub sum256 : Bytes → Bytes
  pub print_int : ℕ → Bytes

-- `selectionID`
pub selection_id : Library → Bytes → ℕ → Bytes
selection_id library shard_hash row = shard_hash ++ (codes ":" ++ library.print_int row)

-- `binary.BigEndian.PutUint64` and `Uint64`, of the bytes given.
pub put_big_endian : ℕ → ℕ → Bytes
put_big_endian zero n = []
put_big_endian (suc size) n = n / 256 ^ size % 256 ∷ put_big_endian size n

pub big_endian : ℕ → Bytes → ℕ
big_endian n [] = n
big_endian n (b ∷ bytes) = big_endian (256 * n + b) bytes

-- `evaluationScore`
pub evaluation_score : Library → ℕ → Bytes → Bytes
unfolding put_big_endian
evaluation_score library seed key = library.sum256 (put_big_endian 8 seed ++ key)

-- `greatestCommonDivisor`. The right number falls in every round, so one more than it is enough
-- fuel.
pub gcd_loop : ℕ → ℕ → ℕ → ℕ
gcd_loop zero left right = left
gcd_loop (suc fuel) left right = elim (right == 0) [
  | true ↦ left
  | false ↦ gcd_loop fuel right (left % right)
]

pub greatest_common_divisor : ℕ → ℕ → ℕ
unfolding gcd_loop
greatest_common_divisor left right = gcd_loop (right + 1) left right

-- The search for a step without a common divisor. It comes to 1 at last, so as many rounds as there
-- are records are enough.
pub step_loop : ℕ → ℕ → ℕ → ℕ
unfolding greatest_common_divisor
step_loop zero records step = step
step_loop (suc fuel) records step = elim (greatest_common_divisor step records == 1) [
  | true ↦ step
  | false ↦ step_loop fuel records (if leb records (step + 1) then 1 else step + 1)
]

-- The step from the second half of the digest.
pub step_of : ℕ → Bytes → ℕ
unfolding step_loop big_endian
step_of records digest =
    if ltb 1 records
    then step_loop records records (big_endian 0 (take 8 (drop 8 digest)) % (records - 1) + 1)
    else 1

-- The shard in which the ordinal falls, and its row. The positions of a group are those of inputs.
pub place : Library → List Input → List ℕ → ℕ → Option EvaluationCandidate
unfolding selection_id
place library inputs [] remaining = none
place library inputs (position ∷ positions) remaining =
    let later = λ (records : ℕ). place library inputs positions (remaining - records) in
    elim (get_elem? inputs position) [
      | none ↦ none
      | some input ↦
          if ltb remaining input.records
          then some (record {
            key = selection_id library input.sha256 remaining;
            corpus = input.corpus;
            input = position;
            row = remaining;
          })
          else later input.records
    ]

pub with_candidate :
    Option EvaluationCandidate → List EvaluationCandidate → List EvaluationCandidate
with_candidate none candidates = candidates
with_candidate (some candidate) candidates = candidate ∷ candidates

-- `for range limit`. The sum is an int64 for as many as 2 ^ 62 records.
pub candidates_loop :
    Library → List Input → IndexedInputGroup → ℕ → ℕ → ℕ → List EvaluationCandidate
unfolding with_candidate place
candidates_loop library inputs group step zero ordinal = []
candidates_loop library inputs group step (suc limit) ordinal =
    with_candidate (place library inputs group.inputs ordinal)
      (candidates_loop library inputs group step limit ((ordinal + step) % group.records))

-- `indexedEvaluationCandidates`
pub indexed_evaluation_candidates :
    Library → List Input → IndexedInputGroup → ℕ → ℕ → List EvaluationCandidate
unfolding evaluation_score big_endian step_of candidates_loop
indexed_evaluation_candidates library inputs group seed limit =
    let digest = evaluation_score library seed (codes "indexed-sample-v1:" ++ group.name) in
    if limit == 0 || group.records == 0
    then []
    else candidates_loop library inputs group (step_of group.records digest) limit
        (big_endian 0 (take 8 digest) % group.records)
