-- ===== src/Training/Selection/Indexed/Rounds.antt =====
-- The rounds in which `newIndexedRecordPartition` of internal/training/stream.go goes through the
-- candidates of its groups bring each row once at most.
use waldo.Base.{
  ℕ, zero, suc, ◌+◌, ◌≤◌, ◌<◌, ◌≡◌, refl, sym, ap, ◌∙◌, subst, Bool, true, false, ◌&&◌, Option,
  none, some, List, [], ◌∷◌, map, count, count-append, drop, get_elem?, arith, ◌==◌, if◌then◌else◌,
  All, All-append, Bool-cases, Option-cases, inl, inr,
}
use waldo.Training.Selection.{
  Input, IndexedInputGroup, EvaluationCandidate, Library, indexed_evaluation_candidates,
}
use waldo.Training.Selection.Distinct.{
  is_listed, IsRow, NoneTwice, IsSameRow, indexed_evaluation_candidates-NoneTwice,
}
use waldo.Training.Selection.Indexed.{round_of, rounds_loop}
use waldo.Training.Selection.Indexed.Groups.{lists, IsFilled}

-- The candidate is that row of that shard.
abbrev pub is_row : ℕ → ℕ → EvaluationCandidate → Bool
is_row input row candidate = candidate.input == input && candidate.row == row

same_row :
    (input row : ℕ) (c d : EvaluationCandidate)
    → is_row input row c ≡ true
    → is_row input row d ≡ true
    → IsSameRow c d
same_row input row c d h k = (ground (arith, h, k), ground (arith, h, k))

unlike :
    (input row : ℕ) (c : EvaluationCandidate) (others : List EvaluationCandidate)
    → is_row input row c ≡ true
    → All (λ d. ¬ IsSameRow c d) others
    → count (is_row input row) others ≡ 0
unlike input row c [] h k = refl
unlike input row c (d ∷ others) h k = elim (Bool-cases (is_row input row d)) [
  | inl e ↦ absurd (k.0 (same_row input row c d h e))
  | inr e ↦ rw e (omega (arith, unlike input row c others h k.1))
]

pub NoneTwice-count :
    (input row : ℕ) (candidates : List EvaluationCandidate)
    → NoneTwice candidates
    → count (is_row input row) candidates ≤ 1
NoneTwice-count input row [] h = omega arith
NoneTwice-count input row (c ∷ candidates) h = elim (Bool-cases (is_row input row c)) [
  | inr e ↦ rw e (omega (arith, NoneTwice-count input row candidates h.1))
  | inl e ↦ rw e (omega (arith, unlike input row c candidates e h.0))
]

-- The candidates of all groups that pass a test, from a round on.
pub sum_from : (EvaluationCandidate → Bool) → ℕ → List (List EvaluationCandidate) → ℕ
sum_from p round [] = 0
sum_from p round (candidates ∷ groups) = count p (drop round candidates) + sum_from p round groups

abbrev one_if_passes : (EvaluationCandidate → Bool) → Option EvaluationCandidate → ℕ
one_if_passes p none = 0
one_if_passes p (some candidate) = if p candidate then 1 else 0

count-drop :
    (p : EvaluationCandidate → Bool) (round : ℕ) (candidates : List EvaluationCandidate)
    → count p (drop round candidates)
      ≡ one_if_passes p (get_elem? candidates round) + count p (drop (suc round) candidates)
count-drop p zero [] = refl
count-drop p zero (c ∷ candidates) = refl
count-drop p (suc round) [] = refl
count-drop p (suc round) (c ∷ candidates) = count-drop p round candidates

count-round_of :
    (p : EvaluationCandidate → Bool) (round : ℕ) (groups : List (List EvaluationCandidate))
    → sum_from p round groups ≡ count p (round_of round groups) + sum_from p (suc round) groups
unfolding sum_from round_of
count-round_of p round [] = refl
count-round_of p round (candidates ∷ groups) = elim (Option-cases (get_elem? candidates round)) [
  | inl e ↦
      rw (e, round_of)
        (omega (
          arith,
          count-round_of p round groups,
          count-drop p round candidates,
          ap (one_if_passes p) e,
        ))
  | inr (c, e) ↦
      rw (e, round_of)
        (omega (
          arith,
          count-round_of p round groups,
          count-drop p round candidates,
          ap (one_if_passes p) e,
        ))
]

pub count-rounds_loop :
    (p : EvaluationCandidate → Bool) (rounds round : ℕ) (groups : List (List EvaluationCandidate))
    → count p (rounds_loop rounds round groups) ≤ sum_from p round groups
unfolding rounds_loop
count-rounds_loop p zero round groups = omega arith
count-rounds_loop p (suc rounds) round groups = omega (
  arith,
  count-append p (round_of round groups) (rounds_loop rounds (round + 1) groups),
  count-rounds_loop p rounds (round + 1) groups,
  count-round_of p round groups,
  ap (λ (r : ℕ). sum_from p r groups) next,
)
  where
    next : round + 1 ≡ suc round
    next = omega arith

All-get_elem? {ℓ} :
    (P : EvaluationCandidate → Type ℓ) (candidates : List EvaluationCandidate) (i : ℕ)
    (c : EvaluationCandidate)
    → All P candidates
    → get_elem? candidates i ≡ some c
    → P c
All-get_elem? P [] i c h e = absurd (cc e)
All-get_elem? P (d ∷ candidates) zero c h e = subst P (cc e) h.0
All-get_elem? P (d ∷ candidates) (suc i) c h e = All-get_elem? P candidates i c h.1 e

-- The candidate is a row that a shard declares.
abbrev pub IsDeclared : List Input → EvaluationCandidate → Type 0
IsDeclared inputs c =
    (input : Input) × (get_elem? inputs c.input ≡ some input) × (c.row < input.records)

rows-IsDeclared :
    (library : Library) (inputs : List Input) (positions : List ℕ)
    (candidates : List EvaluationCandidate)
    → All (IsRow library inputs positions) candidates
    → All (IsDeclared inputs) candidates
rows-IsDeclared library inputs positions [] h = tt
rows-IsDeclared library inputs positions (c ∷ candidates) h =
    (((h.0).1, (h.0).2, (h.0).3), rows-IsDeclared library inputs positions candidates h.1)

unlisted-count :
    (library : Library) (inputs : List Input) (positions : List ℕ) (input row : ℕ)
    (candidates : List EvaluationCandidate)
    → is_listed positions input ≡ false
    → All (IsRow library inputs positions) candidates
    → count (is_row input row) candidates ≡ 0
unlisted-count library inputs positions input row [] e h = refl
unlisted-count library inputs positions input row (c ∷ candidates) e h =
    elim (Bool-cases (c.input == input)) [
      | inl same ↦
          let here : c.input ≡ input = ground (arith, same) in
          absurd (cc (sym e ∙ ap (is_listed positions) (sym here) ∙ (h.0).0))
      | inr other ↦
          rw other
            (omega (arith, unlisted-count library inputs positions input row candidates e h.1))
    ]

round_of-All {ℓ} :
    (P : EvaluationCandidate → Type ℓ) (round : ℕ) (groups : List (List EvaluationCandidate))
    → All (λ candidates. All P candidates) groups
    → All P (round_of round groups)
unfolding round_of
round_of-All P round [] h = tt
round_of-All P round (candidates ∷ groups) h = elim (Option-cases (get_elem? candidates round)) [
  | inl e ↦ rw (e, round_of) (round_of-All P round groups h.1)
  | inr (c, e) ↦
      rw (e, round_of) (All-get_elem? P candidates round c h.0 e, round_of-All P round groups h.1)
]

pub rounds_loop-All {ℓ} :
    (P : EvaluationCandidate → Type ℓ) (rounds round : ℕ) (groups : List (List EvaluationCandidate))
    → All (λ candidates. All P candidates) groups
    → All P (rounds_loop rounds round groups)
unfolding rounds_loop
rounds_loop-All P zero round groups h = tt
rounds_loop-All P (suc rounds) round groups h =
    All-append P (round_of round groups) (rounds_loop rounds (round + 1) groups)
      (round_of-All P round groups h) (rounds_loop-All P rounds (round + 1) groups h)

-- What the groups have drawn, one after the other.
module _ (library : Library) (inputs : List Input) (seed : ℕ) (limit : IndexedInputGroup → ℕ)
    (within : (group : IndexedInputGroup)
      → 0 < group.records
      → (0 < limit group) × (limit group ≤ group.records)) where
  abbrev drawn : IndexedInputGroup → List EvaluationCandidate
  drawn group = indexed_evaluation_candidates library inputs group seed (limit group)

  rows_count :
      (group : IndexedInputGroup) (input row : ℕ)
      → IsFilled inputs group
      → count (is_row input row) (drawn group) ≤ (if lists input group then 1 else 0)
  rows_count group input row (valid, positive) =
      let (some_limit, room) = within group positive in
      let (_, rows, once) =
        indexed_evaluation_candidates-NoneTwice library inputs group seed (limit group) valid
          some_limit room in
      elim (Bool-cases (lists input group)) [
        | inl e ↦ rw e (NoneTwice-count input row (drawn group) once)
        | inr e ↦ rw e (
            omega
              (arith, unlisted-count library inputs group.inputs input row (drawn group) e rows))
      ]

  pub sum_from-drawn :
      (groups : List IndexedInputGroup) (input row : ℕ)
      → All (IsFilled inputs) groups
      → sum_from (is_row input row) 0 (map drawn groups) ≤ count (lists input) groups
  unfolding sum_from
  sum_from-drawn [] input row h = omega arith
  sum_from-drawn (group ∷ groups) input row h =
      omega (arith, rows_count group input row h.0, sum_from-drawn groups input row h.1)

  pub drawn-All :
      (groups : List IndexedInputGroup)
      → All (IsFilled inputs) groups
      → All (λ candidates. All (IsDeclared inputs) candidates) (map drawn groups)
  drawn-All [] h = tt
  drawn-All (group ∷ groups) ((valid, positive), h) =
      let (some_limit, room) = within group positive in
      let (_, rows, once) =
        indexed_evaluation_candidates-NoneTwice library inputs group seed (limit group) valid
          some_limit room in
      (rows-IsDeclared library inputs group.inputs (drawn group) rows, drawn-All groups h)
