-- ===== src/Training/Selection/Distinct.antt =====
-- The candidates of `indexedEvaluationCandidates` of internal/training/stream.go are rows of the
-- group's shards, and no row is drawn twice.
use native.Mathlib.Nat.{mod-add-mod, mod-lt}
use waldo.Base.{
  ℕ, zero, suc, ◌+◌, ◌-◌, ◌*◌, ◌%◌, ◌≤◌, ◌<◌, ◌≡◌, ◌≢◌, refl, sym, ap, ◌∙◌, subst, Bool, true,
  false, ◌||◌, none, some, List, [], ◌∷◌, map, ◌++◌, length-map, any, length, get_elem?, take,
  arith, tests, ltb, ◌==◌, if◌then◌else◌, All, Bool-cases, inl, inr,
}
use waldo.Base.Bytes.{codes}
use waldo.Training.Selection.{
  Input, IndexedInputGroup, EvaluationCandidate, Library, selection_id, evaluation_score,
  big_endian, greatest_common_divisor, step_of, place, with_candidate, candidates_loop,
  indexed_evaluation_candidates,
}
use waldo.Training.Selection.Stride.{step_of_coprime, stride_fresh}

-- The records of the shard at a position.
abbrev pub records_at : List Input → ℕ → ℕ
records_at inputs position = elim (get_elem? inputs position) [
  | none ↦ 0
  | some input ↦ input.records
]

abbrev pub total_at : List Input → List ℕ → ℕ
total_at inputs [] = 0
total_at inputs (position ∷ positions) = records_at inputs position + total_at inputs positions

abbrev pub is_listed : List ℕ → ℕ → Bool
is_listed positions position = any (λ p. p == position) positions

abbrev pub AreDistinct : List ℕ → Type 0
AreDistinct [] = Unit {0}
AreDistinct (position ∷ positions) = (is_listed positions position ≡ false) × AreDistinct positions

-- The positions are those of shards, none stands twice, and the records are theirs.
pub record IsGroup (inputs : List Input) (group : IndexedInputGroup) : Type 0 where
  pub placed :
      All (λ position. (input : Input) × (get_elem? inputs position ≡ some input)) group.inputs
  pub distinct : AreDistinct group.inputs
  pub counted : total_at inputs group.inputs ≡ group.records

-- The candidate is a row of a shard of the group, under its key.
abbrev pub IsRow : Library → List Input → List ℕ → EvaluationCandidate → Type 0
IsRow library inputs positions candidate =
    (is_listed positions candidate.input ≡ true)
    × (input : Input) × (get_elem? inputs candidate.input ≡ some input)
    × (candidate.row < input.records)
    × (candidate.key ≡ selection_id library input.sha256 candidate.row)
    × (candidate.corpus ≡ input.corpus)

abbrev pub IsSameRow : EvaluationCandidate → EvaluationCandidate → Type 0
IsSameRow c d = (c.input ≡ d.input) × (c.row ≡ d.row)

-- No two candidates are the same row.
abbrev pub NoneTwice : List EvaluationCandidate → Type 0
NoneTwice [] = Unit {0}
NoneTwice (c ∷ candidates) = All (λ d. ¬ IsSameRow c d) candidates × NoneTwice candidates

listed_other :
    (positions : List ℕ) (p i : ℕ)
    → is_listed positions p ≡ false
    → is_listed positions i ≡ true
    → (p == i) ≡ false
listed_other positions p i alone listed = elim (Bool-cases (p == i)) [
  | inr e ↦ e
  | inl e ↦
      let same : p ≡ i = ground (arith, e) in
      absurd (cc (sym alone ∙ ap (is_listed positions) same ∙ listed))
]

-- The ordinals that the loop goes through.
ordinals : ℕ → ℕ → ℕ → ℕ → List ℕ
ordinals step n zero ordinal = []
ordinals step n (suc limit) ordinal = ordinal ∷ ordinals step n limit ((ordinal + step) % n)

ordinals-fresh :
    (step n start limit k : ℕ)
    → greatest_common_divisor step n ≡ 1
    → start < n
    → 0 < k
    → k + limit ≤ n
    → All (λ ordinal. start ≢ ordinal) (ordinals step n limit ((start + k * step) % n))
unfolding ordinals
ordinals-fresh step n start zero k one below positive room = tt
ordinals-fresh step n start (suc limit) k one below positive room = (
  λ e. stride_fresh step n start k one below positive (omega (arith, room)) (sym e),
  subst (λ (p : ℕ). All (λ ordinal. start ≢ ordinal) (ordinals step n limit p)) next
      (ordinals-fresh step n start limit (k + 1) one below (omega arith) (omega (arith, room))),
)
  where
    next : (start + (k + 1) * step) % n ≡ ((start + k * step) % n + step) % n
    next = ap (λ (m : ℕ). m % n) (grind arith) ∙ sym (mod-add-mod (start + k * step) n step)

module _ (library : Library) (inputs : List Input) where
  -- The ordinal in the group of a row of the shard at a position.
  abbrev ordinal_of : List ℕ → ℕ → ℕ → ℕ
  ordinal_of [] input row = row
  ordinal_of (position ∷ positions) input row =
      if position == input then row else records_at inputs position + ordinal_of positions input row

  place_lem :
      (positions : List ℕ) (ordinal : ℕ)
      → All (λ position. (input : Input) × (get_elem? inputs position ≡ some input)) positions
      → AreDistinct positions
      → ordinal < total_at inputs positions
      → (c : EvaluationCandidate) × (place library inputs positions ordinal ≡ some c)
        × IsRow library inputs positions c
        × (ordinal_of positions c.input c.row ≡ ordinal)
  unfolding place
  place_lem [] ordinal placed distinct h = absurd (omega (arith, h))
  place_lem (position ∷ positions) ordinal ((input, found), placed) (alone, distinct) h =
      let amount : records_at inputs position ≡ input.records = rw (found, records_at) refl in
      elim (Bool-cases (ltb ordinal input.records)) [
        | inl here ↦ (
          record {
            key = selection_id library input.sha256 ordinal;
            corpus = input.corpus;
            input = position;
            row = ordinal;
          },
          rw (found, place, here) refl,
          (ground arith, input, found, omega (tests, here), refl, refl),
          ground arith,
        )
        | inr later ↦
            let (c, drawn, row, back) =
              place_lem positions (ordinal - input.records) placed distinct
                (omega (tests, later, amount, h)) in
            let other : (position == c.input) ≡ false =
              listed_other positions position c.input alone row.0 in
            (
              c,
              rw (found, place, later) drawn,
              (rw (other, row.0) refl, row.1, row.2, row.3, row.4, row.5),
              rw other (omega (tests, back, amount, later)),
            )
      ]

  module _ (group : IndexedInputGroup) (valid : IsGroup inputs group)
      (positive : 0 < group.records) where
    abbrev back : EvaluationCandidate → ℕ
    back c = ordinal_of group.inputs c.input c.row

    drawn_lem :
        (step limit ordinal : ℕ)
        → ordinal < group.records
        → (map back (candidates_loop library inputs group step limit ordinal)
            ≡ ordinals step group.records limit ordinal)
          × All
              (IsRow library inputs group.inputs)
              (candidates_loop library inputs group step limit ordinal)
    unfolding candidates_loop ordinals
    drawn_lem step zero ordinal below = (refl, tt)
    drawn_lem step (suc limit) ordinal below =
        let (c, drawn, row, same) =
          place_lem group.inputs ordinal valid.placed valid.distinct
            (omega (arith, below, valid.counted)) in
        let (rest, rows) =
          drawn_lem step limit ((ordinal + step) % group.records)
            (mod-lt (ordinal + step) positive) in
        rw (drawn, with_candidate) (rw (same, rest) refl, (row, rows))

    differ :
        (c : EvaluationCandidate) (candidates : List EvaluationCandidate)
        → All (λ ordinal. back c ≢ ordinal) (map back candidates)
        → All (λ d. ¬ IsSameRow c d) candidates
    differ c [] h = tt
    differ c (d ∷ candidates) h = (
      λ same. h.0 (
          ap (λ (i : ℕ). ordinal_of group.inputs i c.row) same.0
          ∙ ap (λ (r : ℕ). ordinal_of group.inputs d.input r) same.1),
      differ c candidates h.1,
    )

    none_twice :
        (step limit ordinal : ℕ)
        → greatest_common_divisor step group.records ≡ 1
        → ordinal < group.records
        → limit ≤ group.records
        → NoneTwice (candidates_loop library inputs group step limit ordinal)
    unfolding candidates_loop ordinals
    none_twice step zero ordinal one below room = tt
    none_twice step (suc limit) ordinal one below room =
        let (c, drawn, row, same) =
          place_lem group.inputs ordinal valid.placed valid.distinct
            (omega (arith, below, valid.counted)) in
        let next = (ordinal + step) % group.records in
        let (rest, _) = drawn_lem step limit next (mod-lt (ordinal + step) positive) in
        let once : ordinal + 1 * step ≡ ordinal + step = omega arith in
        let fresh : All (λ o. ordinal ≢ o) (ordinals step group.records limit next) =
          subst
            (λ (p : ℕ).
              All (λ o. ordinal ≢ o) (ordinals step group.records limit (p % group.records)))
            once
            (ordinals-fresh step group.records ordinal limit 1 one below (omega arith)
              (omega (arith, room))) in
        rw (drawn, with_candidate)
          (
            differ c (candidates_loop library inputs group step limit next) (rw (rest, same) fresh),
            none_twice step limit next one (mod-lt (ordinal + step) positive) (omega (arith, room)),
          )

length-ordinals : (step n limit ordinal : ℕ) → length (ordinals step n limit ordinal) ≡ limit
unfolding ordinals
length-ordinals step n zero ordinal = refl
length-ordinals step n (suc limit) ordinal =
    ap suc (length-ordinals step n limit ((ordinal + step) % n))

-- For a group of distinct shards whose records it counts, and a limit from 1 to that number, as
-- many candidates are drawn as the limit says, each is a row that its shard declares, under the key
-- of that row, and no row is drawn twice, whatever the digest is.
pub indexed_evaluation_candidates-NoneTwice :
    (library : Library) (inputs : List Input) (group : IndexedInputGroup) (seed limit : ℕ)
    → IsGroup inputs group
    → 0 < limit
    → limit ≤ group.records
    → (length (indexed_evaluation_candidates library inputs group seed limit) ≡ limit)
      × All
          (IsRow library inputs group.inputs)
          (indexed_evaluation_candidates library inputs group seed limit)
      × NoneTwice (indexed_evaluation_candidates library inputs group seed limit)
unfolding indexed_evaluation_candidates
indexed_evaluation_candidates-NoneTwice library inputs group seed limit valid some_limit room =
    let positive : 0 < group.records = omega (arith, some_limit, room) in
    let digest = evaluation_score library seed (codes "indexed-sample-v1:" ++ group.name) in
    let step = step_of group.records digest in
    let start = big_endian 0 (take 8 digest) % group.records in
    let below : start < group.records = mod-lt (big_endian 0 (take 8 digest)) positive in
    let (drawn, rows) = drawn_lem library inputs group valid positive step limit start below in
    let asked : (limit == 0 || group.records == 0) ≡ false = ground (arith, some_limit, positive) in
    rw asked (
      sym (length-map (candidates_loop library inputs group step limit start) _)
          ∙ ap length drawn
          ∙ length-ordinals step group.records limit start,
      rows,
      none_twice library inputs group valid positive step limit start
          (step_of_coprime group.records digest positive) below room,
    )
