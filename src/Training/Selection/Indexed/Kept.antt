-- ===== src/Training/Selection/Indexed/Kept.antt =====
-- What `newIndexedRecordPartition` of internal/training/stream.go selects: no row twice, and no more
-- rows and bytes than the policy allows.
use waldo.Base.{
  ℕ, ◌+◌, ◌-◌, ◌≤◌, ◌<◌, ◌≡◌, refl, ap, Bool, ◌&&◌, ◌||◌, Option, none, some, List, [], ◌∷◌, ◌++◌,
  map, count, count-append, length, length-append, min, arith, tests, ltb, ◌==◌, if◌then◌else◌, All,
  All-append, Bool-cases, inl, inr,
}
use waldo.Base.Floats.{Floats}
use waldo.Base.Results.{ok, reject_if, bind_ok, then_ok, else_ok, ok_injective}
use waldo.Training.Capacity.{max_int64}
use waldo.Training.Selection.{
  Input, IndexedInputGroup, EvaluationCandidate, Library, indexed_evaluation_candidates,
}
use waldo.Training.Selection.Indexed.{
  Scaling, Policy, groups_loop, sort_groups, desired_evaluation_records, probe_limit, max_rounds,
  Selected, consider, select_loop, none_selected, indexed_candidates, select_indexed, selects_none,
  none_fits, bad_record_count, corpus_required, is_empty_name, group_name, add_input,
}
use waldo.Training.Selection.Indexed.Groups.{lists, IsFilled, groups_loop-sorted}
use waldo.Training.Selection.Indexed.Rounds.{
  is_row, IsDeclared, count-rounds_loop, rounds_loop-All, sum_from-drawn, drawn-All,
}

abbrev pub total_records : List Input → ℕ
total_records [] = 0
total_records (input ∷ inputs) = input.records + total_records inputs

groups_loop-total :
    (stratified : Bool) (position : ℕ) (inputs : List Input) (total sum : ℕ)
    (groups out : List IndexedInputGroup)
    → groups_loop stratified position inputs total groups ≡ ok (sum, out)
    → sum ≡ total + total_records inputs
unfolding groups_loop
groups_loop-total stratified position [] total sum groups out h =
    omega (arith, ap (λ (q : ℕ × List IndexedInputGroup). q.0) (ok_injective h))
groups_loop-total stratified position (input ∷ inputs) total sum groups out h =
    let (_, _, h0) =
      bind_ok
        (reject_if (input.records == 0 || ltb (max_int64 - input.records) total)
          (bad_record_count input.sha256))
        _ h in
    let (_, _, h1) =
      bind_ok (reject_if (stratified && is_empty_name input.corpus) (corpus_required input.sha256))
        _ h0 in
    omega (
      arith,
      groups_loop-total stratified (position + 1) inputs (total + input.records) sum
          (add_input (group_name stratified input) position input.records groups) out h1,
    )

-- The bytes of the rows, where they are let pass.
abbrev pub bytes_of : (EvaluationCandidate → Option ℕ) → List EvaluationCandidate → ℕ
bytes_of text_bytes [] = 0
bytes_of text_bytes (c ∷ candidates) =
    (elim (text_bytes c) [ none ↦ 0 | some size ↦ size ]) + bytes_of text_bytes candidates

bytes_of-append :
    (text_bytes : EvaluationCandidate → Option ℕ) (xs ys : List EvaluationCandidate)
    → bytes_of text_bytes (xs ++ ys) ≡ bytes_of text_bytes xs + bytes_of text_bytes ys
bytes_of-append text_bytes [] ys = omega arith
bytes_of-append text_bytes (x ∷ xs) ys = omega (arith, bytes_of-append text_bytes xs ys)

-- The rows are let pass, their bytes are counted, and the limits are kept.
pub record IsWithin (desired max_bytes : ℕ) (text_bytes : EvaluationCandidate → Option ℕ)
    (selected : Selected) : Type 0 where
  pub eligible : All (λ c. (size : ℕ) × (text_bytes c ≡ some size)) selected.candidates
  pub counted : selected.bytes ≡ bytes_of text_bytes selected.candidates
  pub small : selected.bytes ≤ max_bytes
  pub few : length selected.candidates ≤ desired

module _ (desired max_bytes : ℕ) (text_bytes : EvaluationCandidate → Option ℕ) where
  consider-IsWithin :
      (size : Option ℕ) (c : EvaluationCandidate) (selected : Selected)
      → text_bytes c ≡ size
      → length selected.candidates < desired
      → IsWithin desired max_bytes text_bytes selected
      → IsWithin desired max_bytes text_bytes (consider max_bytes size c selected)
        × ((p : EvaluationCandidate → Bool)
            → count p (consider max_bytes size c selected).candidates
              ≤ count p selected.candidates + (if p c then 1 else 0))
  unfolding consider
  consider-IsWithin none c selected f room v = (v, λ p. omega arith)
  consider-IsWithin (some size) c selected f room v =
      elim (Bool-cases (ltb (max_bytes - selected.bytes) size)) [
        | inl g ↦ rw g (v, λ p. omega arith)
        | inr g ↦ rw g (
          record {
            eligible =
                All-append (λ d. (n : ℕ) × (text_bytes d ≡ some n)) selected.candidates (c ∷ [])
                  v.eligible ((size, f), tt);
            counted = omega (
              arith,
              v.counted,
              bytes_of-append text_bytes selected.candidates (c ∷ []),
              ap {B = ℕ} (λ o. elim o [ none ↦ 0 | some n ↦ n ]) f,
            );
            small = omega (tests, g, v.small);
            few = omega (arith, room, length-append selected.candidates (c ∷ []));
          },
          λ p. omega (arith, count-append p selected.candidates (c ∷ [])),
        )
      ]

  select_loop_step :
      (c : EvaluationCandidate) (candidates : List EvaluationCandidate) (selected : Selected)
      → select_loop desired max_bytes text_bytes (c ∷ candidates) selected ≡ (
          if length selected.candidates == desired
          then selected
          else select_loop desired max_bytes text_bytes candidates
              (consider max_bytes (text_bytes c) c selected))
  unfolding select_loop
  select_loop_step c candidates selected = ground arith

  select_loop_nil :
      (selected : Selected) → select_loop desired max_bytes text_bytes [] selected ≡ selected
  unfolding select_loop
  select_loop_nil selected = refl

  select_loop_lem :
      (candidates : List EvaluationCandidate) (selected : Selected)
      → IsWithin desired max_bytes text_bytes selected
      → IsWithin desired max_bytes text_bytes
          (select_loop desired max_bytes text_bytes candidates selected)
        × ((p : EvaluationCandidate → Bool)
            → count p (select_loop desired max_bytes text_bytes candidates selected).candidates
              ≤ count p selected.candidates + count p candidates)
  select_loop_lem [] selected v = rw (select_loop_nil selected) (v, λ p. omega arith)
  select_loop_lem (c ∷ candidates) selected v =
      elim (Bool-cases (length selected.candidates == desired)) [
        | inl e ↦ rw (select_loop_step c candidates selected, e) (v, λ p. omega arith)
        | inr e ↦
            let (w, more) =
              consider-IsWithin (text_bytes c) c selected refl (ground (arith, e, v.few)) v in
            let (x, fewer) =
              select_loop_lem candidates (consider max_bytes (text_bytes c) c selected) w in
            rw (select_loop_step c candidates selected, e) (x, λ p. omega (arith, fewer p, more p))
      ]

consider-All {ℓ} :
    (P : EvaluationCandidate → Type ℓ) (max_bytes : ℕ) (size : Option ℕ) (c : EvaluationCandidate)
    (selected : Selected)
    → P c
    → All P selected.candidates
    → All P (consider max_bytes size c selected).candidates
unfolding consider
consider-All P max_bytes none c selected p k = k
consider-All P max_bytes (some size) c selected p k =
    elim (Bool-cases (ltb (max_bytes - selected.bytes) size)) [
      | inl g ↦ rw g k
      | inr g ↦ rw g (All-append P selected.candidates (c ∷ []) k (p, tt))
    ]

-- What all candidates have that a loop selects from.
select_loop-All {ℓ} :
    (P : EvaluationCandidate → Type ℓ) (desired max_bytes : ℕ)
    (text_bytes : EvaluationCandidate → Option ℕ) (candidates : List EvaluationCandidate)
    (selected : Selected)
    → All P candidates
    → All P selected.candidates
    → All P (select_loop desired max_bytes text_bytes candidates selected).candidates
select_loop-All P desired max_bytes text_bytes [] selected h k =
    rw (select_loop_nil desired max_bytes text_bytes selected) k
select_loop-All P desired max_bytes text_bytes (c ∷ candidates) selected h k =
    elim (Bool-cases (length selected.candidates == desired)) [
      | inl e ↦ rw (select_loop_step desired max_bytes text_bytes c candidates selected, e) k
      | inr e ↦
          rw (select_loop_step desired max_bytes text_bytes c candidates selected, e)
            (select_loop-All P desired max_bytes text_bytes candidates
              (consider max_bytes (text_bytes c) c selected) h.1
              (consider-All P max_bytes (text_bytes c) c selected h.0 k))
    ]

-- As many rows as are desired are at most those that the policy allows, and leave one.
desired_evaluation_records-le :
    {F : Type 0} (float : Floats F) (scaling : Scaling F) (total : ℕ) (fraction : F) (maximum : ℕ)
    → (desired_evaluation_records float scaling total fraction maximum ≤ maximum)
      × (desired_evaluation_records float scaling total fraction maximum ≤ total - 1)
unfolding desired_evaluation_records
desired_evaluation_records-le float scaling total fraction maximum = ground arith

probe_limit-within :
    (desired groups : ℕ) (group : IndexedInputGroup)
    → 0 < group.records
    → (0 < probe_limit desired groups group) × (probe_limit desired groups group ≤ group.records)
unfolding probe_limit
probe_limit-within desired groups group positive = (omega (arith, positive), omega arith)

indexed_candidates_lem :
    (library : Library) (inputs : List Input) (seed desired : ℕ) (groups : List IndexedInputGroup)
    → All (IsFilled inputs) groups
    → All (IsDeclared inputs) (indexed_candidates library inputs seed desired groups)
      × ((input row : ℕ)
          → count (is_row input row) (indexed_candidates library inputs seed desired groups)
            ≤ count (lists input) groups)
unfolding indexed_candidates
indexed_candidates_lem library inputs seed desired groups filled =
    let limit = probe_limit desired (length groups) in
    let within = probe_limit-within desired (length groups) in
    let drawn =
      map (λ group. indexed_evaluation_candidates library inputs group seed (limit group)) groups in
    (
      rounds_loop-All (IsDeclared inputs) (max_rounds drawn) 0 drawn
          (drawn-All library inputs seed limit within groups filled),
      λ input row. omega (
        arith,
        count-rounds_loop (is_row input row) (max_rounds drawn) 0 drawn,
        sum_from-drawn library inputs seed limit within groups input row filled,
      ),
    )

-- What `newIndexedRecordPartition` selects for evaluation: rows that shards declare and the filters
-- let pass, none of them twice; their bytes are counted, and are at most those that the policy
-- allows; and they are at most as many as it allows, and fewer than all records, if there are any.
pub select_indexed-IsWithin :
    {F : Type 0} (float : Floats F) (scaling : Scaling F) (library : Library) (inputs : List Input)
    (seed : ℕ) (policy : Policy F) (text_bytes : EvaluationCandidate → Option ℕ)
    (selected : Selected)
    → select_indexed float scaling library inputs seed policy text_bytes ≡ ok selected
    → IsWithin
        (min policy.max_records (total_records inputs - 1))
        policy.max_bytes
        text_bytes
        selected
      × All (IsDeclared inputs) selected.candidates
      × ((input row : ℕ) → count (is_row input row) selected.candidates ≤ 1)
unfolding select_indexed
select_indexed-IsWithin float scaling library inputs seed policy text_bytes selected h =
    let ((total, groups), e0, h0) = bind_ok (groups_loop policy.stratified 0 inputs 0 []) _ h in
    let desired =
      desired_evaluation_records float scaling total policy.fraction policy.max_records in
    let sum = groups_loop-total policy.stratified 0 inputs 0 total [] groups e0 in
    elim (Bool-cases (ltb total 2)) [
      | inl few ↦ rw (← ok_injective (then_ok (ltb total 2) (ok none_selected) _ h0 few)) (
        record { eligible = tt; counted = refl; small = omega arith; few = omega arith },
        tt,
        λ input row. omega arith,
      )
      | inr many ↦
          let (_, e1, h1) =
            bind_ok (reject_if (desired == 0) selects_none) _
              (else_ok (ltb total 2) (ok none_selected) _ h0 many) in
          let sorted = sort_groups groups in
          let candidates = indexed_candidates library inputs seed desired sorted in
          let all = select_loop desired policy.max_bytes text_bytes candidates none_selected in
          let (_, e2, h2) = bind_ok (reject_if (length all.candidates == 0) none_fits) _ h1 in
          let (filled, once) = groups_loop-sorted inputs policy.stratified total groups e0 in
          let (declared, counted) =
            indexed_candidates_lem library inputs seed desired sorted filled in
          let (kept, fewer) =
            select_loop_lem desired policy.max_bytes text_bytes candidates none_selected
              (record { eligible = tt; counted = refl; small = omega arith; few = omega arith }) in
          let (most, one_left) =
            desired_evaluation_records-le float scaling total policy.fraction policy.max_records in
          rw (← ok_injective h2) (
            record {
              eligible = kept.eligible;
              counted = kept.counted;
              small = kept.small;
              few = omega (arith, kept.few, most, one_left, sum);
            },
            select_loop-All (IsDeclared inputs) desired policy.max_bytes text_bytes candidates
                none_selected declared tt,
            λ input row. omega (arith, fewer (is_row input row), counted input row, once input),
          )
    ]
