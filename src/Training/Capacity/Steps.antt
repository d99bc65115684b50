-- ===== src/Training/Capacity/Steps.antt =====
-- The optimizer steps of `TrainingSteps` and `TrainingStepCapacity`, internal/training/stream.go.
use native.Mathlib.Nat.{div-add-mod, mod-lt, mul-pos}
use waldo.Base.{
  ℕ, ◌+◌, ◌*◌, ◌/◌, ◌%◌, ◌≤◌, ◌<◌, ◌≡◌, inl, inr, Bool, true, false, List, arith, tests, ltb, leb,
  ◌==◌, All, min, Bool-cases,
}
use waldo.Base.Results.{ok, err}
use waldo.Training.Capacity.{
  Demand, no_usable_step, is_reached, max_int64, steps_of, training_steps, training_step_capacity,
}
use waldo.Training.Capacity.Exact.{total_of, IsTokenized, training_sequence_capacity_exact}

no_rest : {n : ℕ} → (n == 0) ≡ true → n ≡ 0
no_rest h = ground arith

some_rest : {n : ℕ} → (n == 0) ≡ false → 0 < n
some_rest h = ground arith

-- The least number of batches that holds the sequences.
steps_bounds :
    (batch_size sequences : ℕ)
    → 0 < batch_size
    → (sequences ≤ steps_of batch_size sequences * batch_size)
      × (steps_of batch_size sequences * batch_size < sequences + batch_size)
unfolding steps_of
steps_bounds batch_size sequences h = elim (Bool-cases (sequences % batch_size == 0)) [
  | inl whole ↦ rw whole (
    omega (tests, arith, no_rest whole, div-add-mod sequences batch_size),
    omega (tests, arith, no_rest whole, div-add-mod sequences batch_size),
  )
  | inr partial ↦ rw partial (
    omega (tests, arith, some_rest partial, div-add-mod sequences batch_size, mod-lt sequences h),
    omega (tests, arith, some_rest partial, div-add-mod sequences batch_size, mod-lt sequences h),
  )
]

le-steps :
    (batch_size sequences k : ℕ)
    → 0 < batch_size
    → k * batch_size ≤ sequences
    → k ≤ steps_of batch_size sequences
le-steps batch_size sequences k h e = grind (arith, steps_bounds batch_size sequences h)

steps-le :
    (batch_size sequences k : ℕ)
    → 0 < batch_size
    → sequences ≤ k * batch_size
    → steps_of batch_size sequences ≤ k
steps-le batch_size sequences k h e = grind (arith, steps_bounds batch_size sequences h)

steps_pos :
    (batch_size sequences : ℕ) → 0 < batch_size → 0 < sequences → 0 < steps_of batch_size sequences
steps_pos batch_size sequences h k = grind (arith, steps_bounds batch_size sequences h)

-- For positive sizes and tokenized records, a stream with at least one sequence gives the least
-- number of steps whose batches hold all its sequences, and one with none gives the error.
pub training_steps_ceiling :
    (width batch_size : ℕ) (demands : List Demand)
    → 0 < width
    → 0 < batch_size
    → All IsTokenized demands
    → (0 < total_of width demands
        → (steps : ℕ) × (training_steps width batch_size demands ≡ ok steps)
          × (total_of width demands ≤ steps * batch_size)
          × (steps * batch_size < total_of width demands + batch_size))
      × (total_of width demands ≡ 0 → training_steps width batch_size demands ≡ err no_usable_step)
unfolding training_steps
training_steps_ceiling width batch_size demands w b t =
    let (n, sufficient, runs, decides, below, exact, enough) =
      training_sequence_capacity_exact width 0 demands w t in
    let counted : n ≡ total_of width demands = exact (ground arith) in
    (
      λ some_sequence. (
        steps_of batch_size n,
        rw runs (ground (arith, steps_pos batch_size n b (omega arith))),
        omega (arith, steps_bounds batch_size n b, counted),
        omega (arith, steps_bounds batch_size n b, counted),
      ),
      λ none_left. rw runs (ground (arith, steps-le batch_size n 0 b (omega (arith, counted)))),
    )

-- For positive sizes whose product fits in an int64 and tokenized records, the capacity is the
-- lesser of the requested steps and the steps of the whole stream, and it is sufficient exactly if
-- the stream has the requested steps.
pub training_step_capacity_exact :
    (width batch_size requested : ℕ) (demands : List Demand)
    → 0 < width
    → 0 < batch_size
    → 0 < requested
    → requested ≤ max_int64 / batch_size
    → All IsTokenized demands
    → training_step_capacity width batch_size requested demands
      ≡ ok (
        min requested (steps_of batch_size (total_of width demands)),
        leb requested (steps_of batch_size (total_of width demands)),
      )
unfolding training_step_capacity
training_step_capacity_exact width batch_size requested demands w b r fits t =
    let (n, sufficient, runs, decides, below, exact, enough) =
      training_sequence_capacity_exact width (requested * batch_size) demands w t in
    rw (nonzero r, nonzero b, nonzero w, not_over, runs)
      (elim (Bool-cases sufficient) [
        | inl all_there ↦ ground (
          arith,
          all_there,
          le-steps batch_size (total_of width demands) requested b
              (omega (arith, enough all_there)),
        )
        | inr too_few ↦ ground (arith, too_few, exact too_few, not_enough decides too_few)
      ])
  where
    nonzero : {k : ℕ} → 0 < k → (k == 0) ≡ false
    nonzero h = ground arith

    not_over : ltb (max_int64 / batch_size) requested ≡ false
    not_over = ground arith

    not_enough :
        {sufficient : Bool}
        → sufficient ≡ is_reached (requested * batch_size) (total_of width demands)
        → sufficient ≡ false
        → steps_of batch_size (total_of width demands) ≤ requested
    not_enough decides too_few =
        steps-le batch_size (total_of width demands) requested b (ground (arith, mul-pos r b))
