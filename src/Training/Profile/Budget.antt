-- ===== src/Training/Profile/Budget.antt =====
-- The budget of `resolveTrainingBudget` and the topology of `ValidateBatchTopology`, in
-- internal/training/profile.go.
use native.Mathlib.Nat.{
  div-add-mod, mod-lt, mul-pos, div-eq_of_eq-mul_right, le-div_iff_mul-le, mul-mod_right,
  le-mul_of_pos_right,
}
use waldo.Base.{
  ℕ, ◌+◌, ◌*◌, ◌/◌, ◌%◌, ◌≤◌, ◌<◌, ◌≡◌, ◌∙◌, ap, ◌↔◌, true, false, [], ◌∷◌, ◌==◌, arith, Bool-cases,
  Option-cases, inl, inr,
}
use waldo.Base.Int.{ℤ, is_positive, to_nat}
use waldo.Base.Floats.{Floats}
use waldo.Base.Results.{ok, reject_if, bind_ok}
use waldo.Training.Product.{multiply_int64, multiply_int64_iff}
use waldo.Training.Profile.Types.{Parameters, ResolvedParameters, steps_unresolved}
use waldo.Training.Profile.Resolve.{
  token_steps, resolve_training_budget, resolve, validate_batch_topology,
}
use waldo.Training.Profile.Resolved.{IsResolved, resolve_parameters-IsResolved}

token_steps_bounds :
    (tokens capacity : ℕ)
    → 0 < capacity
    → (tokens ≤ token_steps tokens capacity * capacity)
      × (token_steps tokens capacity * capacity < tokens + capacity)
unfolding token_steps
token_steps_bounds tokens capacity h = elim (Bool-cases (tokens % capacity == 0)) [
  | inl whole ↦ rw whole (
    omega (arith, no_rest whole, div-add-mod tokens capacity),
    omega (arith, no_rest whole, div-add-mod tokens capacity),
  )
  | inr partial ↦ rw partial (
    omega (arith, div-add-mod tokens capacity, mod-lt tokens h),
    omega (arith, some_rest partial, div-add-mod tokens capacity),
  )
]
  where
    no_rest : {n : ℕ} → (n == 0) ≡ true → n ≡ 0
    no_rest h = ground arith

    some_rest : {n : ℕ} → (n == 0) ≡ false → 0 < n
    some_rest h = ground arith

-- What the steps are for a budget: they hold the tokens and a step less does not, or they are those
-- declared.
pub record MeetsBudget {F : Type 0} (p : Parameters F) (r : ResolvedParameters F) : Type 0 where
  pub tokens :
      is_positive p.tokens ≡ true
      → (r.requested_tokens ≡ to_nat p.tokens)
        × (r.requested_tokens ≤ r.steps * (to_nat p.batch_size * to_nat p.sequence_length))
        × (r.steps * (to_nat p.batch_size * to_nat p.sequence_length)
            < r.requested_tokens + to_nat p.batch_size * to_nat p.sequence_length)
  pub declared :
      is_positive p.tokens ≡ false → (r.steps ≡ to_nat p.steps) × (r.requested_tokens ≡ 0)

module _ {F : Type 0} (p : Parameters F) (steps requested : ℕ)
    (made : resolve_training_budget p ≡ ok (steps, requested)) where
  budget_tokens :
      is_positive p.tokens ≡ true
      → (requested ≡ to_nat p.tokens)
        × (requested ≤ steps * (to_nat p.batch_size * to_nat p.sequence_length))
        × (steps * (to_nat p.batch_size * to_nat p.sequence_length)
            < requested + to_nat p.batch_size * to_nat p.sequence_length)
  unfolding resolve_training_budget
  budget_tokens h =
      elim (Option-cases (multiply_int64 (to_nat p.batch_size ∷ to_nat p.sequence_length ∷ []))) [
        | inl overflow ↦ absurd (ground (arith, made, overflow, h))
        | inr (capacity, e) ↦
            let (sizes, same, small) =
              (multiply_int64_iff (to_nat p.batch_size ∷ to_nat p.sequence_length ∷ []) capacity).0
                e in
            let is_product : capacity ≡ to_nat p.batch_size * to_nat p.sequence_length =
              omega (arith, same) in
            let found : (steps ≡ token_steps (to_nat p.tokens) capacity)
                × (requested ≡ to_nat p.tokens) =
              ground (arith, made, e, h) in
            let (enough, least) =
              token_steps_bounds (to_nat p.tokens) capacity
                (rw is_product (mul-pos sizes.0 sizes.1.0)) in
            (
              found.1,
              rw (found.0, found.1, ← is_product) enough,
              rw (found.0, found.1, ← is_product) least,
            )
      ]

  budget_declared :
      is_positive p.tokens ≡ false → 0 < steps → (steps ≡ to_nat p.steps) × (requested ≡ 0)
  unfolding resolve_training_budget
  budget_declared h k = ground arith

-- Whenever `ResolveParameters` returns parameters, they are well formed, and they meet the declared
-- budget of tokens or of steps.
pub resolve-IsResolved :
    {F : Type 0} (float : Floats F) (p : Parameters F) (r : ResolvedParameters F)
    → resolve float p ≡ ok r
    → IsResolved r × MeetsBudget p r
unfolding resolve
resolve-IsResolved float p r h =
    let ((steps, requested), e0, h0) = bind_ok (resolve_training_budget p) _ h in
    let (done, e1, h1) = bind_ok (reject_if (steps == 0) steps_unresolved) _ h0 in
    let (good, same_steps, same_tokens) =
      resolve_parameters-IsResolved float p steps requested r h1 in
    (
      good,
      record {
        tokens = λ t. rw (same_steps, same_tokens) (budget_tokens p steps requested e0 t);
        declared = λ t.
            rw (same_steps, same_tokens)
              (budget_declared p steps requested e0 t (ground (arith, e1)));
      },
    )

shared_out : (n m k : ℕ) → n % m ≡ 0 → n / m % k ≡ 0 → n ≡ m * (k * (n / m / k))
shared_out n m k e f = omega (arith, div-add-mod n m, ap (λ (t : ℕ). m * t) inner)
  where
    inner : k * (n / m / k) ≡ n / m
    inner = omega (arith, div-add-mod (n / m) k)

-- `ValidateBatchTopology` accepts a batch exactly if it is shared out evenly: each of the ranks, of
-- which there is at least one, gets the same positive number of sequences in each accumulation step.
pub validate_batch_topology_iff :
    (batch_size accumulation : ℕ) (world_size : ℤ)
    → (validate_batch_topology batch_size accumulation world_size ≡ true) ↔ (
        (1 ≤ to_nat world_size)
        × (1 ≤ accumulation)
        × (share : ℕ) × (1 ≤ share)
        × (batch_size ≡ accumulation * (to_nat world_size * share)))
unfolding validate_batch_topology is_positive to_nat
validate_batch_topology_iff batch_size accumulation world_size = (sound, complete)
  where
    sound :
        validate_batch_topology batch_size accumulation world_size ≡ true
        → (1 ≤ to_nat world_size)
          × (1 ≤ accumulation)
          × (share : ℕ) × (1 ≤ share)
          × (batch_size ≡ accumulation * (to_nat world_size * share))
    sound h =
        let tests : (1 ≤ to_nat world_size)
            × (1 ≤ accumulation)
            × (batch_size % accumulation ≡ 0)
            × (to_nat world_size ≤ batch_size / accumulation)
            × (batch_size / accumulation % to_nat world_size ≡ 0) =
          ground arith in
        (
          tests.0,
          tests.1,
          batch_size / accumulation / to_nat world_size,
          (le-div_iff_mul-le tests.0).1 (omega arith),
          shared_out batch_size accumulation (to_nat world_size) tests.2 tests.4,
        )

    complete :
        (1 ≤ to_nat world_size)
          × (1 ≤ accumulation)
          × (share : ℕ) × (1 ≤ share)
          × (batch_size ≡ accumulation * (to_nat world_size * share))
        → validate_batch_topology batch_size accumulation world_size ≡ true
    complete (w, a, share, s, e) =
        let quotient : batch_size / accumulation ≡ to_nat world_size * share =
          div-eq_of_eq-mul_right a e in
        let batch : batch_size % accumulation ≡ 0 =
          ap (λ (t : ℕ). t % accumulation) e
          ∙ mul-mod_right accumulation (to_nat world_size * share) in
        let ranks : batch_size / accumulation % to_nat world_size ≡ 0 =
          ap (λ (t : ℕ). t % to_nat world_size) quotient
          ∙ mul-mod_right (to_nat world_size) share in
        let large : to_nat world_size ≤ batch_size / accumulation =
          rw quotient (le-mul_of_pos_right (to_nat world_size) s) in
        ground arith
