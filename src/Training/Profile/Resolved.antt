-- ===== src/Training/Profile/Resolved.antt =====
-- What `resolveParameters` of internal/training/profile.go returns.
use Prim.Native.String.{String}
use waldo.Base.{
  ℕ, ◌+◌, ◌*◌, ◌%◌, ◌≤◌, ◌<◌, ◌≡◌, refl, ◌∙◌, ◌↔◌, Bool, true, false, ◌||◌, Option, List, [], ◌∷◌,
  any, length, ltb, ◌==◌, if◌then◌else◌, arith,
}
use waldo.Base.Int.{ℤ, pos, is_positive, is_zero, to_nat}
use waldo.Base.Text.{text_eq}
use waldo.Base.Floats.{Floats}
use waldo.Base.Results.{ok, reject_if, bind_ok, ok_injective}
use waldo.Training.Capacity.{max_int64}
use waldo.Training.Product.{product, multiply_int64_iff}
use waldo.Training.Profile.Types.{
  Parameters, Schedule, ResolvedParameters, ProfileError, not_positive, unsupported_optimizer,
  unsupported_schedule, bad_precision, bad_distribution, bad_epochs, bad_weight_decay,
}
use waldo.Training.Profile.Stages.{
  weighted_profile, or_text, or_else, within, listed, validate_parallelism_request, resolve_profile,
  resolve_accumulation, resolve_capacity, sum_exceeds, resolve_warmdown, weighted_order,
  unit_interval, resolve_schedule, resolve_limits, resolve_selection, check_weights, resolve_order,
}
use waldo.Training.Profile.Resolve.{
  Declared, Intervals, resolve_intervals, sizes_wrong, resolve_declared, resolved,
  resolve_parameters,
}

within_bounds :
    (e : ProfileError) (lowest highest : ℕ) (value : ℤ) (n : ℕ)
    → within e lowest highest value ≡ ok n
    → (lowest ≤ n) × (n ≤ highest)
unfolding within
within_bounds e lowest highest value n h = ground arith

resolve_accumulation_divides :
    (declared : ℤ) (batch_size n : ℕ)
    → resolve_accumulation declared batch_size ≡ ok n
    → (0 < n) × (n ≤ batch_size) × (batch_size % n ≡ 0)
unfolding resolve_accumulation is_positive to_nat
resolve_accumulation_divides declared batch_size n h = ground arith

resolve_capacity-product :
    (steps batch_size sequence_length n : ℕ)
    → resolve_capacity steps batch_size sequence_length ≡ ok n
    → (n ≡ product (steps ∷ batch_size ∷ sequence_length ∷ [])) × (n ≤ max_int64)
unfolding resolve_capacity
resolve_capacity-product steps batch_size sequence_length n h =
    ground (arith, (multiply_int64_iff (steps ∷ batch_size ∷ sequence_length ∷ []) n).0)

-- Warmup and warmdown fit within the steps, as far as their sum is an int64.
pub record FitsIn {F : Type 0} (steps : ℕ) (schedule : Schedule F) : Type 0 where
  pub warmup : schedule.warmup_steps ≤ steps
  pub warmdown : schedule.warmdown_steps ≤ steps
  pub both :
      schedule.warmup_steps + schedule.warmdown_steps ≤ max_int64
      → schedule.warmup_steps + schedule.warmdown_steps ≤ steps

resolve_warmdown_fits :
    (name : String) (declared : Option ℤ) (warmup steps n : ℕ)
    → resolve_warmdown name declared warmup steps ≡ ok n
    → (n ≤ steps) × (warmup + n ≤ max_int64 → warmup + n ≤ steps)
unfolding resolve_warmdown sum_exceeds within
resolve_warmdown_fits name declared warmup steps n h = ground arith

module _ {F : Type 0} (float : Floats F) where
  resolve_schedule-FitsIn :
      (p : Parameters F) (name : String) (steps : ℕ) (schedule : Schedule F)
      → resolve_schedule float p name steps ≡ ok schedule
      → FitsIn steps schedule
  unfolding resolve_schedule
  resolve_schedule-FitsIn p name steps schedule h =
      grind (arith, within_bounds, resolve_warmdown_fits)

  -- The limits of the evaluation set are in range, and 0 together.
  resolve_limits_bounds :
      (p : Parameters F) (limits : F × ℕ × ℕ)
      → resolve_limits float p ≡ ok limits
      → (limits.1 ≤ 1000000) × (limits.2 ≤ 17179869184) × (limits.1 ≡ 0 ↔ (limits.2 ≡ 0))
  unfolding resolve_limits
  resolve_limits_bounds p limits h = grind (arith, within_bounds)

  resolve_order_weights :
      (p : Parameters F) (profile : String) (order : String × String)
      → resolve_order float p profile ≡ ok order
      → (text_eq profile weighted_profile ≡ true ↔ (0 < length p.corpus_weights))
        × (any (λ w. text_eq w.0 "" || w.1 == 0 || ltb 1000000 w.1) p.corpus_weights ≡ false)
  unfolding resolve_order check_weights weighted_order
  resolve_order_weights p profile order h =
      let (selection, e0, h0) = bind_ok (resolve_selection float p profile) _ h in
      let (done, e1, h1) = bind_ok (check_weights float p) _ h0 in
      (
        weighted_order_cases (text_eq profile weighted_profile) p.corpus_weights
            p.evaluation_selection profile selection order h1,
        ground (arith, e1),
      )
    where
      weighted_order_cases :
          (weighted : Bool) (weights : List (String × ℕ)) (declared profile selection : String)
          (order : String × String)
          → weighted_order weighted (length weights == 0) declared profile selection ≡ ok order
          → (weighted ≡ true) ↔ (0 < length weights)
      weighted_order_cases true [] declared profile selection order h = cc
      weighted_order_cases true (w ∷ weights) declared profile selection order h =
          (λ _. omega arith, λ _. refl)
      weighted_order_cases false [] declared profile selection order h =
          (λ e. cc, λ e. absurd (omega arith))
      weighted_order_cases false (w ∷ weights) declared profile selection order h =
          absurd (ground arith)

-- A well-formed resolution of the parameters.
pub record IsResolved {F : Type 0} (r : ResolvedParameters F) : Type 0 where
  pub positive : (0 < r.steps) × (0 < r.batch_size) × (0 < r.sequence_length)
  pub accumulation :
      (0 < r.gradient_accumulation)
      × (r.gradient_accumulation ≤ r.batch_size)
      × (r.batch_size % r.gradient_accumulation ≡ 0)
  pub capacity :
      (r.planned_token_capacity ≡ r.steps * (r.batch_size * r.sequence_length))
      × (r.planned_token_capacity ≤ max_int64)
  pub epochs : (1 ≤ r.epochs) × (r.epochs ≤ 1000000)
  pub schedule : FitsIn r.steps r.schedule
  pub intervals : (r.checkpoint_every ≤ r.steps) × (r.evaluate_every ≤ r.steps)
  pub shuffle_records :
      (1 ≤ r.data_plan.shuffle_buffer_records) × (r.data_plan.shuffle_buffer_records ≤ 1000000)
  pub shuffle_bytes :
      (1 ≤ r.data_plan.shuffle_buffer_bytes) × (r.data_plan.shuffle_buffer_bytes ≤ 17179869184)
  pub limits :
      (r.evaluation.max_records ≤ 1000000)
      × (r.evaluation.max_bytes ≤ 17179869184)
      × (r.evaluation.max_records ≡ 0 ↔ (r.evaluation.max_bytes ≡ 0))
  pub weights : text_eq r.profile weighted_profile ≡ true ↔ (0 < length r.data_plan.corpus_weights)
  pub repeats : r.data_plan.repeat_until_steps ≡ ltb 0 r.requested_tokens

resolve_intervals_bounds :
    {F : Type 0} (p : Parameters F) (steps : ℕ) (i : Intervals)
    → resolve_intervals p steps ≡ ok i
    → (i.checkpoint_every ≤ steps)
      × (i.evaluate_every ≤ steps)
      × (1 ≤ i.shuffle_records)
      × (i.shuffle_records ≤ 1000000)
      × (1 ≤ i.shuffle_bytes)
      × (i.shuffle_bytes ≤ 17179869184)
unfolding resolve_intervals
resolve_intervals_bounds p steps i h = grind (arith, within_bounds)

module _ {F : Type 0} (float : Floats F) where
  sizes_positive :
      (p : Parameters F) (steps : ℕ)
      → sizes_wrong float p steps ≡ false
      → (0 < steps) × (0 < to_nat p.batch_size) × (0 < to_nat p.sequence_length)
  unfolding sizes_wrong is_positive to_nat
  sizes_positive p steps h = ground arith

  resolve_declared_facts :
      (p : Parameters F) (steps : ℕ) (d : Declared)
      → resolve_declared float p steps ≡ ok d
      → (sizes_wrong float p steps ≡ false)
        × (0 < d.accumulation)
        × (d.accumulation ≤ to_nat p.batch_size)
        × (to_nat p.batch_size % d.accumulation ≡ 0)
        × (d.capacity ≡ product (steps ∷ to_nat p.batch_size ∷ to_nat p.sequence_length ∷ []))
        × (d.capacity ≤ max_int64)
        × (1 ≤ d.epochs)
        × (d.epochs ≤ 1000000)
  unfolding resolve_declared
  resolve_declared_facts p steps d h =
      let (requested, e0, h0) = bind_ok (validate_parallelism_request p.parallelism) _ h in
      let (profile, e1, h1) = bind_ok (resolve_profile p.profile) _ h0 in
      let (sizes, e2, h2) = bind_ok (reject_if (sizes_wrong float p steps) not_positive) _ h1 in
      let (optimizer, e3, h3) =
        bind_ok
          (listed unsupported_optimizer ("adamw" ∷ "muon-adamw" ∷ []) (or_text "adamw" p.optimizer))
          _ h2 in
      let (schedule, e4, h4) =
        bind_ok
          (listed unsupported_schedule ("cosine" ∷ "warmup-stable-warmdown" ∷ [])
            (or_text "cosine" p.schedule))
          _ h3 in
      let (accumulation, e5, h5) =
        bind_ok (resolve_accumulation p.gradient_accumulation (to_nat p.batch_size)) _ h4 in
      let (precision, e6, h6) =
        bind_ok
          (listed bad_precision ("auto" ∷ "float32" ∷ "float16" ∷ "bfloat16" ∷ [])
            (or_text "auto" p.compute_precision))
          _ h5 in
      let (distribution, e7, h7) =
        bind_ok (listed bad_distribution ("" ∷ "distributable" ∷ []) p.distribution_policy) _ h6 in
      let (epochs, e8, h8) =
        bind_ok (within bad_epochs 1 1000000 (if is_zero p.epochs then pos 1 else p.epochs)) _ h7 in
      let (capacity, e9, h9) =
        bind_ok (resolve_capacity steps (to_nat p.batch_size) (to_nat p.sequence_length)) _ h8 in
      let (a, b, c) =
        resolve_accumulation_divides p.gradient_accumulation (to_nat p.batch_size) accumulation
          e5 in
      let (k, l) =
        resolve_capacity-product steps (to_nat p.batch_size) (to_nat p.sequence_length) capacity
          e9 in
      let (m, n) = within_bounds bad_epochs 1 1000000 _ epochs e8 in
      rw (← ok_injective h9) (not_rejected (sizes_wrong float p steps) e2, a, b, c, k, l, m, n)
    where
      not_rejected : (bad : Bool) → reject_if bad not_positive ≡ ok tt → bad ≡ false
      not_rejected bad h = ground arith

  resolved-IsResolved :
      (p : Parameters F) (steps requested_tokens : ℕ) (d : Declared) (weight_decay : F)
      (schedule : Schedule F) (i : Intervals) (limits : F × ℕ × ℕ) (order : String × String)
      → resolve_declared float p steps ≡ ok d
      → resolve_schedule float p d.schedule steps ≡ ok schedule
      → resolve_intervals p steps ≡ ok i
      → resolve_limits float p ≡ ok limits
      → resolve_order float p d.profile ≡ ok order
      → IsResolved (resolved float p steps requested_tokens d weight_decay schedule i limits order)
  unfolding resolved
  resolved-IsResolved p steps requested_tokens d weight_decay schedule i limits order e0 e2 e3 e4
        e5 =
      let (sizes, acc_pos, acc_le, divides, planned, small, low, high) =
        resolve_declared_facts p steps d e0 in
      let (checkpoint, evaluate, s1, s2, s3, s4) = resolve_intervals_bounds p steps i e3 in
      record {
        positive = sizes_positive p steps sizes;
        accumulation = (acc_pos, acc_le, divides);
        capacity = (planned ∙ regroup, small);
        epochs = (low, high);
        schedule = resolve_schedule-FitsIn float p d.schedule steps schedule e2;
        intervals = (checkpoint, evaluate);
        shuffle_records = (s1, s2);
        shuffle_bytes = (s3, s4);
        limits = resolve_limits_bounds float p limits e4;
        weights = (resolve_order_weights float p d.profile order e5).0;
        repeats = refl;
      }
    where
      regroup :
          product (steps ∷ to_nat p.batch_size ∷ to_nat p.sequence_length ∷ [])
          ≡ steps * (to_nat p.batch_size * to_nat p.sequence_length)
      regroup = grind arith

  -- Whatever `resolveParameters` returns is well formed, for the steps and the tokens that it got.
  pub resolve_parameters-IsResolved :
      (p : Parameters F) (steps requested_tokens : ℕ) (r : ResolvedParameters F)
      → resolve_parameters float p steps requested_tokens ≡ ok r
      → IsResolved r × (r.steps ≡ steps) × (r.requested_tokens ≡ requested_tokens)
  unfolding resolve_parameters resolved
  resolve_parameters-IsResolved p steps requested_tokens r h =
      let (declared, e0, h0) = bind_ok (resolve_declared float p steps) _ h in
      let (weight_decay, e1, h1) =
        bind_ok (unit_interval float bad_weight_decay (or_else (float.literal 1 1) p.weight_decay))
          _ h0 in
      let (schedule, e2, h2) = bind_ok (resolve_schedule float p declared.schedule steps) _ h1 in
      let (intervals, e3, h3) = bind_ok (resolve_intervals p steps) _ h2 in
      let (limits, e4, h4) = bind_ok (resolve_limits float p) _ h3 in
      let (order, e5, h5) = bind_ok (resolve_order float p declared.profile) _ h4 in
      let made : resolved float p steps requested_tokens declared weight_decay schedule intervals
            limits order
          ≡ r =
        ground (arith, h5) in
      rw (← made) (
        resolved-IsResolved p steps requested_tokens declared weight_decay schedule intervals limits
            order e0 e2 e3 e4 e5,
        refl,
        refl,
      )
