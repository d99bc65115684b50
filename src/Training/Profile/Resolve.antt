-- ===== src/Training/Profile/Resolve.antt =====
-- `resolveTrainingBudget`, `resolveParameters` and the functions that call them, in
-- internal/training/profile.go.
use Prim.Native.String.{String}
use waldo.Base.{
  ℕ, ◌+◌, ◌/◌, ◌%◌, min, max, Bool, false, not, ◌&&◌, ◌||◌, none, some, [], ◌∷◌, ltb, ◌==◌,
  if◌then◌else◌,
}
use waldo.Base.Int.{ℤ, pos, is_negative, is_positive, is_zero, to_nat}
use waldo.Base.Text.{text_eq}
use waldo.Base.Floats.{Floats, float_zero, not_finite}
use waldo.Base.Results.{Result, ok, err, ◌>>=◌, ◌>>◌, reject_if}
use waldo.Training.Product.{multiply_int64}
use waldo.Training.Profile.Types.{
  Parameters, Schedule, ResolvedParameters, ProfileError, negative_budget, tokens_combined,
  step_capacity_overflows, budget_missing, steps_unresolved, not_epoch_only,
  derived_steps_not_positive, not_positive, unsupported_optimizer, unsupported_schedule,
  bad_precision, bad_distribution, bad_epochs, bad_weight_decay, bad_checkpoint_every,
  bad_evaluate_every, bad_shuffle_records, bad_shuffle_bytes,
}
use waldo.Training.Profile.Stages.{
  canonical_profile, or_text, or_else, within, listed, validate_parallelism_request,
  resolve_profile, resolve_accumulation, resolve_capacity, unit_interval, resolve_schedule,
  resolve_limits, resolve_order,
}

-- The steps that hold the tokens, where one step holds `capacity` of them.
unfoldable pub token_steps : ℕ → ℕ → ℕ
token_steps tokens capacity =
    if tokens % capacity == 0 then tokens / capacity else tokens / capacity + 1

-- `resolveTrainingBudget`: the steps and the requested tokens.
unfoldable pub resolve_training_budget : {F : Type 0} → Parameters F → Result ProfileError (ℕ × ℕ)
resolve_training_budget p =
    if is_negative p.steps || is_negative p.tokens
    then err negative_budget
    else if is_positive p.tokens
    then (if is_positive p.steps || is_positive p.epochs
        then err tokens_combined
        else elim (multiply_int64 (to_nat p.batch_size ∷ to_nat p.sequence_length ∷ [])) [
          | none ↦ err step_capacity_overflows
          | some capacity ↦ ok (token_steps (to_nat p.tokens) capacity, to_nat p.tokens)
        ])
    else if is_positive p.steps
    then ok (to_nat p.steps, 0)
    else if is_positive p.epochs
    then ok (0, 0)
    else err budget_missing

-- `ValidateBatchTopology`; the message is left out.
unfoldable pub validate_batch_topology : ℕ → ℕ → ℤ → Bool
validate_batch_topology batch_size accumulation world_size =
    if not (is_positive world_size)
    then false
    else if ltb accumulation 1 || not (batch_size % accumulation == 0)
    then false
    else not (
        ltb (batch_size / accumulation) (to_nat world_size)
        || not (batch_size / accumulation % to_nat world_size == 0))

-- `NormalizeResolvedParameters`
unfoldable pub normalize_resolved_parameters :
    {F : Type 0} → ResolvedParameters F → ResolvedParameters F
normalize_resolved_parameters r = record r {
  profile = canonical_profile r.profile;
  profile_schema =
      if (text_eq r.profile "causal-pretrain-v1" && r.profile_schema == 1)
        || (text_eq r.profile "causal-pretrain-v2" && r.profile_schema == 2)
        || (text_eq r.profile "causal-pretrain-v3" && r.profile_schema == 3)
      then 1
      else r.profile_schema;
}

-- What the first half of `resolveParameters` has found.
pub record Declared : Type 0 where
  pub profile : String
  pub optimizer : String
  pub schedule : String
  pub accumulation : ℕ
  pub precision : String
  pub distribution : String
  pub epochs : ℕ
  pub capacity : ℕ

-- What `resolveParameters` has found of the intervals and of the shuffle buffer.
pub record Intervals : Type 0 where
  pub checkpoint_every : ℕ
  pub evaluate_every : ℕ
  pub shuffle_records : ℕ
  pub shuffle_bytes : ℕ

unfoldable pub resolve_intervals : {F : Type 0} → Parameters F → ℕ → Result ProfileError Intervals
resolve_intervals p steps = do
  checkpoint_every ←
      within bad_checkpoint_every 0 steps (or_else (pos (min 500 steps)) p.checkpoint_every)
  evaluate_every ←
      within bad_evaluate_every 0 steps (or_else (pos (min 500 steps)) p.evaluate_every)
  shuffle_records ←
      within bad_shuffle_records 1 1000000 (or_else (pos 1024) p.shuffle_buffer_records)
  shuffle_bytes ←
      within bad_shuffle_bytes 1 17179869184 (or_else (pos 67108864) p.shuffle_buffer_bytes)
  ok (record {
    checkpoint_every = checkpoint_every;
    evaluate_every = evaluate_every;
    shuffle_records = shuffle_records;
    shuffle_bytes = shuffle_bytes;
  })

module _ {F : Type 0} (float : Floats F) where
  -- `steps <= 0 || BatchSize <= 0 || ...`
  unfoldable pub sizes_wrong : Parameters F → ℕ → Bool
  sizes_wrong p steps =
      steps == 0
      || not (is_positive p.batch_size)
      || not (is_positive p.sequence_length)
      || not (float.less (float_zero float) p.learning_rate)
      || not_finite float p.learning_rate

  unfoldable pub resolve_declared : Parameters F → ℕ → Result ProfileError Declared
  resolve_declared p steps = do
    validate_parallelism_request p.parallelism
    profile ← resolve_profile p.profile
    reject_if (sizes_wrong p steps) not_positive
    optimizer ←
        listed unsupported_optimizer ("adamw" ∷ "muon-adamw" ∷ []) (or_text "adamw" p.optimizer)
    schedule ←
        listed unsupported_schedule ("cosine" ∷ "warmup-stable-warmdown" ∷ [])
          (or_text "cosine" p.schedule)
    accumulation ← resolve_accumulation p.gradient_accumulation (to_nat p.batch_size)
    precision ←
        listed bad_precision ("auto" ∷ "float32" ∷ "float16" ∷ "bfloat16" ∷ [])
          (or_text "auto" p.compute_precision)
    distribution ← listed bad_distribution ("" ∷ "distributable" ∷ []) p.distribution_policy
    epochs ← within bad_epochs 1 1000000 (if is_zero p.epochs then pos 1 else p.epochs)
    capacity ← resolve_capacity steps (to_nat p.batch_size) (to_nat p.sequence_length)
    ok (record {
      profile = profile;
      optimizer = optimizer;
      schedule = schedule;
      accumulation = accumulation;
      precision = precision;
      distribution = distribution;
      epochs = epochs;
      capacity = capacity;
    })

  -- The struct that `resolveParameters` returns.
  unfoldable pub resolved :
      Parameters F
      → ℕ
      → ℕ
      → Declared
      → F
      → Schedule F
      → Intervals
      → F × ℕ × ℕ
      → String × String
      → ResolvedParameters F
  resolved p steps requested_tokens declared weight_decay schedule intervals limits order = record {
    profile = declared.profile;
    profile_schema = 1;
    epochs = declared.epochs;
    requested_tokens = requested_tokens;
    steps = steps;
    batch_size = to_nat p.batch_size;
    gradient_accumulation = declared.accumulation;
    compute_precision = declared.precision;
    activation_checkpointing = p.activation_checkpointing;
    compile = p.compile;
    distribution_policy = declared.distribution;
    sequence_length = to_nat p.sequence_length;
    learning_rate = p.learning_rate;
    seed = p.seed;
    optimizer = record {
      name = declared.optimizer;
      weight_decay = weight_decay;
      beta1 = float.literal 9 1;
      beta2 = float.literal 95 2;
      epsilon = float.literal 1 8;
    };
    schedule = schedule;
    data_plan = record {
      order = order.0;
      shuffle_buffer_records = intervals.shuffle_records;
      shuffle_buffer_bytes = intervals.shuffle_bytes;
      packing = "continuous-eos-v1";
      corpus_weights = p.corpus_weights;
      repeat_until_steps = ltb 0 requested_tokens;
    };
    evaluation = record {
      selection = order.1;
      fraction = limits.0;
      max_records = limits.1;
      max_bytes = limits.2;
    };
    checkpoint_every = intervals.checkpoint_every;
    evaluate_every = intervals.evaluate_every;
    planned_token_capacity = declared.capacity;
  }

  -- `resolveParameters`
  unfoldable pub resolve_parameters :
      Parameters F → ℕ → ℕ → Result ProfileError (ResolvedParameters F)
  resolve_parameters p steps requested_tokens = do
    declared ← resolve_declared p steps
    weight_decay ← unit_interval float bad_weight_decay (or_else (float.literal 1 1) p.weight_decay)
    schedule ← resolve_schedule float p declared.schedule steps
    intervals ← resolve_intervals p steps
    limits ← resolve_limits float p
    order ← resolve_order float p declared.profile
    ok (resolved p steps requested_tokens declared weight_decay schedule intervals limits order)

  -- `ResolveParameters`
  unfoldable pub resolve : Parameters F → Result ProfileError (ResolvedParameters F)
  resolve p = do
    (steps, requested_tokens) ← resolve_training_budget p
    reject_if (steps == 0) steps_unresolved
    resolve_parameters p steps requested_tokens

  -- `ResolvePlanningParameters`
  unfoldable pub resolve_planning : Parameters F → Result ProfileError (ResolvedParameters F)
  resolve_planning p = do
    (steps, requested_tokens) ← resolve_training_budget p
    resolve_parameters p
        (if steps == 0
          then max 1 (
              max (to_nat (or_else (pos 0) p.warmup_steps)) (
                max (to_nat (or_else (pos 0) p.checkpoint_every))
                  (to_nat (or_else (pos 0) p.evaluate_every))))
          else steps)
        requested_tokens

  -- `ResolveParametersForSteps`
  unfoldable pub resolve_for_steps : Parameters F → ℤ → Result ProfileError (ResolvedParameters F)
  resolve_for_steps p steps = do
    (declared_steps, requested_tokens) ← resolve_training_budget p
    reject_if (not (declared_steps == 0) || not (requested_tokens == 0)) not_epoch_only
    reject_if (not (is_positive steps)) derived_steps_not_positive
    resolve_parameters p (to_nat steps) 0
