-- ===== src/Training/Profile/Tests.antt =====
-- The resolution of parameters on small inputs, and its theorems at them.
use waldo.Base.{ℕ, ◌+◌, ◌*◌, ◌≤◌, ◌≡◌, ◌↔◌, refl, Bool, true, false, none, some, [], ◌∷◌, ltb, ◌==◌}
use waldo.Base.Int.{ℤ, pos, to_nat, is_negative, is_positive, is_zero}
use waldo.Base.Floats.{nano_floats, tens}
use waldo.Base.Results.{ok, err}
use waldo.Training.Profile.Types.{Parameters, ResolvedParameters, steps_unresolved, not_epoch_only}
use waldo.Training.Product.{multiply_int64, multiply_loop}
use waldo.Training.Profile.Stages.{
  canonical_profile, within, listed, validate_parallelism_request, resolve_profile,
  resolve_accumulation, resolve_capacity, default_warmup, sum_exceeds, resolve_warmdown,
  weighted_order, unit_interval, resolve_schedule, resolve_limits, resolve_selection, check_weights,
  resolve_order,
}
use waldo.Training.Profile.Resolve.{
  token_steps, resolve_training_budget, sizes_wrong, resolve_declared, resolve_intervals, resolved,
  resolve_parameters, resolve, resolve_planning, resolve_for_steps, normalize_resolved_parameters,
  validate_batch_topology,
}
use waldo.Training.Profile.Resolved.{IsResolved, resolve_parameters-IsResolved}
use waldo.Training.Profile.Budget.{MeetsBudget, resolve-IsResolved, validate_batch_topology_iff}

-- A budget of 100 tokens in steps of 32.
abbrev hundred_tokens : Parameters ℕ
hundred_tokens = record {
  profile = "";
  parallelism = "auto";
  epochs = pos 0;
  tokens = pos 100;
  steps = pos 0;
  batch_size = pos 4;
  gradient_accumulation = pos 2;
  compute_precision = "";
  activation_checkpointing = false;
  compile = false;
  distribution_policy = "";
  sequence_length = pos 8;
  learning_rate = 300000;
  optimizer = "";
  schedule = "";
  seed = 7;
  weight_decay = none;
  warmup_steps = none;
  warmdown_steps = some (pos 1);
  minimum_rate_ratio = none;
  checkpoint_every = none;
  evaluate_every = some (pos 2);
  shuffle_buffer_records = none;
  shuffle_buffer_bytes = none;
  corpus_weights = [];
  evaluation_fraction = none;
  evaluation_selection = "";
  evaluation_max_records = none;
  evaluation_max_bytes = none;
}

abbrev epochs_only : Parameters ℕ
epochs_only = record hundred_tokens { tokens = pos 0; epochs = pos 2 }

abbrev four_steps : ResolvedParameters ℕ
four_steps = record {
  profile = "causal-pretrain-shuffled";
  profile_schema = 1;
  epochs = 1;
  requested_tokens = 100;
  steps = 4;
  batch_size = 4;
  gradient_accumulation = 2;
  compute_precision = "auto";
  activation_checkpointing = false;
  compile = false;
  distribution_policy = "";
  sequence_length = 8;
  learning_rate = 300000;
  seed = 7;
  optimizer = record {
    name = "adamw";
    weight_decay = 100000000;
    beta1 = 900000000;
    beta2 = 950000000;
    epsilon = 10;
  };
  schedule = record {
    name = "cosine";
    warmup_steps = 1;
    warmdown_steps = 1;
    minimum_rate_ratio = 100000000;
  };
  data_plan = record {
    order = "bounded-shuffle-v1";
    shuffle_buffer_records = 1024;
    shuffle_buffer_bytes = 67108864;
    packing = "continuous-eos-v1";
    corpus_weights = [];
    repeat_until_steps = true;
  };
  evaluation = record {
    selection = "indexed-sample-v1";
    fraction = 10000000;
    max_records = 256;
    max_bytes = 1048576;
  };
  checkpoint_every = 4;
  evaluate_every = 2;
  planned_token_capacity = 128;
}

hundred_tokens_resolved : resolve nano_floats hundred_tokens ≡ ok four_steps
unfolding resolve resolve_training_budget token_steps sizes_wrong resolve_declared resolve_intervals
    resolved resolve_parameters canonical_profile within listed validate_parallelism_request
    resolve_profile resolve_accumulation resolve_capacity default_warmup sum_exceeds
    resolve_warmdown weighted_order unit_interval resolve_schedule resolve_limits resolve_selection
    check_weights resolve_order is_negative is_positive is_zero to_nat nano_floats tens
    multiply_int64 multiply_loop
hundred_tokens_resolved = refl

four_steps_resolved : resolve_parameters nano_floats hundred_tokens 4 100 ≡ ok four_steps
unfolding resolve_parameters resolve_training_budget token_steps sizes_wrong resolve_declared
    resolve_intervals resolved canonical_profile within listed validate_parallelism_request
    resolve_profile resolve_accumulation resolve_capacity default_warmup sum_exceeds
    resolve_warmdown weighted_order unit_interval resolve_schedule resolve_limits resolve_selection
    check_weights resolve_order is_negative is_positive is_zero to_nat nano_floats tens
    multiply_int64 multiply_loop
four_steps_resolved = refl

epochs_unresolved : resolve nano_floats epochs_only ≡ err steps_unresolved
unfolding resolve waldo.Training.Profile.Resolve.resolve_training_budget waldo.Base.Int.is_negative
    waldo.Base.Int.is_positive
epochs_unresolved = refl

tokens_not_for_steps : resolve_for_steps nano_floats hundred_tokens (pos 4) ≡ err not_epoch_only
unfolding resolve_for_steps resolve_training_budget token_steps sizes_wrong resolve_declared
    resolve_intervals resolved resolve_parameters canonical_profile within listed
    validate_parallelism_request resolve_profile resolve_accumulation resolve_capacity
    default_warmup sum_exceeds resolve_warmdown weighted_order unit_interval resolve_schedule
    resolve_limits resolve_selection check_weights resolve_order is_negative is_positive is_zero
    to_nat nano_floats tens multiply_int64 multiply_loop
tokens_not_for_steps = refl

hundred_tokens_planned : resolve_planning nano_floats hundred_tokens ≡ ok four_steps
unfolding resolve_planning resolve_training_budget token_steps sizes_wrong resolve_declared
    resolve_intervals resolved resolve_parameters canonical_profile within listed
    validate_parallelism_request resolve_profile resolve_accumulation resolve_capacity
    default_warmup sum_exceeds resolve_warmdown weighted_order unit_interval resolve_schedule
    resolve_limits resolve_selection check_weights resolve_order is_negative is_positive is_zero
    to_nat nano_floats tens multiply_int64 multiply_loop
hundred_tokens_planned = refl

normalized : normalize_resolved_parameters four_steps ≡ four_steps
unfolding normalize_resolved_parameters waldo.Training.Profile.Stages.canonical_profile
normalized = refl

resolve-IsResolved_example : IsResolved four_steps × MeetsBudget hundred_tokens four_steps
resolve-IsResolved_example =
    resolve-IsResolved nano_floats hundred_tokens four_steps hundred_tokens_resolved

resolve_parameters-IsResolved_example :
    IsResolved four_steps × (four_steps.steps ≡ 4) × (four_steps.requested_tokens ≡ 100)
resolve_parameters-IsResolved_example =
    resolve_parameters-IsResolved nano_floats hundred_tokens 4 100 four_steps four_steps_resolved

validate_batch_topology_iff_example : (validate_batch_topology 12 2 (pos 3) ≡ true) ↔ (
    (1 ≤ to_nat (pos 3))
    × (1 ≤ 2)
    × (share : ℕ) × (1 ≤ share)
    × (12 ≡ 2 * (to_nat (pos 3) * share)))
validate_batch_topology_iff_example = validate_batch_topology_iff 12 2 (pos 3)
