-- ===== src/Training/Profile/Types.antt =====
-- The structs of internal/training/backend.go that internal/training/profile.go resolves. An int64
-- or int is an integer in `Parameters`; what is resolved is not negative, and a natural number. A
-- pointer is an option, and the map of the weights a list of its entries.
use Prim.Native.String.{String}
use waldo.Base.{ℕ, Bool, Option, List}
use waldo.Base.Int.{ℤ}

pub record Parameters (F : Type 0) : Type 0 where
  pub profile : String
  pub parallelism : String
  pub epochs : ℤ
  pub tokens : ℤ
  pub steps : ℤ
  pub batch_size : ℤ
  pub gradient_accumulation : ℤ
  pub compute_precision : String
  pub activation_checkpointing : Bool
  pub compile : Bool
  pub distribution_policy : String
  pub sequence_length : ℤ
  pub learning_rate : F
  pub optimizer : String
  pub schedule : String
  pub seed : ℕ
  pub weight_decay : Option F
  pub warmup_steps : Option ℤ
  pub warmdown_steps : Option ℤ
  pub minimum_rate_ratio : Option F
  pub checkpoint_every : Option ℤ
  pub evaluate_every : Option ℤ
  pub shuffle_buffer_records : Option ℤ
  pub shuffle_buffer_bytes : Option ℤ
  pub corpus_weights : List (String × ℕ)
  pub evaluation_fraction : Option F
  pub evaluation_selection : String
  pub evaluation_max_records : Option ℤ
  pub evaluation_max_bytes : Option ℤ

pub record Optimizer (F : Type 0) : Type 0 where
  pub name : String
  pub weight_decay : F
  pub beta1 : F
  pub beta2 : F
  pub epsilon : F

pub record Schedule (F : Type 0) : Type 0 where
  pub name : String
  pub warmup_steps : ℕ
  pub warmdown_steps : ℕ
  pub minimum_rate_ratio : F

pub record DataPlan : Type 0 where
  pub order : String
  pub shuffle_buffer_records : ℕ
  pub shuffle_buffer_bytes : ℕ
  pub packing : String
  pub corpus_weights : List (String × ℕ)
  pub repeat_until_steps : Bool

pub record EvaluationPolicy (F : Type 0) : Type 0 where
  pub selection : String
  pub fraction : F
  pub max_records : ℕ
  pub max_bytes : ℕ

pub record ResolvedParameters (F : Type 0) : Type 0 where
  pub profile : String
  pub profile_schema : ℕ
  pub epochs : ℕ
  pub requested_tokens : ℕ
  pub steps : ℕ
  pub batch_size : ℕ
  pub gradient_accumulation : ℕ
  pub compute_precision : String
  pub activation_checkpointing : Bool
  pub compile : Bool
  pub distribution_policy : String
  pub sequence_length : ℕ
  pub learning_rate : F
  pub seed : ℕ
  pub optimizer : Optimizer F
  pub schedule : Schedule F
  pub data_plan : DataPlan
  pub evaluation : EvaluationPolicy F
  pub checkpoint_every : ℕ
  pub evaluate_every : ℕ
  pub planned_token_capacity : ℕ

-- The errors, named for their messages.
pub data ProfileError : Type 0 where
  negative_budget : ProfileError
  tokens_combined : ProfileError
  step_capacity_overflows : ProfileError
  budget_missing : ProfileError
  steps_unresolved : ProfileError
  not_epoch_only : ProfileError
  derived_steps_not_positive : ProfileError
  unsupported_parallelism : ProfileError
  unsupported_profile : ProfileError
  not_positive : ProfileError
  unsupported_optimizer : ProfileError
  unsupported_schedule : ProfileError
  bad_accumulation : ProfileError
  bad_precision : ProfileError
  bad_distribution : ProfileError
  bad_epochs : ProfileError
  capacity_overflows : ProfileError
  bad_weight_decay : ProfileError
  bad_warmup : ProfileError
  bad_warmdown : ProfileError
  bad_minimum_rate : ProfileError
  bad_checkpoint_every : ProfileError
  bad_evaluate_every : ProfileError
  bad_shuffle_records : ProfileError
  bad_shuffle_bytes : ProfileError
  bad_fraction : ProfileError
  bad_max_records : ProfileError
  bad_max_bytes : ProfileError
  bad_selection : ProfileError
  tail_needs_shuffled : ProfileError
  bad_weights : ProfileError
  weights_missing : ProfileError
  weights_not_weighted : ProfileError
