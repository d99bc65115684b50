-- ===== src/Model/Observation/Tests.antt =====
-- The observation of a small run, and the theorems at it.
use waldo.Base.{ℕ, ◌≡◌, refl, true, false, some, [], ◌∷◌, All, get_elem?, arith}
use waldo.Base.Bytes.{Bytes, codes, bytes_eq}
use waldo.Base.Strings.{has_prefix}
use waldo.Base.Int.{pos, is_negative, is_positive}
use waldo.Base.Floats.{nano_floats, tens}
use waldo.Base.Results.{ok, err}
use waldo.Training.Protocol.{
  Artifact, Checkpoint, Evaluation, CheckpointSelection, Observation, invalid_option,
}
use waldo.Model.Observation.{
  Files, path_duplicated, steps_out_of_range, size_differs, int_eq, bad_digest, check_stat,
  check_artifact_file, check_content, verify_artifact_file, validate_artifact, validate_artifacts,
  validate_checkpoints, validate_evaluations, find_metric, is_selected_checkpoint, has_value,
  is_selected_evaluation, checkpoint_tokens, is_eligible, lower, best_value, validate_selection,
  validate_selected, validate_observation,
}
use waldo.Model.Observation.Sound.{IsSound, validate_observation_parts}
use waldo.Model.Observation.Selected.{FloatLaws, Eligible, validate_observation_selected}

-- Every file has two bytes, and every digest is "ok".
abbrev two_bytes : Files
two_bytes = record {
  stat = λ _. some (record { regular = true; size = pos 2; content = some (codes "ab") });
  is_abs = λ path. has_prefix path (codes "/");
  clean = λ path. path;
  hex_length = λ _. some 32;
  sha256_hex = λ _. codes "ok";
}

abbrev artifact_at : Bytes → Artifact
artifact_at path = record { path = path; sha256 = codes "ok"; bytes = pos 2 }

abbrev weights : Artifact
weights = artifact_at (codes "artifacts/w")

abbrev checkpoint_at : ℕ → Bytes → Checkpoint
checkpoint_at step path = record {
  step = pos step;
  tokens = pos step;
  artifacts = artifact_at path ∷ [];
}

abbrev evaluation_at : ℕ → ℕ → Evaluation ℕ
evaluation_at step loss = record {
  step = pos step;
  tokens = pos step;
  metrics = ("heldout_loss", loss) ∷ [];
}

abbrev second_best : CheckpointSelection ℕ
second_best = record { step = pos 2; tokens = pos 2; metric = "heldout_loss"; value = 5 }

abbrev run : Observation ℕ
run = record {
  simulated = false;
  steps = pos 3;
  consumed_tokens = pos 3;
  final_loss = some 6;
  checkpoints = checkpoint_at 1 (codes "artifacts/1") ∷ checkpoint_at 2 (codes "artifacts/2") ∷ [];
  evaluations = evaluation_at 1 7 ∷ evaluation_at 2 5 ∷ evaluation_at 3 4 ∷ [];
  selected_checkpoint = some second_best;
  artifacts = weights ∷ [];
  consumption = [];
}

nano_floats-FloatLaws : FloatLaws nano_floats
unfolding nano_floats
nano_floats-FloatLaws = record {
  less_irreflexive = λ a. ground arith;
  less_transitive = λ a b c h k. ground arith;
  less_equal = λ a b c h k. ground arith;
}

run_valid : validate_observation nano_floats two_bytes (pos 4) (pos 4) run ≡ ok tt
unfolding validate_observation int_eq bad_digest check_stat check_artifact_file check_content
    verify_artifact_file validate_artifact validate_artifacts validate_checkpoints
    validate_evaluations find_metric is_selected_checkpoint has_value is_selected_evaluation
    checkpoint_tokens is_eligible lower best_value validate_selection validate_selected nano_floats
    tens is_negative is_positive has_prefix bytes_eq invalid_option
run_valid = refl

run_too_long :
    validate_observation nano_floats two_bytes (pos 2) (pos 4) run ≡ err steps_out_of_range
unfolding validate_observation int_eq bad_digest check_stat check_artifact_file check_content
    verify_artifact_file validate_artifact validate_artifacts validate_checkpoints
    validate_evaluations find_metric is_selected_checkpoint has_value is_selected_evaluation
    checkpoint_tokens is_eligible lower best_value validate_selection validate_selected nano_floats
    tens is_negative is_positive has_prefix bytes_eq invalid_option
run_too_long = refl

twice :
    validate_observation nano_floats two_bytes
      (pos 4)
      (pos 4)
      (record run { artifacts = weights ∷ weights ∷ [] })
    ≡ err path_duplicated
unfolding validate_observation int_eq bad_digest check_stat check_artifact_file check_content
    verify_artifact_file validate_artifact validate_artifacts validate_checkpoints
    validate_evaluations find_metric is_selected_checkpoint has_value is_selected_evaluation
    checkpoint_tokens is_eligible lower best_value validate_selection validate_selected nano_floats
    tens is_negative is_positive has_prefix bytes_eq invalid_option
twice = refl

truncated :
    verify_artifact_file two_bytes (codes "artifacts/w") (record weights { bytes = pos 3 })
    ≡ err size_differs
unfolding verify_artifact_file check_artifact_file check_stat check_content bad_digest int_eq
    bytes_eq is_negative
truncated = refl

validate_observation_parts_example :
    IsSound two_bytes (pos 4) (pos 4) run
    × (validate_selected nano_floats run run.selected_checkpoint ≡ ok tt)
validate_observation_parts_example =
    validate_observation_parts nano_floats two_bytes (pos 4) (pos 4) run run_valid

validate_observation_selected_example :
    ((i : ℕ) × (c : Checkpoint) × (get_elem? run.checkpoints i ≡ some c)
      × (c.step ≡ second_best.step)
      × (c.tokens ≡ second_best.tokens))
    × ((j : ℕ) × (e : Evaluation ℕ) × (get_elem? run.evaluations j ≡ some e)
        × (e.step ≡ second_best.step)
        × (e.tokens ≡ second_best.tokens)
        × (has_value nano_floats second_best.value
              (find_metric nano_floats second_best.metric e.metrics)
            ≡ true))
    × All
        (λ e.
          (value : ℕ)
          → Eligible nano_floats nano_floats-FloatLaws second_best.metric run.checkpoints e value
          → nano_floats.less value second_best.value ≡ false)
        run.evaluations
validate_observation_selected_example =
    validate_observation_selected nano_floats nano_floats-FloatLaws two_bytes (pos 4) (pos 4) run
      second_best run_valid refl
