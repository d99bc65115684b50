-- ===== src/Model/Observation.antt =====
-- internal/model/observation.go: what a backend reports of a finished stage is validated, and the
-- artifacts that it names are verified.
pub mod Artifacts
pub mod Sound
pub mod Selected
mod Tests
use Prim.Native.String.{String}
use waldo.Base.{
  ℕ, ◌+◌, Bool, true, false, not, ◌&&◌, ◌||◌, Option, none, some, List, [], ◌∷◌, ◌++◌, any, length,
  ltb, ◌==◌, if◌then◌else◌,
}
use waldo.Base.Bytes.{Bytes, codes, bytes_eq}
use waldo.Base.Int.{ℤ, pos, is_negative, is_positive, ltb_ℤ, leb_ℤ}
use waldo.Base.Text.{text_eq}
use waldo.Base.Strings.{has_prefix}
use waldo.Base.Floats.{Floats, float_zero, not_finite}
use waldo.Base.Results.{Result, ok, err, ◌>>=◌, ◌>>◌, reject_if}
use waldo.Training.Protocol.{
  Artifact, Checkpoint, Evaluation, CheckpointSelection, Observation, given, invalid_option,
}

pub data ObservationError : Type 0 where
  steps_out_of_range : ObservationError
  tokens_out_of_range : ObservationError
  no_artifacts : ObservationError
  bad_final_loss : ObservationError
  path_not_relative : ObservationError
  path_not_canonical : ObservationError
  path_duplicated : ObservationError
  bad_digest_metadata : ObservationError
  bad_size_metadata : ObservationError
  not_found : ObservationError
  not_regular : ObservationError
  size_differs : ObservationError
  not_readable : ObservationError
  digest_differs : ObservationError
  bad_checkpoint : ObservationError
  bad_evaluation : ObservationError
  bad_metric : ObservationError
  bad_selection : ObservationError
  selection_not_found : ObservationError
  selection_not_best : ObservationError

-- What `os.Stat` tells of a file, and its content, if it can be read.
pub record File : Type 0 where
  pub regular : Bool
  pub size : ℤ
  pub content : Option Bytes

-- The file system below the run's directory and what the code uses of path/filepath, encoding/hex
-- and crypto/sha256. `hex_length` is the number of bytes that a hexadecimal text decodes to.
pub record Files : Type 0 where
  pub stat : Bytes → Option File
  pub is_abs : Bytes → Bool
  pub clean : Bytes → Bytes
  pub hex_length : Bytes → Option ℕ
  pub sha256_hex : Bytes → Bytes

-- `a == b` on int64
pub int_eq : ℤ → ℤ → Bool
int_eq a b = leb_ℤ a b && leb_ℤ b a

-- `err != nil || len(digest) != sha256.Size`
pub bad_digest : Option ℕ → Bool
bad_digest none = true
bad_digest (some n) = not (n == 32)

-- The tests of `CheckArtifactFile` on what `os.Stat` tells.
pub check_stat : Artifact → Option File → Result ObservationError File
check_stat artifact none = err not_found
check_stat artifact (some file) =
    if not file.regular
    then err not_regular
    else if not (int_eq file.size artifact.bytes)
    then err size_differs
    else ok file

module _ (files : Files) where
  -- `CheckArtifactFile`
  pub check_artifact_file : Bytes → Artifact → Result ObservationError File
  check_artifact_file path artifact = do
    reject_if (bad_digest (files.hex_length artifact.sha256)) bad_digest_metadata
    reject_if (is_negative artifact.bytes) bad_size_metadata
    check_stat artifact (files.stat path)

  -- The comparison of what was read with the artifact.
  pub check_content : Artifact → Option Bytes → Result ObservationError (Unit {0})
  check_content artifact none = err not_readable
  check_content artifact (some content) = do
    reject_if (not (int_eq (pos (length content)) artifact.bytes)) size_differs
    reject_if (not (bytes_eq (files.sha256_hex content) artifact.sha256)) digest_differs

  -- `VerifyArtifactFile`
  pub verify_artifact_file : Bytes → Artifact → Result ObservationError (Unit {0})
  verify_artifact_file path artifact = do
    file ← check_artifact_file path artifact
    check_content artifact file.content

  -- `validateArtifact`: the paths seen, with that of the artifact.
  pub validate_artifact : List Bytes → Artifact → Result ObservationError (List Bytes)
  validate_artifact seen artifact = do
    reject_if (length artifact.path == 0 || files.is_abs artifact.path) path_not_relative
    reject_if
        (not (bytes_eq (files.clean artifact.path) artifact.path)
          || bytes_eq (files.clean artifact.path) (codes "artifacts")
          || not (has_prefix (files.clean artifact.path) (codes "artifacts/")))
        path_not_canonical
    reject_if (any (bytes_eq (files.clean artifact.path)) seen) path_duplicated
    verify_artifact_file (files.clean artifact.path) artifact
    ok (files.clean artifact.path ∷ seen)

  pub validate_artifacts : List Bytes → List Artifact → Result ObservationError (List Bytes)
  validate_artifacts seen [] = ok seen
  validate_artifacts seen (artifact ∷ artifacts) = do
    seen' ← validate_artifact seen artifact
    validate_artifacts seen' artifacts

  -- The loop over the checkpoints.
  pub validate_checkpoints :
      ℤ → ℤ → ℤ → List Bytes → List Checkpoint → Result ObservationError (List Bytes)
  validate_checkpoints steps consumed previous seen [] = ok seen
  validate_checkpoints steps consumed previous seen (checkpoint ∷ checkpoints) = do
    reject_if
        (leb_ℤ checkpoint.step previous
          || ltb_ℤ steps checkpoint.step
          || is_negative checkpoint.tokens
          || ltb_ℤ consumed checkpoint.tokens
          || length checkpoint.artifacts == 0)
        bad_checkpoint
    seen' ← validate_artifacts seen checkpoint.artifacts
    validate_checkpoints steps consumed checkpoint.step seen' checkpoints

module _ {F : Type 0} (float : Floats F) where
  -- The loop over the evaluations; the metrics are visited in any order.
  pub validate_evaluations : ℤ → ℤ → ℤ → List (Evaluation F) → Result ObservationError (Unit {0})
  validate_evaluations steps consumed previous [] = ok tt
  validate_evaluations steps consumed previous (evaluation ∷ evaluations) = do
    reject_if
        (leb_ℤ evaluation.step previous
          || ltb_ℤ steps evaluation.step
          || is_negative evaluation.tokens
          || ltb_ℤ consumed evaluation.tokens
          || length evaluation.metrics == 0)
        bad_evaluation
    reject_if (any (λ m. text_eq m.0 "" || not_finite float m.1) evaluation.metrics) bad_metric
    validate_evaluations steps consumed evaluation.step evaluations

  -- `evaluation.Metrics[name]`
  pub find_metric : String → List (String × F) → Option F
  find_metric name [] = none
  find_metric name ((key, value) ∷ metrics) =
      if text_eq key name then some value else find_metric name metrics

  pub is_selected_checkpoint : CheckpointSelection F → Checkpoint → Bool
  is_selected_checkpoint selected checkpoint =
      int_eq checkpoint.step selected.step && int_eq checkpoint.tokens selected.tokens

  -- `ok && value == selected.Value`
  pub has_value : F → Option F → Bool
  has_value selected none = false
  has_value selected (some value) = float.equal value selected

  pub is_selected_evaluation : CheckpointSelection F → Evaluation F → Bool
  is_selected_evaluation selected evaluation =
      int_eq evaluation.step selected.step
      && int_eq evaluation.tokens selected.tokens
      && has_value selected.value (find_metric selected.metric evaluation.metrics)

  -- `checkpointTokens[step]`: the map keeps the last checkpoint of a step.
  pub checkpoint_tokens : ℤ → List Checkpoint → Option ℤ
  checkpoint_tokens step [] = none
  checkpoint_tokens step (checkpoint ∷ checkpoints) = elim (checkpoint_tokens step checkpoints) [
    | some tokens ↦ some tokens
    | none ↦ if int_eq checkpoint.step step then some checkpoint.tokens else none
  ]

  -- `eligible && tokens == evaluation.Tokens`
  pub is_eligible : Evaluation F → Option ℤ → Bool
  is_eligible evaluation none = false
  is_eligible evaluation (some tokens) = int_eq tokens evaluation.tokens

  -- The least value so far; `none` stands for `math.Inf(1)`, above every finite value.
  pub lower : Option F → Option F → Option F
  lower best none = best
  lower none (some value) = some value
  lower (some best) (some value) = if float.less value best then some value else some best

  pub best_value : String → List Checkpoint → Option F → List (Evaluation F) → Option F
  best_value metric checkpoints best [] = best
  best_value metric checkpoints best (evaluation ∷ evaluations) =
      best_value metric checkpoints
        (if is_eligible evaluation (checkpoint_tokens evaluation.step checkpoints)
          then lower best (find_metric metric evaluation.metrics)
          else best)
        evaluations

  -- The test of the selected checkpoint.
  pub validate_selection :
      Observation F → CheckpointSelection F → Result ObservationError (Unit {0})
  validate_selection observation selected = do
    reject_if
        (not (is_positive selected.step)
          || ltb_ℤ observation.steps selected.step
          || is_negative selected.tokens
          || ltb_ℤ observation.consumed_tokens selected.tokens
          || not (text_eq selected.metric "heldout_loss")
          || float.less selected.value (float_zero float)
          || not_finite float selected.value)
        bad_selection
    reject_if
        (not (any (is_selected_checkpoint selected) observation.checkpoints)
          || not (any (is_selected_evaluation selected) observation.evaluations))
        selection_not_found
    reject_if
        (not (
          has_value selected.value
            (best_value selected.metric observation.checkpoints none observation.evaluations)))
        selection_not_best

  pub validate_selected :
      Observation F → Option (CheckpointSelection F) → Result ObservationError (Unit {0})
  validate_selected observation none = ok tt
  validate_selected observation (some selected) = validate_selection observation selected

  -- `validateBackendObservation`, with the planned steps and tokens.
  pub validate_observation : Files → ℤ → ℤ → Observation F → Result ObservationError (Unit {0})
  validate_observation files planned_steps planned_tokens observation = do
    reject_if (is_negative observation.steps || ltb_ℤ planned_steps observation.steps)
        steps_out_of_range
    reject_if
        (is_negative observation.consumed_tokens
          || ltb_ℤ planned_tokens observation.consumed_tokens)
        tokens_out_of_range
    reject_if (length observation.artifacts == 0) no_artifacts
    reject_if (invalid_option float observation.final_loss) bad_final_loss
    seen ← validate_artifacts files [] observation.artifacts
    seen' ←
        validate_checkpoints files observation.steps observation.consumed_tokens (pos 0) seen
          observation.checkpoints
    validate_evaluations observation.steps observation.consumed_tokens (pos 0)
        observation.evaluations
    validate_selected observation observation.selected_checkpoint
