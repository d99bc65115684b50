-- ===== src/Training/Protocol.antt =====
-- The frames that a worker writes: `WorkerOutputFrame` and `Event` with their `Validate` in
-- internal/training/protocol.go, and the structs of internal/training/backend.go that they carry.
pub mod Frames
mod Tests
use Prim.Native.String.{String}
use waldo.Base.{
  ℕ, zero, suc, ◌+◌, Bool, true, false, not, ◌&&◌, ◌||◌, Option, none, some, List, [], ◌∷◌, any,
  ltb, ◌==◌, if◌then◌else◌,
}
use waldo.Base.Bytes.{Bytes}
use waldo.Base.Int.{ℤ, is_negative}
use waldo.Base.Text.{text_eq}
use waldo.Base.Floats.{Floats, float_zero, not_finite}
use waldo.Base.Results.{Result, ok, err, ◌>>=◌, ◌>>◌, reject_if}

pub record Artifact : Type 0 where
  pub path : Bytes
  pub sha256 : Bytes
  pub bytes : ℤ

pub record Checkpoint : Type 0 where
  pub step : ℤ
  pub tokens : ℤ
  pub artifacts : List Artifact

pub record Evaluation (F : Type 0) : Type 0 where
  pub step : ℤ
  pub tokens : ℤ
  pub metrics : List (String × F)

pub record CheckpointSelection (F : Type 0) : Type 0 where
  pub step : ℤ
  pub tokens : ℤ
  pub metric : String
  pub value : F

pub record CorpusConsumption : Type 0 where
  pub corpus : String
  pub token_targets : ℤ

pub record Observation (F : Type 0) : Type 0 where
  pub simulated : Bool
  pub steps : ℤ
  pub consumed_tokens : ℤ
  pub final_loss : Option F
  pub checkpoints : List Checkpoint
  pub evaluations : List (Evaluation F)
  pub selected_checkpoint : Option (CheckpointSelection F)
  pub artifacts : List Artifact
  pub consumption : List CorpusConsumption

pub record Event (F : Type 0) : Type 0 where
  pub kind : String
  pub message : String
  pub step : ℤ
  pub tokens : ℤ
  pub loss : Option F
  pub gradient_norm : Option F
  pub learning_rate : F
  pub tokens_per_second : F
  pub duration_seconds : F
  pub data_wait_seconds : F
  pub peak_memory_bytes : ℕ
  pub training_flops : F
  pub achieved_tflops : F
  pub model_flop_utilization : F
  pub skipped_steps : ℤ
  pub eta_seconds : ℤ
  pub checkpoint : Option Checkpoint
  pub evaluation : Option (Evaluation F)

pub record WorkerOutputFrame (F : Type 0) : Type 0 where
  pub kind : String
  pub schema : ℕ
  pub event : Option (Event F)
  pub observation : Option (Observation F)
  pub error : String
  pub error_class : String

-- The errors of `Validate`, named for their messages.
pub data FrameError : Type 0 where
  unsupported_schema : FrameError
  not_one_payload : FrameError
  missing_event : FrameError
  missing_observation : FrameError
  missing_error : FrameError
  unsupported_class : FrameError
  unsupported_kind : FrameError
  negative_progress : FrameError
  invalid_loss : FrameError
  invalid_gradient_norm : FrameError
  invalid_telemetry : FrameError
  invalid_throughput : FrameError
  typed_payload : FrameError
  invalid_checkpoint : FrameError
  invalid_evaluation : FrameError
  unsupported_event : FrameError

-- `value != nil`
abbrev pub given {ℓ} : {A : Type ℓ} → Option A → Bool
given none = false
given (some value) = true

-- The switch on the kind of the event.
pub check_payload : String → Bool → Bool → Result FrameError (Unit {0})
check_payload kind checkpoint evaluation =
    if text_eq kind "progress" || text_eq kind "log"
    then reject_if (checkpoint || evaluation) typed_payload
    else if text_eq kind "checkpoint"
    then reject_if (not checkpoint || evaluation) invalid_checkpoint
    else if text_eq kind "evaluation"
    then reject_if (not evaluation || checkpoint) invalid_evaluation
    else err unsupported_event

module _ {F : Type 0} (float : Floats F) where
  -- `*value < 0 || math.IsNaN(*value) || math.IsInf(*value, 0)`, where there is a value.
  unfoldable pub invalid_option : Option F → Bool
  invalid_option none = false
  invalid_option (some value) = float.less value (float_zero float) || not_finite float value

  -- The first test of `Event.Validate`.
  pub has_negative_progress : Event F → Bool
  has_negative_progress event =
      is_negative event.step
      || is_negative event.tokens
      || float.less event.learning_rate (float_zero float)
      || float.less event.tokens_per_second (float_zero float)
      || float.less event.duration_seconds (float_zero float)
      || float.less event.data_wait_seconds (float_zero float)
      || float.less event.training_flops (float_zero float)
      || float.less event.achieved_tflops (float_zero float)
      || float.less event.model_flop_utilization (float_zero float)
      || is_negative event.skipped_steps
      || is_negative event.eta_seconds

  abbrev pub telemetry : Event F → List F
  telemetry event =
      event.learning_rate ∷ event.tokens_per_second ∷ event.duration_seconds
      ∷ event.data_wait_seconds ∷ event.training_flops ∷ event.achieved_tflops
      ∷ event.model_flop_utilization ∷ []

  -- `Event.Validate`
  pub validate_event : Event F → Result FrameError (Unit {0})
  validate_event event = do
    reject_if (has_negative_progress event) negative_progress
    reject_if (invalid_option event.loss) invalid_loss
    reject_if (invalid_option event.gradient_norm) invalid_gradient_norm
    reject_if (any (not_finite float) (telemetry event)) invalid_telemetry
    reject_if (float.less event.tokens_per_second (float_zero float)) invalid_throughput
    check_payload event.kind (given event.checkpoint) (given event.evaluation)

  -- `payloads`, counted up.
  pub payloads : WorkerOutputFrame F → ℕ
  payloads frame =
      (if given frame.event then 1 else 0)
      + (if given frame.observation then 1 else 0)
      + (if text_eq frame.error "" then 0 else 1)

  pub check_event : Option (Event F) → Result FrameError (Unit {0})
  check_event none = err missing_event
  check_event (some event) = validate_event event

  -- `WorkerOutputFrame.Validate`
  pub validate_frame : WorkerOutputFrame F → Result FrameError (Unit {0})
  validate_frame frame = do
    reject_if (not (frame.schema == 1)) unsupported_schema
    reject_if (not (payloads frame == 1)) not_one_payload
    if text_eq frame.kind "event"
        then check_event frame.event
        else if text_eq frame.kind "complete"
        then reject_if (not (given frame.observation)) missing_observation
        else if text_eq frame.kind "error"
        then (reject_if (text_eq frame.error "") missing_error
            >> reject_if
                (not (text_eq frame.error_class "")
                  && not (text_eq frame.error_class "artifact-integrity")
                  && not (text_eq frame.error_class "numerical-integrity"))
                unsupported_class)
        else err unsupported_kind
