-- ===== src/Model/Observation/Sound.antt =====
-- What `validateBackendObservation` of internal/model/observation.go accepts.
use waldo.Base.{◌<◌, ◌≡◌, Bool, false, ◌||◌, List, [], ◌∷◌, ◌++◌, any, length, ◌==◌, arith}
use waldo.Base.Bytes.{Bytes}
use waldo.Base.Int.{ℤ, pos, negsuc, is_negative, ltb_ℤ, leb_ℤ, ◌≤ℤ◌, ◌<ℤ◌}
use waldo.Base.Text.{text_eq}
use waldo.Base.Floats.{Floats, not_finite}
use waldo.Base.Results.{ok, reject_if, bind_ok}
use waldo.Training.Protocol.{Artifact, Checkpoint, Evaluation, Observation, invalid_option}
use waldo.Model.Observation.{
  ObservationError, steps_out_of_range, tokens_out_of_range, no_artifacts, bad_final_loss,
  bad_checkpoint, bad_evaluation, bad_metric, Files, validate_artifacts, validate_checkpoints,
  validate_evaluations, validate_selected, validate_observation,
}
use waldo.Model.Observation.Artifacts.{
  AreSound, seen_after, AreSound-append, validate_artifacts_sound,
}

-- Steps that rise from `previous` up to `steps`, each with a number of tokens up to `consumed`.
abbrev pub AreRising : ℤ → ℤ → ℤ → List (ℤ × ℤ) → Type 0
AreRising steps consumed previous [] = Unit {0}
AreRising steps consumed previous ((step, tokens) ∷ rest) =
    ((previous <ℤ step) × (step ≤ℤ steps) × (pos 0 ≤ℤ tokens) × (tokens ≤ℤ consumed))
    × AreRising steps consumed step rest

abbrev pub checkpoint_steps : List Checkpoint → List (ℤ × ℤ)
checkpoint_steps [] = []
checkpoint_steps (c ∷ checkpoints) = (c.step, c.tokens) ∷ checkpoint_steps checkpoints

abbrev pub checkpoint_artifacts : List Checkpoint → List Artifact
checkpoint_artifacts [] = []
checkpoint_artifacts (c ∷ checkpoints) = c.artifacts ++ checkpoint_artifacts checkpoints

abbrev pub evaluation_steps : {F : Type 0} → List (Evaluation F) → List (ℤ × ℤ)
evaluation_steps [] = []
evaluation_steps (e ∷ evaluations) = (e.step, e.tokens) ∷ evaluation_steps evaluations

in_range :
    (steps consumed previous step tokens : ℤ) (empty : Bool)
    → (leb_ℤ step previous
        || ltb_ℤ steps step
        || is_negative tokens
        || ltb_ℤ consumed tokens
        || empty)
      ≡ false
    → (previous <ℤ step) × (step ≤ℤ steps) × (pos 0 ≤ℤ tokens) × (tokens ≤ℤ consumed)
unfolding is_negative
in_range steps consumed previous step (pos tokens) empty h = ground arith
in_range steps consumed previous step (negsuc tokens) empty h = absurd (ground arith)

not_rejected : (bad : Bool) (e : ObservationError) → reject_if bad e ≡ ok tt → bad ≡ false
not_rejected bad e h = ground arith

module _ (files : Files) (steps consumed : ℤ) where
  validate_checkpoints_sound :
      (checkpoints : List Checkpoint) (previous : ℤ) (seen seen' : List Bytes)
      → validate_checkpoints files steps consumed previous seen checkpoints ≡ ok seen'
      → AreRising steps consumed previous (checkpoint_steps checkpoints)
        × AreSound files seen (checkpoint_artifacts checkpoints)
  unfolding validate_checkpoints
  validate_checkpoints_sound [] previous seen seen' h = (tt, tt)
  validate_checkpoints_sound (c ∷ checkpoints) previous seen seen' h =
      let bad : Bool =
        leb_ℤ c.step previous
        || ltb_ℤ steps c.step
        || is_negative c.tokens
        || ltb_ℤ consumed c.tokens
        || length c.artifacts == 0 in
      let (done, e0, h0) = bind_ok (reject_if bad bad_checkpoint) _ h in
      let (middle, e1, h1) = bind_ok (validate_artifacts files seen c.artifacts) _ h0 in
      let (sound, after) = validate_artifacts_sound files c.artifacts seen middle e1 in
      let (rising, rest) =
        validate_checkpoints_sound checkpoints c.step (seen_after files seen c.artifacts) seen'
          (rw after at h1) in
      (
        (
          in_range steps consumed previous c.step c.tokens (length c.artifacts == 0)
              (not_rejected bad bad_checkpoint e0),
          rising,
        ),
        AreSound-append files seen c.artifacts (checkpoint_artifacts checkpoints) sound rest,
      )

module _ {F : Type 0} (float : Floats F) (steps consumed : ℤ) where
  validate_evaluations_sound :
      (evaluations : List (Evaluation F)) (previous : ℤ)
      → validate_evaluations float steps consumed previous evaluations ≡ ok tt
      → AreRising steps consumed previous (evaluation_steps evaluations)
  unfolding validate_evaluations
  validate_evaluations_sound [] previous h = tt
  validate_evaluations_sound (e ∷ evaluations) previous h =
      let bad : Bool =
        leb_ℤ e.step previous
        || ltb_ℤ steps e.step
        || is_negative e.tokens
        || ltb_ℤ consumed e.tokens
        || length e.metrics == 0 in
      let (done, e0, h0) = bind_ok (reject_if bad bad_evaluation) _ h in
      let (done', e1, h1) =
        bind_ok (reject_if (any (λ m. text_eq m.0 "" || not_finite float m.1) e.metrics) bad_metric)
          _ h0 in
      (
        in_range steps consumed previous e.step e.tokens (length e.metrics == 0)
            (not_rejected bad bad_evaluation e0),
        validate_evaluations_sound evaluations e.step h1,
      )

-- What a backend may report of a stage with a plan of steps and tokens: the progress lies within the
-- plan, checkpoints and evaluations rise within the progress, and all artifacts, those of the
-- checkpoints included, have distinct paths beneath `artifacts/` and are verified.
pub record IsSound {F : Type 0} (files : Files) (steps tokens : ℤ) (o : Observation F)
    : Type 0 where
  pub in_steps : (pos 0 ≤ℤ o.steps) × (o.steps ≤ℤ steps)
  pub in_tokens : (pos 0 ≤ℤ o.consumed_tokens) × (o.consumed_tokens ≤ℤ tokens)
  pub some_artifact : 0 < length o.artifacts
  pub artifacts : AreSound files [] (o.artifacts ++ checkpoint_artifacts o.checkpoints)
  pub checkpoints : AreRising o.steps o.consumed_tokens (pos 0) (checkpoint_steps o.checkpoints)
  pub evaluations : AreRising o.steps o.consumed_tokens (pos 0) (evaluation_steps o.evaluations)

within_plan :
    (value limit : ℤ)
    → (is_negative value || ltb_ℤ limit value) ≡ false
    → (pos 0 ≤ℤ value) × (value ≤ℤ limit)
unfolding is_negative
within_plan (pos n) limit h = ground arith
within_plan (negsuc n) limit h = absurd (ground arith)

module _ {F : Type 0} (float : Floats F) (files : Files) where
  -- An observation that `validateBackendObservation` accepts lies within the plan, its checkpoints and
  -- evaluations rise, its artifacts are verified and have distinct paths beneath `artifacts/`, and
  -- the checkpoint that it selects has passed its test.
  pub validate_observation_parts :
      (steps tokens : ℤ) (o : Observation F)
      → validate_observation float files steps tokens o ≡ ok tt
      → IsSound files steps tokens o × (validate_selected float o o.selected_checkpoint ≡ ok tt)
  unfolding validate_observation
  validate_observation_parts steps tokens o h =
      let (d0, e0, h0) =
        bind_ok (reject_if (is_negative o.steps || ltb_ℤ steps o.steps) steps_out_of_range) _ h in
      let (d1, e1, h1) =
        bind_ok
          (reject_if (is_negative o.consumed_tokens || ltb_ℤ tokens o.consumed_tokens)
            tokens_out_of_range)
          _ h0 in
      let (d2, e2, h2) = bind_ok (reject_if (length o.artifacts == 0) no_artifacts) _ h1 in
      let (d3, e3, h3) =
        bind_ok (reject_if (invalid_option float o.final_loss) bad_final_loss) _ h2 in
      let (seen, e4, h4) = bind_ok (validate_artifacts files [] o.artifacts) _ h3 in
      let (seen', e5, h5) =
        bind_ok (validate_checkpoints files o.steps o.consumed_tokens (pos 0) seen o.checkpoints) _
          h4 in
      let (d6, e6, h6) =
        bind_ok (validate_evaluations float o.steps o.consumed_tokens (pos 0) o.evaluations) _ h5 in
      let (sound, after) = validate_artifacts_sound files o.artifacts [] seen e4 in
      let (rising, rest) =
        validate_checkpoints_sound files o.steps o.consumed_tokens o.checkpoints (pos 0)
          (seen_after files [] o.artifacts) seen' (rw after at e5) in
      (
        record {
          in_steps = within_plan o.steps steps (not_rejected _ steps_out_of_range e0);
          in_tokens = within_plan o.consumed_tokens tokens (not_rejected _ tokens_out_of_range e1);
          some_artifact = ground (arith, not_rejected (length o.artifacts == 0) no_artifacts e2);
          artifacts =
              AreSound-append files [] o.artifacts (checkpoint_artifacts o.checkpoints) sound rest;
          checkpoints = rising;
          evaluations =
              validate_evaluations_sound float o.steps o.consumed_tokens o.evaluations (pos 0) e6;
        },
        h6,
      )
