-- ===== src/Training/Protocol/Frames.antt =====
-- The frames that `WorkerOutputFrame.Validate` of internal/training/protocol.go lets through.
use Prim.Native.String.{String}
use waldo.Base.{
  ◌≡◌, refl, ◌≢◌, ◌↔◌, ◌⊎◌, inl, inr, Bool, true, false, not, ◌&&◌, ◌||◌, Option, none, some, arith,
  All, Bool-cases, Option-cases,
}
use waldo.Base.Int.{is_negative}
use waldo.Base.Text.{text_eq, text_eq_iff}
use waldo.Base.Floats.{Floats, float_zero, not_finite}
use waldo.Base.Results.{ok}
use waldo.Training.Protocol.{
  Event, Observation, Checkpoint, Evaluation, WorkerOutputFrame, given, invalid_option,
  check_payload, check_event, has_negative_progress, telemetry, validate_event, payloads,
  validate_frame,
}

-- What an accepted event carries: a checkpoint or an evaluation exactly if its kind says so.
pub data Carries {F : Type 0} : Event F → Type 0 where
  progress :
      {event : Event F}
      → (event.kind ≡ "progress") ⊎ (event.kind ≡ "log")
      → event.checkpoint ≡ none
      → event.evaluation ≡ none
      → Carries event
  checkpoint :
      {event : Event F} (c : Checkpoint)
      → event.kind ≡ "checkpoint"
      → event.checkpoint ≡ some c
      → event.evaluation ≡ none
      → Carries event
  evaluation :
      {event : Event F} (e : Evaluation F)
      → event.kind ≡ "evaluation"
      → event.checkpoint ≡ none
      → event.evaluation ≡ some e
      → Carries event

-- What an accepted frame carries: one payload, that of its kind.
pub data Delivers {F : Type 0} (float : Floats F) : WorkerOutputFrame F → Type 0 where
  event :
      {frame : WorkerOutputFrame F} (e : Event F)
      → frame.kind ≡ "event"
      → frame.event ≡ some e
      → frame.observation ≡ none
      → frame.error ≡ ""
      → validate_event float e ≡ ok tt
      → Delivers float frame
  complete :
      {frame : WorkerOutputFrame F} (o : Observation F)
      → frame.kind ≡ "complete"
      → frame.event ≡ none
      → frame.observation ≡ some o
      → frame.error ≡ ""
      → Delivers float frame
  error :
      {frame : WorkerOutputFrame F}
      → frame.kind ≡ "error"
      → frame.event ≡ none
      → frame.observation ≡ none
      → frame.error ≢ ""
      → (frame.error_class ≡ "")
        ⊎ ((frame.error_class ≡ "artifact-integrity") ⊎ (frame.error_class ≡ "numerical-integrity"))
      → Delivers float frame

class_cases :
    (c : String)
    → (not (text_eq c "")
        && not (text_eq c "artifact-integrity")
        && not (text_eq c "numerical-integrity"))
      ≡ false
    → (c ≡ "") ⊎ ((c ≡ "artifact-integrity") ⊎ (c ≡ "numerical-integrity"))
class_cases c h = elim (Bool-cases (text_eq c "")) [
  | inl e ↦ inl ((text_eq_iff c "").0 e)
  | inr e ↦ elim (Bool-cases (text_eq c "artifact-integrity")) [
    | inl f ↦ inr (inl ((text_eq_iff c "artifact-integrity").0 f))
    | inr f ↦ inr (inr ((text_eq_iff c "numerical-integrity").0 (ground (arith, h, e, f))))
  ]
]

class_cases_conv :
    (c : String)
    → (c ≡ "") ⊎ ((c ≡ "artifact-integrity") ⊎ (c ≡ "numerical-integrity"))
    → (not (text_eq c "")
        && not (text_eq c "artifact-integrity")
        && not (text_eq c "numerical-integrity"))
      ≡ false
class_cases_conv c (inl e) = rw e refl
class_cases_conv c (inr (inl e)) = rw e refl
class_cases_conv c (inr (inr e)) = rw e refl

module _ {F : Type 0} (float : Floats F) where
  frame_sound :
      (frame : WorkerOutputFrame F)
      → validate_frame float frame ≡ ok tt
      → (frame.schema ≡ 1) × Delivers float frame
  unfolding validate_frame payloads check_event
  frame_sound frame h = (
    ground arith,
    elim (Bool-cases (text_eq frame.kind "event")) [
      | inl k ↦ elim (Option-cases frame.event) [
        | inl e ↦ absurd (ground (arith, k, e))
        | inr (ev, e) ↦
            Delivers.event ev ((text_eq_iff frame.kind "event").0 k) e (ground (arith, e))
              ((text_eq_iff frame.error "").0 (ground (arith, e))) (ground (arith, k, e))
      ]
      | inr k ↦ elim (Bool-cases (text_eq frame.kind "complete")) [
        | inl c ↦ elim (Option-cases frame.observation) [
          | inl e ↦ absurd (ground (arith, k, c, e))
          | inr (o, e) ↦
              Delivers.complete o ((text_eq_iff frame.kind "complete").0 c) (ground (arith, e)) e
                ((text_eq_iff frame.error "").0 (ground (arith, e)))
        ]
        | inr c ↦ elim (Bool-cases (text_eq frame.kind "error")) [
          | inr d ↦ absurd (ground (arith, k, c, d))
          | inl d ↦
              let there : text_eq frame.error "" ≡ false = ground (arith, k, c, d) in
              Delivers.error ((text_eq_iff frame.kind "error").0 d) (ground (arith, there))
                (ground (arith, there)) (λ e. different there ((text_eq_iff frame.error "").1 e))
                (class_cases frame.error_class (ground (arith, k, c, d, there)))
        ]
      ]
    ],
  )
    where
      different : {b : Bool} → b ≡ false → b ≡ true → ⊥
      different e f = cc

  frame_complete :
      (frame : WorkerOutputFrame F)
      → frame.schema ≡ 1
      → Delivers float frame
      → validate_frame float frame ≡ ok tt
  unfolding validate_frame payloads check_event
  frame_complete frame s (Delivers.event ev k e o r v) = rw (s, k, e, o, r) v
  frame_complete frame s (Delivers.complete ob k e o r) = rw (s, k, e, o, r) refl
  frame_complete frame s (Delivers.error k e o r c) =
      rw (s, k, e, o, absent frame.error r, class_cases_conv frame.error_class c) refl
    where
      absent : (t : String) → t ≢ "" → text_eq t "" ≡ false
      absent t n = elim (Bool-cases (text_eq t "")) [
        | inl e ↦ absurd (n ((text_eq_iff t "").0 e))
        | inr e ↦ e
      ]

  -- `WorkerOutputFrame.Validate` accepts exactly the frames of schema 1 that carry one payload: a valid
  -- event, an observation, or an error of a known class, as the kind of the frame says.
  pub validate_frame_iff :
      (frame : WorkerOutputFrame F)
      → (validate_frame float frame ≡ ok tt) ↔ ((frame.schema ≡ 1) × Delivers float frame)
  validate_frame_iff frame = (frame_sound frame, λ h. frame_complete frame h.0 h.1)

none_of : {A : Type 0} (o : Option A) → given o ≡ false → o ≡ none
none_of o h = ground arith

some_of : {A : Type 0} (o : Option A) → given o ≡ true → (a : A) × (o ≡ some a)
some_of none h = absurd (ground arith)
some_of (some a) h = (a, refl)

payload-Carries :
    {F : Type 0} (ev : Event F)
    → check_payload ev.kind (given ev.checkpoint) (given ev.evaluation) ≡ ok tt
    → Carries ev
unfolding check_payload
payload-Carries ev h = elim (Bool-cases (text_eq ev.kind "progress" || text_eq ev.kind "log")) [
  | inl k ↦
      Carries.progress (progress_or_log ev.kind k) (none_of ev.checkpoint (ground (arith, k)))
        (none_of ev.evaluation (ground (arith, k)))
  | inr k ↦ elim (Bool-cases (text_eq ev.kind "checkpoint")) [
    | inl c ↦
        let (made, e) = some_of ev.checkpoint (ground (arith, k, c)) in
        Carries.checkpoint made ((text_eq_iff ev.kind "checkpoint").0 c) e
          (none_of ev.evaluation (ground (arith, k, c)))
    | inr c ↦
        let (made, e) = some_of ev.evaluation (ground (arith, k, c)) in
        Carries.evaluation made ((text_eq_iff ev.kind "evaluation").0 (ground (arith, k, c)))
          (none_of ev.checkpoint (ground (arith, k, c))) e
  ]
]
  where
    progress_or_log :
        (kind : String)
        → (text_eq kind "progress" || text_eq kind "log") ≡ true
        → (kind ≡ "progress") ⊎ (kind ≡ "log")
    progress_or_log kind k = elim (Bool-cases (text_eq kind "progress")) [
      | inl e ↦ inl ((text_eq_iff kind "progress").0 e)
      | inr e ↦ inr ((text_eq_iff kind "log").0 (ground (arith, k, e)))
    ]

Carries-payload :
    {F : Type 0} (ev : Event F)
    → Carries ev
    → check_payload ev.kind (given ev.checkpoint) (given ev.evaluation) ≡ ok tt
unfolding check_payload
Carries-payload ev (Carries.progress (inl k) c e) = rw (k, c, e) refl
Carries-payload ev (Carries.progress (inr k) c e) = rw (k, c, e) refl
Carries-payload ev (Carries.checkpoint made k c e) = rw (k, c, e) refl
Carries-payload ev (Carries.evaluation made k c e) = rw (k, c, e) refl

module _ {F : Type 0} (float : Floats F) where
  -- A number that is finite and not below 0.
  abbrev pub IsFigure : F → Type 0
  IsFigure value = (float.less value (float_zero float) ≡ false) × (not_finite float value ≡ false)

  abbrev pub IsFigureIfGiven : Option F → Type 0
  IsFigureIfGiven none = Unit {0}
  IsFigureIfGiven (some value) = IsFigure value

  -- What `Event.Validate` accepts.
  pub record IsValidEvent (ev : Event F) : Type 0 where
    pub carries : Carries ev
    pub step_lem : is_negative ev.step ≡ false
    pub tokens_lem : is_negative ev.tokens ≡ false
    pub skipped_steps_lem : is_negative ev.skipped_steps ≡ false
    pub eta_seconds_lem : is_negative ev.eta_seconds ≡ false
    pub loss_lem : IsFigureIfGiven ev.loss
    pub gradient_norm_lem : IsFigureIfGiven ev.gradient_norm
    pub telemetry_lem : All IsFigure (telemetry float ev)

  invalid_option-IsFigureIfGiven :
      (value : Option F) → (invalid_option float value ≡ false) ↔ IsFigureIfGiven value
  unfolding invalid_option
  invalid_option-IsFigureIfGiven none = (λ _. tt, λ _. refl)
  invalid_option-IsFigureIfGiven (some value) =
      (λ h. (ground (arith, h), ground (arith, h)), λ h. rw (h.0, h.1) refl)

  event_sound : (ev : Event F) → validate_event float ev ≡ ok tt → IsValidEvent ev
  unfolding validate_event has_negative_progress
  event_sound ev h = record {
    carries = payload-Carries ev (ground arith);
    step_lem = ground arith;
    tokens_lem = ground arith;
    skipped_steps_lem = ground arith;
    eta_seconds_lem = ground arith;
    loss_lem = (invalid_option-IsFigureIfGiven ev.loss).0 (ground arith);
    gradient_norm_lem = (invalid_option-IsFigureIfGiven ev.gradient_norm).0 (ground arith);
    telemetry_lem = ground arith;
  }

  event_complete : (ev : Event F) → IsValidEvent ev → validate_event float ev ≡ ok tt
  unfolding validate_event has_negative_progress
  event_complete ev v =
      let loss = (invalid_option-IsFigureIfGiven ev.loss).1 v.loss_lem in
      let norm = (invalid_option-IsFigureIfGiven ev.gradient_norm).1 v.gradient_norm_lem in
      let payload = Carries-payload ev v.carries in
      let figures = v.telemetry_lem in
      ground (
        arith, loss, norm, payload, figures, v.step_lem, v.tokens_lem, v.skipped_steps_lem,
        v.eta_seconds_lem,
      )

  -- `Event.Validate` accepts exactly the events that carry what their kind says, of which the steps,
  -- the tokens, the skipped steps and the time left are not negative, and the loss and the norm of
  -- the gradient, where given, and every figure of the telemetry are finite and not below 0.
  pub validate_event_iff : (ev : Event F) → (validate_event float ev ≡ ok tt) ↔ IsValidEvent ev
  validate_event_iff ev = (event_sound ev, event_complete ev)
