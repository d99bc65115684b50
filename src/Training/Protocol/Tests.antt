-- ===== src/Training/Protocol/Tests.antt =====
-- Frames of a worker, and the theorems at them.
use waldo.Base.{ℕ, ◌≡◌, ◌↔◌, refl, none, some, []}
use waldo.Base.Int.{pos, negsuc, is_negative}
use waldo.Base.Floats.{nano_floats}
use waldo.Base.Results.{ok, err}
use waldo.Training.Protocol.{
  Event, WorkerOutputFrame, negative_progress, not_one_payload, check_payload, invalid_option,
  has_negative_progress, validate_event, payloads, validate_frame,
}
use waldo.Training.Protocol.Frames.{Delivers, validate_frame_iff, validate_event_iff, IsValidEvent}

abbrev third_step : Event ℕ
third_step = record {
  kind = "checkpoint";
  message = "";
  step = pos 3;
  tokens = pos 96;
  loss = some 2500000000;
  gradient_norm = none;
  learning_rate = 300000;
  tokens_per_second = 1000000000;
  duration_seconds = 0;
  data_wait_seconds = 0;
  peak_memory_bytes = 0;
  training_flops = 0;
  achieved_tflops = 0;
  model_flop_utilization = 0;
  skipped_steps = pos 0;
  eta_seconds = pos 0;
  checkpoint = some (record { step = pos 3; tokens = pos 96; artifacts = [] });
  evaluation = none;
}

abbrev event_frame : WorkerOutputFrame ℕ
event_frame = record {
  kind = "event";
  schema = 1;
  event = some third_step;
  observation = none;
  error = "";
  error_class = "";
}

third_step_valid : validate_event nano_floats third_step ≡ ok tt
unfolding validate_event has_negative_progress is_negative nano_floats invalid_option check_payload
third_step_valid = refl

step_back :
    validate_event nano_floats (record third_step { step = negsuc 0 }) ≡ err negative_progress
unfolding validate_event has_negative_progress is_negative
step_back = refl

two_payloads :
    validate_frame nano_floats (record event_frame { error = "lost" }) ≡ err not_one_payload
unfolding validate_frame payloads
two_payloads = refl

validate_event_iff_example :
    (validate_event nano_floats third_step ≡ ok tt) ↔ IsValidEvent nano_floats third_step
validate_event_iff_example = validate_event_iff nano_floats third_step

validate_frame_iff_example :
    (validate_frame nano_floats event_frame ≡ ok tt)
    ↔ ((event_frame.schema ≡ 1) × Delivers nano_floats event_frame)
validate_frame_iff_example = validate_frame_iff nano_floats event_frame
