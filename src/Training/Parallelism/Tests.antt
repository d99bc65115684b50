-- ===== src/Training/Parallelism/Tests.antt =====
-- Placements of small models, and the theorem at one.
use waldo.Base.{◌*◌, ◌≡◌, refl, [], ◌∷◌}
use waldo.Base.Results.{ok, err}
use waldo.Training.Profile.Stages.{validate_parallelism_request}
use waldo.Training.Parallelism.{
  Parallelism, PlacementRequest, sharded_does_not_fit, placement_differs, check_request,
  validate_parallelism, least_memory, divide_round_up, choose_strategy, check_strategy, placed,
  resolve_on, resolve_parallelism,
}
use waldo.Training.Parallelism.Placed.{Fits, resolve_parallelism-Fits}

-- A state of 1600 bytes on two hosts with four GPUs of 1000 and more bytes.
abbrev request : PlacementRequest
request = record {
  parallelism = "";
  approximate_parameters = 100;
  device_memory = 2000 ∷ 1000 ∷ 2000 ∷ 2000 ∷ [];
  local_interconnect = "nvlink";
  hca = "";
  nodes = 2;
  gpus_per_node = 4;
}

abbrev two_copies : Parallelism
two_copies = record {
  requested = "auto";
  strategy = "hybrid-sharded-data-parallel";
  world_size = 8;
  nodes = 2;
  gpus_per_node = 4;
  complete_model_copies = 2;
  gpus_sharing_each_model_copy = 4;
  local_interconnect = "nvlink";
  inter_node_interconnect = "tcp";
  data_plane = "";
  estimated_model_state_bytes = 1600;
  memory_per_gpu_bytes = 1000;
}

request_resolved : resolve_parallelism (λ t. t) request ≡ ok two_copies
unfolding resolve_parallelism resolve_on check_request validate_parallelism_request least_memory
    divide_round_up choose_strategy check_strategy placed
request_resolved = refl

too_large :
    resolve_parallelism (λ t. t) (record request { approximate_parameters = 1000 })
    ≡ err sharded_does_not_fit
unfolding resolve_parallelism resolve_on check_request validate_parallelism_request least_memory
    divide_round_up choose_strategy check_strategy placed
too_large = refl

copies_missing :
    validate_parallelism
      (record two_copies { complete_model_copies = 1 })
      (record { nodes = 2; world_size = 8 })
    ≡ err placement_differs
unfolding validate_parallelism check_request validate_parallelism_request
copies_missing = refl

resolve_parallelism-Fits_example :
    (validate_parallelism two_copies (record { nodes = 2; world_size = 2 * 4 }) ≡ ok tt)
    × Fits request two_copies
resolve_parallelism-Fits_example =
    resolve_parallelism-Fits (λ t. t) request two_copies request_resolved
