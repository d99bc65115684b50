-- ===== src/Training/Parallelism.antt =====
-- The placement of a model on GPUs: `resolveTorchTitanParallelism` of internal/training/torchtitan.go
-- and `Parallelism.Validate` of internal/training/backend.go. Numbers of nodes and GPUs are never
-- negative in the code that fills them in, and natural numbers.
pub mod Placed
mod Tests
use Prim.Native.String.{String}
use waldo.Base.{
  ℕ, zero, suc, ◌+◌, ◌-◌, ◌*◌, ◌/◌, ◌%◌, ◌^◌, Bool, true, false, not, ◌&&◌, ◌||◌, List, [], ◌∷◌,
  length, ltb, leb, ◌==◌, if◌then◌else◌,
}
use waldo.Base.Text.{text_eq, one_of}
use waldo.Base.Results.{Result, ok, err, ◌>>=◌, ◌>>◌, reject_if}
use waldo.Training.Profile.Types.{ProfileError}
use waldo.Training.Profile.Stages.{or_text, validate_parallelism_request}

pub record Parallelism : Type 0 where
  pub requested : String
  pub strategy : String
  pub world_size : ℕ
  pub nodes : ℕ
  pub gpus_per_node : ℕ
  pub complete_model_copies : ℕ
  pub gpus_sharing_each_model_copy : ℕ
  pub local_interconnect : String
  pub inter_node_interconnect : String
  pub data_plane : String
  pub estimated_model_state_bytes : ℕ
  pub memory_per_gpu_bytes : ℕ

-- What `Validate` reads of an execution.
pub record Execution : Type 0 where
  pub nodes : ℕ
  pub world_size : ℕ

pub data ParallelismError : Type 0 where
  bad_request : ProfileError → ParallelismError
  strategy_is_auto : ParallelismError
  topology_differs : ParallelismError
  placement_differs : ParallelismError
  bad_data_plane : ParallelismError
  no_gpu : ParallelismError
  state_overflows : ParallelismError
  hybrid_needs_hosts : ParallelismError
  data_does_not_fit : ParallelismError
  hybrid_does_not_fit : ParallelismError
  sharded_does_not_fit : ParallelismError

abbrev pub data_parallel : String
data_parallel = "data-parallel"

abbrev pub hybrid_sharded : String
hybrid_sharded = "hybrid-sharded-data-parallel"

abbrev pub fully_sharded : String
fully_sharded = "fully-sharded-data-parallel"

pub check_request : String → Result ParallelismError (Unit {0})
check_request value = elim (validate_parallelism_request value) [
  | ok done ↦ ok done
  | err e ↦ err (bad_request e)
]

-- `Parallelism.Validate`
pub validate_parallelism : Parallelism → Execution → Result ParallelismError (Unit {0})
validate_parallelism plan execution = if text_eq plan.strategy "" then ok tt else (do
  check_request plan.requested
  reject_if (text_eq plan.strategy "auto") strategy_is_auto
  check_request plan.strategy
  reject_if
      (not (plan.world_size == execution.world_size)
        || not (plan.nodes == execution.nodes)
        || ltb plan.gpus_per_node 1
        || not (plan.world_size == plan.nodes * plan.gpus_per_node))
      topology_differs
  reject_if
      (ltb plan.complete_model_copies 1
        || ltb plan.gpus_sharing_each_model_copy 1
        || not (plan.complete_model_copies * plan.gpus_sharing_each_model_copy == plan.world_size))
      placement_differs
  reject_if
      (not
        (one_of ("" ∷ "local" ∷ "node-local-cache" ∷ "rank-zero-broadcast" ∷ []) plan.data_plane))
      bad_data_plane)

-- What is read of the request, of the probe of a node, and of the cluster.
pub record PlacementRequest : Type 0 where
  pub parallelism : String
  pub approximate_parameters : ℕ
  pub device_memory : List ℕ
  pub local_interconnect : String
  pub hca : String
  pub nodes : ℕ
  pub gpus_per_node : ℕ

-- The loop over the devices behind the first.
pub least_memory : ℕ → List ℕ → ℕ
least_memory memory [] = memory
least_memory memory (device ∷ devices) =
    least_memory (if ltb device memory then device else memory) devices

-- `divideRoundUpBytes`
pub divide_round_up : ℕ → ℕ → ℕ
divide_round_up value divisor =
    if value % divisor == 0 then value / divisor else value / divisor + 1

-- `memoryPerGPU / 10 * 6`
abbrev pub budget_of : ℕ → ℕ
budget_of memory = memory / 10 * 6

pub choose_strategy : String → PlacementRequest → ℕ → ℕ → String
choose_strategy requested request state budget =
    if text_eq requested "auto" && request.approximate_parameters == 0
    then fully_sharded
    else if text_eq requested "auto"
    then (if leb state budget
        then data_parallel
        else if ltb 1 request.nodes
            && ltb 1 request.gpus_per_node
            && leb (divide_round_up state request.gpus_per_node) budget
        then hybrid_sharded
        else fully_sharded)
    else requested

-- The tests of the strategy against the hosts and the memory.
pub check_strategy : String → PlacementRequest → ℕ → ℕ → Result ParallelismError (Unit {0})
check_strategy strategy request state budget = do
  reject_if
      (text_eq strategy hybrid_sharded && (ltb request.nodes 2 || ltb request.gpus_per_node 2))
      hybrid_needs_hosts
  reject_if (text_eq strategy data_parallel && ltb budget state) data_does_not_fit
  reject_if
      (text_eq strategy hybrid_sharded && ltb budget (divide_round_up state request.gpus_per_node))
      hybrid_does_not_fit
  reject_if
      (text_eq strategy fully_sharded
        && ltb budget (divide_round_up state (request.nodes * request.gpus_per_node)))
      sharded_does_not_fit

-- The struct that is returned.
pub placed : String → String → PlacementRequest → ℕ → ℕ → Parallelism
placed requested strategy request state memory = record {
  requested = requested;
  strategy = strategy;
  world_size = request.nodes * request.gpus_per_node;
  nodes = request.nodes;
  gpus_per_node = request.gpus_per_node;
  complete_model_copies =
      if text_eq strategy hybrid_sharded
      then request.nodes
      else if text_eq strategy fully_sharded
      then 1
      else request.nodes * request.gpus_per_node;
  gpus_sharing_each_model_copy =
      if text_eq strategy hybrid_sharded
      then request.gpus_per_node
      else if text_eq strategy fully_sharded
      then request.nodes * request.gpus_per_node
      else 1;
  local_interconnect = request.local_interconnect;
  inter_node_interconnect =
      if ltb 1 request.nodes then (if text_eq request.hca "" then "tcp" else "rdma") else "";
  data_plane = "";
  estimated_model_state_bytes = state;
  memory_per_gpu_bytes = memory;
}

abbrev pub max_uint64 : ℕ
max_uint64 = 2 ^ 64 - 1

-- The resolution with the requested strategy and the devices.
pub resolve_on : String → List ℕ → PlacementRequest → Result ParallelismError Parallelism
resolve_on requested [] request = err no_gpu
resolve_on requested (device ∷ devices) request = do
  reject_if (ltb (request.nodes * request.gpus_per_node) 1) no_gpu
  let memory = least_memory device devices
  reject_if (ltb (max_uint64 / 16) request.approximate_parameters) state_overflows
  let state = request.approximate_parameters * 16 % 2 ^ 64
  let strategy = choose_strategy requested request state (budget_of memory)
  check_strategy strategy request state (budget_of memory)
  ok (placed requested strategy request state memory)

-- `resolveTorchTitanParallelism`, with `strings.TrimSpace`.
pub resolve_parallelism : (String → String) → PlacementRequest → Result ParallelismError Parallelism
resolve_parallelism trim_space request = do
  check_request (or_text "auto" (trim_space request.parallelism))
  resolve_on (or_text "auto" (trim_space request.parallelism)) request.device_memory request
