-- ===== src/Training/Parallelism/Placed.antt =====
-- What `resolveTorchTitanParallelism` of internal/training/torchtitan.go places where.
use Prim.Native.String.{String}
use native.Mathlib.Nat.{div-add-mod, mod-lt, mod-eq_of_lt, mul-le-mul_left}
use waldo.Base.{
  ℕ, zero, suc, ◌*◌, ◌/◌, ◌%◌, ◌^◌, ◌≤◌, ◌<◌, ◌≡◌, ◌⊎◌, refl, subst, inl, inr, Bool, true, false,
  ◌||◌, List, [], ◌∷◌, All, ltb, leb, ◌==◌, if◌then◌else◌, arith, Bool-cases,
}
use waldo.Base.Text.{text_eq, text_eq_iff, one_of}
use waldo.Base.Results.{ok, reject_if, bind_ok, ok_injective}
use waldo.Training.Profile.Stages.{or_text, validate_parallelism_request}
use waldo.Training.Parallelism.{
  Parallelism, no_gpu, state_overflows, data_parallel, hybrid_sharded, fully_sharded, check_request,
  validate_parallelism, PlacementRequest, least_memory, divide_round_up, budget_of, choose_strategy,
  check_strategy, placed, max_uint64, resolve_on, resolve_parallelism,
}

abbrev pub IsStrategy : String → Type 0
IsStrategy s = (s ≡ data_parallel) ⊎ ((s ≡ hybrid_sharded) ⊎ (s ≡ fully_sharded))

-- The GPUs that share a copy hold its state, of 16 bytes for each parameter, in the part of their
-- memory that is meant for it, and no device has less memory.
pub record Fits (request : PlacementRequest) (p : Parallelism) : Type 0 where
  pub state : p.estimated_model_state_bytes ≡ request.approximate_parameters * 16
  pub memory : All (λ device. p.memory_per_gpu_bytes ≤ device) request.device_memory
  pub shared :
      p.estimated_model_state_bytes
      ≤ p.gpus_sharing_each_model_copy * (p.memory_per_gpu_bytes / 10 * 6)

least_memory_le :
    (memory : ℕ) (devices : List ℕ)
    → (least_memory memory devices ≤ memory)
      × All (λ device. least_memory memory devices ≤ device) devices
unfolding least_memory
least_memory_le memory [] = (omega arith, tt)
least_memory_le memory (device ∷ devices) =
    let next : ℕ = if ltb device memory then device else memory in
    let least : (next ≤ device) × (next ≤ memory) = ground arith in
    let below : (least_memory next devices ≤ next)
        × All (λ d. least_memory next devices ≤ d) devices =
      least_memory_le next devices in
    (omega (arith, below.0, least.1), (omega (arith, below.0, least.0), below.1))

divide_round_up_le :
    (value divisor budget : ℕ)
    → 0 < divisor
    → divide_round_up value divisor ≤ budget
    → value ≤ divisor * budget
unfolding divide_round_up
divide_round_up_le value divisor budget positive h = elim (Bool-cases (value % divisor == 0)) [
  | inl e ↦
      omega (arith, div-add-mod value divisor, is_zero_of e, mul-le-mul_left divisor (rw e at h))
  | inr e ↦
      omega (
        arith,
        div-add-mod value divisor,
        mod-lt value positive,
        mul-le-mul_left divisor (rw e at h),
      )
]
  where
    is_zero_of : {n : ℕ} → (n == 0) ≡ true → n ≡ 0
    is_zero_of h = ground arith

factors_positive : (n m : ℕ) → 1 ≤ n * m → (1 ≤ n) × (1 ≤ m)
factors_positive zero m h = absurd (omega arith)
factors_positive (suc n) zero h = absurd (omega arith)
factors_positive (suc n) (suc m) h = (omega arith, omega arith)

abbrev requests : List String
requests =
    "" ∷ "auto" ∷ "data-parallel" ∷ "hybrid-sharded-data-parallel" ∷ "fully-sharded-data-parallel"
    ∷ []

check_request_ok : (value : String) → check_request value ≡ ok tt → one_of requests value ≡ true
unfolding check_request validate_parallelism_request
check_request_ok value h = ground (arith, h)

or_text_given : (value : String) → text_eq (or_text "auto" value) "" ≡ false
or_text_given value = elim (Bool-cases (text_eq value "")) [
  | inl e ↦ rw e refl
  | inr e ↦ rw (e, e) refl
]

choose_strategy-IsStrategy :
    (requested : String) (request : PlacementRequest) (state budget : ℕ)
    → one_of requests requested ≡ true
    → text_eq requested "" ≡ false
    → IsStrategy (choose_strategy requested request state budget)
unfolding choose_strategy
choose_strategy-IsStrategy requested request state budget known given =
    elim (Bool-cases (text_eq requested "auto")) [
      | inl e ↦ rw e (automatic (request.approximate_parameters == 0) (leb state budget) _)
      | inr e ↦ rw e (
          named (text_eq_iff requested data_parallel).0 (text_eq_iff requested hybrid_sharded).0
            (text_eq_iff requested fully_sharded).0 (ground (arith, known, given, e)))
    ]
  where
    automatic :
        (unknown small hosts : Bool)
        → IsStrategy (
            if unknown
            then fully_sharded
            else if small
            then data_parallel
            else if hosts
            then hybrid_sharded
            else fully_sharded)
    automatic true small hosts = inr (inr refl)
    automatic false true hosts = inl refl
    automatic false false true = inr (inl refl)
    automatic false false false = inr (inr refl)

    named :
        {a b c : Bool}
        → (a ≡ true → requested ≡ data_parallel)
        → (b ≡ true → requested ≡ hybrid_sharded)
        → (c ≡ true → requested ≡ fully_sharded)
        → (a || b || c) ≡ true
        → IsStrategy requested
    named {a = true} f g h e = inl (f refl)
    named {a = false} {b = true} f g h e = inr (inl (g refl))
    named {a = false} {b = false} f g h e = inr (inr (h e))

data_request : check_request data_parallel ≡ ok tt
unfolding check_request validate_parallelism_request
data_request = refl

hybrid_request : check_request hybrid_sharded ≡ ok tt
unfolding check_request validate_parallelism_request
hybrid_request = refl

sharded_request : check_request fully_sharded ≡ ok tt
unfolding check_request validate_parallelism_request
sharded_request = refl

module _ (request : PlacementRequest) (state budget : ℕ) where
  data_fits : check_strategy data_parallel request state budget ≡ ok tt → state ≤ budget
  unfolding check_strategy
  data_fits h = ground (arith, h)

  hybrid_fits :
      check_strategy hybrid_sharded request state budget ≡ ok tt
      → divide_round_up state request.gpus_per_node ≤ budget
  unfolding check_strategy
  hybrid_fits h = ground (arith, h)

  sharded_fits :
      check_strategy fully_sharded request state budget ≡ ok tt
      → divide_round_up state (request.nodes * request.gpus_per_node) ≤ budget
  unfolding check_strategy
  sharded_fits h = ground (arith, h)

module _ (requested : String) (request : PlacementRequest) (state memory : ℕ) where
  -- The placement passes `Validate`, and the state fits.
  abbrev IsFitting : String → Type 0
  IsFitting strategy =
      (validate_parallelism (placed requested strategy request state memory)
          (record { nodes = request.nodes; world_size = request.nodes * request.gpus_per_node })
        ≡ ok tt)
      × (state
          ≤ (placed requested strategy request state memory).gpus_sharing_each_model_copy
            * budget_of memory)

  placed-IsFitting :
      (strategy : String)
      → IsStrategy strategy
      → check_request requested ≡ ok tt
      → 1 ≤ request.nodes * request.gpus_per_node
      → check_strategy strategy request state (budget_of memory) ≡ ok tt
      → IsFitting strategy
  unfolding validate_parallelism placed
  placed-IsFitting strategy (inl e) known many checked =
      let (n, g) = factors_positive request.nodes request.gpus_per_node many in
      rw e (
        ground (arith, known, data_request, n, g, many),
        omega (arith, data_fits request state (budget_of memory) (rw e at checked)),
      )
  placed-IsFitting strategy (inr (inl e)) known many checked =
      let (n, g) = factors_positive request.nodes request.gpus_per_node many in
      rw e (
        ground (arith, known, hybrid_request, n, g, many),
        divide_round_up_le state _ _ g
            (hybrid_fits request state (budget_of memory) (rw e at checked)),
      )
  placed-IsFitting strategy (inr (inr e)) known many checked =
      let (n, g) = factors_positive request.nodes request.gpus_per_node many in
      rw e (
        ground (arith, known, sharded_request, n, g, many),
        divide_round_up_le state _ _ many
            (sharded_fits request state (budget_of memory) (rw e at checked)),
      )

state_exact :
    (parameters : ℕ) → parameters ≤ max_uint64 / 16 → parameters * 16 % 2 ^ 64 ≡ parameters * 16
state_exact parameters h = mod-eq_of_lt (omega (arith, h))

-- What is said of a placement on the nodes and GPUs of a request.
abbrev IsSafe : PlacementRequest → Parallelism → Type 0
IsSafe request p =
    (validate_parallelism p
        (record { nodes = request.nodes; world_size = request.nodes * request.gpus_per_node })
      ≡ ok tt)
    × Fits request p

module _ (requested : String) (request : PlacementRequest) where
  no_devices : (p : Parallelism) → resolve_on requested [] request ≡ ok p → IsSafe request p
  unfolding resolve_on
  no_devices p h = absurd (ground (arith, h))

  resolve_on-IsSafe :
      (device : ℕ) (devices : List ℕ) (p : Parallelism)
      → check_request requested ≡ ok tt
      → text_eq requested "" ≡ false
      → device ∷ devices ≡ request.device_memory
      → resolve_on requested (device ∷ devices) request ≡ ok p
      → IsSafe request p
  unfolding resolve_on placed
  resolve_on-IsSafe device devices p known given e h =
      let (d1, e1, h1) =
        bind_ok (reject_if (ltb (request.nodes * request.gpus_per_node) 1) no_gpu) _ h in
      let (d2, e2, h2) =
        bind_ok (reject_if (ltb (max_uint64 / 16) request.approximate_parameters) state_overflows) _
          h1 in
      let memory : ℕ = least_memory device devices in
      let state : ℕ = request.approximate_parameters * 16 % 2 ^ 64 in
      let strategy : String = choose_strategy requested request state (budget_of memory) in
      let (d3, e3, h3) = bind_ok (check_strategy strategy request state (budget_of memory)) _ h2 in
      let (valid, fits) =
        placed-IsFitting requested request state memory strategy
          (choose_strategy-IsStrategy requested request state (budget_of memory)
            (check_request_ok requested known) given)
          known (ground (arith, e1)) e3 in
      subst (IsSafe request) (ok_injective h3) (
        valid,
        record {
          state = state_exact request.approximate_parameters (ground (arith, e2));
          memory = subst (All (λ d. memory ≤ d)) e (least_memory_le device devices);
          shared = fits;
        },
      )

-- Whenever `resolveTorchTitanParallelism` returns a placement, `Validate` accepts it for the nodes and
-- GPUs of the request, its estimate of the state is exact, and the state fits into the memory of the
-- GPUs that share a copy.
pub resolve_parallelism-Fits :
    (trim_space : String → String) (request : PlacementRequest) (p : Parallelism)
    → resolve_parallelism trim_space request ≡ ok p
    → (validate_parallelism p
          (record { nodes = request.nodes; world_size = request.nodes * request.gpus_per_node })
        ≡ ok tt)
      × Fits request p
unfolding resolve_parallelism
resolve_parallelism-Fits trim_space request p h =
    let (d0, known, h0) =
      bind_ok (check_request (or_text "auto" (trim_space request.parallelism))) _ h in
    on_devices known request.device_memory refl h0
  where
    on_devices :
        check_request (or_text "auto" (trim_space request.parallelism)) ≡ ok tt
        → (devices : List ℕ) → devices ≡ request.device_memory
        → resolve_on (or_text "auto" (trim_space request.parallelism)) devices request ≡ ok p
        → IsSafe request p
    on_devices known [] e h = no_devices _ request p h
    on_devices known (device ∷ devices) e h =
        resolve_on-IsSafe _ request device devices p known
          (or_text_given (trim_space request.parallelism)) e h
