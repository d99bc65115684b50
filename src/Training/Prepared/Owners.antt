-- ===== src/Training/Prepared/Owners.antt =====
-- Which node gets a sequence of `writePreparedSequences` in internal/training/protocol.go.
use native.Mathlib.Nat.{div-lt_iff_lt-mul, mod-lt, div-add-mod}
use waldo.Base.{
  ℕ, zero, suc, ◌/◌, ◌%◌, ◌≤◌, ◌<◌, ◌≡◌, subst, Bool, true, false, not, ◌||◌, [], ◌∷◌, any, arith,
  leb, ◌==◌,
}
use waldo.Base.Int.{ℤ, pos, negsuc, is_negative, is_positive, to_nat, ltb_ℤ}
use waldo.Base.Results.{ok, reject_if, bind_ok, ok_injective}
use waldo.Training.Product.{multiply_int64}
use waldo.Training.Prepared.{
  WorkerBegin, Plan, Window, InputFrame, sequence, micro_batch_end, bad_topology, target_overflows,
  resume_overflows, or_error, resume_sequences, topology_wrong, prepare, owner_node, frames_of,
}

abbrev pub is_sequence : InputFrame → Bool
is_sequence (sequence s) = true
is_sequence micro_batch_end = false

-- Every node has the same positive number of ranks.
abbrev pub IsTopology : Plan → Type 0
IsTopology plan =
    (0 < plan.world_size)
    × (0 < plan.gpus_per_node)
    × (plan.world_size % plan.gpus_per_node ≡ 0)
    × (plan.rank < plan.world_size / plan.gpus_per_node)

topology_facts :
    (world gpus rank : ℤ)
    → (ltb_ℤ world (pos 2)
        || not (is_positive gpus)
        || not (to_nat world % to_nat gpus == 0)
        || is_negative rank
        || leb (to_nat world / to_nat gpus) (to_nat rank))
      ≡ false
    → (0 < to_nat world)
      × (0 < to_nat gpus)
      × (to_nat world % to_nat gpus ≡ 0)
      × (to_nat rank < to_nat world / to_nat gpus)
unfolding is_positive to_nat
topology_facts (pos world) (pos (suc gpus)) rank h = ground arith
topology_facts (pos world) (pos zero) rank h = absurd (ground arith)
topology_facts (pos world) (negsuc gpus) rank h = absurd (ground arith)
topology_facts (negsuc world) gpus rank h = absurd (ground arith)

prepare-IsTopology : (begin : WorkerBegin) (plan : Plan) → prepare begin ≡ ok plan → IsTopology plan
unfolding prepare topology_wrong
prepare-IsTopology begin plan h =
    let (d0, e0, h0) = bind_ok (reject_if (topology_wrong begin) bad_topology) _ h in
    let (resume, e1, h1) =
      bind_ok (or_error resume_overflows (resume_sequences begin.resume_step begin.batch_size)) _
        h0 in
    let (target, e2, h2) =
      bind_ok (or_error target_overflows (multiply_int64 (begin.steps ∷ begin.batch_size ∷ []))) _
        h1 in
    let made = ok_injective h2 in
    subst IsTopology made (
      topology_facts begin.world_size begin.gpus_per_node begin.data_node_rank (ground (arith, e0)))

owner_node_bound :
    (plan : Plan) (ordinal : ℕ)
    → IsTopology plan
    → owner_node plan ordinal < plan.world_size / plan.gpus_per_node
owner_node_bound plan ordinal (w, g, e, r) =
    (div-lt_iff_lt-mul g).1
      (omega (arith, mod-lt ordinal w, e, div-add-mod plan.world_size plan.gpus_per_node))

-- Among the nodes of a plan, exactly one gets the sequence of an ordinal that the run has not passed
-- before it resumes.
pub frames_of_owner :
    (begin : WorkerBegin) (plan : Plan) (ordinal : ℕ) (window : Window)
    → prepare begin ≡ ok plan
    → plan.resume ≤ ordinal
    → (node : ℕ) × (node < plan.world_size / plan.gpus_per_node)
      × ((rank : ℕ)
          → any is_sequence (frames_of (record plan { rank = rank }) ordinal window)
            ≡ (node == rank))
unfolding frames_of
frames_of_owner begin plan ordinal window h resumed = (
  owner_node plan ordinal,
  owner_node_bound plan ordinal (prepare-IsTopology begin plan h),
  λ rank. ground arith,
)
