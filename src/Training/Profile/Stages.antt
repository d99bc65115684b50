-- ===== src/Training/Profile/Stages.antt =====
-- The parts of `resolveParameters` in internal/training/profile.go, each with its test, and
-- `resolveTrainingBudget`.
use Prim.Native.String.{String}
use waldo.Base.{
  ℕ, ◌+◌, ◌-◌, ◌/◌, ◌%◌, min, Bool, true, false, not, ◌&&◌, ◌||◌, Option, none, some, List, [], ◌∷◌,
  any, length, ltb, leb, ◌==◌, if◌then◌else◌,
}
use waldo.Base.Int.{ℤ, pos, is_negative, is_positive, is_zero, to_nat}
use waldo.Base.Text.{text_eq, one_of}
use waldo.Base.Floats.{Floats, float_zero, float_one, not_finite}
use waldo.Base.Results.{Result, ok, err, ◌>>=◌, ◌>>◌, reject_if}
use waldo.Training.Capacity.{max_int64}
use waldo.Training.Product.{multiply_int64}
use waldo.Training.Profile.Types.{
  Parameters, Schedule, ProfileError, unsupported_parallelism, unsupported_profile,
  bad_accumulation, capacity_overflows, bad_warmup, bad_warmdown, bad_minimum_rate, bad_fraction,
  bad_max_records, bad_max_bytes, bad_selection, tail_needs_shuffled, bad_weights, weights_missing,
  weights_not_weighted,
}

abbrev pub shuffled_profile : String
shuffled_profile = "causal-pretrain-shuffled"

abbrev pub balanced_profile : String
balanced_profile = "causal-pretrain-balanced"

abbrev pub weighted_profile : String
weighted_profile = "causal-pretrain-weighted"

-- `CanonicalProfile`
unfoldable pub canonical_profile : String → String
canonical_profile profile =
    if text_eq profile "causal-pretrain-v1"
    then shuffled_profile
    else if text_eq profile "causal-pretrain-v2"
    then balanced_profile
    else if text_eq profile "causal-pretrain-v3"
    then weighted_profile
    else profile

-- The field, or the default where it is the empty string.
abbrev pub or_text : String → String → String
or_text default value = if text_eq value "" then default else value

-- What a pointer points to, or the default.
abbrev pub or_else {ℓ} : {A : Type ℓ} → A → Option A → A
or_else default none = default
or_else default (some value) = value

-- A number that must lie in `lowest..highest`.
unfoldable pub within : ProfileError → ℕ → ℕ → ℤ → Result ProfileError ℕ
within e lowest highest value =
    if is_negative value || ltb (to_nat value) lowest || ltb highest (to_nat value)
    then err e
    else ok (to_nat value)

-- A text that must be one of those listed.
unfoldable pub listed : ProfileError → List String → String → Result ProfileError String
listed e allowed value = if one_of allowed value then ok value else err e

-- `ValidateParallelismRequest` of internal/training/backend.go
unfoldable pub validate_parallelism_request : String → Result ProfileError (Unit {0})
validate_parallelism_request value =
    reject_if
      (not (
        one_of
          ("" ∷ "auto" ∷ "data-parallel" ∷ "hybrid-sharded-data-parallel"
            ∷ "fully-sharded-data-parallel" ∷ [])
          value))
      unsupported_parallelism

unfoldable pub resolve_profile : String → Result ProfileError String
resolve_profile profile =
    listed unsupported_profile (shuffled_profile ∷ balanced_profile ∷ weighted_profile ∷ [])
      (canonical_profile (or_text shuffled_profile profile))

unfoldable pub resolve_accumulation : ℤ → ℕ → Result ProfileError ℕ
resolve_accumulation declared batch_size =
    let accumulation : ℤ = if is_zero declared then pos 1 else declared in
    if not (is_positive accumulation)
      || ltb batch_size (to_nat accumulation)
      || not (batch_size % to_nat accumulation == 0)
    then err bad_accumulation
    else ok (to_nat accumulation)

unfoldable pub resolve_capacity : ℕ → ℕ → ℕ → Result ProfileError ℕ
resolve_capacity steps batch_size sequence_length =
    elim (multiply_int64 (steps ∷ batch_size ∷ sequence_length ∷ [])) [
      | none ↦ err capacity_overflows
      | some capacity ↦ ok capacity
    ]

-- `min(100, steps/10)`, and 1 where that is 0 and there is more than one step.
unfoldable pub default_warmup : ℕ → ℕ
default_warmup steps =
    let tenth = min 100 (steps / 10) in if ltb 1 steps && tenth == 0 then 1 else tenth

-- `warmup+warmdown > steps` on int64, where a sum above the largest int64 comes out negative.
unfoldable pub sum_exceeds : ℕ → ℕ → ℕ → Bool
sum_exceeds warmup warmdown steps =
    leb (warmup + warmdown) max_int64 && ltb steps (warmup + warmdown)

unfoldable pub resolve_warmdown : String → Option ℤ → ℕ → ℕ → Result ProfileError ℕ
resolve_warmdown schedule declared warmup steps = do
  warmdown ← within bad_warmdown 0 steps (
      or_else (pos (if text_eq schedule "warmup-stable-warmdown" then (steps - warmup) / 2 else 0))
        declared)
  reject_if (sum_exceeds warmup warmdown steps) bad_warmdown
  ok warmdown

-- The order and the selection, for a weighted profile or another, with or without weights.
unfoldable pub weighted_order :
    Bool → Bool → String → String → String → Result ProfileError (String × String)
weighted_order true true declared profile selection = err weights_missing
weighted_order true false declared profile selection = ok (
  "corpus-weighted-shuffle-v1",
  if text_eq declared "" then "stratified-indexed-sample-v1" else selection,
)
weighted_order false true declared profile selection = ok (
  if text_eq profile balanced_profile then "corpus-balanced-shuffle-v1" else "bounded-shuffle-v1",
  selection,
)
weighted_order false false declared profile selection = err weights_not_weighted

module _ {F : Type 0} (float : Floats F) where
  -- A value that must be finite and in 0..1.
  unfoldable pub unit_interval : ProfileError → F → Result ProfileError F
  unit_interval e value =
      if float.less value (float_zero float)
        || float.less (float_one float) value
        || not_finite float value
      then err e
      else ok value

  unfoldable pub resolve_schedule : Parameters F → String → ℕ → Result ProfileError (Schedule F)
  resolve_schedule p name steps = do
    warmup ← within bad_warmup 0 steps (or_else (pos (default_warmup steps)) p.warmup_steps)
    warmdown ← resolve_warmdown name p.warmdown_steps warmup steps
    ratio ← unit_interval bad_minimum_rate (
        or_else
          (if text_eq name "warmup-stable-warmdown" then float_zero float else float.literal 1 1)
          p.minimum_rate_ratio)
    ok (record {
      name = name;
      warmup_steps = warmup;
      warmdown_steps = warmdown;
      minimum_rate_ratio = ratio;
    })

  -- The fraction and the limits of the evaluation set, all 0 where one of them is 0.
  unfoldable pub resolve_limits : Parameters F → Result ProfileError (F × ℕ × ℕ)
  resolve_limits p = do
    let fraction = or_else (float.literal 1 2) p.evaluation_fraction
    reject_if
        (float.less fraction (float_zero float)
          || not (float.less fraction (float_one float))
          || not_finite float fraction)
        bad_fraction
    max_records ← within bad_max_records 0 1000000 (or_else (pos 256) p.evaluation_max_records)
    max_bytes ← within bad_max_bytes 0 17179869184 (or_else (pos 1048576) p.evaluation_max_bytes)
    ok (
        if float.equal fraction (float_zero float) || max_records == 0 || max_bytes == 0
        then (float_zero float, 0, 0)
        else (fraction, max_records, max_bytes))

  -- `evaluation_selection`, before the weighted profile changes it.
  unfoldable pub resolve_selection : Parameters F → String → Result ProfileError String
  resolve_selection p profile = do
    selection ←
        listed bad_selection
          ("indexed-sample-v1" ∷ "stratified-indexed-sample-v1" ∷ "lowest-sha256-v1"
            ∷ "stratified-lowest-sha256-v1" ∷ "contiguous-tail-v1" ∷ [])
          (or_text
            (if text_eq profile balanced_profile
              then "stratified-indexed-sample-v1"
              else "indexed-sample-v1")
            p.evaluation_selection)
    reject_if (text_eq selection "contiguous-tail-v1" && not (text_eq profile shuffled_profile))
        tail_needs_shuffled
    ok selection

  -- The loop over the weights.
  unfoldable pub check_weights : Parameters F → Result ProfileError (Unit {0})
  check_weights p =
      reject_if (any (λ w. text_eq w.0 "" || w.1 == 0 || ltb 1000000 w.1) p.corpus_weights)
        bad_weights

  -- The order of the records and the selection of the evaluation set.
  unfoldable pub resolve_order : Parameters F → String → Result ProfileError (String × String)
  resolve_order p profile = do
    selection ← resolve_selection p profile
    check_weights p
    weighted_order (text_eq profile weighted_profile) (length p.corpus_weights == 0)
        p.evaluation_selection profile selection
