-- ===== src/Training/Epochs.antt =====
-- `WithMinimumEpochsForSteps` and `minimumEpochsForSequences` of internal/training/stream.go: how many
-- passes over the records a run needs.
pub mod Least
mod Tests
use waldo.Base.{
  ℕ, zero, suc, ◌+◌, ◌*◌, ◌/◌, Bool, true, false, not, ◌||◌, List, [], ◌∷◌, any, ltb, leb, ◌==◌,
  if◌then◌else◌,
}
use waldo.Base.Results.{Result, ok, err, ◌>>=◌, ◌>>◌, reject_if}
use waldo.Training.Capacity.{
  Packer, Demand, text, masked, failed, CapacityError, not_positive, overflows, no_usable_step,
  too_few_passes, has_true, max_int64, capacity_loop, terminal_sequences, start,
}

-- The first result of `addRecordCapacity`.
pub has_targets : Demand → Bool
has_targets (text token_count) = true
has_targets (masked token_count mask) = has_true mask
has_targets failed = false

abbrev pub maximum_epochs : ℕ
maximum_epochs = 1000000

-- What follows the stream of a pass: no more passes, an error, or what the next one makes of it.
pub after_pass :
    ℕ → ℕ → List Demand → Packer × Bool → Result CapacityError ℕ → Result CapacityError ℕ
after_pass required epoch demands (next, true) more = ok (suc epoch)
after_pass required epoch demands (next, false) more =
    if not (any has_targets demands)
    then err no_usable_step
    else if leb required (terminal_sequences next)
    then ok (suc epoch)
    else more

-- The loop of `minimumEpochsForSequences`, with the passes left. A pass gets its records from
-- `streamEpoch`, in an order that depends on its number.
pub epochs_loop : (ℕ → List Demand) → ℕ → ℕ → ℕ → Packer → Result CapacityError ℕ
epochs_loop records required zero epoch p = err too_few_passes
epochs_loop records required (suc left) epoch p = elim (capacity_loop required (records epoch) p) [
  | err e ↦ err e
  | ok out ↦
      after_pass required epoch (records epoch) out
        (epochs_loop records required left (suc epoch) out.0)
]

-- `minimumEpochsForSequences`
pub minimum_epochs : (ℕ → List Demand) → ℕ → ℕ → Result CapacityError ℕ
minimum_epochs records width required = epochs_loop records required maximum_epochs 0 (start width)

-- `WithMinimumEpochsForStepsProgress`; `multiplyInt64` of two positive numbers.
pub with_minimum_epochs : (ℕ → List Demand) → ℕ → ℕ → ℕ → Result CapacityError ℕ
with_minimum_epochs records width batch_size requested = do
  reject_if (requested == 0 || batch_size == 0 || width == 0) not_positive
  reject_if (ltb (max_int64 / batch_size) requested) overflows
  minimum_epochs records width (requested * batch_size)
