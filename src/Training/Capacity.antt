-- ===== src/Training/Capacity.antt =====
-- `sequenceCapacityPacker` of internal/training/stream.go. Counts are ints of Go that are never
-- negative; they are natural numbers here, with no overflow.
pub mod Windows
pub mod Counting
pub mod Supervised
pub mod Records
pub mod Exact
pub mod Steps
use waldo.Base.{
  ℕ, zero, suc, ◌+◌, ◌-◌, ◌*◌, ◌/◌, ◌%◌, ◌^◌, Bool, true, false, not, ◌&&◌, ◌||◌, List, [], ◌∷◌,
  ◌++◌, ltb, leb, ◌==◌, if◌then◌else◌, length, take, drop, replicate, any,
}
use waldo.Base.Results.{Result, ok, err, ◌>>=◌, ◌>>◌, reject_if}

pub record Packer : Type 0 where
  pub sequence_length : ℕ
  pub buffered : ℕ
  pub masks : List Bool
  pub sequences : ℕ

abbrev pub max_int64 : ℕ
max_int64 = 2 ^ 63 - 1

-- `slices.Contains(mask, true)` and `slices.Contains(mask, false)`
abbrev pub has_true : List Bool → Bool
has_true = any (λ b. b)

abbrev pub has_false : List Bool → Bool
has_false = any not

-- `required > 0 && sequences >= required`
abbrev pub is_reached : ℕ → ℕ → Bool
is_reached required sequences = ltb 0 required && leb required sequences

-- `buffered -= sequenceLength` and `masks = masks[sequenceLength:]`
abbrev pub advance : Packer → Packer
advance p = record p {
  buffered = p.buffered - p.sequence_length;
  masks = drop p.sequence_length p.masks;
}

-- The loop of `add`. A round takes a token or more, so `buffered` is enough fuel.
unfoldable pub add_loop : ℕ → ℕ → Packer → Packer × Bool
add_loop zero required p = (p, false)
add_loop (suc fuel) required p = elim (leb (p.sequence_length + 1) p.buffered) [
  | false ↦ (p, false)
  | true ↦
      let supervised = has_true (take p.sequence_length (drop 1 p.masks)) in
      let counted : Packer = record p {
        sequences = if supervised then p.sequences + 1 else p.sequences;
      } in
      elim (supervised && is_reached required counted.sequences) [
        | true ↦ (counted, true)
        | false ↦ add_loop fuel required (advance counted)
      ]
]

-- The loop of `addFullySupervised` where masks are kept.
unfoldable pub supervised_loop : ℕ → ℕ → Packer → Packer × Bool
supervised_loop zero required p = (p, false)
supervised_loop (suc fuel) required p = elim (leb (p.sequence_length + 1) p.buffered) [
  | false ↦ (p, false)
  | true ↦
      let counted : Packer = record p { sequences = p.sequences + 1 } in
      elim (is_reached required counted.sequences) [
        | true ↦ (counted, true)
        | false ↦ supervised_loop fuel required (advance counted)
      ]
]

-- The branch of `addFullySupervised` that keeps no masks: the windows by one division.
unfoldable pub supervised_at_once : ℕ → Packer → Packer × Bool
supervised_at_once required p =
    if ltb p.buffered (p.sequence_length + 1)
    then (p, false)
    else (let completed = (p.buffered - (p.sequence_length + 1)) / p.sequence_length + 1 in
        if ltb 0 required && leb required (p.sequences + completed)
        then (
          record p {
            sequences = required;
            buffered = p.buffered - (required - p.sequences) * p.sequence_length;
          },
          true,
        )
        else (
          record p {
            sequences = p.sequences + completed;
            buffered = p.buffered - completed * p.sequence_length;
          },
          false,
        ))

-- `addFullySupervised`; the EOS adds one token.
unfoldable pub add_fully_supervised : Packer → ℕ → ℕ → Packer × Bool
add_fully_supervised p token_count required =
    let framed = token_count + 1 in
    if ltb 0 (length p.masks)
    then supervised_loop (p.buffered + framed) required
        (record p { buffered = p.buffered + framed; masks = p.masks ++ replicate framed true })
    else supervised_at_once required (record p { buffered = p.buffered + framed })

-- The masks of what is buffered, written out where none are kept.
abbrev pub filled_masks : Packer → List Bool
filled_masks p =
    if length p.masks == 0 && ltb 0 p.buffered then replicate p.buffered true else p.masks

-- `add`, for a record of `token_count` tokens.
unfoldable pub add : Packer → ℕ → List Bool → ℕ → Packer × Bool
add p token_count mask required =
    if not (has_false mask)
    then add_fully_supervised p token_count required
    else add_loop (p.buffered + (token_count + 1)) required
        (record p { buffered = p.buffered + (token_count + 1); masks = filled_masks p ++ mask })

-- `terminalSequences`
unfoldable pub terminal_sequences : Packer → ℕ
terminal_sequences p =
    if ltb 1 p.buffered && (length p.masks == 0 || has_true (drop 1 p.masks))
    then p.sequences + 1
    else p.sequences

abbrev pub start : ℕ → Packer
start sequence_length = record {
  sequence_length = sequence_length;
  buffered = 0;
  masks = [];
  sequences = 0;
}

pub data CapacityError : Type 0 where
  bad_record : CapacityError
  not_positive : CapacityError
  overflows : CapacityError
  no_usable_step : CapacityError
  too_few_passes : CapacityError

-- What `addRecordCapacity` reads of a record: causal text by its token count alone, the tokens and
-- the mask of any other record, or the error of its decoding or tokenization.
pub data Demand : Type 0 where
  text : ℕ → Demand
  masked : ℕ → List Bool → Demand
  failed : Demand

-- `addRecordCapacity`, without its report of supervised targets.
unfoldable pub add_record_capacity : Packer → Demand → ℕ → Result CapacityError (Packer × Bool)
add_record_capacity p (text token_count) required = ok (add_fully_supervised p token_count required)
add_record_capacity p (masked token_count mask) required = ok (add p token_count mask required)
add_record_capacity p failed required = err bad_record

-- The stream of `trainingSequenceCapacityWithProgress`, which ends at the required number.
unfoldable pub capacity_loop : ℕ → List Demand → Packer → Result CapacityError (Packer × Bool)
capacity_loop required [] p = ok (p, false)
capacity_loop required (demand ∷ demands) p = elim (add_record_capacity p demand required) [
  | err e ↦ err e
  | ok (next, reached) ↦ elim reached [
    | true ↦ ok (next, true)
    | false ↦ capacity_loop required demands next
  ]
]

-- `trainingSequenceCapacityWithProgress` over the records of the bounded stream.
unfoldable pub training_sequence_capacity : ℕ → ℕ → List Demand → Result CapacityError (ℕ × Bool)
training_sequence_capacity width required demands = do
  (p, reached) ← capacity_loop required demands (start width)
  ok (
      if reached
      then (p.sequences, true)
      else (terminal_sequences p, is_reached required (terminal_sequences p)))

-- Full batches, and one more for a partial batch.
pub steps_of : ℕ → ℕ → ℕ
steps_of batch_size sequences =
    if not (sequences % batch_size == 0) then sequences / batch_size + 1 else sequences / batch_size

-- `TrainingSteps`
pub training_steps : ℕ → ℕ → List Demand → Result CapacityError ℕ
training_steps width batch_size demands = do
  (sequences, _) ← training_sequence_capacity width 0 demands
  reject_if (steps_of batch_size sequences == 0) no_usable_step
  ok (steps_of batch_size sequences)

-- `trainingStepCapacityWithProgress`; `multiplyInt64` of two positive numbers.
pub training_step_capacity : ℕ → ℕ → ℕ → List Demand → Result CapacityError (ℕ × Bool)
training_step_capacity width batch_size requested demands = do
  reject_if (requested == 0 || batch_size == 0 || width == 0) not_positive
  reject_if (ltb (max_int64 / batch_size) requested) overflows
  (sequences, sufficient) ← training_sequence_capacity width (requested * batch_size) demands
  ok (
      if sufficient
      then (requested, true)
      else (steps_of batch_size sequences, leb requested (steps_of batch_size sequences)))
