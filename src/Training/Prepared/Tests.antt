-- ===== src/Training/Prepared/Tests.antt =====
-- The preparation of a small stream for two nodes, and the theorems at it.
use waldo.Base.{
  ℕ, ◌+◌, ◌<◌, ◌≤◌, ◌≡◌, refl, true, false, none, [], ◌∷◌, List, map, length, any, arith, ◌==◌,
}
use waldo.Base.Int.{pos, is_negative, is_positive, to_nat}
use waldo.Base.Results.{ok, err}
use waldo.Training.Product.{multiply_int64, multiply_loop}
use waldo.Training.Capacity.Windows.{sequences_of}
use waldo.Training.Prepared.{
  PreparedRecord, WorkerBegin, sequence, micro_batch_end, bad_loss_mask, too_few_sequences, Plan,
  resume_sequences, or_error, topology_wrong, prepare, Window, bump, consume, frames_of, emit,
  window_loop, arrives, stops, stream_loop, finish, write_prepared_sequences,
}
use waldo.Training.Prepared.Windows.{windows_of, supervised}
use waldo.Training.Prepared.Loop.{whole_stream}
use waldo.Training.Prepared.Planned.{numbered_frames, write_prepared_sequences_lem}
use waldo.Training.Prepared.Owners.{is_sequence, frames_of_owner}

-- Two steps of two sequences of two tokens, for the first of two nodes.
abbrev pub begin : WorkerBegin
begin = record {
  world_size = pos 2;
  gpus_per_node = pos 1;
  data_node_rank = pos 0;
  resume_step = none;
  steps = 2;
  batch_size = 2;
  gradient_accumulation = 1;
  sequence_length = 2;
  eos_id = 0;
}

abbrev pub plan : Plan
plan = record {
  width = 2;
  world_size = 2;
  gpus_per_node = 1;
  rank = 0;
  eos_id = 0;
  micro_batch = 2;
  batch_size = 2;
  resume = 0;
  target = 4;
}

abbrev first : PreparedRecord
first = record { tokens = 7 ∷ 8 ∷ 9 ∷ []; loss_mask = true ∷ true ∷ true ∷ true ∷ []; corpus = "a" }

abbrev second : PreparedRecord
second = record { tokens = 5 ∷ 6 ∷ []; loss_mask = false ∷ true ∷ true ∷ []; corpus = "b" }

pub begin_prepared : prepare begin ≡ ok plan
unfolding prepare topology_wrong resume_sequences or_error multiply_int64 multiply_loop is_negative
    is_positive to_nat
begin_prepared = refl

both_written :
    write_prepared_sequences begin (map arrives (first ∷ second ∷ []))
    ≡ ok (
        sequence (record {
          ordinal = 0;
          tokens = 7 ∷ 8 ∷ 9 ∷ [];
          loss_mask = true ∷ true ∷ [];
          consumption = ("a", 2) ∷ [];
        })
        ∷ micro_batch_end
        ∷ sequence (record {
          ordinal = 2;
          tokens = 5 ∷ 6 ∷ 0 ∷ [];
          loss_mask = true ∷ true ∷ [];
          consumption = ("b", 2) ∷ [];
        })
        ∷ [])
unfolding write_prepared_sequences prepare topology_wrong resume_sequences or_error multiply_int64
    multiply_loop is_negative is_positive to_nat stream_loop window_loop emit frames_of bump consume
    finish
both_written = refl

stopped : write_prepared_sequences begin (stops ∷ arrives first ∷ []) ≡ ok []
unfolding write_prepared_sequences prepare topology_wrong resume_sequences or_error multiply_int64
    multiply_loop is_negative is_positive to_nat stream_loop window_loop emit frames_of bump consume
    finish
stopped = refl

unmasked :
    write_prepared_sequences begin (arrives (record first { loss_mask = [] }) ∷ [])
    ≡ err bad_loss_mask
unfolding write_prepared_sequences prepare topology_wrong resume_sequences or_error multiply_int64
    multiply_loop is_negative is_positive to_nat stream_loop window_loop emit frames_of bump consume
    finish
unmasked = refl

one_is_too_few : write_prepared_sequences begin (arrives first ∷ []) ≡ err (too_few_sequences 2)
unfolding write_prepared_sequences prepare topology_wrong resume_sequences or_error multiply_int64
    multiply_loop is_negative is_positive to_nat stream_loop window_loop emit frames_of bump consume
    finish
one_is_too_few = refl

write_prepared_sequences_lem_example :
    (sequences : List Window) × (sequences
      ≡ supervised (windows_of 2 (whole_stream plan (first ∷ second ∷ []))))
    × (length sequences ≡ sequences_of 2 (whole_stream plan (first ∷ second ∷ [])).masks)
    × (4 < length sequences + 2
        → write_prepared_sequences begin (map arrives (first ∷ second ∷ []))
          ≡ ok (numbered_frames plan 0 sequences))
    × (length sequences + 2 ≤ 4
        → write_prepared_sequences begin (map arrives (first ∷ second ∷ []))
          ≡ err (too_few_sequences (length sequences)))
write_prepared_sequences_lem_example =
    write_prepared_sequences_lem begin plan (first ∷ second ∷ []) begin_prepared (omega arith)
      (refl, (refl, tt))

frames_of_owner_example :
    (node : ℕ) × (node < 2)
    × ((rank : ℕ)
        → any is_sequence (
            frames_of
              (record plan { rank = rank })
              3
              (record { tokens = 5 ∷ 6 ∷ []; mask = true ∷ []; corpora = "b" ∷ [] }))
          ≡ (node == rank))
frames_of_owner_example =
    frames_of_owner begin plan 3
      (record { tokens = 5 ∷ 6 ∷ []; mask = true ∷ []; corpora = "b" ∷ [] }) begin_prepared
      (omega arith)
