-- ===== src/Training/Written/Tests.antt =====
-- A text and a conversation that are planned and written, and the theorem at them.
use waldo.Base.{◌≡◌, ◌+◌, ◌<◌, ◌≤◌, refl, true, none, [], ◌∷◌, List, map, arith}
use waldo.Base.Bytes.{codes}
use waldo.Base.Results.{ok, err}
use waldo.Training.Capacity.{
  capacity_loop, add_record_capacity, add_fully_supervised, supervised_at_once, add,
  training_sequence_capacity,
}
use waldo.Training.Conversation.{
  Content, plain, structured, causal_language_modeling, demand_of, tokenize_record,
}
use waldo.Training.Conversation.Tests.{library, chatml, exchange, shown}
use waldo.Training.Prepared.{PreparedRecord, too_few_sequences, write_prepared_sequences, arrives}
use waldo.Training.Prepared.Tests.{begin, plan, begin_prepared}
use waldo.Training.Prepared.Windows.{windows_of, supervised}
use waldo.Training.Prepared.Loop.{whole_stream}
use waldo.Training.Prepared.Planned.{numbered_frames}
use waldo.Training.Written.{demands_of, planned_sequences_written}

abbrev contents : List Content
contents = plain (codes "text") none ∷ structured exchange ∷ []

abbrev records : List PreparedRecord
records =
    (record { tokens = 4 ∷ []; loss_mask = true ∷ true ∷ []; corpus = "a" })
    ∷ (record {
      tokens = shown.tokens;
      loss_mask = true ∷ true ∷ true ∷ true ∷ true ∷ true ∷ true ∷ [];
      corpus = "a";
    })
    ∷ []

text_tokenized :
    tokenize_record library causal_language_modeling chatml (plain (codes "text") none)
    ≡ ok (record { tokens = 4 ∷ []; mask = true ∷ true ∷ [] })
unfolding tokenize_record
text_tokenized = refl

exchange_all_targets :
    tokenize_record library causal_language_modeling chatml (structured exchange)
    ≡ ok (record {
      tokens = shown.tokens;
      mask = true ∷ true ∷ true ∷ true ∷ true ∷ true ∷ true ∷ [];
    })
unfolding tokenize_record waldo.Base.Bytes.bytes_eq waldo.Record.check_messages
    waldo.Record.check_message waldo.Training.Conversation.append_message
exchange_all_targets = refl

four_planned :
    training_sequence_capacity 2 4 (demands_of library causal_language_modeling chatml contents)
    ≡ ok (4, true)
unfolding demand_of training_sequence_capacity capacity_loop add_record_capacity
    add_fully_supervised supervised_at_once waldo.Base.Bytes.bytes_eq waldo.Record.check_messages
    waldo.Record.check_message waldo.Training.Conversation.append_message add
four_planned = refl

planned_sequences_written_example :
    (4 < 4 + 2
      → write_prepared_sequences begin (map arrives records)
        ≡ ok (
            numbered_frames plan 0
              (supervised (windows_of plan.width (whole_stream plan records)))))
    × (true ≡ true → 4 < 4 + 2)
    × (4 + 2 ≤ 4 → write_prepared_sequences begin (map arrives records) ≡ err (too_few_sequences 4))
planned_sequences_written_example =
    planned_sequences_written library causal_language_modeling chatml begin plan contents records 4
      true (λ value. refl) (tt, (tt, tt)) (text_tokenized, (exchange_all_targets, tt))
      begin_prepared (omega arith) four_planned
