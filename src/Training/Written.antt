-- ===== src/Training/Written.antt =====
-- The planned capacity of records and the sequences that are written of them: `addRecordCapacity` of
-- internal/training/stream.go and `writePreparedSequences` of internal/training/protocol.go both
-- tokenize by `tokenizeRecord`.
mod Tests
use waldo.Base.{
  ℕ, zero, suc, ◌+◌, ◌≡◌, ◌≤◌, ◌<◌, refl, sym, ap, ◌∙◌, Bool, true, false, Option, none, some, List,
  [], ◌∷◌, ◌++◌, map, arith, tests, length, replicate, if◌then◌else◌, Bool-cases, inl, inr, min,
  All,
}
use waldo.Base.Bytes.{Bytes}
use waldo.Base.Results.{ok, err, ok_injective, bind_ok, reject_if}
use waldo.Training.Capacity.{Demand, training_sequence_capacity}
use waldo.Training.Capacity.Windows.{sequences_of}
use waldo.Training.Capacity.Exact.{
  masks_of, stream_of, IsTokenized, total_of, training_sequence_capacity_exact,
}
use waldo.Training.Conversation.{
  Library, ConversationTransform, Objective, Rendered, Content, undecoded, structured, plain,
  is_causal, is_assistant, not_structured, tokenize_record, demand_of, demand_from,
}
use waldo.Training.Conversation.Masked.{tokenize_record-IsMasked}
use waldo.Training.Prepared.{
  WorkerBegin, Plan, PreparedRecord, InputFrame, too_few_sequences, prepare, arrives,
  write_prepared_sequences,
}
use waldo.Training.Prepared.Windows.{windows_of, supervised}
use waldo.Training.Prepared.Loop.{IsMasked, whole_stream}
use waldo.Training.Prepared.Planned.{numbered_frames, prepare_facts, write_prepared_sequences_lem}

-- A count that was made before is that of the codec.
abbrev pub IsCounted : Library → Content → Type 0
IsCounted library undecoded = Unit {0}
IsCounted library (structured conversation) = Unit {0}
IsCounted library (plain value none) = Unit {0}
IsCounted library (plain value (some n)) = n ≡ length (library.encode value)

plain_tokens :
    (library : Library) (objective : Objective) (transform : ConversationTransform) (value : Bytes)
    (known : Option ℕ) (out : Rendered)
    → tokenize_record library objective transform (plain value known) ≡ ok out
    → out.tokens ≡ library.encode value
unfolding tokenize_record
plain_tokens library objective transform value known out h =
    let (_, _, made) = bind_ok (reject_if (is_assistant objective) not_structured) _ h in
    ap (λ (o : Rendered). o.tokens) (sym (ok_injective made))

known_count :
    (library : Library)
    → ((value : Bytes) → library.count value ≡ length (library.encode value))
    → (value : Bytes) (known : Option ℕ) → IsCounted library (plain value known)
    → (elim known [ none ↦ library.count value | some n ↦ n ]) ≡ length (library.encode value)
known_count library counts value none counted = counts value
known_count library counts value (some n) counted = counted

module _ (library : Library) (objective : Objective) (transform : ConversationTransform) where
  abbrev pub rendered : PreparedRecord → Rendered
  rendered r = record { tokens = r.tokens; mask = r.loss_mask }

  -- The records are what `tokenizeRecord` makes of the contents.
  abbrev pub AreTokenized : List Content → List PreparedRecord → Type 0
  AreTokenized [] [] = Unit {0}
  AreTokenized [] (r ∷ records) = ⊥
  AreTokenized (c ∷ contents) [] = ⊥
  AreTokenized (c ∷ contents) (r ∷ records) =
      (tokenize_record library objective transform c ≡ ok (rendered r))
      × AreTokenized contents records

  abbrev pub demands_of : List Content → List Demand
  demands_of = map (demand_of library objective transform)

  module _ (counts : (value : Bytes) → library.count value ≡ length (library.encode value)) where
    demand_of-masks :
        (c : Content) (r : PreparedRecord)
        → IsCounted library c
        → tokenize_record library objective transform c ≡ ok (rendered r)
        → IsTokenized (demand_of library objective transform c)
          × (masks_of (demand_of library objective transform c) ≡ r.loss_mask)
    unfolding demand_of demand_from
    demand_of-masks undecoded r counted h = absurd (cc h)
    demand_of-masks (structured conversation) r counted h = rw h (
      (tokenize_record-IsMasked library objective transform (structured conversation) (rendered r)
          h).0,
      refl,
    )
    demand_of-masks (plain value known) r counted h = elim (Bool-cases (is_causal objective)) [
      | inl e ↦
          let (_, all, _) =
            tokenize_record-IsMasked library objective transform (plain value known) (rendered r)
              h in
          let same : r.tokens ≡ library.encode value =
            plain_tokens library objective transform value known (rendered r) h in
          let agreed : (elim known [ none ↦ library.count value | some n ↦ n ]) ≡ length r.tokens =
            known_count library counts value known counted ∙ ap length (sym same) in
          rw e (tt, ap (λ n. replicate (n + 1) true) agreed ∙ sym (all e))
      | inr e ↦
          rw (e, h)
            (
              (tokenize_record-IsMasked library objective transform (plain value known) (rendered r)
                  h).0,
              refl,
            )
    ]

    -- The capacity is that of the stream of the records.
    stream_of-demands_of :
        (plan : Plan) (contents : List Content) (records : List PreparedRecord)
        → All (IsCounted library) contents
        → AreTokenized contents records
        → All IsTokenized (demands_of contents)
          × (stream_of (demands_of contents) ≡ (whole_stream plan records).masks)
    stream_of-demands_of plan [] [] counted h = (tt, refl)
    stream_of-demands_of plan [] (r ∷ records) counted h = absurd h
    stream_of-demands_of plan (c ∷ contents) [] counted h = absurd h
    stream_of-demands_of plan (c ∷ contents) (r ∷ records) counted h =
        let (tokenized, same) = demand_of-masks c r counted.0 h.0 in
        let (others, rest) = stream_of-demands_of plan contents records counted.1 h.1 in
        ((tokenized, others), rw (same, rest) refl)

  AreTokenized-IsMasked :
      (contents : List Content) (records : List PreparedRecord)
      → AreTokenized contents records
      → All IsMasked records
  AreTokenized-IsMasked [] [] h = tt
  AreTokenized-IsMasked [] (r ∷ records) h = absurd h
  AreTokenized-IsMasked (c ∷ contents) [] h = absurd h
  AreTokenized-IsMasked (c ∷ contents) (r ∷ records) h = (
    (tokenize_record-IsMasked library objective transform c (rendered r) h.0).0,
    AreTokenized-IsMasked contents records h.1,
  )

-- Records are planned by the codec's counts and prepared by its tokens. Where the two agree, the
-- records are tokenized without an error, and a plan with a sequence length above 0 is made of the
-- run, let the scan of the capacity for the run's target give a number of sequences. If the target is passed less than a batch behind that number, the
-- frames written are those of the supervised windows of the records' whole stream, numbered from 0
-- up to the target, and that is so where the scan says that the records suffice; otherwise the
-- error is returned with that number.
pub planned_sequences_written :
    (library : Library) (objective : Objective) (transform : ConversationTransform)
    (begin : WorkerBegin) (plan : Plan) (contents : List Content) (records : List PreparedRecord)
    (n : ℕ) (sufficient : Bool)
    → ((value : Bytes) → library.count value ≡ length (library.encode value))
    → All (IsCounted library) contents
    → AreTokenized library objective transform contents records
    → prepare begin ≡ ok plan
    → 0 < plan.width
    → training_sequence_capacity plan.width plan.target
        (demands_of library objective transform contents)
      ≡ ok (n, sufficient)
    → (plan.target < n + plan.batch_size
        → write_prepared_sequences begin (map arrives records)
          ≡ ok (
              numbered_frames plan 0
                (supervised (windows_of plan.width (whole_stream plan records)))))
      × (sufficient ≡ true → plan.target < n + plan.batch_size)
      × (n + plan.batch_size ≤ plan.target
          → write_prepared_sequences begin (map arrives records) ≡ err (too_few_sequences n))
planned_sequences_written library objective transform begin plan contents records n sufficient
      counts counted tokenized prepared positive planned =
    let (all, stream) =
      stream_of-demands_of library objective transform counts plan contents records counted
        tokenized in
    let (m, s, runs, reached, below, exact, enough) =
      training_sequence_capacity_exact plan.width plan.target
        (demands_of library objective transform contents) positive all in
    let (sequences, windows, amount, written, refused) =
      write_prepared_sequences_lem begin plan records prepared positive
        (AreTokenized-IsMasked library objective transform contents records tokenized) in
    let (filled, reaches) = prepare_facts begin plan prepared in
    let same = ok_injective (sym runs ∙ planned) in
    let total : total_of plan.width (demands_of library objective transform contents)
        ≡ length sequences =
      ap (sequences_of plan.width) stream ∙ sym amount in
    let number : m ≡ n = ap (λ (q : ℕ × Bool). q.0) same in
    let said : s ≡ sufficient = ap (λ (q : ℕ × Bool). q.1) same in
    elim (Bool-cases s) [
      | inl e ↦
          let passed : plan.target ≤ n = omega (arith, number, enough e) in
          (
            λ h.
                written (omega (arith, passed, total, number, below, filled))
                ∙ ap (λ ws. ok (numbered_frames plan 0 ws)) windows,
            λ _. omega (arith, passed, filled),
            λ h. absurd (omega (arith, h, passed, filled)),
          )
      | inr e ↦
          let all_counted : n ≡ length sequences = omega (arith, number, exact e, total) in
          (
            λ h.
                written (omega (arith, h, all_counted))
                ∙ ap (λ ws. ok (numbered_frames plan 0 ws)) windows,
            λ f. absurd (ground (arith, e, said, f)),
            λ h.
                refused (omega (arith, h, all_counted))
                ∙ ap (λ k. err (too_few_sequences k)) (sym all_counted),
          )
    ]
