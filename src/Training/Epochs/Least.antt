-- ===== src/Training/Epochs/Least.antt =====
-- The number of passes that `minimumEpochsForSequences` of internal/training/stream.go finds is the
-- least one.
use waldo.Base.{
  ℕ, zero, suc, ◌+◌, ◌≤◌, ◌<◌, ◌≡◌, refl, ap, sym, subst, ◌∙◌, Bool, true, false, List, [], ◌++◌,
  append-nil, append_assoc, arith, any, leb, All, Bool-cases, inl, inr,
}
use waldo.Base.Results.{Result, ok, err}
use waldo.Training.Capacity.{
  Packer, Demand, CapacityError, no_usable_step, too_few_passes, capacity_loop, terminal_sequences,
  start,
}
use waldo.Training.Capacity.Windows.{sequences_of, sequences_of_tail}
use waldo.Training.Capacity.Counting.{stream, IsPacked, IsOutcome}
use waldo.Training.Capacity.Exact.{
  stream_of, IsTokenized, capacity-IsOutcome, terminal-stream, start-IsPacked, not_reached_at_zero,
}
use waldo.Training.Epochs.{has_targets, maximum_epochs, after_pass, epochs_loop, minimum_epochs}

-- The masks of the first passes, one after the other.
abbrev pub passes : (ℕ → List Demand) → ℕ → List Bool
passes records zero = []
passes records (suc n) = passes records n ++ stream_of (records n)

-- The sequences in the packed stream of the first passes.
abbrev pub sequences_in : (ℕ → List Demand) → ℕ → ℕ → ℕ
sequences_in records width n = sequences_of width (passes records n)

-- What the search may come to: the least number of passes whose stream suffices, a pass without a
-- target before that, or all passes without enough.
pub data IsLeast (records : ℕ → List Demand) (width required limit : ℕ)
    : Result CapacityError ℕ → Type 0 where
  least :
      (n : ℕ)
      → n ≤ limit
      → required ≤ sequences_in records width n
      → ((m : ℕ) → m < n → sequences_in records width m < required)
      → IsLeast records width required limit (ok n)
  idle :
      (k : ℕ)
      → k < limit
      → any has_targets (records k) ≡ false
      → ((m : ℕ) → m ≤ k → sequences_in records width m < required)
      → IsLeast records width required limit (err no_usable_step)
  exhausted :
      ((m : ℕ) → m ≤ limit → sequences_in records width m < required)
      → IsLeast records width required limit (err too_few_passes)

module _ (records : ℕ → List Demand) (width required : ℕ) (positive : 0 < width)
    (tokenized : (k : ℕ) → All IsTokenized (records k)) where
  -- The packer between two passes.
  record Between (epoch : ℕ) (p : Packer) : Type 0 where
    packed : IsPacked width required p
    exact :
        (rest : List Bool)
        → p.sequences + sequences_of width (stream p ++ rest)
          ≡ sequences_of width (passes records epoch ++ rest)
    below : (m : ℕ) → m ≤ epoch → sequences_in records width m < required

  below_next :
      (epoch : ℕ)
      → ((m : ℕ) → m ≤ epoch → sequences_in records width m < required)
      → sequences_in records width (suc epoch) < required
      → (m : ℕ) → m ≤ suc epoch
      → sequences_in records width m < required
  below_next epoch h k m l = elim (Bool-cases (leb m epoch)) [
    | inl e ↦ h m (ground (arith, e))
    | inr e ↦
        let same : suc epoch ≡ m = ground (arith, e, l) in
        subst (λ n. sequences_in records width n < required) same k
  ]

  after_pass-IsLeast :
      (limit epoch : ℕ) (p : Packer) (out : Packer × Bool) (more : Result CapacityError ℕ)
      → epoch < limit
      → Between epoch p
      → IsOutcome width required p.sequences (stream p ++ stream_of (records epoch)) out
      → (Between (suc epoch) out.0 → IsLeast records width required limit more)
      → IsLeast records width required limit (after_pass required epoch (records epoch) out more)
  unfolding after_pass
  after_pass-IsLeast limit epoch p (next, true) more l h out later =
      IsLeast.least (suc epoch) l
        (omega (arith, (out.stopped refl).2, h.exact (stream_of (records epoch))))
        (λ m k. h.below m (omega (arith, k)))
  after_pass-IsLeast limit epoch p (next, false) more l h out later =
      elim (Bool-cases (any has_targets (records epoch))) [
        | inr none_there ↦ rw none_there (IsLeast.idle epoch l none_there h.below)
        | inl there ↦ elim (Bool-cases (leb required (terminal_sequences next))) [
          | inl enough ↦
              rw (there, enough)
                (IsLeast.least (suc epoch) l (reach (ground (arith, enough)))
                  (λ m k. h.below m (omega (arith, k))))
          | inr few ↦
              rw (there, few)
                (later (record {
                  packed = (out.kept refl).0;
                  exact = exact;
                  below = below_next epoch h.below (not_reach (ground (arith, few)));
                }))
        ]
      ]
    where
      exact :
          (rest : List Bool)
          → next.sequences + sequences_of width (stream next ++ rest)
            ≡ sequences_of width (passes records (suc epoch) ++ rest)
      exact rest =
          (out.kept refl).1 rest
          ∙ ap (λ zs. p.sequences + sequences_of width zs)
              (append_assoc (stream p) (stream_of (records epoch)) rest)
          ∙ h.exact (stream_of (records epoch) ++ rest)
          ∙ ap (sequences_of width)
              (sym (append_assoc (passes records epoch) (stream_of (records epoch)) rest))

      counted : terminal_sequences next ≡ sequences_in records width (suc epoch)
      counted = omega (
        arith,
        terminal-stream width required positive next (out.kept refl).0,
        exact [],
        ap (sequences_of width) (append-nil (stream next)),
        ap (sequences_of width) (append-nil (passes records (suc epoch))),
      )

      reach : required ≤ terminal_sequences next → required ≤ sequences_in records width (suc epoch)
      reach e = omega (arith, e, counted)

      not_reach :
          terminal_sequences next < required → sequences_in records width (suc epoch) < required
      not_reach e = omega (arith, e, counted)

  loop_step :
      (left epoch : ℕ) (p : Packer) (out : Packer × Bool)
      → capacity_loop required (records epoch) p ≡ ok out
      → epochs_loop records required (suc left) epoch p
        ≡ after_pass required epoch
            (records epoch)
            out
            (epochs_loop records required left (suc epoch) out.0)
  unfolding epochs_loop
  loop_step left epoch p out e = rw (epochs_loop, e) refl

  epochs_loop-IsLeast :
      (left limit epoch : ℕ) (p : Packer)
      → epoch + left ≡ limit
      → Between epoch p
      → IsLeast records width required limit (epochs_loop records required left epoch p)
  epochs_loop-IsLeast zero limit epoch p e h =
      unfold epochs_loop in IsLeast.exhausted (λ m l. h.below m (omega (arith, e, l)))
  epochs_loop-IsLeast (suc left) limit epoch p e h =
      let (out, made, outcome) =
        capacity-IsOutcome width required positive (records epoch) p h.packed (tokenized epoch) in
      rw (loop_step left epoch p out made) (
        after_pass-IsLeast limit epoch p out (epochs_loop records required left (suc epoch) out.0)
          (omega (arith, e)) h outcome
          (λ next. epochs_loop-IsLeast left limit (suc epoch) out.0 (omega (arith, e)) next))

-- For a positive sequence length, at least one required sequence and tokenized records, the search
-- ends with the least number of passes, of a million at most, whose packed stream has the required
-- sequences, or with an error: a pass has no target before that, or a million passes have too few.
pub minimum_epochs-IsLeast :
    (records : ℕ → List Demand) (width required : ℕ)
    → 0 < width
    → 0 < required
    → ((k : ℕ) → All IsTokenized (records k))
    → IsLeast records width required maximum_epochs (minimum_epochs records width required)
unfolding minimum_epochs
minimum_epochs-IsLeast records width required positive some_required tokenized =
    epochs_loop-IsLeast records width required positive tokenized maximum_epochs maximum_epochs 0
      (start width) (omega arith)
      (record {
        packed = start-IsPacked width required (not_reached_at_zero required);
        exact = λ rest. omega arith;
        below = λ m l.
            let same : 0 ≡ m = omega (arith, l) in
            subst (λ n. sequences_in records width n < required) same
              (omega (arith, sequences_of_tail width positive [] (omega arith), some_required));
      })
