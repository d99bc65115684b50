-- ===== src/Training/Capacity/Exact.antt =====
-- `trainingSequenceCapacityWithProgress` of internal/training/stream.go, and the sequences of the
-- whole stream of records.
use waldo.Base.{
  ℕ, ◌+◌, ◌≤◌, ◌<◌, ◌≡◌, refl, ap, ◌∙◌, subst, inl, Bool, true, false, List, [], ◌∷◌, ◌++◌,
  append_assoc, append-nil, arith, length, replicate, All,
}
use waldo.Base.Results.{ok}
use waldo.Training.Capacity.{
  Packer, is_reached, add_fully_supervised, add, terminal_sequences, start, Demand, text, masked,
  failed, add_record_capacity, capacity_loop, training_sequence_capacity,
}
use waldo.Training.Capacity.Windows.{sequences_of, sequences_of-append_le}
use waldo.Training.Capacity.Counting.{stream, IsPacked, IsOutcome, shifted-IsOutcome}
use waldo.Training.Capacity.Records.{fully-IsOutcome, add-IsOutcome, terminal_core}

-- The masks that a record adds to the stream, its EOS included.
abbrev pub masks_of : Demand → List Bool
masks_of (text token_count) = replicate (token_count + 1) true
masks_of (masked token_count mask) = mask
masks_of failed = []

abbrev pub stream_of : List Demand → List Bool
stream_of [] = []
stream_of (demand ∷ demands) = masks_of demand ++ stream_of demands

-- The record was tokenized, with a mask for each token and for the EOS, as `tokenizeRecord` gives.
abbrev pub IsTokenized : Demand → Type 0
IsTokenized (text token_count) = Unit {0}
IsTokenized (masked token_count mask) = length mask ≡ token_count + 1
IsTokenized failed = ⊥

record-IsOutcome :
    (required : ℕ) (p : Packer) (demand : Demand)
    → 0 < p.sequence_length
    → IsPacked p.sequence_length required p
    → IsTokenized demand
    → (r : Packer × Bool) × (add_record_capacity p demand required ≡ ok r)
      × IsOutcome p.sequence_length required p.sequences (stream p ++ masks_of demand) r
unfolding add_record_capacity
record-IsOutcome required p (text n) positive h t = (
  add_fully_supervised p n required,
  refl,
  fully-IsOutcome p.sequence_length required positive p.buffered p.sequences h.short h.open_yet
      p.masks n h.mirrored,
)
record-IsOutcome required p (masked n mask) positive h t = (
  add p n mask required,
  refl,
  add-IsOutcome p.sequence_length required positive p.buffered p.sequences h.short h.open_yet
      p.masks mask n h.mirrored t,
)
record-IsOutcome required p failed positive h t = absurd t

module _ (width required : ℕ) (positive : 0 < width) where
  -- The same at a length that is known.
  record-IsOutcome_at :
      (p : Packer) (demand : Demand)
      → IsPacked width required p
      → IsTokenized demand
      → (r : Packer × Bool) × (add_record_capacity p demand required ≡ ok r)
        × IsOutcome width required p.sequences (stream p ++ masks_of demand) r
  record-IsOutcome_at p demand h t =
      subst
        (λ w.
          0 < w
          → IsPacked w required p
          → (r : Packer × Bool) × (add_record_capacity p demand required ≡ ok r)
            × IsOutcome w required p.sequences (stream p ++ masks_of demand) r)
        h.wide (λ pos packed. record-IsOutcome required p demand pos packed t) positive h

  pub terminal-stream :
      (p : Packer)
      → IsPacked width required p
      → terminal_sequences p ≡ p.sequences + sequences_of width (stream p)
  terminal-stream p h =
      subst
        (λ w.
          0 < w
          → IsPacked w required p
          → terminal_sequences p ≡ p.sequences + sequences_of w (stream p))
        h.wide
        (λ pos packed.
          terminal_core p.sequence_length required pos p.buffered p.sequences p.masks packed.short
            packed.mirrored)
        positive h

  -- One record in front of a stream that has its outcome.
  capacity_step :
      (demand : Demand) (demands : List Demand) (p next : Packer) (reached : Bool)
      → add_record_capacity p demand required ≡ ok (next, reached)
      → IsOutcome width required p.sequences (stream p ++ masks_of demand) (next, reached)
      → (IsPacked width required next
          → (r : Packer × Bool) × (capacity_loop required demands next ≡ ok r)
            × IsOutcome width required next.sequences (stream next ++ stream_of demands) r)
      → (r : Packer × Bool) × (capacity_loop required (demand ∷ demands) p ≡ ok r)
        × IsOutcome width required p.sequences (stream p ++ stream_of (demand ∷ demands)) r
  unfolding capacity_loop
  capacity_step demand demands p next true made out later = (
    (next, true),
    ground (arith, made),
    record {
      kept = λ f. absurd (ground arith);
      stopped = λ _. (
        (out.stopped refl).0,
        (out.stopped refl).1,
        omega (
          arith,
          (out.stopped refl).2,
          sequences_of-append_le width positive (stream p ++ masks_of demand) (stream_of demands),
          ap (sequences_of width) (append_assoc (stream p) (masks_of demand) (stream_of demands)),
        ),
      );
    },
  )
  capacity_step demand demands p next false made out later =
      let (r, runs, rest_out) = later (out.kept refl).0 in
      (
        r,
        ground (arith, made, runs),
        shifted-IsOutcome width required positive p.sequences next.sequences
            (stream p ++ stream_of (demand ∷ demands)) (stream next ++ stream_of demands) r
            (λ rest.
              ap (λ zs. next.sequences + sequences_of width zs)
                (append_assoc (stream next) (stream_of demands) rest)
              ∙ (out.kept refl).1 (stream_of demands ++ rest)
              ∙ regroup rest)
            rest_out,
      )
    where
      regroup :
          (rest : List Bool)
          → p.sequences
              + sequences_of width ((stream p ++ masks_of demand) ++ (stream_of demands ++ rest))
            ≡ p.sequences
              + sequences_of width ((stream p ++ (masks_of demand ++ stream_of demands)) ++ rest)
      regroup rest = simp append_assoc

  pub capacity-IsOutcome :
      (demands : List Demand) (p : Packer)
      → IsPacked width required p
      → All IsTokenized demands
      → (r : Packer × Bool) × (capacity_loop required demands p ≡ ok r)
        × IsOutcome width required p.sequences (stream p ++ stream_of demands) r
  capacity-IsOutcome [] p h t = (
    (p, false),
    unfold capacity_loop in refl,
    record {
      kept = λ _. (h, λ rest. rw (append-nil (stream p)));
      stopped = λ f. absurd (ground arith);
    },
  )
  capacity-IsOutcome (demand ∷ demands) p h t =
      let (r, made, out) = record-IsOutcome_at p demand h t.0 in
      capacity_step demand demands p r.0 r.1 made out
        (λ packed. capacity-IsOutcome demands r.0 packed t.1)

-- The number of sequences in the packed stream of the records.
abbrev pub total_of : ℕ → List Demand → ℕ
total_of width demands = sequences_of width (stream_of demands)

pub start-IsPacked :
    (width required : ℕ) → is_reached required 0 ≡ false → IsPacked width required (start width)
start-IsPacked width required r = record {
  wide = refl;
  mirrored = inl refl;
  short = omega arith;
  open_yet = r;
}

pub not_reached_at_zero : (required : ℕ) → is_reached required 0 ≡ false
not_reached_at_zero required = ground arith

module _ (width required : ℕ) (positive : 0 < width) (demands : List Demand) where
  capacity_finish :
      (p : Packer) (reached : Bool)
      → capacity_loop required demands (start width) ≡ ok (p, reached)
      → IsOutcome width required 0 (stream_of demands) (p, reached)
      → (n : ℕ) × (sufficient : Bool) × (training_sequence_capacity width required demands
          ≡ ok (n, sufficient))
        × (sufficient ≡ is_reached required (total_of width demands))
        × (n ≤ total_of width demands)
        × (sufficient ≡ false → n ≡ total_of width demands)
        × (sufficient ≡ true → required ≤ n)
  unfolding training_sequence_capacity
  capacity_finish p true runs out =
      let (some_required, same, enough) = out.stopped refl in
      (
        p.sequences,
        true,
        rw runs,
        ground arith,
        omega arith,
        λ f. absurd (ground arith),
        λ _. omega arith,
      )
  capacity_finish p false runs out =
      let (packed, exact) = out.kept refl in
      let counted : terminal_sequences p ≡ total_of width demands = omega (
        arith,
        terminal-stream width required positive p packed,
        exact [],
        ap (sequences_of width) (append-nil (stream p)),
        ap (sequences_of width) (append-nil (stream_of demands)),
      ) in
      (
        terminal_sequences p,
        is_reached required (terminal_sequences p),
        rw runs,
        ap (is_reached required) counted,
        omega (arith, counted),
        λ _. counted,
        λ f. ground arith,
      )

-- For a positive sequence length and records that were tokenized, the scan of the capacity returns;
-- it says that the stream suffices exactly if the number required is not 0 and at most the number
-- of sequences in the packed stream; and the number that it gives is that of the stream, or a
-- number from the required one up to it where the stream suffices.
pub training_sequence_capacity_exact :
    (width required : ℕ) (demands : List Demand)
    → 0 < width
    → All IsTokenized demands
    → (n : ℕ) × (sufficient : Bool) × (training_sequence_capacity width required demands
        ≡ ok (n, sufficient))
      × (sufficient ≡ is_reached required (total_of width demands))
      × (n ≤ total_of width demands)
      × (sufficient ≡ false → n ≡ total_of width demands)
      × (sufficient ≡ true → required ≤ n)
training_sequence_capacity_exact width required demands positive t =
    let (r, runs, out) =
      capacity-IsOutcome width required positive demands (start width)
        (start-IsPacked width required (not_reached_at_zero required)) t in
    capacity_finish width required positive demands r.0 r.1 runs out
