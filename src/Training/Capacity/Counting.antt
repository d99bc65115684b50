-- ===== src/Training/Capacity/Counting.antt =====
-- The state of the packer between two records, and what the loop of `add` makes of the stream.
use waldo.Base.{
  ℕ, zero, suc, ◌+◌, ◌-◌, ◌≤◌, ◌<◌, ◌≡◌, refl, ap, ◌∙◌, ◌⊎◌, inl, inr, Bool, true, false, List, [],
  ◌∷◌, ◌++◌, append-nil, arith, tests, leb, ◌==◌, if◌then◌else◌, length, length-drop, take, drop,
  replicate, Bool-cases,
}
use waldo.Training.Capacity.{Packer, has_true, is_reached, add_loop}
use waldo.Training.Capacity.Windows.{
  one_if, sequences_of, sequences_of_full, sequences_of_full_append, replicate_eq,
}

-- The masks that the packer stands for, where it keeps none because all are set.
abbrev pub stream : Packer → List Bool
stream p = if length p.masks == 0 then replicate p.buffered true else p.masks

-- The state between two records.
pub record IsPacked (width required : ℕ) (p : Packer) : Type 0 where
  pub wide : p.sequence_length ≡ width
  pub mirrored : (length p.masks ≡ 0) ⊎ (length p.masks ≡ p.buffered)
  pub short : p.buffered ≤ width
  pub open_yet : is_reached required p.sequences ≡ false

-- What a call that starts with `before` sequences makes of the masks `ms`, whatever masks follow.
pub record IsOutcome (width required before : ℕ) (ms : List Bool) (r : Packer × Bool) : Type 0 where
  pub kept :
      r.1 ≡ false
      → IsPacked width required r.0
        × ((rest : List Bool)
            → r.0.sequences + sequences_of width (stream r.0 ++ rest)
              ≡ before + sequences_of width (ms ++ rest))
  pub stopped :
      r.1 ≡ true
      → (0 < required) × (r.0.sequences ≡ required) × (required ≤ before + sequences_of width ms)

module _ (width required : ℕ) (positive : 0 < width) where
  abbrev pub packer : ℕ → List Bool → ℕ → Packer
  packer buffered masks sequences = record {
    sequence_length = width;
    buffered = buffered;
    masks = masks;
    sequences = sequences;
  }

  pub stream_masks :
      (buffered sequences : ℕ) (ms : List Bool)
      → length ms ≡ buffered
      → stream (packer buffered ms sequences) ≡ ms
  stream_masks buffered sequences [] e = replicate_eq {n = 0} (omega arith)
  stream_masks buffered sequences (m ∷ ms) e = ground arith

  -- The loop has ended by its test.
  pub rest-IsOutcome :
      (buffered sequences : ℕ) (ms : List Bool)
      → length ms ≡ buffered
      → buffered ≤ width
      → is_reached required sequences ≡ false
      → IsOutcome width required sequences ms (packer buffered ms sequences, false)
  rest-IsOutcome buffered sequences ms e short r = record {
    kept = λ _. (
      record { wide = refl; mirrored = inr e; short = short; open_yet = r },
      λ rest.
          ap (λ zs. sequences + sequences_of width (zs ++ rest))
            (stream_masks buffered sequences ms e),
    );
    stopped = λ f. absurd (ground arith);
  }

  -- The loop has met the required number.
  pub reached-IsOutcome :
      (before : ℕ) (ms : List Bool) (p : Packer)
      → is_reached required (before + 1) ≡ true
      → is_reached required before ≡ false
      → p.sequences ≡ before + 1
      → 1 ≤ sequences_of width ms
      → IsOutcome width required before ms (p, true)
  reached-IsOutcome before ms p now not_yet e more = record {
    kept = λ f. absurd (ground arith);
    stopped = λ _. (ground arith, ground arith, ground arith);
  }

  pub shifted-IsOutcome :
      (before later : ℕ) (ms dropped : List Bool) (r : Packer × Bool)
      → ((rest : List Bool)
          → later + sequences_of width (dropped ++ rest) ≡ before + sequences_of width (ms ++ rest))
      → IsOutcome width required later dropped r
      → IsOutcome width required before ms r
  shifted-IsOutcome before later ms dropped r e h = record {
    kept = λ f. ((h.kept f).0, λ rest. (h.kept f).1 rest ∙ e rest);
    stopped = λ f. (
      (h.stopped f).0,
      (h.stopped f).1,
      omega (
        arith,
        (h.stopped f).2,
        e [],
        ap (sequences_of width) (append-nil dropped),
        ap (sequences_of width) (append-nil ms),
      ),
    );
  }

  module _ (fuel buffered sequences : ℕ) (ms : List Bool) where
    add_loop_short :
        buffered ≤ width
        → add_loop (suc fuel) required (packer buffered ms sequences)
          ≡ (packer buffered ms sequences, false)
    unfolding add_loop
    add_loop_short short = ground arith

    add_loop_unset :
        width + 1 ≤ buffered
        → has_true (take width (drop 1 ms)) ≡ false
        → add_loop (suc fuel) required (packer buffered ms sequences)
          ≡ add_loop fuel required (packer (buffered - width) (drop width ms) sequences)
    unfolding add_loop
    add_loop_unset long unset = ground arith

    add_loop_now :
        width + 1 ≤ buffered
        → has_true (take width (drop 1 ms)) ≡ true
        → is_reached required (sequences + 1) ≡ true
        → add_loop (suc fuel) required (packer buffered ms sequences)
          ≡ (packer buffered ms (sequences + 1), true)
    unfolding add_loop
    add_loop_now long set_ now = ground arith

    add_loop_on :
        width + 1 ≤ buffered
        → has_true (take width (drop 1 ms)) ≡ true
        → is_reached required (sequences + 1) ≡ false
        → add_loop (suc fuel) required (packer buffered ms sequences)
          ≡ add_loop fuel required (packer (buffered - width) (drop width ms) (sequences + 1))
    unfolding add_loop
    add_loop_on long set_ on = ground arith

  pub add_loop-IsOutcome :
      (fuel buffered sequences : ℕ) (ms : List Bool)
      → length ms ≡ buffered
      → buffered ≤ fuel
      → is_reached required sequences ≡ false
      → IsOutcome width required sequences ms
          (add_loop fuel required (packer buffered ms sequences))
  add_loop-IsOutcome zero buffered sequences ms e f r =
      unfold add_loop in rest-IsOutcome buffered sequences ms e (omega arith) r
  add_loop-IsOutcome (suc fuel) buffered sequences ms e f r =
      elim (Bool-cases (leb (width + 1) buffered)) [
        | inr short ↦
            rw (add_loop_short fuel buffered sequences ms (omega tests))
              (rest-IsOutcome buffered sequences ms e (omega tests) r)
        | inl long ↦
            let l : width + 1 ≤ length ms = omega tests in
            elim (Bool-cases (has_true (take width (drop 1 ms)))) [
              | inr unset ↦ rw (add_loop_unset fuel buffered sequences ms (omega tests) unset) (
                  shifted-IsOutcome sequences sequences ms (drop width ms) _
                    (λ rest.
                      omega
                        (arith, sequences_of_full_append width positive ms rest l, ap one_if unset))
                    (add_loop-IsOutcome fuel (buffered - width) sequences (drop width ms)
                      (omega (arith, length-drop width ms)) (omega arith) r))
              | inl set_ ↦ elim (Bool-cases (is_reached required (sequences + 1))) [
                | inl now ↦ rw (add_loop_now fuel buffered sequences ms (omega tests) set_ now) (
                    reached-IsOutcome sequences ms _ now r refl
                      (omega (arith, sequences_of_full width positive ms l, ap one_if set_)))
                | inr not_yet ↦
                    rw (add_loop_on fuel buffered sequences ms (omega tests) set_ not_yet) (
                      shifted-IsOutcome sequences (sequences + 1) ms (drop width ms) _
                        (λ rest. omega (
                          arith,
                          sequences_of_full_append width positive ms rest l,
                          ap one_if set_,
                        ))
                        (add_loop-IsOutcome fuel (buffered - width) (sequences + 1) (drop width ms)
                          (omega (arith, length-drop width ms)) (omega arith) not_yet))
              ]
            ]
      ]
