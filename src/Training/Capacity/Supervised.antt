-- ===== src/Training/Capacity/Supervised.antt =====
-- The loop and the division of `addFullySupervised`, internal/training/stream.go.
use native.Mathlib.Nat.{div-add-mod, mod-lt}
use waldo.Base.{
  ℕ, zero, suc, ◌+◌, ◌-◌, ◌*◌, ◌/◌, ◌≤◌, ◌<◌, ◌≡◌, refl, ap, ◌∙◌, inl, inr, Bool, true, false, ◌&&◌,
  List, [], ◌∷◌, ◌++◌, append-nil, arith, tests, ltb, leb, length, length-append, length-replicate,
  take, drop, replicate, Bool-cases,
}
use waldo.Training.Capacity.{has_true, is_reached, supervised_loop, supervised_at_once}
use waldo.Training.Capacity.Windows.{
  sequences_of, sequences_of_full_append, sequences_of-replicate, has_true_append,
  has_true-replicate, take_append_more, take-replicate, drop-replicate, replicate_eq,
}
use waldo.Training.Capacity.Counting.{
  IsOutcome, packer, rest-IsOutcome, reached-IsOutcome, shifted-IsOutcome,
}

module _ (width required : ℕ) (positive : 0 < width) where
  module _ (fuel buffered sequences : ℕ) (ms : List Bool) where
    supervised_loop_short :
        buffered ≤ width
        → supervised_loop (suc fuel) required (packer width required positive buffered ms sequences)
          ≡ (packer width required positive buffered ms sequences, false)
    unfolding supervised_loop
    supervised_loop_short short = ground arith

    supervised_loop_now :
        width + 1 ≤ buffered
        → is_reached required (sequences + 1) ≡ true
        → supervised_loop (suc fuel) required (packer width required positive buffered ms sequences)
          ≡ (packer width required positive buffered ms (sequences + 1), true)
    unfolding supervised_loop
    supervised_loop_now long now = ground arith

    supervised_loop_on :
        width + 1 ≤ buffered
        → is_reached required (sequences + 1) ≡ false
        → supervised_loop (suc fuel) required (packer width required positive buffered ms sequences)
          ≡ supervised_loop fuel required
              (packer width required positive (buffered - width) (drop width ms) (sequences + 1))
    unfolding supervised_loop
    supervised_loop_on long on = ground arith

  -- Every full window of what was short of a window and is followed by set masks has a target.
  supervised_window :
      (old : List Bool) (more : ℕ)
      → length old ≤ width
      → width + 1 ≤ length old + more
      → has_true (take width (drop 1 (old ++ replicate more true))) ≡ true
  supervised_window [] more h k = rw (
    drop-replicate 1 more,
    take-replicate width (more - 1) (omega arith),
    has_true-replicate width positive,
  )
  supervised_window (x ∷ old) more h k =
      rw
        (
          take_append_more width old (replicate more true) (omega arith),
          take-replicate (width - length old) more (omega arith),
          has_true_append old (replicate (width - length old) true),
          has_true-replicate (width - length old) (omega arith),
        )
        (ground arith)

  drop_supervised :
      (old : List Bool) (more n : ℕ)
      → length old ≤ n
      → drop n (old ++ replicate more true) ≡ replicate (length old + more - n) true
  drop_supervised [] more n h = drop-replicate n more ∙ replicate_eq (omega arith)
  drop_supervised (x ∷ old) more zero h = absurd (omega arith)
  drop_supervised (x ∷ old) more (suc n) h =
      drop_supervised old more n (omega arith) ∙ replicate_eq (omega arith)

  pub supervised_loop-IsOutcome :
      (fuel buffered sequences : ℕ) (old : List Bool) (more : ℕ)
      → length old ≤ width
      → length old + more ≡ buffered
      → buffered ≤ fuel
      → is_reached required sequences ≡ false
      → IsOutcome width required sequences (old ++ replicate more true) (
          supervised_loop fuel required
            (packer width required positive buffered (old ++ replicate more true) sequences))
  supervised_loop-IsOutcome zero buffered sequences old more o e f r =
      unfold supervised_loop in
      rest-IsOutcome width required positive buffered sequences (old ++ replicate more true)
        (omega (arith, length-append old (replicate more true), length-replicate more true, e))
        (omega arith) r
  supervised_loop-IsOutcome (suc fuel) buffered sequences old more o e f r =
      elim (Bool-cases (leb (width + 1) buffered)) [
        | inr short ↦
            rw (supervised_loop_short fuel buffered sequences ms (omega tests))
              (rest-IsOutcome width required positive buffered sequences ms size (omega tests) r)
        | inl long ↦ elim (Bool-cases (is_reached required (sequences + 1))) [
          | inl now ↦ rw (supervised_loop_now fuel buffered sequences ms (omega tests) now) (
              reached-IsOutcome width required positive sequences ms _ now r refl
                (omega (arith, one_more (omega tests) [], ap (sequences_of width) (append-nil ms))))
          | inr on ↦ rw (supervised_loop_on fuel buffered sequences ms (omega tests) on) (
              shifted-IsOutcome width required positive sequences (sequences + 1) ms (drop width ms)
                _ (λ rest. omega (arith, one_more (omega tests) rest))
                (rw (drop_supervised old more width o) (
                  supervised_loop-IsOutcome fuel (buffered - width) (sequences + 1) []
                    (length old + more - width) (omega arith) (omega arith) (omega arith) on)))
        ]
      ]
    where
      ms : List Bool
      ms = old ++ replicate more true

      size : length ms ≡ buffered
      size = omega (arith, length-append old (replicate more true), length-replicate more true, e)

      one_more :
          width + 1 ≤ buffered
          → (rest : List Bool)
          → sequences_of width (ms ++ rest) ≡ 1 + sequences_of width (drop width ms ++ rest)
      one_more long rest =
          sequences_of_full_append width positive ms rest (omega (arith, size))
          ∙ rw (supervised_window old more o (omega arith))

  -- The division gives the full windows of set masks, and leaves less than a window.
  module _ (buffered : ℕ) (long : width + 1 ≤ buffered) where
    abbrev completed : ℕ
    completed = (buffered - (width + 1)) / width + 1

    completed_fits : (completed * width + 1 ≤ buffered) × (buffered - completed * width ≤ width)
    completed_fits =
        let q = (buffered - (width + 1)) / width in
        (
          omega (arith, div-add-mod (buffered - (width + 1)) width),
          omega (
            arith,
            div-add-mod (buffered - (width + 1)) width,
            mod-lt (buffered - (width + 1)) positive,
          ),
        )

  pub supervised_at_once-IsOutcome :
      (buffered sequences : ℕ)
      → is_reached required sequences ≡ false
      → IsOutcome width required sequences
          (replicate buffered true)
          (supervised_at_once required (packer width required positive buffered [] sequences))
  unfolding supervised_at_once
  supervised_at_once-IsOutcome buffered sequences r = elim (Bool-cases (ltb buffered (width + 1))) [
    | inl short ↦ rw short (record {
      kept = λ _. (
        record { wide = refl; mirrored = inl refl; short = omega tests; open_yet = r },
        λ rest. refl,
      );
      stopped = λ f. absurd (ground arith);
    })
    | inr long ↦
        let l : width + 1 ≤ buffered = omega tests in
        let all_full = λ (rest : List Bool).
          sequences_of-replicate width positive (completed buffered l) buffered rest
            (completed_fits buffered l).0 in
        elim (Bool-cases (ltb 0 required && leb required (sequences + completed buffered l))) [
          | inl now ↦
              rw (long, now)
                (record {
                  kept = λ f. absurd (ground arith);
                  stopped = λ _. (
                    ground arith,
                    refl,
                    ground (arith, all_full [], append-nil (replicate buffered true)),
                  );
                })
          | inr on ↦
              rw (long, on)
                (record {
                  kept = λ _. (
                    record {
                      wide = refl;
                      mirrored = inl refl;
                      short = (completed_fits buffered l).1;
                      open_yet = on;
                    },
                    λ rest. omega (arith, all_full rest),
                  );
                  stopped = λ f. absurd (ground arith);
                })
        ]
  ]
