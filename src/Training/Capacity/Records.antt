-- ===== src/Training/Capacity/Records.antt =====
-- What `add`, `addFullySupervised` and `terminalSequences` do to the stream, for one record.
use waldo.Base.{
  ℕ, zero, suc, ◌+◌, ◌-◌, ◌≤◌, ◌<◌, ◌≡◌, refl, sym, ap, ◌∙◌, subst, ◌⊎◌, inl, inr, Bool, true,
  false, List, [], ◌∷◌, ◌++◌, arith, tests, ltb, ◌==◌, length, length-append, length-replicate,
  replicate, Bool-cases,
}
use waldo.Training.Capacity.{
  Packer, has_true, has_false, is_reached, add_fully_supervised, filled_masks, add,
  terminal_sequences,
}
use waldo.Training.Capacity.Windows.{
  drop-replicate, sequences_of, sequences_of_tail, replicate_eq, has_true-replicate,
}
use waldo.Training.Capacity.Counting.{stream, IsOutcome, packer, add_loop-IsOutcome}
use waldo.Training.Capacity.Supervised.{supervised_loop-IsOutcome, supervised_at_once-IsOutcome}

replicate_append : (m n : ℕ) → replicate m true ++ replicate n true ≡ replicate (m + n) true
replicate_append zero n = replicate_eq (omega arith)
replicate_append (suc m) n =
    ap (λ (zs : List Bool). true ∷ zs) (replicate_append m n)
    ∙ replicate_eq {m = suc (m + n)} (omega arith)

-- A mask with no clear entry is all set.
no_false : (mask : List Bool) → has_false mask ≡ false → mask ≡ replicate (length mask) true
no_false [] h = refl
no_false (true ∷ mask) h = ap (λ (zs : List Bool). true ∷ zs) (no_false mask h)
no_false (false ∷ mask) h = absurd (ground arith)

module _ (width required : ℕ) (positive : 0 < width) (buffered sequences : ℕ)
    (short : buffered ≤ width) (open_yet : is_reached required sequences ≡ false) where
  abbrev state : List Bool → Packer
  state = λ ms. packer width required positive buffered ms sequences

  pub fully-IsOutcome :
      (ms : List Bool) (token_count : ℕ)
      → (length ms ≡ 0) ⊎ (length ms ≡ buffered)
      → IsOutcome width required sequences
          (stream (state ms) ++ replicate (token_count + 1) true)
          (add_fully_supervised (state ms) token_count required)
  unfolding add_fully_supervised
  fully-IsOutcome [] token_count mirrored = rw (replicate_append buffered (token_count + 1)) (
      supervised_at_once-IsOutcome width required positive (buffered + (token_count + 1)) sequences
        open_yet)
  fully-IsOutcome (x ∷ ms) token_count mirrored =
      rw (positive_length, nonzero_length)
        (supervised_loop-IsOutcome width required positive (buffered + (token_count + 1))
          (buffered + (token_count + 1)) sequences (x ∷ ms) (token_count + 1) (omega arith)
          (omega arith) (omega arith) open_yet)
    where
      positive_length : ltb 0 (suc (length ms)) ≡ true
      positive_length = ground arith

      nonzero_length : (suc (length ms) == 0) ≡ false
      nonzero_length = ground arith

  filled-stream : (ms : List Bool) → filled_masks (state ms) ≡ stream (state ms)
  filled-stream [] = elim (Bool-cases (ltb 0 buffered)) [
    | inl more ↦ rw more
    | inr empty ↦ rw empty (replicate_eq {m = 0} (omega tests))
  ]
  filled-stream (x ∷ ms) = ground arith

  length-stream :
      (ms : List Bool)
      → (length ms ≡ 0) ⊎ (length ms ≡ buffered)
      → length (stream (state ms)) ≡ buffered
  length-stream [] m = length-replicate buffered true
  length-stream (x ∷ ms) m = ground arith

  pub add-IsOutcome :
      (ms mask : List Bool) (token_count : ℕ)
      → (length ms ≡ 0) ⊎ (length ms ≡ buffered)
      → length mask ≡ token_count + 1
      → IsOutcome width required sequences
          (stream (state ms) ++ mask)
          (add (state ms) token_count mask required)
  unfolding add
  add-IsOutcome ms mask token_count mirrored e = elim (Bool-cases (has_false mask)) [
    | inr all_set ↦ rw all_set (
        subst
          (λ zs.
            IsOutcome width required sequences (stream (state ms) ++ zs)
              (add_fully_supervised (state ms) token_count required))
          (replicate_eq (sym e) ∙ sym (no_false mask all_set))
          (fully-IsOutcome ms token_count mirrored))
    | inl clear ↦
        rw (clear, filled-stream ms)
          (add_loop-IsOutcome width required positive (buffered + (token_count + 1))
            (buffered + (token_count + 1)) sequences (stream (state ms) ++ mask)
            (omega (arith, length-append (stream (state ms)) mask, length-stream ms mirrored, e))
            (omega arith) open_yet)
  ]

pub terminal_core :
    (width required : ℕ) (positive : 0 < width) (buffered sequences : ℕ) (ms : List Bool)
    → buffered ≤ width
    → (length ms ≡ 0) ⊎ (length ms ≡ buffered)
    → terminal_sequences (packer width required positive buffered ms sequences)
      ≡ sequences
        + sequences_of width (stream (packer width required positive buffered ms sequences))
unfolding terminal_sequences
terminal_core width required positive buffered sequences [] short m = ground (
  arith,
  sequences_of_tail width positive (replicate buffered true),
  length-replicate buffered true,
  drop-replicate 1 buffered,
  has_true-replicate (buffered - 1),
  none_left (buffered - 1),
)
  where
    none_left : (n : ℕ) → n ≤ 0 → has_true (replicate n true) ≡ false
    none_left zero h = refl
    none_left (suc n) h = absurd (omega arith)
terminal_core width required positive buffered sequences (x ∷ []) short m =
    ground (arith, sequences_of_tail width positive (x ∷ []))
terminal_core width required positive buffered sequences (x ∷ y ∷ ms) short m =
    ground (arith, sequences_of_tail width positive (x ∷ y ∷ ms))
