-- ===== src/Training/Selection/Indexed/Tests.antt =====
-- The rows selected of two small shards, and the theorem at them.
use waldo.Base.{
  ℕ, ◌+◌, ◌-◌, ◌*◌, ◌/◌, ◌≤◌, ◌≡◌, refl, true, false, none, some, [], ◌∷◌, List, Option, All, count,
  min, ◌==◌, if◌then◌else◌, map,
}
use waldo.Base.Bytes.{codes, bytes_eq}
use waldo.Base.Floats.{nano_floats, tens}
use waldo.Base.Results.{ok, err}
use waldo.Training.Selection.{IndexedInputGroup, EvaluationCandidate}
use waldo.Training.Selection.Tests.{library, inputs, candidate}
use waldo.Training.Selection.Indexed.{
  Scaling, Policy, Selected, bad_record_count, corpus_required, none_fits, selects_none,
  groups_loop, sort_groups, rounds_loop, select_indexed,
}
use waldo.Training.Selection.Indexed.Rounds.{is_row, IsDeclared}
use waldo.Training.Selection.Indexed.Kept.{IsWithin, total_records, select_indexed-IsWithin}

-- Fractions in units of 10 ^ -9.
abbrev scaling : Scaling ℕ
scaling = record {
  scale = λ total fraction. total * fraction;
  of_int = λ n. n * 1000000000;
  ceiling = λ x. (x + 999999999) / 1000000000;
}

-- A half, at most four rows and five bytes.
abbrev policy : Policy ℕ
policy = record { stratified = false; fraction = 500000000; max_records = 4; max_bytes = 5 }

-- Two bytes each, but four for the row 1 of the second shard; row 2 is not eligible.
abbrev text_bytes : EvaluationCandidate → Option ℕ
text_bytes c = if c.row == 2 then none else if c.input == 1 then some (2 * c.row + 2) else some 2

abbrev two_rows : Selected
two_rows = record {
  candidates = candidate (codes "x") 0 0 ∷ candidate (codes "y") 1 0 ∷ [];
  bytes = 4;
}

two_selected : select_indexed nano_floats scaling library inputs 7 policy text_bytes ≡ ok two_rows
unfolding select_indexed nano_floats tens bytes_eq
two_selected = refl

nothing_fits :
    select_indexed nano_floats scaling library inputs 7 (record policy { max_bytes = 1 }) text_bytes
    ≡ err none_fits
unfolding select_indexed nano_floats tens bytes_eq
nothing_fits = refl

nothing_desired :
    select_indexed nano_floats scaling library inputs 7 (record policy { fraction = 0 }) text_bytes
    ≡ err selects_none
unfolding select_indexed nano_floats tens
nothing_desired = refl

no_corpus :
    groups_loop true 0 ((record { sha256 = codes "z"; records = 1; corpus = [] }) ∷ []) 0 []
    ≡ err (corpus_required (codes "z"))
unfolding groups_loop
no_corpus = refl

no_records :
    groups_loop true 0 ((record { sha256 = codes "z"; records = 0; corpus = [] }) ∷ []) 0 []
    ≡ err (bad_record_count (codes "z"))
unfolding groups_loop
no_records = refl

abbrev named : List ℕ → List IndexedInputGroup
named = map (λ c. record { name = c ∷ []; inputs = c ∷ []; records = c })

by_name : sort_groups (named (3 ∷ 1 ∷ 2 ∷ [])) ≡ named (1 ∷ 2 ∷ 3 ∷ [])
unfolding sort_groups
by_name = refl

in_rounds :
    rounds_loop 2 0 (
      (candidate (codes "x") 0 0 ∷ candidate (codes "x") 0 1 ∷ [])
      ∷ (candidate (codes "y") 1 0 ∷ [])
      ∷ [])
    ≡ candidate (codes "x") 0 0 ∷ candidate (codes "y") 1 0 ∷ candidate (codes "x") 0 1 ∷ []
unfolding rounds_loop
in_rounds = refl

select_indexed-IsWithin_example :
    IsWithin (min 4 (total_records inputs - 1)) 5 text_bytes two_rows
    × All (IsDeclared inputs) two_rows.candidates
    × ((input row : ℕ) → count (is_row input row) two_rows.candidates ≤ 1)
select_indexed-IsWithin_example =
    select_indexed-IsWithin nano_floats scaling library inputs 7 policy text_bytes two_rows
      two_selected
