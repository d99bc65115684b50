-- ===== src/Training/Tests.antt =====
-- The planning of a packed stream on small inputs, and its theorems at them.
use waldo.Base.{
  All, ◌↔◌, some, ℕ, ◌+◌, ◌*◌, ◌<◌, leb, min, ◌≤◌, ◌≡◌, refl, Bool, true, false, List, [], ◌∷◌,
  arith,
}
use waldo.Base.Results.{ok, err}
use waldo.Training.Product.{multiply_int64, product, IsPositive, multiply_int64_iff}
use waldo.Training.Capacity.{
  max_int64, Demand, text, masked, is_reached, training_sequence_capacity, no_usable_step, steps_of,
  training_steps, training_step_capacity,
}
use waldo.Training.Capacity.Steps.{training_steps_ceiling, training_step_capacity_exact}
use waldo.Training.Capacity.Exact.{total_of, training_sequence_capacity_exact}

-- Eight targets and EOS, then a record with one supervised target.
abbrev records : List Demand
records = text 4 ∷ masked 2 (false ∷ false ∷ true ∷ []) ∷ []

training_sequence_capacity_exact_example :
    (n : ℕ) × (sufficient : Bool) × (training_sequence_capacity 2 3 records ≡ ok (n, sufficient))
    × (sufficient ≡ is_reached 3 (total_of 2 records))
    × (n ≤ total_of 2 records)
    × (sufficient ≡ false → n ≡ total_of 2 records)
    × (sufficient ≡ true → 3 ≤ n)
training_sequence_capacity_exact_example =
    training_sequence_capacity_exact 2 3 records (omega arith) (omega arith)

training_steps_ceiling_example :
    (0 < total_of 2 records
      → (steps : ℕ) × (training_steps 2 2 records ≡ ok steps)
        × (total_of 2 records ≤ steps * 2)
        × (steps * 2 < total_of 2 records + 2))
    × (total_of 2 records ≡ 0 → training_steps 2 2 records ≡ err no_usable_step)
training_steps_ceiling_example =
    training_steps_ceiling 2 2 records (omega arith) (omega arith) (tt, (refl, tt))

training_step_capacity_exact_example :
    training_step_capacity 2 2 5 records
    ≡ ok (min 5 (steps_of 2 (total_of 2 records)), leb 5 (steps_of 2 (total_of 2 records)))
training_step_capacity_exact_example =
    training_step_capacity_exact 2 2 5 records (omega arith) (omega arith) (omega arith)
      (omega arith) (tt, (refl, tt))

multiply_int64_iff_example :
    (multiply_int64 (3 ∷ 4 ∷ []) ≡ some 12)
    ↔ (All IsPositive (3 ∷ 4 ∷ []) × (12 ≡ product (3 ∷ 4 ∷ [])) × (12 ≤ max_int64))
multiply_int64_iff_example = multiply_int64_iff (3 ∷ 4 ∷ []) 12
