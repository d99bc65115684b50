-- ===== src/Training/Product.antt =====
-- `multiplyInt64` of internal/training/profile.go, for values that are not negative.
use native.Mathlib.Nat.{le-div_iff_mul-le, mul_assoc, mul-pos}
use waldo.Base.{
  ℕ, ◌*◌, ◌/◌, ◌≤◌, ◌<◌, ◌≡◌, ap, ◌∙◌, ◌↔◌, false, ◌||◌, Option, none, some, List, [], ◌∷◌, arith,
  ltb, ◌==◌, if◌then◌else◌, All, inl, inr, Bool-cases, tests,
}
use waldo.Training.Capacity.{max_int64}

-- The loop over the values; `none` is the overflow.
unfoldable pub multiply_loop : ℕ → List ℕ → Option ℕ
multiply_loop result [] = some result
multiply_loop result (value ∷ values) =
    let rest = multiply_loop (result * value) values in
    if value == 0 || ltb (max_int64 / value) result then none else rest

unfoldable pub multiply_int64 : List ℕ → Option ℕ
multiply_int64 values = multiply_loop 1 values

abbrev pub product : List ℕ → ℕ
product [] = 1
product (value ∷ values) = value * product values

abbrev pub IsPositive : ℕ → Type 0
IsPositive value = 0 < value

pub product_pos : (values : List ℕ) → All IsPositive values → 0 < product values
product_pos [] h = omega arith
product_pos (value ∷ values) h = mul-pos h.0 (product_pos values h.1)

pub le-product : (m n k : ℕ) → 0 < n → m * n ≤ k → m ≤ k
le-product m n k h e = grind arith

-- What the test of the loop tells of one value.
multiply_loop-step :
    (value result n : ℕ) (values : List ℕ)
    → multiply_loop result (value ∷ values) ≡ some n
    → (0 < value) × (result * value ≤ max_int64) × (multiply_loop (result * value) values ≡ some n)
unfolding multiply_loop
multiply_loop-step value result n values e = elim (Bool-cases (value == 0)) [
  | inl zero ↦ absurd (ground (arith, e, zero))
  | inr more ↦ elim (Bool-cases (ltb (max_int64 / value) result)) [
    | inl over ↦ absurd (ground (arith, e, more, over))
    | inr fits ↦ (
      positive more,
      (le-div_iff_mul-le (positive more)).0 (omega (tests, fits)),
      ground (arith, e, more, fits),
    )
  ]
]
  where
    positive : (value == 0) ≡ false → 0 < value
    positive h = ground arith

multiply_loop_sound :
    (values : List ℕ) (result n : ℕ)
    → multiply_loop result values ≡ some n
    → result ≤ max_int64
    → All IsPositive values × (n ≡ result * product values) × (n ≤ max_int64)
multiply_loop_sound [] result n e h =
    (tt, (unfold multiply_loop in ground arith), (unfold multiply_loop in ground arith))
multiply_loop_sound (value ∷ values) result n e h =
    let (positive, fits, later) = multiply_loop-step value result n values e in
    let (all_positive, same, small) = multiply_loop_sound values (result * value) n later fits in
    ((positive, all_positive), same ∙ mul_assoc result value (product values), small)

multiply_loop_complete :
    (values : List ℕ) (result : ℕ)
    → All IsPositive values
    → result * product values ≤ max_int64
    → multiply_loop result values ≡ some (result * product values)
unfolding multiply_loop
multiply_loop_complete [] result h e = ground arith
multiply_loop_complete (value ∷ values) result h e =
    rw (nonzero, fits)
      (multiply_loop_complete values (result * value) h.1 (omega (arith, regroup))
        ∙ ap some regroup)
  where
    regroup : result * value * product values ≡ result * (value * product values)
    regroup = mul_assoc result value (product values)

    nonzero : (value == 0) ≡ false
    nonzero = ground arith

    fits : ltb (max_int64 / value) result ≡ false
    fits = ground (
      arith,
      (le-div_iff_mul-le {k = value} {x = result} {y = max_int64} h.0).1 (
          le-product (result * value) (product values) max_int64 (product_pos values h.1)
            (omega (arith, regroup))),
    )

-- `multiplyInt64` gives a number exactly if every value is positive and their product is at most
-- the largest int64, and the number is the product.
pub multiply_int64_iff :
    (values : List ℕ) (n : ℕ)
    → (multiply_int64 values ≡ some n)
      ↔ (All IsPositive values × (n ≡ product values) × (n ≤ max_int64))
unfolding multiply_int64
multiply_int64_iff values n = (sound, complete)
  where
    sound :
        multiply_loop 1 values ≡ some n
        → All IsPositive values × (n ≡ product values) × (n ≤ max_int64)
    sound e =
        let (positive, same, small) = multiply_loop_sound values 1 n e (omega arith) in
        (positive, omega (arith, same), small)

    complete :
        All IsPositive values × (n ≡ product values) × (n ≤ max_int64)
        → multiply_loop 1 values ≡ some n
    complete (positive, same, small) =
        multiply_loop_complete values 1 positive (omega (arith, same, small))
        ∙ ap some (omega (arith, same))
