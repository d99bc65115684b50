-- ===== src/ModelWeights/Safetensors/Tests.antt =====
-- A file of two tensors, and the theorems at it.
use waldo.Base.{
  ℕ, ◌+◌, ◌*◌, ◌≤◌, ◌<◌, ◌≡◌, refl, ap, ◌∙◌, Bool, some, List, [], ◌∷◌, arith, count, length, leb,
  if◌then◌else◌, All, Bool-cases, inl, inr,
}
use waldo.Base.Bytes.{Bytes, codes, bytes_eq}
use waldo.Base.Results.{ok, err}
use waldo.Training.Product.{product, IsPositive}
use waldo.ModelWeights.Safetensors.{
  Descriptor, Range, Library, width_of, max_uint64, tensor_bytes, check_ranges, inspect,
  overlapping, gap, unclaimed, late_start, shape_overflows, truncated, Inspected, unsupported_dtype,
}
use waldo.ModelWeights.Safetensors.Sizes.{tensor_bytes_exact}
use waldo.ModelWeights.Safetensors.Covered.{
  IsPermuting, IsSized, claims, payload_bytes, inspect-claims,
}

insert_range : Range → List Range → List Range
insert_range range [] = range ∷ []
insert_range range (other ∷ ranges) =
    let later = insert_range range ranges in
    if leb range.0 other.0 then range ∷ other ∷ ranges else other ∷ later

sort_ranges : List Range → List Range
unfolding insert_range
sort_ranges [] = []
sort_ranges (range ∷ ranges) = insert_range range (sort_ranges ranges)

insert_range-count :
    (p : Range → Bool) (range : Range) (ranges : List Range)
    → count p (insert_range range ranges) ≡ (if p range then 1 else 0) + count p ranges
unfolding insert_range
insert_range-count p range [] = refl
insert_range-count p range (other ∷ ranges) = elim (Bool-cases (leb range.0 other.0)) [
  | inl e ↦ rw e refl
  | inr e ↦ rw e (omega (arith, insert_range-count p range ranges))
]

sort_ranges-IsPermuting : IsPermuting sort_ranges
unfolding sort_ranges
sort_ranges-IsPermuting p [] = refl
sort_ranges-IsPermuting p (range ∷ ranges) =
    insert_range-count p range (sort_ranges ranges)
    ∙ ap (λ (n : ℕ). (if p range then 1 else 0) + n) (sort_ranges-IsPermuting p ranges)

abbrev first_tensor : Descriptor
first_tensor = record { dtype = "BF16"; shape = 2 ∷ 1 ∷ []; data_offsets = 2 ∷ 6 ∷ [] }

abbrev second_tensor : Descriptor
second_tensor = record { dtype = "U8"; shape = 2 ∷ []; data_offsets = 0 ∷ 2 ∷ [] }

-- The header is one byte, its entries are named by their raw bytes.
abbrev library : Library
library = record {
  unmarshal_header = λ bytes. some ((codes "a", codes "a") ∷ (codes "b", codes "b") ∷ []);
  unmarshal_metadata = λ bytes. some [];
  unmarshal_descriptor =
      λ raw. some (if bytes_eq raw (codes "a") then first_tensor else second_tensor);
  marshal_header = λ tensors. [];
  sort_ranges = sort_ranges;
  sort_names = λ names. names;
}

abbrev file : Bytes
file = 1 ∷ 0 ∷ 0 ∷ 0 ∷ 0 ∷ 0 ∷ 0 ∷ 0 ∷ 9 ∷ 10 ∷ 11 ∷ 12 ∷ 13 ∷ 14 ∷ 15 ∷ []

abbrev two_tensors : Inspected
two_tensors = record {
  tensors = (codes "a", first_tensor) ∷ (codes "b", second_tensor) ∷ [];
  metadata = [];
  ranges = (2, 6) ∷ (0, 2) ∷ [];
}

file_accepted : inspect library file ≡ ok two_tensors
unfolding inspect sort_ranges bytes_eq
file_accepted = refl

no_length : inspect library (1 ∷ []) ≡ err truncated
unfolding inspect
no_length = refl

-- The order of ranges that start at the same byte decides, where one of them is empty.
empty_first : check_ranges 8 ((0, 4) ∷ (4, 4) ∷ (4, 8) ∷ []) ≡ ok tt
unfolding check_ranges
empty_first = refl

empty_last : check_ranges 8 ((0, 4) ∷ (4, 8) ∷ (4, 4) ∷ []) ≡ err overlapping
unfolding check_ranges
empty_last = refl

rest_unclaimed : check_ranges 9 ((0, 4) ∷ (4, 8) ∷ []) ≡ err unclaimed
unfolding check_ranges
rest_unclaimed = refl

with_gap : check_ranges 8 ((0, 3) ∷ (4, 8) ∷ []) ≡ err gap
unfolding check_ranges
with_gap = refl

not_from_start : check_ranges 8 ((1, 8) ∷ []) ≡ err late_start
unfolding check_ranges
not_from_start = refl

too_many : tensor_bytes (record first_tensor { shape = max_uint64 ∷ 2 ∷ [] }) ≡ err shape_overflows
unfolding tensor_bytes
too_many = refl

no_such_type : tensor_bytes (record first_tensor { dtype = "F4" }) ≡ err unsupported_dtype
unfolding tensor_bytes
no_such_type = refl

tensor_bytes_exact_example :
    (tensor_bytes first_tensor ≡ ok 4
      → (width : ℕ) × (width_of "BF16" ≡ some width)
        × (4 ≡ product (2 ∷ 1 ∷ []) * width)
        × (4 ≤ max_uint64))
    × ((width : ℕ)
        → width_of "BF16" ≡ some width
        → All IsPositive (2 ∷ 1 ∷ [])
        → 4 ≡ product (2 ∷ 1 ∷ []) * width
        → 4 ≤ max_uint64
        → tensor_bytes first_tensor ≡ ok 4)
tensor_bytes_exact_example = tensor_bytes_exact first_tensor 4

inspect-claims_example :
    All (IsSized (payload_bytes file)) two_tensors.tensors
    × (0 < length two_tensors.tensors
        → (k : ℕ) → k < payload_bytes file
        → count (claims k) two_tensors.tensors ≡ 1)
inspect-claims_example =
    inspect-claims library file two_tensors sort_ranges-IsPermuting file_accepted
