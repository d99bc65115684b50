-- ===== src/ModelWeights/Safetensors/Sizes.antt =====
-- `tensorBytes` of internal/modelweights/safetensors.go gives the product of the shape and the width
-- of the type, with no overflow.
use native.Mathlib.Nat.{le-div_iff_mul-le, mul_assoc}
use waldo.Base.{
  ℕ, ◌*◌, ◌/◌, ◌%◌, ◌^◌, ◌≤◌, ◌<◌, ◌≡◌, refl, ap, ◌∙◌, true, false, not, ◌&&◌, none, some, Bool,
  List, [], ◌∷◌, arith, ltb, ◌==◌, if◌then◌else◌, All, Bool-cases, inl, inr, Option,
}
use waldo.Base.Results.{ok, reject_if, bind_ok, ok_injective}
use Prim.Native.String.{String}
use waldo.Training.Product.{product, IsPositive, product_pos, le-product}
use waldo.ModelWeights.Safetensors.{
  Descriptor, WeightsError, shape_overflows, length_overflows, unsupported_dtype, or_fail, width_of,
  max_uint64, count_loop, tensor_bytes,
}

-- What the test before a product tells.
product_fits :
    (count value : ℕ)
    → (not (value == 0) && ltb (max_uint64 / value) count) ≡ false
    → count * value ≤ max_uint64
product_fits count value h = elim (Bool-cases (value == 0)) [
  | inl e ↦ let none_left : value ≡ 0 = ground (arith, e) in rw none_left (omega arith)
  | inr e ↦
      (le-div_iff_mul-le {k = value} {x = count} {y = max_uint64} (ground (arith, e))).0
        (ground (arith, e, h))
]

fits_product :
    (count value : ℕ)
    → 0 < value
    → count * value ≤ max_uint64
    → (not (value == 0) && ltb (max_uint64 / value) count) ≡ false
fits_product count value positive h =
    let small : count ≤ max_uint64 / value =
      (le-div_iff_mul-le {k = value} {x = count} {y = max_uint64} positive).1 h in
    ground (arith, small, positive)

unwrapped : (n : ℕ) → n ≤ max_uint64 → n % 2 ^ 64 ≡ n
unwrapped n h = omega (arith, h)

count_loop_sound :
    (shape : List ℕ) (count n : ℕ)
    → count_loop count shape ≡ ok n
    → count ≤ max_uint64
    → (n ≡ count * product shape) × (n ≤ max_uint64)
unfolding count_loop
count_loop_sound [] count n e h =
    let same = ok_injective e in (omega (arith, same), omega (arith, same, h))
count_loop_sound (dimension ∷ shape) count n e h =
    let (_, passed, later) =
      bind_ok
        (reject_if (not (dimension == 0) && ltb (max_uint64 / dimension) count) shape_overflows) _
        e in
    let fits : count * dimension ≤ max_uint64 =
      product_fits count dimension (ground (arith, passed)) in
    let (same, small) =
      count_loop_sound shape (count * dimension % 2 ^ 64) n later
        (omega (arith, unwrapped (count * dimension) fits, fits)) in
    (
      same
          ∙ ap (λ (c : ℕ). c * product shape) (unwrapped (count * dimension) fits)
          ∙ mul_assoc count dimension (product shape),
      small,
    )

count_loop_complete :
    (shape : List ℕ) (count : ℕ)
    → All IsPositive shape
    → count * product shape ≤ max_uint64
    → count_loop count shape ≡ ok (count * product shape)
unfolding count_loop
count_loop_complete [] count positive h = ap ok (omega arith)
count_loop_complete (dimension ∷ shape) count positive h =
    let regroup : count * dimension * product shape ≡ count * (dimension * product shape) =
      mul_assoc count dimension (product shape) in
    let fits : count * dimension ≤ max_uint64 =
      le-product (count * dimension) (product shape) max_uint64 (product_pos shape positive.1)
        (omega (arith, regroup, h)) in
    rw (fits_product count dimension positive.0 fits, unwrapped (count * dimension) fits)
      (count_loop_complete shape (count * dimension) positive.1 (omega (arith, regroup, h))
        ∙ ap ok regroup)

pub or_fail_ok :
    {A : Type 0} (e : WeightsError) (o : Option A) (a : A) → or_fail e o ≡ ok a → o ≡ some a
unfolding or_fail
or_fail_ok e none a h = cc
or_fail_ok e (some b) a h = cc

one_times : (n : ℕ) → 1 * n ≡ n
one_times n = omega arith

tensor_bytes_sound :
    (descriptor : Descriptor) (n : ℕ)
    → tensor_bytes descriptor ≡ ok n
    → (width : ℕ) × (width_of descriptor.dtype ≡ some width)
      × (n ≡ product descriptor.shape * width)
      × (n ≤ max_uint64)
unfolding tensor_bytes
tensor_bytes_sound descriptor n h =
    let (width, e0, h0) = bind_ok (or_fail unsupported_dtype (width_of descriptor.dtype)) _ h in
    let (count, e1, h1) = bind_ok (count_loop 1 descriptor.shape) _ h0 in
    let (_, e2, h2) =
      bind_ok (reject_if (not (width == 0) && ltb (max_uint64 / width) count) length_overflows) _
        h1 in
    let (same, small) = count_loop_sound descriptor.shape 1 count e1 (omega arith) in
    let fits : count * width ≤ max_uint64 = product_fits count width (ground (arith, e2)) in
    let total : n ≡ count * width =
      omega (arith, ok_injective h2, unwrapped (count * width) fits) in
    (
      width,
      or_fail_ok unsupported_dtype (width_of descriptor.dtype) width e0,
      total ∙ ap (λ (c : ℕ). c * width) (omega (arith, same)),
      omega (arith, total, fits),
    )

positive_choice :
    (a b c d : Bool) (width : ℕ)
    → (if a then some 1 else if b then some 2 else if c then some 4 else if d then some 8 else none)
      ≡ some width
    → 0 < width
positive_choice true b c d width h = ground (arith, h)
positive_choice false true c d width h = ground (arith, h)
positive_choice false false true d width h = ground (arith, h)
positive_choice false false false true width h = ground (arith, h)
positive_choice false false false false width h = cc

width_pos : (dtype : String) (width : ℕ) → width_of dtype ≡ some width → 0 < width
width_pos dtype width h = positive_choice _ _ _ _ width h

tensor_bytes_complete :
    (descriptor : Descriptor) (width : ℕ)
    → width_of descriptor.dtype ≡ some width
    → All IsPositive descriptor.shape
    → product descriptor.shape * width ≤ max_uint64
    → tensor_bytes descriptor ≡ ok (product descriptor.shape * width)
unfolding tensor_bytes or_fail
tensor_bytes_complete descriptor width e positive h =
    let count : product descriptor.shape ≤ max_uint64 =
      le-product (product descriptor.shape) width max_uint64 (width_pos descriptor.dtype width e)
        h in
    rw
      (
        e,
        count_loop_complete descriptor.shape 1 positive (omega (arith, count)),
        one_times (product descriptor.shape),
        fits_product (product descriptor.shape) width (width_pos descriptor.dtype width e) h,
        unwrapped (product descriptor.shape * width) h,
      )
      refl

-- A size that `tensorBytes` returns is the product of the dimensions and the width of the type, and
-- a uint64. Where all dimensions are positive, it returns it whenever it is a uint64.
pub tensor_bytes_exact :
    (descriptor : Descriptor) (n : ℕ)
    → (tensor_bytes descriptor ≡ ok n
        → (width : ℕ) × (width_of descriptor.dtype ≡ some width)
          × (n ≡ product descriptor.shape * width)
          × (n ≤ max_uint64))
      × ((width : ℕ)
          → width_of descriptor.dtype ≡ some width
          → All IsPositive descriptor.shape
          → n ≡ product descriptor.shape * width
          → n ≤ max_uint64
          → tensor_bytes descriptor ≡ ok n)
tensor_bytes_exact descriptor n = (sound, complete)
  where
    sound :
        tensor_bytes descriptor ≡ ok n
        → (width : ℕ) × (width_of descriptor.dtype ≡ some width)
          × (n ≡ product descriptor.shape * width)
          × (n ≤ max_uint64)
    sound e = tensor_bytes_sound descriptor n e

    complete :
        (width : ℕ)
        → width_of descriptor.dtype ≡ some width
        → All IsPositive descriptor.shape
        → n ≡ product descriptor.shape * width
        → n ≤ max_uint64
        → tensor_bytes descriptor ≡ ok n
    complete width e positive same small =
        tensor_bytes_complete descriptor width e positive (omega (arith, same, small))
        ∙ ap ok (omega (arith, same))
