-- ===== src/ModelWeights/Safetensors.antt =====
-- internal/modelweights/safetensors.go: the header of a Safetensors file, the sizes of its tensors
-- and the ranges of their payloads. A file is its bytes; failures to open or read it are left out.
pub mod Sizes
pub mod Covered
mod Tests
use Prim.Native.String.{String}
use waldo.Base.{
  ℕ, zero, suc, ◌+◌, ◌-◌, ◌*◌, ◌/◌, ◌%◌, ◌^◌, Bool, true, false, not, ◌&&◌, ◌||◌, Option, none,
  some, List, [], ◌∷◌, ◌++◌, length, take, drop, ltb, ◌==◌, if◌then◌else◌,
}
use waldo.Base.Bytes.{Bytes, codes, bytes_eq, little_endian}
use waldo.Base.Text.{one_of}
use waldo.Base.Results.{Result, ok, err, ◌>>=◌, ◌>>◌, reject_if}

pub record Descriptor : Type 0 where
  pub dtype : String
  pub shape : List ℕ
  pub data_offsets : List ℕ

pub data WeightsError : Type 0 where
  truncated : WeightsError
  bad_header_length : WeightsError
  bad_header : WeightsError
  no_payload : WeightsError
  bad_metadata : WeightsError
  bad_descriptor : Bytes → WeightsError
  bad_offsets : Bytes → WeightsError
  beyond_payload : Bytes → WeightsError
  unsupported_dtype : WeightsError
  shape_overflows : WeightsError
  length_overflows : WeightsError
  wrong_size : Bytes → WeightsError
  late_start : WeightsError
  overlapping : WeightsError
  gap : WeightsError
  unclaimed : WeightsError
  no_sources : WeightsError
  unknown_name : Bytes → WeightsError
  colliding : Bytes → WeightsError

-- The first byte of a payload and the one behind its last.
abbrev pub Range : Type 0
Range = ℕ × ℕ

-- What the code uses of Go's encoding/json and sort. The header is a map: its entries come in the
-- order in which Go goes through them. `sort_ranges` is `sort.Slice` by the first bytes, and
-- `sort_names` is `sort.Strings`.
pub record Library : Type 0 where
  pub unmarshal_header : Bytes → Option (List (Bytes × Bytes))
  pub unmarshal_metadata : Bytes → Option (List (Bytes × Bytes))
  pub unmarshal_descriptor : Bytes → Option Descriptor
  pub marshal_header : List (Bytes × Descriptor) → Bytes
  pub sort_ranges : List Range → List Range
  pub sort_names : List Bytes → List Bytes

pub or_fail : {A : Type 0} → WeightsError → Option A → Result WeightsError A
or_fail e none = err e
or_fail e (some a) = ok a

-- The table of widths.
abbrev pub width_of : String → Option ℕ
width_of dtype =
    if one_of ("BOOL" ∷ "U8" ∷ "I8" ∷ "F8_E4M3" ∷ "F8_E5M2" ∷ []) dtype
    then some 1
    else if one_of ("U16" ∷ "I16" ∷ "F16" ∷ "BF16" ∷ []) dtype
    then some 2
    else if one_of ("U32" ∷ "I32" ∷ "F32" ∷ []) dtype
    then some 4
    else if one_of ("U64" ∷ "I64" ∷ "F64" ∷ []) dtype
    then some 8
    else none

-- `^uint64(0)`
abbrev pub max_uint64 : ℕ
max_uint64 = 2 ^ 64 - 1

-- The loop over the dimensions.
pub count_loop : ℕ → List ℕ → Result WeightsError ℕ
count_loop count [] = ok count
count_loop count (dimension ∷ shape) = do
  reject_if (not (dimension == 0) && ltb (max_uint64 / dimension) count) shape_overflows
  count_loop (count * dimension % 2 ^ 64) shape

-- `tensorBytes`
pub tensor_bytes : Descriptor → Result WeightsError ℕ
unfolding or_fail count_loop
tensor_bytes descriptor = do
  width ← or_fail unsupported_dtype (width_of descriptor.dtype)
  count ← count_loop 1 descriptor.shape
  reject_if (not (width == 0) && ltb (max_uint64 / width) count) length_overflows
  ok (count * width % 2 ^ 64)

-- `readHeader`: the entries, and where the payload starts.
pub read_header : Library → Bytes → Result WeightsError (List (Bytes × Bytes) × ℕ)
unfolding little_endian or_fail
read_header library file = do
  reject_if (ltb (length file) 8) truncated
  let header_length = little_endian (take 8 file)
  reject_if (header_length == 0 || ltb (2 ^ 30) header_length) bad_header_length
  reject_if (ltb (length file) (8 + header_length)) truncated
  entries ← or_fail bad_header (library.unmarshal_header (take header_length (drop 8 file)))
  ok (entries, 8 + header_length)

abbrev pub range_of : List ℕ → Option Range
range_of [] = none
range_of (first ∷ []) = none
range_of (first ∷ end ∷ []) = some (first, end)
range_of (first ∷ end ∷ other ∷ offsets) = none

-- The number of bytes is what the shape and the type ask for.
pub check_size : Bytes → Descriptor → Range → Result WeightsError (Unit {0})
unfolding tensor_bytes
check_size name descriptor range = do
  expected ← tensor_bytes descriptor
  reject_if (not (range.1 - range.0 == expected)) (wrong_size name)

-- An entry of `Inspect` that is no metadata.
pub inspect_entry : Library → ℕ → Bytes → Bytes → Result WeightsError (Descriptor × Range)
unfolding or_fail check_size
inspect_entry library data_bytes name raw = do
  descriptor ← or_fail (bad_descriptor name) (library.unmarshal_descriptor raw)
  range ← or_fail (bad_offsets name) (range_of descriptor.data_offsets)
  reject_if (ltb range.1 range.0 || ltb data_bytes range.1) (bad_offsets name)
  check_size name descriptor range
  ok (descriptor, range)

-- The tensors by their names, the metadata, and the ranges of the tensors.
pub record Inspected : Type 0 where
  pub tensors : List (Bytes × Descriptor)
  pub metadata : List (Bytes × Bytes)
  pub ranges : List Range

abbrev pub metadata_key : Bytes
metadata_key = codes "__metadata__"

abbrev pub with_tensor : Inspected → Bytes → Descriptor × Range → Inspected
with_tensor seen name (descriptor, range) = record seen {
  tensors = seen.tensors ++ (name, descriptor) ∷ [];
  ranges = seen.ranges ++ range ∷ [];
}

-- The loop over the entries, whose names differ.
pub inspect_loop : Library → ℕ → List (Bytes × Bytes) → Inspected → Result WeightsError Inspected
unfolding or_fail inspect_entry
inspect_loop library data_bytes [] seen = ok seen
inspect_loop library data_bytes ((name, raw) ∷ entries) seen = do
  next ←
      (if bytes_eq name metadata_key
        then (or_fail bad_metadata (library.unmarshal_metadata raw) >>= λ metadata.
            ok (record seen { metadata = metadata }))
        else (inspect_entry library data_bytes name raw >>= λ found.
            ok (with_tensor seen name found)))
  inspect_loop library data_bytes entries next

-- The loop over neighbours, up to the last range.
pub check_chain : ℕ → ℕ → List Range → Result WeightsError (Unit {0})
check_chain data_bytes last [] = reject_if (not (last == data_bytes)) unclaimed
check_chain data_bytes last (range ∷ ranges) = do
  reject_if (ltb range.0 last) overlapping
  reject_if (not (range.0 == last)) gap
  check_chain data_bytes range.1 ranges

-- The tests of the sorted ranges.
pub check_ranges : ℕ → List Range → Result WeightsError (Unit {0})
unfolding check_chain
check_ranges data_bytes [] = ok tt
check_ranges data_bytes (range ∷ ranges) = do
  reject_if (not (range.0 == 0)) late_start
  check_chain data_bytes range.1 ranges

abbrev pub nothing_seen : Inspected
nothing_seen = record { tensors = []; metadata = []; ranges = [] }

-- `Inspect`
pub inspect : Library → Bytes → Result WeightsError Inspected
unfolding read_header inspect_loop check_ranges
inspect library file = do
  (header, data_start) ← read_header library file
  reject_if (ltb (length file) data_start) no_payload
  let data_bytes = length file - data_start
  seen ← inspect_loop library data_bytes header nothing_seen
  check_ranges data_bytes (library.sort_ranges seen.ranges)
  ok seen
