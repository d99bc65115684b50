-- ===== src/ModelWeights/Safetensors/Covered.antt =====
-- What `Inspect` of internal/modelweights/safetensors.go accepts: every byte of the payload belongs
-- to one tensor.
use waldo.Base.{
  subst, ◌^◌, ℕ, ◌+◌, ◌-◌, ◌*◌, ◌≤◌, ◌<◌, ◌≡◌, refl, sym, ap, ◌∙◌, Bool, true, false, not, ◌&&◌,
  ◌||◌, none, some, List, [], ◌∷◌, arith, length, length-append, count, count-append, take, drop,
  ltb, leb, ◌==◌, if◌then◌else◌, All, All-append, Bool-cases, inl, inr,
}
use waldo.Base.Bytes.{Bytes, bytes_eq}
use waldo.Base.Results.{ok, reject_if, bind_ok, ok_injective}
use waldo.Training.Product.{product}
use waldo.ModelWeights.Safetensors.{
  Descriptor, Range, Library, or_fail, width_of, read_header, range_of, check_size, inspect_entry,
  Inspected, metadata_key, with_tensor, inspect_loop, check_chain, check_ranges, nothing_seen,
  inspect, overlapping, gap, late_start, bad_offsets, bad_descriptor, bad_metadata, no_payload,
  truncated, bad_header_length, bad_header, tensor_bytes,
}
use waldo.Base.Bytes.{little_endian}
use waldo.ModelWeights.Safetensors.Sizes.{tensor_bytes_exact, or_fail_ok}

-- The byte `k` of the payload is in the range.
abbrev pub covers : ℕ → Range → Bool
covers k range = leb range.0 k && ltb k range.1

-- The byte `k` of the payload is one of the tensor's.
abbrev pub claims : ℕ → Bytes × Descriptor → Bool
claims k tensor = elim (range_of tensor.1.data_offsets) [
  | none ↦ false
  | some range ↦ covers k range
]

-- The payload behind the eight bytes of the header's length and the header.
abbrev pub payload_bytes : Bytes → ℕ
payload_bytes file = length file - (8 + little_endian (take 8 file))

-- The tensor's bytes lie in the payload, and are as many as its shape and type ask for.
abbrev pub IsSized : ℕ → Bytes × Descriptor → Type 0
IsSized data_bytes tensor =
    (first : ℕ) × (end : ℕ) × (range_of tensor.1.data_offsets ≡ some (first, end))
    × (first ≤ end)
    × (end ≤ data_bytes)
    × (width : ℕ) × (width_of tensor.1.dtype ≡ some width)
    × (end ≡ first + product tensor.1.shape * width)

-- Go's `sort.Slice` keeps every element as often as it stands in the slice.
abbrev pub IsPermuting : (List Range → List Range) → Type 0
IsPermuting sort = (p : Range → Bool) (ranges : List Range) → count p (sort ranges) ≡ count p ranges

abbrev backward : Range → Bool
backward range = ltb range.1 range.0

check_chain-covers :
    (data_bytes k : ℕ) (ranges : List Range) (last : ℕ)
    → check_chain data_bytes last ranges ≡ ok tt
    → count backward ranges ≡ 0
    → (last ≤ data_bytes)
      × (count (covers k) ranges ≡ (if leb last k && ltb k data_bytes then 1 else 0))
unfolding check_chain
check_chain-covers data_bytes k [] last h b = (ground (arith, h), ground (arith, h))
check_chain-covers data_bytes k ((first, end) ∷ ranges) last h b =
    let (_, e0, h0) = bind_ok (reject_if (ltb first last) overlapping) _ h in
    let (_, e1, h1) = bind_ok (reject_if (not (first == last)) gap) _ h0 in
    let forward : first ≤ end = ground (arith, b) in
    let start : first ≡ last = ground (arith, e1) in
    let (reached, same) = check_chain-covers data_bytes k ranges end h1 (omega (arith, b)) in
    (omega (arith, forward, start, reached), ground (arith, forward, start, reached, same))

check_ranges-covers :
    (data_bytes k : ℕ) (ranges : List Range)
    → check_ranges data_bytes ranges ≡ ok tt
    → count backward ranges ≡ 0
    → 0 < count (λ range. true) ranges
    → k < data_bytes
    → count (covers k) ranges ≡ 1
unfolding check_ranges
check_ranges-covers data_bytes k [] h b n l = absurd (omega (arith, n))
check_ranges-covers data_bytes k ((first, end) ∷ ranges) h b n l =
    let (_, e0, h0) = bind_ok (reject_if (not (first == 0)) late_start) _ h in
    let forward : first ≤ end = ground (arith, b) in
    let start : first ≡ 0 = ground (arith, e0) in
    let (reached, same) = check_chain-covers data_bytes k ranges end h0 (omega (arith, b)) in
    ground (arith, forward, start, reached, same, l)

inspect_entry-IsSized :
    (library : Library) (data_bytes : ℕ) (name raw : Bytes) (descriptor : Descriptor)
    (range : Range)
    → inspect_entry library data_bytes name raw ≡ ok (descriptor, range)
    → IsSized data_bytes (name, descriptor)
      × (range_of descriptor.data_offsets ≡ some range)
      × (backward range ≡ false)
unfolding inspect_entry check_size
inspect_entry-IsSized library data_bytes name raw descriptor range h =
    let (d, e0, h0) =
      bind_ok (or_fail (bad_descriptor name) (library.unmarshal_descriptor raw)) _ h in
    let (r, e1, h1) = bind_ok (or_fail (bad_offsets name) (range_of d.data_offsets)) _ h0 in
    let (_, e2, h2) =
      bind_ok (reject_if (ltb r.1 r.0 || ltb data_bytes r.1) (bad_offsets name)) _ h1 in
    let (_, e3, h3) = bind_ok (check_size name d r) _ h2 in
    let (expected, e4, h4) = bind_ok (tensor_bytes d) _ e3 in
    let (width, known, size, _) = (tensor_bytes_exact d expected).0 e4 in
    let found = or_fail_ok (bad_offsets name) (range_of d.data_offsets) r e1 in
    let bounds : (r.0 ≤ r.1) × (r.1 ≤ data_bytes) = ground (arith, e2) in
    let exact : r.1 ≡ r.0 + product d.shape * width = ground (arith, bounds, h4, size) in
    let same = ok_injective h3 in
    let tensor : d ≡ descriptor = ap (λ (q : Descriptor × Range). q.0) same in
    let place : r ≡ range = ap (λ (q : Descriptor × Range). q.1) same in
    rw (← tensor, ← place)
      ((r.0, r.1, found, bounds.0, bounds.1, width, known, exact), found, ground (arith, bounds))

-- What holds of the tensors and ranges seen so far.
record IsSeen (data_bytes : ℕ) (seen : Inspected) : Type 0 where
  sized : All (IsSized data_bytes) seen.tensors
  claimed : (k : ℕ) → count (claims k) seen.tensors ≡ count (covers k) seen.ranges
  forward : count backward seen.ranges ≡ 0
  as_many : length seen.tensors ≡ count (λ range. true) seen.ranges

claims-covers :
    (k : ℕ) (name : Bytes) (descriptor : Descriptor) (range : Range)
    → range_of descriptor.data_offsets ≡ some range
    → claims k (name, descriptor) ≡ covers k range
claims-covers k name descriptor range place = rw (place, claims) refl

with_tensor-IsSeen :
    (library : Library) (data_bytes : ℕ) (name raw : Bytes) (found : Descriptor × Range)
    (seen : Inspected)
    → inspect_entry library data_bytes name raw ≡ ok found
    → IsSeen data_bytes seen
    → IsSeen data_bytes (with_tensor seen name found)
with_tensor-IsSeen library data_bytes name raw (descriptor, range) seen h v =
    let (fits, place, forward) =
      inspect_entry-IsSized library data_bytes name raw descriptor range h in
    record {
      sized =
          All-append (IsSized data_bytes) seen.tensors ((name, descriptor) ∷ []) v.sized (fits, tt);
      claimed = λ k.
          count-append (claims k) seen.tensors ((name, descriptor) ∷ [])
          ∙ omega (
            arith,
            v.claimed k,
            count-append (covers k) seen.ranges (range ∷ []),
            ap {B = ℕ} (λ b. if b then 1 else 0) (claims-covers k name descriptor range place),
          );
      forward = rw (count-append backward seen.ranges (range ∷ []), v.forward, forward) refl;
      as_many = omega (
        arith,
        v.as_many,
        length-append seen.tensors ((name, descriptor) ∷ []),
        count-append (λ (r : Range). true) seen.ranges (range ∷ []),
      );
    }

inspect_loop-IsSeen :
    (library : Library) (data_bytes : ℕ) (entries : List (Bytes × Bytes)) (seen out : Inspected)
    → inspect_loop library data_bytes entries seen ≡ ok out
    → IsSeen data_bytes seen
    → IsSeen data_bytes out
unfolding inspect_loop
inspect_loop-IsSeen library data_bytes [] seen out h v =
    subst (IsSeen data_bytes) (ok_injective h) v
inspect_loop-IsSeen library data_bytes ((name, raw) ∷ entries) seen out h v =
    elim (Bool-cases (bytes_eq name metadata_key)) [
      | inl e ↦
          let (next, e0, h0) = bind_ok _ _ (rw e at h) in
          let (metadata, _, e2) =
            bind_ok (or_fail bad_metadata (library.unmarshal_metadata raw)) _ e0 in
          inspect_loop-IsSeen library data_bytes entries next out h0 (
            rw (← ok_injective e2) (record {
              sized = v.sized;
              claimed = v.claimed;
              forward = v.forward;
              as_many = v.as_many;
            }))
      | inr e ↦
          let (next, e0, h0) = bind_ok _ _ (rw e at h) in
          let (found, e1, e2) = bind_ok (inspect_entry library data_bytes name raw) _ e0 in
          inspect_loop-IsSeen library data_bytes entries next out h0 (
            rw (← ok_injective e2) (with_tensor-IsSeen library data_bytes name raw found seen e1 v))
    ]

read_header_start :
    (library : Library) (file : Bytes) (entries : List (Bytes × Bytes)) (start : ℕ)
    → read_header library file ≡ ok (entries, start)
    → start ≡ 8 + little_endian (take 8 file)
unfolding read_header
read_header_start library file entries start h =
    let (_, _, h0) = bind_ok (reject_if (ltb (length file) 8) truncated) _ h in
    let header_length = little_endian (take 8 file) in
    let (_, _, h1) =
      bind_ok (reject_if (header_length == 0 || ltb (2 ^ 30) header_length) bad_header_length) _
        h0 in
    let (_, _, h2) = bind_ok (reject_if (ltb (length file) (8 + header_length)) truncated) _ h1 in
    let (found, _, h3) =
      bind_ok (or_fail bad_header (library.unmarshal_header (take header_length (drop 8 file)))) _
        h2 in
    sym (ap (λ (q : List (Bytes × Bytes) × ℕ). q.1) (ok_injective h3))

-- A file that `Inspect` accepts: the bytes of each tensor lie in the payload and are as many as its
-- shape and type ask for, and if there is a tensor, then every byte of the payload belongs to
-- exactly one.
pub inspect-claims :
    (library : Library) (file : Bytes) (out : Inspected)
    → IsPermuting library.sort_ranges
    → inspect library file ≡ ok out
    → All (IsSized (payload_bytes file)) out.tensors
      × (0 < length out.tensors
          → (k : ℕ) → k < payload_bytes file
          → count (claims k) out.tensors ≡ 1)
unfolding inspect
inspect-claims library file out permuting h =
    let ((entries, start), e0, h0) = bind_ok (read_header library file) _ h in
    let (_, e1, h1) = bind_ok (reject_if (ltb (length file) start) no_payload) _ h0 in
    let (seen, e2, h2) =
      bind_ok (inspect_loop library (length file - start) entries nothing_seen) _ h1 in
    let (_, e3, h3) =
      bind_ok (check_ranges (length file - start) (library.sort_ranges seen.ranges)) _ h2 in
    let place : length file - start ≡ payload_bytes file =
      ap (λ (n : ℕ). length file - n) (read_header_start library file entries start e0) in
    let v =
      inspect_loop-IsSeen library (length file - start) entries nothing_seen seen e2
        (record { sized = tt; claimed = λ k. refl; forward = refl; as_many = refl }) in
    rw (← ok_injective h3, ← place)
      (
        v.sized,
        λ some_tensor k inside.
            v.claimed k
            ∙ sym (permuting (covers k) seen.ranges)
            ∙ check_ranges-covers (length file - start) k (library.sort_ranges seen.ranges) e3
                (permuting backward seen.ranges ∙ v.forward)
                (omega (arith, some_tensor, v.as_many, permuting (λ range. true) seen.ranges))
                inside,
      )
