-- ===== src/Training/Selection/Indexed/Groups.antt =====
-- The groups that `newIndexedRecordPartition` of internal/training/stream.go makes of the inputs.
use waldo.Base.{
  ℕ, suc, ◌+◌, ◌-◌, ◌≤◌, ◌<◌, ◌≡◌, refl, sym, ap, ◌∙◌, subst, Bool, true, false, ◌&&◌, ◌||◌, some,
  List, [], ◌∷◌, ◌++◌, count, get_elem?, arith, ltb, ◌==◌, if◌then◌else◌, All, All-append,
  Bool-cases, inl, inr,
}
use waldo.Base.Bytes.{Bytes, bytes_eq}
use waldo.Base.Results.{ok, reject_if, bind_ok, ok_injective}
use waldo.Training.Capacity.{max_int64}
use waldo.Training.Selection.{Input, IndexedInputGroup}
use waldo.Training.Selection.Distinct.{records_at, total_at, is_listed, AreDistinct, IsGroup}
use waldo.Training.Selection.Indexed.{
  with_input, add_input, is_empty_name, group_name, groups_loop, insert_group, sort_groups,
  bad_record_count, corpus_required,
}
use waldo.Base.Strings.{bytes_less}

-- The group has the shard at the position.
abbrev pub lists : ℕ → IndexedInputGroup → Bool
lists i group = is_listed group.inputs i

is_listed-append : (xs : List ℕ) (p i : ℕ) → is_listed (xs ++ p ∷ []) i ≡ (is_listed xs i || p == i)
is_listed-append [] p i = ground arith
is_listed-append (x ∷ xs) p i = ground (arith, is_listed-append xs p i)

AreDistinct-append :
    (xs : List ℕ) (p : ℕ) → is_listed xs p ≡ false → AreDistinct xs → AreDistinct (xs ++ p ∷ [])
AreDistinct-append [] p alone h = (refl, tt)
AreDistinct-append (x ∷ xs) p alone h = (
  is_listed-append xs p x ∙ ground (arith, h.0, alone),
  AreDistinct-append xs p (ground (arith, alone)) h.1,
)

total_at-append :
    (inputs : List Input) (xs : List ℕ) (p : ℕ)
    → total_at inputs (xs ++ p ∷ []) ≡ total_at inputs xs + records_at inputs p
total_at-append inputs [] p = omega arith
total_at-append inputs (x ∷ xs) p = omega (arith, total_at-append inputs xs p)

one_more :
    (a b : Bool) (n : ℕ)
    → (b ≡ true → a ≡ false)
    → (if a || b then 1 else 0) + n ≡ (if a then 1 else 0) + n + (if b then 1 else 0)
one_more true true n h = absurd (cc (h refl))
one_more true false n h = omega arith
one_more false true n h = omega arith
one_more false false n h = omega arith

-- A group that has records, all of which are of its shards.
abbrev pub IsFilled : List Input → IndexedInputGroup → Type 0
IsFilled inputs group = IsGroup inputs group × (0 < group.records)

module _ (inputs : List Input) (position : ℕ) (input : Input)
    (found : get_elem? inputs position ≡ some input) (some_records : 0 < input.records) where
  with_input-IsFilled :
      (group : IndexedInputGroup)
      → IsGroup inputs group
      → lists position group ≡ false
      → IsFilled inputs (with_input group position input.records)
  with_input-IsFilled group valid alone = (
    record {
      placed =
          All-append (λ p. (i : Input) × (get_elem? inputs p ≡ some i)) group.inputs (position ∷ [])
            valid.placed ((input, found), tt);
      distinct = AreDistinct-append group.inputs position alone valid.distinct;
      counted = omega (arith, total_at-append inputs group.inputs position, valid.counted, amount);
    },
    omega (arith, some_records),
  )
    where
      amount : records_at inputs position ≡ input.records
      amount = rw (found, records_at) refl

  add_input-IsFilled :
      (name : Bytes) (groups : List IndexedInputGroup)
      → All (IsFilled inputs) groups
      → count (lists position) groups ≡ 0
      → All (IsFilled inputs) (add_input name position input.records groups)
  unfolding add_input
  add_input-IsFilled name [] h new = (
    with_input-IsFilled (record { name = name; inputs = []; records = 0 })
        (record { placed = tt; distinct = tt; counted = refl }) refl,
    tt,
  )
  add_input-IsFilled name (group ∷ groups) h new =
      let alone : lists position group ≡ false = ground (arith, new) in
      elim (Bool-cases (bytes_eq group.name name)) [
        | inl e ↦ rw e (with_input-IsFilled group (h.0).0 alone, h.1)
        | inr e ↦ rw e (h.0, add_input-IsFilled name groups h.1 (ground (arith, new)))
      ]

  add_input-count :
      (name : Bytes) (groups : List IndexedInputGroup) (i : ℕ)
      → count (lists position) groups ≡ 0
      → count (lists i) (add_input name position input.records groups)
        ≡ count (lists i) groups + (if position == i then 1 else 0)
  unfolding add_input
  add_input-count name [] i new = ground arith
  add_input-count name (group ∷ groups) i new =
      let alone : lists position group ≡ false = ground (arith, new) in
      elim (Bool-cases (bytes_eq group.name name)) [
        | inl e ↦
            rw (e, is_listed-append group.inputs position i)
              (one_more (is_listed group.inputs i) (position == i) (count (lists i) groups)
                λ same. subst (λ k. is_listed group.inputs k ≡ false) (ground (arith, same)) alone)
        | inr e ↦ rw e (omega (arith, add_input-count name groups i (ground (arith, new))))
      ]

-- What holds of the groups of the inputs up to a position: each shard is in one group at most.
pub record AreGroups (inputs : List Input) (position : ℕ) (groups : List IndexedInputGroup)
    : Type 0 where
  pub filled : All (IsFilled inputs) groups
  pub once : (i : ℕ) → count (lists i) groups ≤ 1
  pub new : (i : ℕ) → position ≤ i → count (lists i) groups ≡ 0

add_input-AreGroups :
    (inputs : List Input) (position : ℕ) (input : Input) (name : Bytes)
    (groups : List IndexedInputGroup)
    → get_elem? inputs position ≡ some input
    → 0 < input.records
    → AreGroups inputs position groups
    → AreGroups inputs (position + 1) (add_input name position input.records groups)
add_input-AreGroups inputs position input name groups found some_records v =
    let counted = λ (i : ℕ).
      add_input-count inputs position input found some_records name groups i
        (v.new position (omega arith)) in
    record {
      filled =
          add_input-IsFilled inputs position input found some_records name groups v.filled
            (v.new position (omega arith));
      once = λ i. ground (arith, counted i, v.new i, v.once i);
      new = λ i h. ground (arith, counted i, v.new i);
    }

groups_loop-AreGroups :
    (inputs : List Input) (stratified : Bool) (position : ℕ) (rest : List Input) (total sum : ℕ)
    (groups out : List IndexedInputGroup)
    → ((k : ℕ) → get_elem? inputs (position + k) ≡ get_elem? rest k)
    → AreGroups inputs position groups
    → groups_loop stratified position rest total groups ≡ ok (sum, out)
    → (last : ℕ) × AreGroups inputs last out
unfolding groups_loop
groups_loop-AreGroups inputs stratified position [] total sum groups out same v h = (
  position,
  subst (AreGroups inputs position) (ap (λ (q : ℕ × List IndexedInputGroup). q.1) (ok_injective h))
      v,
)
groups_loop-AreGroups inputs stratified position (input ∷ rest) total sum groups out same v h =
    let (_, e0, h0) =
      bind_ok
        (reject_if (input.records == 0 || ltb (max_int64 - input.records) total)
          (bad_record_count input.sha256))
        _ h in
    let (_, _, h1) =
      bind_ok (reject_if (stratified && is_empty_name input.corpus) (corpus_required input.sha256))
        _ h0 in
    let here : position + 0 ≡ position = omega arith in
    groups_loop-AreGroups inputs stratified (position + 1) rest (total + input.records) sum
      (add_input (group_name stratified input) position input.records groups) out
      (λ k. ap (get_elem? inputs) (omega arith) ∙ same (suc k))
      (add_input-AreGroups inputs position input (group_name stratified input) groups
        (ap (get_elem? inputs) (sym here) ∙ same 0) (ground (arith, e0)) v)
      h1

insert_group-All {ℓ} :
    (P : IndexedInputGroup → Type ℓ) (group : IndexedInputGroup) (groups : List IndexedInputGroup)
    → P group
    → All P groups
    → All P (insert_group group groups)
unfolding insert_group
insert_group-All P group [] p h = (p, tt)
insert_group-All P group (other ∷ groups) p h =
    elim (Bool-cases (bytes_less other.name group.name)) [
      | inl e ↦ rw e (h.0, insert_group-All P group groups p h.1)
      | inr e ↦ rw e (p, h)
    ]

pub sort_groups-All {ℓ} :
    (P : IndexedInputGroup → Type ℓ) (groups : List IndexedInputGroup)
    → All P groups
    → All P (sort_groups groups)
unfolding sort_groups
sort_groups-All P [] h = tt
sort_groups-All P (group ∷ groups) h =
    insert_group-All P group (sort_groups groups) h.0 (sort_groups-All P groups h.1)

insert_group-count :
    (p : IndexedInputGroup → Bool) (group : IndexedInputGroup) (groups : List IndexedInputGroup)
    → count p (insert_group group groups) ≡ (if p group then 1 else 0) + count p groups
unfolding insert_group
insert_group-count p group [] = refl
insert_group-count p group (other ∷ groups) = elim (Bool-cases (bytes_less other.name group.name)) [
  | inl e ↦ rw e (omega (arith, insert_group-count p group groups))
  | inr e ↦ rw e refl
]

pub sort_groups-count :
    (p : IndexedInputGroup → Bool) (groups : List IndexedInputGroup)
    → count p (sort_groups groups) ≡ count p groups
unfolding sort_groups
sort_groups-count p [] = refl
sort_groups-count p (group ∷ groups) =
    insert_group-count p group (sort_groups groups)
    ∙ ap (λ (n : ℕ). (if p group then 1 else 0) + n) (sort_groups-count p groups)

-- The groups of all inputs, sorted.
pub groups_loop-sorted :
    (inputs : List Input) (stratified : Bool) (sum : ℕ) (out : List IndexedInputGroup)
    → groups_loop stratified 0 inputs 0 [] ≡ ok (sum, out)
    → All (IsFilled inputs) (sort_groups out) × ((i : ℕ) → count (lists i) (sort_groups out) ≤ 1)
groups_loop-sorted inputs stratified sum out h =
    let (last, v) =
      groups_loop-AreGroups inputs stratified 0 inputs 0 sum [] out
        (λ k. ap (get_elem? inputs) (omega arith))
        (record { filled = tt; once = λ i. omega arith; new = λ i _. refl }) h in
    (
      sort_groups-All (IsFilled inputs) out v.filled,
      λ i. omega (arith, v.once i, sort_groups-count (lists i) out),
    )
