-- ===== src/Training/Selection/Indexed.antt =====
-- `newIndexedRecordPartition` of internal/training/stream.go, up to the evaluation set that it makes
-- of the rows selected. The reading of the rows is a parameter.
mod Groups
mod Rounds
pub mod Kept
mod Tests
use waldo.Base.{
  ℕ, zero, suc, ◌+◌, ◌-◌, ◌*◌, ◌/◌, ◌≤◌, Bool, true, false, not, ◌&&◌, ◌||◌, Option, none, some,
  List, [], ◌∷◌, ◌++◌, map, length, get_elem?, min, max, ltb, leb, ◌==◌, if◌then◌else◌,
}
use waldo.Base.Bytes.{Bytes, bytes_eq}
use waldo.Base.Strings.{bytes_less}
use waldo.Base.Floats.{Floats, float_zero}
use waldo.Base.Results.{Result, ok, err, ◌>>=◌, ◌>>◌, reject_if}
use waldo.Training.Capacity.{max_int64}
use waldo.Training.Selection.{
  Input, IndexedInputGroup, EvaluationCandidate, Library, indexed_evaluation_candidates,
}

pub data SelectionError : Type 0 where
  bad_record_count : Bytes → SelectionError
  corpus_required : Bytes → SelectionError
  selects_none : SelectionError
  none_fits : SelectionError

-- `float64(total)*fraction`, `float64(maximum)`, and the int of `math.Ceil`.
pub record Scaling (F : Type 0) : Type 0 where
  pub scale : ℕ → F → F
  pub of_int : ℕ → F
  pub ceiling : F → ℕ

pub record Policy (F : Type 0) : Type 0 where
  pub stratified : Bool
  pub fraction : F
  pub max_records : ℕ
  pub max_bytes : ℕ

-- `group.inputs = append(group.inputs, inputPosition)` and `group.records += input.Records`.
abbrev pub with_input : IndexedInputGroup → ℕ → ℕ → IndexedInputGroup
with_input group position records = record group {
  inputs = group.inputs ++ position ∷ [];
  records = group.records + records;
}

-- The entry of `groupsByName`, made where it is not there.
pub add_input : Bytes → ℕ → ℕ → List IndexedInputGroup → List IndexedInputGroup
add_input name position records [] =
    with_input (record { name = name; inputs = []; records = 0 }) position records ∷ []
add_input name position records (group ∷ groups) =
    let later = add_input name position records groups in
    if bytes_eq group.name name then with_input group position records ∷ groups else group ∷ later

abbrev pub is_empty_name : Bytes → Bool
is_empty_name [] = true
is_empty_name (c ∷ name) = false

abbrev pub group_name : Bool → Input → Bytes
group_name true input = input.corpus
group_name false input = []

-- The loop over the inputs, with the total and the groups so far.
pub groups_loop :
    Bool
    → ℕ
    → List Input
    → ℕ
    → List IndexedInputGroup
    → Result SelectionError (ℕ × List IndexedInputGroup)
unfolding add_input
groups_loop stratified position [] total groups = ok (total, groups)
groups_loop stratified position (input ∷ inputs) total groups = do
  reject_if (input.records == 0 || ltb (max_int64 - input.records) total)
      (bad_record_count input.sha256)
  reject_if (stratified && is_empty_name input.corpus) (corpus_required input.sha256)
  groups_loop stratified (position + 1) inputs (total + input.records)
      (add_input (group_name stratified input) position input.records groups)

-- `sort.Slice` by the names, which differ.
pub insert_group : IndexedInputGroup → List IndexedInputGroup → List IndexedInputGroup
unfolding bytes_less
insert_group group [] = group ∷ []
insert_group group (other ∷ groups) =
    let later = insert_group group groups in
    if bytes_less other.name group.name then other ∷ later else group ∷ other ∷ groups

pub sort_groups : List IndexedInputGroup → List IndexedInputGroup
unfolding insert_group
sort_groups [] = []
sort_groups (group ∷ groups) = insert_group group (sort_groups groups)

-- `desiredEvaluationRecords`
pub desired_evaluation_records : {F : Type 0} → Floats F → Scaling F → ℕ → F → ℕ → ℕ
desired_evaluation_records float scaling total fraction maximum =
    let scaled = scaling.scale total fraction in
    let limit = scaling.of_int maximum in
    if ltb total 2
      || maximum == 0
      || float.less fraction (float_zero float)
      || float.equal fraction (float_zero float)
    then 0
    else if float.less limit scaled || float.equal limit scaled
    then min maximum (total - 1)
    else min (min (max 1 (scaling.ceiling scaled)) maximum) (total - 1)

-- The number of rows drawn of a group.
pub probe_limit : ℕ → ℕ → IndexedInputGroup → ℕ
probe_limit desired groups group =
    min (max 1024 ((desired + groups - 1) / groups * 16)) group.records

-- One round: the candidate of each group at that place.
pub round_of : ℕ → List (List EvaluationCandidate) → List EvaluationCandidate
round_of round [] = []
round_of round (candidates ∷ groups) = elim (get_elem? candidates round) [
  | none ↦ round_of round groups
  | some candidate ↦ candidate ∷ round_of round groups
]

-- The rounds that are left.
pub rounds_loop : ℕ → ℕ → List (List EvaluationCandidate) → List EvaluationCandidate
unfolding round_of
rounds_loop zero round groups = []
rounds_loop (suc rounds) round groups =
    round_of round groups ++ rounds_loop rounds (round + 1) groups

pub max_rounds : List (List EvaluationCandidate) → ℕ
max_rounds [] = 0
max_rounds (candidates ∷ groups) = max (length candidates) (max_rounds groups)

pub record Selected : Type 0 where
  pub candidates : List EvaluationCandidate
  pub bytes : ℕ

-- A candidate that is eligible and fits is selected; `text_bytes` is none for a row that the filter
-- does not let pass.
pub consider : ℕ → Option ℕ → EvaluationCandidate → Selected → Selected
consider max_bytes none candidate selected = selected
consider max_bytes (some size) candidate selected =
    if ltb (max_bytes - selected.bytes) size then selected else record {
      candidates = selected.candidates ++ candidate ∷ [];
      bytes = selected.bytes + size;
    }

-- The loop over the candidates.
pub select_loop :
    ℕ → ℕ → (EvaluationCandidate → Option ℕ) → List EvaluationCandidate → Selected → Selected
unfolding consider
select_loop desired max_bytes text_bytes [] selected = selected
select_loop desired max_bytes text_bytes (candidate ∷ candidates) selected =
    elim (length selected.candidates == desired) [
      | true ↦ selected
      | false ↦
          select_loop desired max_bytes text_bytes candidates
            (consider max_bytes (text_bytes candidate) candidate selected)
    ]

abbrev pub none_selected : Selected
none_selected = record { candidates = []; bytes = 0 }

-- The candidates of all groups, in rounds.
pub indexed_candidates :
    Library → List Input → ℕ → ℕ → List IndexedInputGroup → List EvaluationCandidate
unfolding probe_limit rounds_loop max_rounds indexed_evaluation_candidates
indexed_candidates library inputs seed desired groups =
    let drawn =
      map
        (λ group.
          indexed_evaluation_candidates library inputs group seed
            (probe_limit desired (length groups) group))
        groups in
    rounds_loop (max_rounds drawn) 0 drawn

-- `newIndexedRecordPartition`, up to the rows selected; none is selected of fewer than two.
pub select_indexed :
    {F : Type 0}
    → Floats F
    → Scaling F
    → Library
    → List Input
    → ℕ
    → Policy F
    → (EvaluationCandidate → Option ℕ)
    → Result SelectionError Selected
unfolding groups_loop sort_groups desired_evaluation_records indexed_candidates select_loop
select_indexed float scaling library inputs seed policy text_bytes = do
  (total, groups) ← groups_loop policy.stratified 0 inputs 0 []
  let desired = desired_evaluation_records float scaling total policy.fraction policy.max_records
  if ltb total 2 then ok none_selected else (do
    reject_if (desired == 0) selects_none
    let candidates = indexed_candidates library inputs seed desired (sort_groups groups)
    let selected = select_loop desired policy.max_bytes text_bytes candidates none_selected
    reject_if (length selected.candidates == 0) none_fits
    ok selected)
