-- ===== src/Model/Observation/Selected.antt =====
-- The checkpoint that `validateBackendObservation` of internal/model/observation.go lets a backend
-- select.
use Prim.Native.String.{String}
use waldo.Base.{
  ℕ, suc, ◌≡◌, ◌⊎◌, refl, subst, Bool, true, false, Option, none, some, List, [], ◌∷◌, any,
  get_elem?, arith, All, Bool-cases, inl, inr,
}
use waldo.Base.Int.{ℤ}
use waldo.Base.Floats.{Floats}
use waldo.Base.Results.{ok}
use waldo.Training.Protocol.{Checkpoint, Evaluation, CheckpointSelection, Observation}
use waldo.Model.Observation.{
  Files, find_metric, is_selected_checkpoint, has_value, is_selected_evaluation, checkpoint_tokens,
  is_eligible, lower, best_value, validate_selection, validate_selected, validate_observation,
}
use waldo.Model.Observation.Sound.{validate_observation_parts}
use waldo.Model.Observation.Artifacts.{int_eq_sound}

-- What IEEE 754 says of `<` and `==`.
pub record FloatLaws {F : Type 0} (float : Floats F) : Type 0 where
  pub less_irreflexive : (a : F) → float.less a a ≡ false
  pub less_transitive :
      (a b c : F) → float.less a b ≡ true → float.less b c ≡ true → float.less a c ≡ true
  pub less_equal :
      (a b c : F) → float.less a b ≡ true → float.equal c b ≡ true → float.less a c ≡ true

any_position :
    {A : Type 0} (p : A → Bool) (xs : List A)
    → any p xs ≡ true
    → (k : ℕ) × (x : A) × (get_elem? xs k ≡ some x) × (p x ≡ true)
any_position p [] h = absurd (ground arith)
any_position p (x ∷ xs) h = elim (Bool-cases (p x)) [
  | inl here ↦ (0, x, refl, here)
  | inr later ↦ let (k, y, e, q) = any_position p xs (rw later at h) in (suc k, y, e, q)
]

module _ {F : Type 0} (float : Floats F) (laws : FloatLaws float) where
  abbrev AtMost : F → F → Type 0
  AtMost a b = (a ≡ b) ⊎ (float.less a b ≡ true)

  AtMost-trans : (a b c : F) → AtMost a b → AtMost b c → AtMost a c
  AtMost-trans a b c (inl e) k = rw e k
  AtMost-trans a b c (inr h) (inl e) = inr (rw (← e) h)
  AtMost-trans a b c (inr h) (inr k) = inr (laws.less_transitive a b c h k)

  -- What is not below a bound is not below what is at most that bound.
  not_below : (value a b : F) → AtMost a b → float.less value b ≡ false → float.less value a ≡ false
  not_below value a b (inl e) n = rw e n
  not_below value a b (inr h) n = elim (Bool-cases (float.less value a)) [
    | inr f ↦ f
    | inl t ↦ ground (arith, laws.less_transitive value a b t h, n)
  ]

  lower-some :
      (start : Option F) (value : F)
      → (w : F) × (lower float start (some value) ≡ some w) × (float.less value w ≡ false)
  unfolding lower
  lower-some none value = (value, refl, laws.less_irreflexive value)
  lower-some (some v) value = elim (Bool-cases (float.less value v)) [
    | inl t ↦ (value, rw t refl, laws.less_irreflexive value)
    | inr f ↦ (v, rw f refl, f)
  ]

  lower-AtMost :
      (v : F) (found : Option F) → (w : F) × (lower float (some v) found ≡ some w) × AtMost w v
  unfolding lower
  lower-AtMost v none = (v, refl, inl refl)
  lower-AtMost v (some value) = elim (Bool-cases (float.less value v)) [
    | inl t ↦ (value, rw t refl, inr t)
    | inr f ↦ (v, rw f refl, inl refl)
  ]

  module _ (metric : String) (checkpoints : List Checkpoint) where
    -- The value of an evaluation that the search reads.
    abbrev pub Eligible : Evaluation F → F → Type 0
    Eligible e value =
        (is_eligible float e (checkpoint_tokens float e.step checkpoints) ≡ true)
        × (find_metric float metric e.metrics ≡ some value)

    best_value-AtMost :
        (evaluations : List (Evaluation F)) (v best : F)
        → best_value float metric checkpoints (some v) evaluations ≡ some best
        → AtMost best v
    unfolding best_value
    best_value-AtMost [] v best h = inl (ground arith)
    best_value-AtMost (x ∷ evaluations) v best h =
        elim (Bool-cases (is_eligible float x (checkpoint_tokens float x.step checkpoints))) [
          | inr f ↦ best_value-AtMost evaluations v best (rw f at h)
          | inl t ↦
              let (w, made, small) = lower-AtMost v (find_metric float metric x.metrics) in
              AtMost-trans best w v (best_value-AtMost evaluations w best (rw (t, made) at h)) small
        ]

    best_value_least :
        (evaluations : List (Evaluation F)) (start : Option F) (best : F)
        → best_value float metric checkpoints start evaluations ≡ some best
        → All (λ e. (value : F) → Eligible e value → float.less value best ≡ false) evaluations
    unfolding best_value
    best_value_least [] start best h = tt
    best_value_least (x ∷ evaluations) start best h = (
      λ value eligible.
          let (w, made, low) = lower-some start value in
          not_below value best w
            (best_value-AtMost evaluations w best (rw (eligible.0, eligible.1, made) at h)) low,
      best_value_least evaluations _ best h,
    )

All-map :
    {A : Type 0} {P Q : A → Type 0} (xs : List A) → All P xs → ((x : A) → P x → Q x) → All Q xs
All-map [] h f = tt
All-map (x ∷ xs) h f = (f x h.0, All-map xs h.1 f)

module _ {F : Type 0} (float : Floats F) where
  selection_facts :
      (o : Observation F) (s : CheckpointSelection F)
      → validate_selected float o (some s) ≡ ok tt
      → (any (is_selected_checkpoint float s) o.checkpoints ≡ true)
        × (any (is_selected_evaluation float s) o.evaluations ≡ true)
        × (has_value float s.value (best_value float s.metric o.checkpoints none o.evaluations)
            ≡ true)
  unfolding validate_selected validate_selection
  selection_facts o s h = ground arith

  has_value-some :
      (v : F) (found : Option F)
      → has_value float v found ≡ true
      → (best : F) × (found ≡ some best) × (float.equal best v ≡ true)
  unfolding has_value
  has_value-some v none h = absurd (ground arith)
  has_value-some v (some best) h = (best, refl, h)

  same_step_checkpoint :
      (s : CheckpointSelection F) (c : Checkpoint)
      → is_selected_checkpoint float s c ≡ true
      → (c.step ≡ s.step) × (c.tokens ≡ s.tokens)
  unfolding is_selected_checkpoint
  same_step_checkpoint s c h =
      (int_eq_sound c.step s.step (ground arith), int_eq_sound c.tokens s.tokens (ground arith))

  same_step_evaluation :
      (s : CheckpointSelection F) (e : Evaluation F)
      → is_selected_evaluation float s e ≡ true
      → (e.step ≡ s.step)
        × (e.tokens ≡ s.tokens)
        × (has_value float s.value (find_metric float s.metric e.metrics) ≡ true)
  unfolding is_selected_evaluation
  same_step_evaluation s e h = (
    int_eq_sound e.step s.step (ground arith),
    int_eq_sound e.tokens s.tokens (ground arith),
    ground arith,
  )

  below_equal :
      FloatLaws float
      → (value best selected : F) → float.equal best selected ≡ true
      → float.less value best ≡ false
      → float.less value selected ≡ false
  below_equal laws value best selected same below = elim (Bool-cases (float.less value selected)) [
    | inr f ↦ f
    | inl t ↦ ground (arith, laws.less_equal value selected best t same, below)
  ]

-- With the laws of `<` and `==` on float64: a backend that selects a checkpoint selects one that it
-- has reported, at the step and tokens and with the value of an evaluation that it has reported, and
-- no evaluation of a reported checkpoint has a lower value.
pub validate_observation_selected :
    {F : Type 0} (float : Floats F) (laws : FloatLaws float) (files : Files) (steps tokens : ℤ)
    (o : Observation F) (s : CheckpointSelection F)
    → validate_observation float files steps tokens o ≡ ok tt
    → o.selected_checkpoint ≡ some s
    → ((i : ℕ) × (c : Checkpoint) × (get_elem? o.checkpoints i ≡ some c)
        × (c.step ≡ s.step)
        × (c.tokens ≡ s.tokens))
      × ((j : ℕ) × (e : Evaluation F) × (get_elem? o.evaluations j ≡ some e)
          × (e.step ≡ s.step)
          × (e.tokens ≡ s.tokens)
          × (has_value float s.value (find_metric float s.metric e.metrics) ≡ true))
      × All
          (λ e.
            (value : F)
            → Eligible float laws s.metric o.checkpoints e value
            → float.less value s.value ≡ false)
          o.evaluations
validate_observation_selected float laws files steps tokens o s h chosen =
    let selected : validate_selected float o (some s) ≡ ok tt =
      subst (λ choice. validate_selected float o choice ≡ ok tt) chosen
        (validate_observation_parts float files steps tokens o h).1 in
    let (found_checkpoint, found_evaluation, is_best) = selection_facts float o s selected in
    let (i, c, at_i, is_c) =
      any_position (is_selected_checkpoint float s) o.checkpoints found_checkpoint in
    let (j, e, at_j, is_e) =
      any_position (is_selected_evaluation float s) o.evaluations found_evaluation in
    let (best, made, same) = has_value-some float s.value _ is_best in
    (
      (
        i,
        c,
        at_i,
        (same_step_checkpoint float s c is_c).0,
        (same_step_checkpoint float s c is_c).1,
      ),
      (
        j,
        e,
        at_j,
        (same_step_evaluation float s e is_e).0,
        (same_step_evaluation float s e is_e).1,
        (same_step_evaluation float s e is_e).2,
      ),
      All-map o.evaluations
          (best_value_least float laws s.metric o.checkpoints o.evaluations none best made)
          (λ e below value eligible.
            below_equal float laws value best s.value same (below value eligible)),
    )
