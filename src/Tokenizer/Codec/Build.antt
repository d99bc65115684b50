-- ===== src/Tokenizer/Codec/Build.antt =====
-- The tables that `Artifact.Codec` of internal/tokenizer/trained.go builds.
use waldo.Base.{
  ℕ, zero, suc, ◌+◌, ◌≤◌, ◌<◌, ◌≡◌, refl, ◌∙◌, subst, some, List, [], ◌∷◌, ◌++◌, arith, length,
  get_or, set, replicate, length-set, length-replicate, get_or-set_self, get_or-set_ne,
}
use native.Mathlib.Decide.{ℕ_discrete}
use waldo.Base.Bytes.{Bytes}
use waldo.Tokenizer.Merge.{Pair, PairMap, find, put}
use waldo.Tokenizer.Merge.Laws.{find-put}
use waldo.Tokenizer.Artifact.{Artifact, Merge}
use waldo.Tokenizer.Artifact.Valid.{InOrder}
use waldo.Tokenizer.Codec.{byte_tokens, load_merges, build}

pub length-byte_tokens :
    (rounds value : ℕ) (tokens : List Bytes)
    → length (byte_tokens rounds value tokens) ≡ length tokens
unfolding byte_tokens
length-byte_tokens zero value tokens = refl
length-byte_tokens (suc rounds) value tokens = omega (
  arith,
  length-byte_tokens rounds (value + 1) (set tokens (value + 3) (value ∷ [])),
  length-set tokens (value + 3) (value ∷ []),
)

get_or-byte_tokens_below :
    (rounds value : ℕ) (tokens : List Bytes) (j : ℕ)
    → j < value + 3
    → get_or (byte_tokens rounds value tokens) j [] ≡ get_or tokens j []
unfolding byte_tokens
get_or-byte_tokens_below zero value tokens j h = refl
get_or-byte_tokens_below (suc rounds) value tokens j h =
    get_or-byte_tokens_below rounds (value + 1) _ j (omega arith)
    ∙ get_or-set_ne tokens (value + 3) j (value ∷ []) [] (omega arith)

get_or-byte_tokens :
    (rounds value : ℕ) (tokens : List Bytes) (b : ℕ)
    → value ≤ b
    → b < value + rounds
    → value + rounds + 3 ≤ length tokens
    → get_or (byte_tokens rounds value tokens) (b + 3) [] ≡ b ∷ []
unfolding byte_tokens
get_or-byte_tokens zero value tokens b h k fits = absurd (omega arith)
get_or-byte_tokens (suc rounds) value tokens b h k fits = elim (ℕ_discrete b value) [
  | yes e ↦ rw e (
      get_or-byte_tokens_below rounds (value + 1) _ (value + 3) (omega arith)
      ∙ get_or-set_self tokens (value + 3) (value ∷ []) [] (omega arith))
  | no ne ↦
      get_or-byte_tokens rounds (value + 1) (set tokens (value + 3) (value ∷ [])) b (omega arith)
        (omega arith) (omega (arith, length-set tokens (value + 3) (value ∷ [])))
]

-- What holds of the tables after the merges below `index`.
pub record IsLoaded (index : ℕ) (ranks : PairMap) (tokens : List Bytes) : Type 0 where
  pub bytes : (b : ℕ) → b < 256 → get_or tokens (b + 3) [] ≡ b ∷ []
  pub earlier :
      (p : Pair) (k : ℕ)
      → find ranks p ≡ some k
      → (k < index) × (3 ≤ p.left) × (3 ≤ p.right) × (p.left < 259 + k) × (p.right < 259 + k)
  pub spells :
      (p : Pair) (k : ℕ)
      → find ranks p ≡ some k
      → get_or tokens (259 + k) [] ≡ get_or tokens p.left [] ++ get_or tokens p.right []

module _ (index : ℕ) (ranks : PairMap) (tokens : List Bytes) (merge : Merge) where
  abbrev parts : Bytes
  parts = get_or tokens merge.left [] ++ get_or tokens merge.right []

  abbrev next_tokens : List Bytes
  next_tokens = set tokens (259 + index) parts

  module _ (h : IsLoaded index ranks tokens)
      (ordered : (3 ≤ merge.left)
        × (3 ≤ merge.right)
        × (merge.left < 259 + index)
        × (merge.right < 259 + index))
      (fits : 259 + index < length tokens) where
    earlier_step :
        (p : Pair) (k : ℕ)
        → find (put ranks merge index) p ≡ some k
        → (k < index + 1) × (3 ≤ p.left) × (3 ≤ p.right) × (p.left < 259 + k) × (p.right < 259 + k)
    earlier_step p k e = ground (arith, find-put ranks merge p index, h.earlier p k)

    kept : (j : ℕ) → j < 259 + index → get_or next_tokens j [] ≡ get_or tokens j []
    kept j lt = get_or-set_ne tokens (259 + index) j parts [] (omega arith)

    spells_step :
        (p : Pair) (k : ℕ)
        → find (put ranks merge index) p ≡ some k
        → get_or next_tokens (259 + k) []
          ≡ get_or next_tokens p.left [] ++ get_or next_tokens p.right []
    spells_step p k e = ground (
      arith,
      find-put ranks merge p index,
      h.earlier p k,
      h.spells p k,
      kept (259 + k),
      kept p.left,
      kept p.right,
      kept merge.left,
      kept merge.right,
      get_or-set_self tokens (259 + index) parts [] fits,
    )

    IsLoaded-step : IsLoaded (index + 1) (put ranks merge index) next_tokens
    IsLoaded-step = record {
      bytes = λ b lt. kept (b + 3) (omega arith) ∙ h.bytes b lt;
      earlier = earlier_step;
      spells = spells_step;
    }

load_merges-IsLoaded :
    (merges : List Merge) (index finish : ℕ) (ranks : PairMap) (tokens : List Bytes)
    → InOrder index merges
    → index + length merges ≡ finish
    → 259 + finish ≤ length tokens
    → IsLoaded index ranks tokens
    → IsLoaded finish
        (load_merges index merges ranks tokens).0
        (load_merges index merges ranks tokens).1
unfolding load_merges
load_merges-IsLoaded [] index finish ranks tokens o e fits h =
    subst (λ n. IsLoaded n ranks tokens) (omega arith) h
load_merges-IsLoaded (merge ∷ merges) index finish ranks tokens o e fits h =
    load_merges-IsLoaded merges (index + 1) finish (put ranks merge index) _ o.1 (omega arith)
      (omega (arith, length-set tokens (259 + index) (parts index ranks tokens merge)))
      (IsLoaded-step index ranks tokens merge h o.0 (omega arith))

length-load_merges :
    (merges : List Merge) (index : ℕ) (ranks : PairMap) (tokens : List Bytes)
    → length (load_merges index merges ranks tokens).1 ≡ length tokens
unfolding load_merges
length-load_merges [] index ranks tokens = refl
length-load_merges (merge ∷ merges) index ranks tokens =
    length-load_merges merges (index + 1) _ _
    ∙ length-set tokens (259 + index) (parts index ranks tokens merge)

abbrev pub HasTable : Artifact → Type 0
HasTable artifact =
    InOrder 0 artifact.merges × (artifact.vocabulary_size ≡ 259 + length artifact.merges)

pub length-build :
    (artifact : Artifact) → length (build artifact).token_bytes ≡ artifact.vocabulary_size
unfolding build
length-build artifact =
    length-load_merges artifact.merges 0 [] _
    ∙ length-byte_tokens 256 0 _
    ∙ length-replicate artifact.vocabulary_size []

pub build-IsLoaded :
    (artifact : Artifact)
    → HasTable artifact
    → IsLoaded (length artifact.merges) (build artifact).ranks (build artifact).token_bytes
unfolding build
build-IsLoaded artifact (ordered, size) =
    load_merges-IsLoaded artifact.merges 0 (length artifact.merges) [] tokens ordered (omega arith)
      (omega (arith, size_tokens, size))
      (record {
        bytes = λ b lt.
            get_or-byte_tokens 256 0 blank b (omega arith) (omega arith)
              (omega (arith, size, size_blank));
        earlier = λ p k e. absurd (unfold find in cc e);
        spells = λ p k e. absurd (unfold find in cc e);
      })
  where
    blank : List Bytes
    blank = replicate artifact.vocabulary_size []

    size_blank : length blank ≡ artifact.vocabulary_size
    size_blank = length-replicate artifact.vocabulary_size []

    tokens : List Bytes
    tokens = byte_tokens 256 0 blank

    size_tokens : length tokens ≡ artifact.vocabulary_size
    size_tokens = length-byte_tokens 256 0 blank ∙ size_blank
