-- ===== src/Corpus/Policy.antt =====
-- internal/corpus/policy.go: which licence expressions a policy allows.
pub mod Entries
pub mod Allowed
pub mod Compact
mod Tests
use waldo.Base.{
  ℕ, zero, suc, ◌+◌, ◌-◌, Bool, true, false, not, ◌&&◌, ◌||◌, Option, none, some, List, [], ◌∷◌,
  ◌++◌, map, any, all, length, leb, ◌==◌, if◌then◌else◌,
}
use waldo.Base.Bytes.{Bytes, codes, bytes_eq}
use waldo.Base.Strings.{trim_left, trim_right}
use waldo.Base.Results.{Result, ok, err}

pub record LicensePolicy : Type 0 where
  pub include : List Bytes
  pub exclude : List Bytes

-- What the code uses of Go's regexp, path and strings. `split_operator` and `has_operator` are
-- `licenseOperator.Split` and `licenseOperator.MatchString`, `has_fragment` is
-- `licenseOperatorFragment.MatchString`, and `glob` is `path.Match`, with none for its error.
pub record Library : Type 0 where
  pub split_operator : Bytes → List Bytes
  pub has_operator : Bytes → Bool
  pub has_fragment : Bytes → Bool
  pub trim_space : Bytes → Bytes
  pub glob : Bytes → Bytes → Option Bool

-- The loop of `balancedLicenseParentheses`.
pub balanced_from : ℕ → Bytes → Bool
balanced_from depth [] = depth == 0
balanced_from depth (c ∷ license) =
    if c == b'('
    then balanced_from (depth + 1) license
    else if c == b')'
    then (elim depth [ zero ↦ false | suc above ↦ balanced_from above license ])
    else balanced_from depth license

-- `strings.ReplaceAll(value, "/", "\x00")`
pub replace_slashes : Bytes → Bytes
replace_slashes value = map (λ c. if c == b'/' then 0 else c) value

pub is_true : Option Bool → Bool
is_true none = false
is_true (some b) = b

-- The loop of `compact`, with the values seen.
pub compact_loop : List Bytes → List Bytes → List Bytes
compact_loop seen [] = []
compact_loop seen (value ∷ values) = elim (length value == 0 || any (bytes_eq value) seen) [
  | true ↦ compact_loop seen values
  | false ↦ value ∷ compact_loop (value ∷ seen) values
]

-- `compact`
pub compact : List Bytes → List Bytes
compact values = compact_loop [] values

module _ (library : Library) where
  -- `matchLicense`
  pub match_license : Bytes → Bytes → Bool
  match_license pattern value =
      is_true (library.glob (replace_slashes pattern) (replace_slashes value))

  -- `strings.TrimSpace(strings.Trim(strings.TrimSpace(part), "()"))`
  pub trim_term : Bytes → Bytes
  trim_term part =
      library.trim_space
        (trim_right (trim_left (library.trim_space part) (codes "()")) (codes "()"))

  -- The loop over the parts, with none for an invalid expression.
  pub terms_loop : List Bytes → Option (List Bytes)
  terms_loop [] = some []
  terms_loop (part ∷ parts) =
      if length (trim_term part) == 0 || library.has_fragment (trim_term part)
      then none
      else elim (terms_loop parts) [ none ↦ none | some terms ↦ some (trim_term part ∷ terms) ]

  -- `licenseTerms`
  pub license_terms : Bytes → Option (List Bytes)
  license_terms license =
      if not (balanced_from 0 license) then none else terms_loop (library.split_operator license)

  -- The loops of `licenseExcluded`.
  pub excluded_terms : List Bytes → Bytes → Option (List Bytes) → Bool
  excluded_terms patterns license none = true
  excluded_terms patterns license (some terms) =
      any
        (λ pattern. match_license pattern license || any (λ term. match_license pattern term) terms)
        patterns

  -- `licenseExcluded`
  pub license_excluded : List Bytes → Bytes → Bool
  license_excluded patterns license =
      if length patterns == 0
      then false
      else excluded_terms patterns license (license_terms license)

  -- The loops of `licenseIncluded`.
  pub included_terms : List Bytes → Bytes → Option (List Bytes) → Bool
  included_terms patterns license none = false
  included_terms patterns license (some terms) =
      if any
        (λ pattern.
          (leb (length terms) 1 || library.has_operator pattern) && match_license pattern license)
        patterns
      then true
      else if length terms == 0
      then false
      else all (λ term. any (λ pattern. match_license pattern term) patterns) terms

  -- `licenseIncluded`
  pub license_included : List Bytes → Bytes → Bool
  license_included patterns license = included_terms patterns license (license_terms license)

  -- `LicensePolicy.Allows`
  pub allows : LicensePolicy → Bytes → Bool
  allows policy license =
      if license_excluded policy.exclude license
      then false
      else length policy.include == 0 || license_included policy.include license

  -- `err != nil`
  pub is_malformed : Bytes → Bool
  is_malformed pattern = elim (library.glob pattern (codes "probe")) [
    | none ↦ true
    | some b ↦ false
  ]

  -- `NewLicensePolicy`; the error is its pattern.
  pub first_malformed : List Bytes → Option Bytes
  first_malformed [] = none
  first_malformed (pattern ∷ patterns) =
      if is_malformed pattern then some pattern else first_malformed patterns

  pub new_license_policy : List Bytes → List Bytes → Result Bytes LicensePolicy
  new_license_policy include exclude = elim (first_malformed (compact include ++ compact exclude)) [
    | some pattern ↦ err pattern
    | none ↦ ok (record { include = compact include; exclude = compact exclude })
  ]
