-- ===== src/Corpus/Policy/Tests.antt =====
-- Licence policies on small inputs, and their theorems at them.
use waldo.Base.{
  ◌≡◌, ◌↔◌, ◌⊎◌, refl, Bool, true, false, not, ◌&&◌, ◌||◌, some, none, [], ◌∷◌, length, ◌==◌,
  if◌then◌else◌,
}
use waldo.Base.Bytes.{Bytes, codes, bytes_eq}
use waldo.Base.Strings.{has_prefix, index, split_loop, split, trim_left, trim_right}
use waldo.Base.Results.{err}
use waldo.Corpus.Policy.{
  LicensePolicy, Library, balanced_from, replace_slashes, is_true, match_license, trim_term,
  terms_loop, license_terms, excluded_terms, license_excluded, included_terms, license_included,
  allows, is_malformed, first_malformed, new_license_policy, compact_loop, compact,
}
use waldo.Corpus.Policy.Allowed.{IsUnhit, IsIncluded, allows_iff}
use waldo.Corpus.Policy.Compact.{AreDistinct, has, compact_lem}

-- A star at the end of a pattern stands for the rest, and "[" is not closed.
glob : Bytes → Bytes → Bool
glob [] [] = true
glob [] (c ∷ value) = false
glob (p ∷ pattern) [] = p == b'*'
glob (p ∷ pattern) (c ∷ value) = p == b'*' || (p == c && glob pattern value)

has_infix : Bytes → Bytes → Bool
unfolding index has_prefix
has_infix text part = elim (index text part) [ none ↦ false | some k ↦ true ]

abbrev and_only : Library
unfolding glob has_infix split split_loop index has_prefix trim_left
and_only = record {
  split_operator = λ text. split text (codes " AND ");
  has_operator = λ text. has_infix text (codes " AND ");
  has_fragment = λ text. bytes_eq text (codes "AND");
  trim_space = λ text. trim_left text (codes " ");
  glob = λ pattern value. if bytes_eq pattern (codes "[") then none else some (glob pattern value);
}

abbrev open_data : LicensePolicy
open_data = record { include = codes "MIT" ∷ codes "CC-*" ∷ []; exclude = codes "CC-BY-NC*" ∷ [] }

mixed_terms :
    license_terms and_only (codes "(MIT AND CC-BY)") ≡ some (codes "MIT" ∷ codes "CC-BY" ∷ [])
unfolding license_terms terms_loop trim_term trim_left trim_right balanced_from split split_loop
    has_prefix and_only bytes_eq
mixed_terms = refl

mixed_allowed : allows and_only open_data (codes "MIT AND CC-BY") ≡ true
unfolding allows license_excluded excluded_terms license_included included_terms match_license
    is_true replace_slashes license_terms terms_loop trim_term trim_left trim_right balanced_from
    split split_loop has_prefix glob has_infix index bytes_eq
mixed_allowed = refl

hidden_excluded : allows and_only open_data (codes "MIT AND CC-BY-NC") ≡ false
unfolding allows license_excluded excluded_terms license_included included_terms match_license
    is_true replace_slashes license_terms terms_loop trim_term trim_left trim_right balanced_from
    split split_loop has_prefix glob has_infix index bytes_eq
hidden_excluded = refl

bad_pattern :
    new_license_policy and_only (codes "MIT" ∷ codes "MIT" ∷ []) (codes "[" ∷ []) ≡ err (codes "[")
unfolding new_license_policy first_malformed is_malformed compact compact_loop glob and_only
    bytes_eq
bad_pattern = refl

allows_iff_example : (allows and_only open_data (codes "MIT AND CC-BY") ≡ true) ↔ (
    IsUnhit and_only open_data.exclude (codes "MIT AND CC-BY")
    × ((length open_data.include ≡ 0)
        ⊎ IsIncluded and_only open_data.include (codes "MIT AND CC-BY")))
allows_iff_example = allows_iff and_only open_data (codes "MIT AND CC-BY")

compact_lem_example :
    AreDistinct [] (compact (codes "MIT" ∷ [] ∷ codes "MIT" ∷ []))
    × ((v : Bytes)
        → has (compact (codes "MIT" ∷ [] ∷ codes "MIT" ∷ [])) v
          ≡ (has (codes "MIT" ∷ [] ∷ codes "MIT" ∷ []) v && not (length v == 0)))
compact_lem_example = compact_lem (codes "MIT" ∷ [] ∷ codes "MIT" ∷ [])
