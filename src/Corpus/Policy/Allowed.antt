-- ===== src/Corpus/Policy/Allowed.antt =====
-- The expressions that `LicensePolicy.Allows` of internal/corpus/policy.go lets through.
use waldo.Base.{
  ◌≤◌, ◌<◌, ◌≡◌, ◌↔◌, ◌⊎◌, Bool, true, false, ◌&&◌, ◌||◌, some, List, any, length, leb, ◌==◌, arith,
  Bool-cases, Option-cases, inl, inr, All,
}
use waldo.Base.Bytes.{Bytes}
use waldo.Corpus.Policy.{
  LicensePolicy, Library, match_license, license_terms, excluded_terms, license_excluded,
  included_terms, license_included, allows,
}
use waldo.Corpus.Policy.Entries.{Some, any-Some, Some-any, any-All, All-any, all-All, All-all}

module _ (library : Library) where
  -- No pattern matches the expression, nor one of its terms.
  abbrev pub AreClear : List Bytes → Bytes → List Bytes → Type 0
  AreClear patterns license terms =
      All
        (λ pattern.
          (match_license library pattern license ≡ false)
          × All (λ term. match_license library pattern term ≡ false) terms)
        patterns

  -- A pattern matches the whole expression, which is one term or has its operators in the pattern
  -- too, or each of its terms, of which there is one, is matched by a pattern.
  abbrev pub IsCovered : List Bytes → Bytes → List Bytes → Type 0
  IsCovered patterns license terms =
      Some
        (λ pattern.
          ((length terms ≤ 1) ⊎ (library.has_operator pattern ≡ true))
          × (match_license library pattern license ≡ true))
        patterns
      ⊎ ((0 < length terms)
          × All (λ term. Some (λ pattern. match_license library pattern term ≡ true) patterns)
              terms)

  -- There are no patterns, or the expression is valid and none of them finds anything in it.
  abbrev pub IsUnhit : List Bytes → Bytes → Type 0
  IsUnhit patterns license =
      (length patterns ≡ 0)
      ⊎ ((terms : List Bytes) × (license_terms library license ≡ some terms)
          × AreClear patterns license terms)

  -- The expression is valid, and the patterns cover it.
  abbrev pub IsIncluded : List Bytes → Bytes → Type 0
  IsIncluded patterns license =
      (terms : List Bytes) × (license_terms library license ≡ some terms)
      × IsCovered patterns license terms

  module _ (license : Bytes) (terms : List Bytes) where
    abbrev hits : Bytes → Bool
    hits = λ pattern.
        match_license library pattern license
        || any (λ term. match_license library pattern term) terms

    abbrev IsClear : Bytes → Type 0
    IsClear pattern =
        (match_license library pattern license ≡ false)
        × All (λ term. match_license library pattern term ≡ false) terms

    hits-IsClear : (pattern : Bytes) → hits pattern ≡ false → IsClear pattern
    hits-IsClear pattern h = (
      ground arith,
      any-All (λ term. match_license library pattern term)
          (λ term. match_license library pattern term ≡ false) (λ term e. e) terms (ground arith),
    )

    IsClear-hits : (pattern : Bytes) → IsClear pattern → hits pattern ≡ false
    IsClear-hits pattern h = ground (
      arith,
      h.0,
      All-any (λ term. match_license library pattern term)
          (λ term. match_license library pattern term ≡ false) (λ term e. e) terms h.1,
    )

    -- A pattern that may stand for the whole expression, and does.
    abbrev whole : Bytes → Bool
    whole = λ pattern.
        (leb (length terms) 1 || library.has_operator pattern)
        && match_license library pattern license

    abbrev IsWhole : Bytes → Type 0
    IsWhole pattern =
        ((length terms ≤ 1) ⊎ (library.has_operator pattern ≡ true))
        × (match_license library pattern license ≡ true)

    whole-IsWhole : (pattern : Bytes) → whole pattern ≡ true → IsWhole pattern
    whole-IsWhole pattern h = elim (Bool-cases (leb (length terms) 1)) [
      | inl e ↦ (inl (ground arith), ground arith)
      | inr e ↦ (inr (ground arith), ground arith)
    ]

    IsWhole-whole : (pattern : Bytes) → IsWhole pattern → whole pattern ≡ true
    IsWhole-whole pattern (inl e, m) = ground arith
    IsWhole-whole pattern (inr e, m) = ground arith

  not_excluded_iff :
      (patterns : List Bytes) (license : Bytes)
      → (license_excluded library patterns license ≡ false) ↔ IsUnhit patterns license
  unfolding license_excluded excluded_terms
  not_excluded_iff patterns license = (sound, complete)
    where
      sound : license_excluded library patterns license ≡ false → IsUnhit patterns license
      sound h = elim (Bool-cases (length patterns == 0)) [
        | inl e ↦ inl (ground arith)
        | inr e ↦ elim (Option-cases (license_terms library license)) [
          | inl f ↦ absurd (ground (arith, h, e, f))
          | inr (terms, f) ↦ inr (
            terms,
            f,
            any-All (hits license terms) (IsClear license terms) (hits-IsClear license terms)
                patterns (ground (arith, h, e, f)),
          )
        ]
      ]

      complete : IsUnhit patterns license → license_excluded library patterns license ≡ false
      complete (inl e) = ground (arith, e)
      complete (inr (terms, f, clear)) = ground (
        arith,
        f,
        All-any (hits license terms) (IsClear license terms) (IsClear-hits license terms) patterns
            clear,
      )

  IsIncluded-iff :
      (patterns : List Bytes) (license : Bytes)
      → (license_included library patterns license ≡ true) ↔ IsIncluded patterns license
  unfolding license_included included_terms
  IsIncluded-iff patterns license = (sound, complete)
    where
      sound : license_included library patterns license ≡ true → IsIncluded patterns license
      sound h = elim (Option-cases (license_terms library license)) [
        | inl f ↦ absurd (ground (arith, h, f))
        | inr (terms, f) ↦ (
          terms,
          f,
          elim (Bool-cases (any (whole license terms) patterns)) [
            | inl w ↦ inl (
                any-Some (whole license terms) (IsWhole license terms) (whole-IsWhole license terms)
                  patterns w)
            | inr w ↦ inr (
              ground (arith, h, f, w),
              all-All (λ term. any (λ pattern. match_license library pattern term) patterns)
                  (λ term. Some (λ pattern. match_license library pattern term ≡ true) patterns)
                  (λ term e.
                    any-Some (λ pattern. match_license library pattern term)
                      (λ pattern. match_license library pattern term ≡ true) (λ pattern t. t)
                      patterns e)
                  terms (ground (arith, h, f, w)),
            )
          ],
        )
      ]

      complete : IsIncluded patterns license → license_included library patterns license ≡ true
      complete (terms, f, inl w) = ground (
        arith,
        f,
        Some-any (whole license terms) (IsWhole license terms) (IsWhole-whole license terms)
            patterns w,
      )
      complete (terms, f, inr (n, covered)) = ground (
        arith,
        f,
        n,
        All-all (λ term. any (λ pattern. match_license library pattern term) patterns)
            (λ term. Some (λ pattern. match_license library pattern term ≡ true) patterns)
            (λ term e.
              Some-any (λ pattern. match_license library pattern term)
                (λ pattern. match_license library pattern term ≡ true) (λ pattern t. t) patterns e)
            terms covered,
      )

-- `Allows` lets a licence expression through exactly if the policy has no exclude pattern, or the
-- expression is valid and none matches it or one of its terms; and the policy has no include pattern,
-- or the expression is valid and they cover it.
pub allows_iff :
    (library : Library) (policy : LicensePolicy) (license : Bytes)
    → (allows library policy license ≡ true) ↔ (
        IsUnhit library policy.exclude license
        × ((length policy.include ≡ 0) ⊎ IsIncluded library policy.include license))
unfolding allows
allows_iff library policy license = (sound, complete)
  where
    sound :
        allows library policy license ≡ true
        → IsUnhit library policy.exclude license
          × ((length policy.include ≡ 0) ⊎ IsIncluded library policy.include license)
    sound h = (
      (not_excluded_iff library policy.exclude license).0 (ground arith),
      elim (Bool-cases (length policy.include == 0)) [
        | inl e ↦ inl (ground arith)
        | inr e ↦ inr ((IsIncluded-iff library policy.include license).0 (ground arith))
      ],
    )

    complete :
        IsUnhit library policy.exclude license
          × ((length policy.include ≡ 0) ⊎ IsIncluded library policy.include license)
        → allows library policy license ≡ true
    complete (clear, inl e) =
        ground (arith, (not_excluded_iff library policy.exclude license).1 clear, e)
    complete (clear, inr c) = ground (
      arith,
      (not_excluded_iff library policy.exclude license).1 clear,
      (IsIncluded-iff library policy.include license).1 c,
    )
