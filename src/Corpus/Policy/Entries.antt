-- ===== src/Corpus/Policy/Entries.antt =====
-- What the tests of internal/corpus/policy.go on a list say of its entries.
use waldo.Base.{
  ◌≡◌, refl, ◌⊎◌, Bool, true, false, List, [], ◌∷◌, any, all, arith, Bool-cases, inl, inr, All,
}

-- Some entry of the list has the property.
abbrev pub Some : {A : Type 0} → (A → Type 0) → List A → Type 0
Some P [] = ⊥
Some P (x ∷ xs) = P x ⊎ Some P xs

module _ {A : Type 0} (p : A → Bool) where
  pub any-Some :
      (P : A → Type 0) → ((x : A) → p x ≡ true → P x) → (xs : List A) → any p xs ≡ true → Some P xs
  any-Some P f [] h = ground arith
  any-Some P f (x ∷ xs) h = elim (Bool-cases (p x)) [
    | inl e ↦ inl (f x e)
    | inr e ↦ inr (any-Some P f xs (rw e at h))
  ]

  pub Some-any :
      (P : A → Type 0) → ((x : A) → P x → p x ≡ true) → (xs : List A) → Some P xs → any p xs ≡ true
  Some-any P f [] h = elim h [ ]
  Some-any P f (x ∷ xs) (inl y) = ground (arith, f x y)
  Some-any P f (x ∷ xs) (inr y) = ground (arith, Some-any P f xs y)

  pub any-All :
      (P : A → Type 0) → ((x : A) → p x ≡ false → P x) → (xs : List A) → any p xs ≡ false → All P xs
  any-All P f [] h = tt
  any-All P f (x ∷ xs) h = (f x (ground arith), any-All P f xs (ground arith))

  pub All-any :
      (P : A → Type 0) → ((x : A) → P x → p x ≡ false) → (xs : List A) → All P xs → any p xs ≡ false
  All-any P f [] h = refl
  All-any P f (x ∷ xs) h = ground (arith, f x h.0, All-any P f xs h.1)

  pub all-All :
      (P : A → Type 0) → ((x : A) → p x ≡ true → P x) → (xs : List A) → all p xs ≡ true → All P xs
  all-All P f [] h = tt
  all-All P f (x ∷ xs) h = (f x (ground arith), all-All P f xs (ground arith))

  pub All-all :
      (P : A → Type 0) → ((x : A) → P x → p x ≡ true) → (xs : List A) → All P xs → all p xs ≡ true
  All-all P f [] h = refl
  All-all P f (x ∷ xs) h = ground (arith, f x h.0, All-all P f xs h.1)
