-- ===== src/Corpus/Policy/Compact.antt =====
-- What `compact` of internal/corpus/policy.go keeps.
use waldo.Base.{
  ◌≡◌, refl, ap, Bool, true, false, not, ◌&&◌, ◌||◌, List, [], ◌∷◌, any, length, ◌==◌, arith,
  Bool-cases, inl, inr,
}
use waldo.Base.Bytes.{Bytes, bytes_eq, bytes_eq_iff}
use waldo.Corpus.Policy.{compact_loop, compact}

-- The value stands in the list.
abbrev pub has : List Bytes → Bytes → Bool
has values value = any (bytes_eq value) values

-- No value stands twice, nor among those seen.
abbrev pub AreDistinct : List Bytes → List Bytes → Type 0
AreDistinct seen [] = Unit {0}
AreDistinct seen (value ∷ values) = (has seen value ≡ false) × AreDistinct (value ∷ seen) values

compact_loop-AreDistinct : (values seen : List Bytes) → AreDistinct seen (compact_loop seen values)
unfolding compact_loop
compact_loop-AreDistinct [] seen = tt
compact_loop-AreDistinct (value ∷ values) seen =
    step (length value == 0 || has seen value) refl (compact_loop-AreDistinct values seen)
      (compact_loop-AreDistinct values (value ∷ seen))
  where
    step :
        (skips : Bool)
        → (length value == 0 || has seen value) ≡ skips
        → AreDistinct seen (compact_loop seen values)
        → AreDistinct (value ∷ seen) (compact_loop (value ∷ seen) values)
        → AreDistinct seen (elim skips as (λ b. List Bytes) [
          | true ↦ compact_loop seen values
          | false ↦ value ∷ compact_loop (value ∷ seen) values
        ])
    step true e x y = x
    step false e x y = (ground (arith, e), y)

has-compact_loop :
    (values seen : List Bytes) (v : Bytes)
    → has (compact_loop seen values) v ≡ (has values v && not (length v == 0 || has seen v))
unfolding compact_loop
has-compact_loop [] seen v = refl
has-compact_loop (value ∷ values) seen v = elim (Bool-cases (bytes_eq v value)) [
  | inl same ↦
      let e : v ≡ value = (bytes_eq_iff v value).0 same in
      let sizes : length v ≡ length value = ap (λ (z : Bytes). length z) e in
      let seen_too : has seen v ≡ has seen value = ap (λ (z : Bytes). has seen z) e in
      ground (
        arith,
        same,
        sizes,
        seen_too,
        has-compact_loop values seen v,
        has-compact_loop values (value ∷ seen) v,
      )
  | inr other ↦
      ground
        (arith, other, has-compact_loop values seen v, has-compact_loop values (value ∷ seen) v)
]

-- `compact` keeps each value that is not empty, and no other, and keeps it once.
pub compact_lem :
    (values : List Bytes)
    → AreDistinct [] (compact values)
      × ((v : Bytes) → has (compact values) v ≡ (has values v && not (length v == 0)))
unfolding compact
compact_lem values =
    (compact_loop-AreDistinct values [], λ v. ground (arith, has-compact_loop values [] v))
