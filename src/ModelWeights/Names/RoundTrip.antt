-- ===== src/ModelWeights/Names/RoundTrip.antt =====
-- The two names of a tensor are found from each other.
use waldo.Base.{
  ◌≡◌, refl, sym, ap, ◌∙◌, Bool, true, false, ◌&&◌, Option, none, some, List, [], ◌∷◌, ◌++◌,
  append_assoc, all, length, drop, ◌==◌, if◌then◌else◌, Bool-cases, Option-cases, inl, inr, arith,
  &&-true, ◌↔◌,
}
use waldo.Base.Bytes.{Bytes, codes, bytes_eq, bytes_eq_sound}
use waldo.Base.Strings.{has_prefix}
use waldo.ModelWeights.Names.{
  is_digit, take_digits, is_some, is_tail, after_digits, match_layer, waldo_start,
  hugging_face_start, waldo_to_hugging_face, other_names, find_value, find_key, layer_name,
  renamed_layer, hugging_face_name, waldo_name,
}

has_prefix_sound :
    (text start : Bytes) → has_prefix text start ≡ true → text ≡ start ++ drop (length start) text
unfolding has_prefix
has_prefix_sound text [] h = refl
has_prefix_sound [] (p ∷ start) h = cc
has_prefix_sound (c ∷ text) (p ∷ start) h = ground (arith, has_prefix_sound text start)

has_prefix-append : (start text : Bytes) → has_prefix (start ++ text) start ≡ true
unfolding has_prefix
has_prefix-append [] text = refl
has_prefix-append (p ∷ start) text = ground (arith, has_prefix-append start text)

drop-append : (start text : Bytes) → drop (length start) (start ++ text) ≡ text
drop-append [] text = refl
drop-append (p ∷ start) text = drop-append start text

take_digits_parts :
    (text : Bytes)
    → ((take_digits text).0 ++ (take_digits text).1 ≡ text)
      × (all is_digit (take_digits text).0 ≡ true)
unfolding take_digits
take_digits_parts [] = (refl, refl)
take_digits_parts (c ∷ text) =
    let (same, digits) = take_digits_parts text in
    elim (Bool-cases (is_digit c)) [
      | inl e ↦ rw e (ap (λ ts. c ∷ ts) same, rw (e, digits) refl)
      | inr e ↦ rw e (refl, refl)
    ]

take_digits-append :
    (digits tail : Bytes)
    → all is_digit digits ≡ true
    → take_digits (digits ++ b'.' ∷ tail) ≡ (digits, b'.' ∷ tail)
unfolding take_digits
take_digits-append [] tail h = refl
take_digits-append (c ∷ digits) tail h =
    let (first, others) = &&-true (is_digit c) (all is_digit digits) h in
    rw (first, take_digits-append digits tail others) refl

-- The parts of a name that matches.
record IsLayer (digits tail : Bytes) : Type 0 where
  numbered : all is_digit digits ≡ true
  some_digit : is_some digits ≡ true
  named : is_tail tail ≡ true

passed :
    (a b c : Bool) (x y : Bytes × Bytes)
    → (if a && b && c then some x else none) ≡ some y
    → (a ≡ true) × (b ≡ true) × (c ≡ true) × (x ≡ y)
passed true true true x y h = (refl, refl, refl, (cc))
passed true true false x y h = absurd (cc h)
passed true false c x y h = absurd (cc h)
passed false b c x y h = absurd (cc h)

after_digits_inv :
    (pieces : Bytes × Bytes) (digits tail : Bytes)
    → after_digits pieces ≡ some (digits, tail)
    → (pieces.0 ≡ digits)
      × (pieces.1 ≡ b'.' ∷ tail)
      × (is_some digits ≡ true)
      × (is_tail tail ≡ true)
after_digits_inv (ds, []) digits tail h = absurd (cc h)
after_digits_inv (ds, c ∷ rest) digits tail h =
    let (some_digit, dot, named, same) =
      passed (is_some ds) (c == b'.') (is_tail rest) (ds, rest) (digits, tail) h in
    let first : ds ≡ digits = ap (λ (q : Bytes × Bytes). q.0) same in
    let last : rest ≡ tail = ap (λ (q : Bytes × Bytes). q.1) same in
    let point : c ≡ b'.' = ground (arith, dot) in
    (
      first,
      rw (point, last) refl,
      ap is_some (sym first) ∙ some_digit,
      ap is_tail (sym last) ∙ named,
    )

match_layer_sound :
    (name text digits tail : Bytes)
    → match_layer (name ++ codes ".") text ≡ some (digits, tail)
    → (text ≡ layer_name name digits tail) × IsLayer digits tail
unfolding match_layer
match_layer_sound name text digits tail h =
    elim (Bool-cases (has_prefix text (name ++ codes "."))) [
      | inr e ↦ absurd (cc (rw e at h))
      | inl e ↦
          let rest = drop (length (name ++ codes ".")) text in
          let (first, last, some_digit, named) =
            after_digits_inv (take_digits rest) digits tail (rw e at h) in
          let (same, numbered) = take_digits_parts rest in
          (
            has_prefix_sound text (name ++ codes ".") e
                ∙ append_assoc name (codes ".") rest
                ∙ ap (λ ts. name ++ (codes "." ++ ts)) (sym same ∙ rw (first, last) refl),
            record {
              numbered = ap (all is_digit) (sym first) ∙ numbered;
              some_digit = some_digit;
              named = named;
            },
          )
    ]

match_layer-layer_name :
    (name digits tail : Bytes)
    → IsLayer digits tail
    → match_layer (name ++ codes ".") (layer_name name digits tail) ≡ some (digits, tail)
unfolding match_layer
match_layer-layer_name name digits tail layer =
    rw
      (
        ← append_assoc name (codes ".") (digits ++ (codes "." ++ tail)),
        has_prefix-append (name ++ codes ".") (digits ++ (codes "." ++ tail)),
        drop-append (name ++ codes ".") (digits ++ (codes "." ++ tail)),
        take_digits-append digits tail layer.numbered,
        layer.some_digit,
        layer.named,
      )
      refl

-- A property of all pairs holds of a pair that is found.
find_value-all :
    (test : Bytes → Bytes → Bool) (pairs : List (Bytes × Bytes)) (key value : Bytes)
    → all (λ (pair : Bytes × Bytes). test pair.0 pair.1) pairs ≡ true
    → find_value pairs key ≡ some value
    → test key value ≡ true
unfolding find_value
find_value-all test [] key value h e = absurd (cc e)
find_value-all test ((k, v) ∷ pairs) key value h e =
    let (first, others) = &&-true (test k v) _ h in
    elim (Bool-cases (bytes_eq key k)) [
      | inl q ↦
          let found : v ≡ value = ground (arith, e, q) in rw (bytes_eq_sound key k q, ← found) first
      | inr q ↦ find_value-all test pairs key value others (ground (arith, e, q))
    ]

find_key-all :
    (test : Bytes → Bytes → Bool) (pairs : List (Bytes × Bytes)) (key value : Bytes)
    → all (λ (pair : Bytes × Bytes). test pair.0 pair.1) pairs ≡ true
    → find_key pairs value ≡ some key
    → test key value ≡ true
unfolding find_key
find_key-all test [] key value h e = absurd (cc e)
find_key-all test ((k, v) ∷ pairs) key value h e =
    let (first, others) = &&-true (test k v) _ h in
    elim (Bool-cases (bytes_eq value v)) [
      | inl q ↦
          let found : k ≡ key = ground (arith, e, q) in rw (bytes_eq_sound value v q, ← found) first
      | inr q ↦ find_key-all test pairs key value others (ground (arith, e, q))
    ]

abbrev is_that : Option Bytes → Bytes → Bool
is_that none text = false
is_that (some found) text = bytes_eq found text

is_that_sound : (o : Option Bytes) (text : Bytes) → is_that o text ≡ true → o ≡ some text
is_that_sound none text h = cc
is_that_sound (some found) text h = ap some (bytes_eq_sound found text h)

renamed_layer_inv :
    (name : Bytes) (tail_of : Bytes → Option Bytes) (layer : Option (Bytes × Bytes)) (out : Bytes)
    → renamed_layer name tail_of layer ≡ some out
    → (digits : Bytes) × (tail : Bytes) × (found : Bytes) × (layer ≡ some (digits, tail))
      × (tail_of tail ≡ some found)
      × (layer_name name digits found ≡ out)
renamed_layer_inv name tail_of none out h = absurd (cc h)
renamed_layer_inv name tail_of (some (digits, tail)) out h = elim (Option-cases (tail_of tail)) [
  | inl e ↦ absurd (cc (rw (e, renamed_layer) at h))
  | inr (found, e) ↦ (digits, tail, found, refl, e, cc (rw (e, renamed_layer) at h))
]

-- What is checked of each pair of names outside of the layers, and of each pair of the table.
other_names_paired :
    (waldo hugging_face : Bytes)
    → (find_value other_names waldo ≡ some hugging_face → waldo_name hugging_face ≡ some waldo)
      × (find_key other_names hugging_face ≡ some waldo
          → hugging_face_name waldo ≡ some hugging_face)
unfolding waldo_name hugging_face_name find_key find_value bytes_eq
other_names_paired waldo hugging_face = (
  λ h.
      is_that_sound (waldo_name hugging_face) waldo
        (find_value-all (λ k v. is_that (waldo_name v) k) other_names waldo hugging_face refl h),
  λ h.
      is_that_sound (hugging_face_name waldo) hugging_face (
        find_key-all (λ k v. is_that (hugging_face_name k) v) other_names waldo hugging_face refl
          h),
)

tails_paired :
    (tail other : Bytes)
    → (find_value waldo_to_hugging_face tail ≡ some other
        → (find_key waldo_to_hugging_face other ≡ some tail) × (is_tail other ≡ true))
      × (find_key waldo_to_hugging_face other ≡ some tail
          → (find_value waldo_to_hugging_face tail ≡ some other) × (is_tail tail ≡ true))
unfolding find_key find_value bytes_eq is_tail
tails_paired tail other = (
  λ h. (
    is_that_sound (find_key waldo_to_hugging_face other) tail (
        find_value-all (λ k v. is_that (find_key waldo_to_hugging_face v) k) waldo_to_hugging_face
          tail other refl h),
    find_value-all (λ k v. is_tail v) waldo_to_hugging_face tail other refl h,
  ),
  λ h. (
    is_that_sound (find_value waldo_to_hugging_face tail) other (
        find_key-all (λ k v. is_that (find_value waldo_to_hugging_face k) v) waldo_to_hugging_face
          tail other refl h),
    find_key-all (λ k v. is_tail k) waldo_to_hugging_face tail other refl h,
  ),
)

no_other_waldo :
    (digits tail : Bytes) → find_value other_names (layer_name (codes "layers") digits tail) ≡ none
unfolding find_value bytes_eq
no_other_waldo digits tail = refl

no_other_hugging_face :
    (digits tail : Bytes)
    → find_key other_names (layer_name (codes "model.layers") digits tail) ≡ none
unfolding find_key bytes_eq
no_other_hugging_face digits tail = refl

waldo_name_step :
    (text digits tail found : Bytes)
    → find_key other_names text ≡ none
    → match_layer hugging_face_start text ≡ some (digits, tail)
    → find_key waldo_to_hugging_face tail ≡ some found
    → waldo_name text ≡ some (layer_name (codes "layers") digits found)
unfolding waldo_name
waldo_name_step text digits tail found other layer named =
    rw (other, waldo_name, layer, named, renamed_layer) refl

waldo_name-layer_name :
    (digits tail found : Bytes)
    → IsLayer digits found
    → find_key waldo_to_hugging_face found ≡ some tail
    → waldo_name (layer_name (codes "model.layers") digits found)
      ≡ some (layer_name (codes "layers") digits tail)
waldo_name-layer_name digits tail found parts back =
    waldo_name_step (layer_name (codes "model.layers") digits found) digits found tail
      (no_other_hugging_face digits found)
      (match_layer-layer_name (codes "model.layers") digits found parts) back

hugging_face_name_step :
    (text digits tail found : Bytes)
    → find_value other_names text ≡ none
    → match_layer waldo_start text ≡ some (digits, tail)
    → find_value waldo_to_hugging_face tail ≡ some found
    → hugging_face_name text ≡ some (layer_name (codes "model.layers") digits found)
unfolding hugging_face_name
hugging_face_name_step text digits tail found other layer named =
    rw (other, hugging_face_name, layer, named, renamed_layer) refl

hugging_face_name-layer_name :
    (digits tail found : Bytes)
    → IsLayer digits found
    → find_value waldo_to_hugging_face found ≡ some tail
    → hugging_face_name (layer_name (codes "layers") digits found)
      ≡ some (layer_name (codes "model.layers") digits tail)
hugging_face_name-layer_name digits tail found parts back =
    hugging_face_name_step (layer_name (codes "layers") digits found) digits found tail
      (no_other_waldo digits found) (match_layer-layer_name (codes "layers") digits found parts)
      back

forward :
    (waldo hugging_face : Bytes)
    → hugging_face_name waldo ≡ some hugging_face
    → waldo_name hugging_face ≡ some waldo
unfolding hugging_face_name
forward waldo hugging_face h = elim (Option-cases (find_value other_names waldo)) [
  | inr (found, e) ↦
      (other_names_paired waldo hugging_face).0 (e ∙ (rw (e, hugging_face_name) at h))
  | inl e ↦
      let (digits, tail, found, layer, named, same) =
        renamed_layer_inv (codes "model.layers") (find_value waldo_to_hugging_face)
          (match_layer waldo_start waldo) hugging_face (rw (e, hugging_face_name) at h) in
      let (spelled, parts) = match_layer_sound (codes "layers") waldo digits tail layer in
      let (back, fits) = (tails_paired tail found).0 named in
      rw (← same) (
        waldo_name-layer_name digits tail found
          (record { numbered = parts.numbered; some_digit = parts.some_digit; named = fits }) back
        ∙ ap some (sym spelled))
]

backward :
    (waldo hugging_face : Bytes)
    → waldo_name hugging_face ≡ some waldo
    → hugging_face_name waldo ≡ some hugging_face
unfolding waldo_name
backward waldo hugging_face h = elim (Option-cases (find_key other_names hugging_face)) [
  | inr (found, e) ↦ (other_names_paired waldo hugging_face).1 (e ∙ (rw (e, waldo_name) at h))
  | inl e ↦
      let (digits, tail, found, layer, named, same) =
        renamed_layer_inv (codes "layers") (find_key waldo_to_hugging_face)
          (match_layer hugging_face_start hugging_face) waldo (rw (e, waldo_name) at h) in
      let (spelled, parts) =
        match_layer_sound (codes "model.layers") hugging_face digits tail layer in
      let (back, fits) = (tails_paired found tail).1 named in
      rw (← same) (
        hugging_face_name-layer_name digits tail found
          (record { numbered = parts.numbered; some_digit = parts.some_digit; named = fits }) back
        ∙ ap some (sym spelled))
]

-- A tensor has one name in the one format if and only if it has the other in the other format:
-- each of the two functions finds the name that the other was given.
pub hugging_face_name-waldo_name :
    (waldo hugging_face : Bytes)
    → (hugging_face_name waldo ≡ some hugging_face) ↔ (waldo_name hugging_face ≡ some waldo)
hugging_face_name-waldo_name waldo hugging_face =
    (forward waldo hugging_face, backward waldo hugging_face)
