-- ===== src/Ingest/Values/Redacted.antt =====
-- What `redactJSONStrings` of internal/ingest/privacy_redaction.go makes of the strings in a value.
use waldo.Base.{◌≡◌, refl, sym, ap, ◌∙◌, List, [], ◌∷◌, ◌++◌, ◌⊎◌, inl, inr}
use waldo.Base.Bytes.{Bytes}
use waldo.Base.Results.{Result, ok, err, ◌>>=◌}
use waldo.Ingest.Privacy.{Redaction, no_redaction, add, Library, PrivacyError, redact_privacy}
use waldo.Ingest.Values.{
  JsonValue, string, array, object, other, JsonItems, no_items, item, JsonFields, no_fields, field,
  redact_value, redact_items, redact_fields, redact_json_strings,
}
use waldo.Ingest.Values.Strings.{
  strings_of, item_strings, field_strings, shape_of, item_shapes, field_shapes,
}

module _ (library : Library) where
  -- Each text is redacted to the one at its place, and the counts are added to the total.
  abbrev pub AreRedacted : List Bytes → List Bytes → Redaction → Redaction → Type 0
  AreRedacted [] [] total counted = total ≡ counted
  AreRedacted [] (out ∷ outs) total counted = ⊥
  AreRedacted (text ∷ texts) [] total counted = ⊥
  AreRedacted (text ∷ texts) (out ∷ outs) total counted =
      (one : Redaction) × (redact_privacy library text ≡ ok (out, one))
      × AreRedacted texts outs (add total one) counted

  -- The texts are redacted up to the first that is refused.
  abbrev pub IsRefused : List Bytes → PrivacyError → Type 0
  IsRefused [] e = ⊥
  IsRefused (text ∷ texts) e =
      (redact_privacy library text ≡ err e)
      ⊎ ((out : Bytes × Redaction) × (redact_privacy library text ≡ ok out) × IsRefused texts e)

  AreRedacted-append :
      (texts outs more more_outs : List Bytes) (total counted all_counted : Redaction)
      → AreRedacted texts outs total counted
      → AreRedacted more more_outs counted all_counted
      → AreRedacted (texts ++ more) (outs ++ more_outs) total all_counted
  AreRedacted-append [] [] more more_outs total counted all_counted h k = rw h k
  AreRedacted-append [] (out ∷ outs) more more_outs total counted all_counted h k = absurd h
  AreRedacted-append (text ∷ texts) [] more more_outs total counted all_counted h k = absurd h
  AreRedacted-append (text ∷ texts) (out ∷ outs) more more_outs total counted all_counted
        (one, e, h) k =
      (one, e, AreRedacted-append texts outs more more_outs (add total one) counted all_counted h k)

  IsRefused-append :
      (texts more : List Bytes) (e : PrivacyError) → IsRefused texts e → IsRefused (texts ++ more) e
  IsRefused-append [] more e h = absurd h
  IsRefused-append (text ∷ texts) more e (inl h) = inl h
  IsRefused-append (text ∷ texts) more e (inr (out, f, h)) =
      inr (out, f, IsRefused-append texts more e h)

  AreRedacted-IsRefused :
      (texts outs more : List Bytes) (total counted : Redaction) (e : PrivacyError)
      → AreRedacted texts outs total counted
      → IsRefused more e
      → IsRefused (texts ++ more) e
  AreRedacted-IsRefused [] [] more total counted e h k = k
  AreRedacted-IsRefused [] (out ∷ outs) more total counted e h k = absurd h
  AreRedacted-IsRefused (text ∷ texts) [] more total counted e h k = absurd h
  AreRedacted-IsRefused (text ∷ texts) (out ∷ outs) more total counted e (one, f, h) k =
      inr ((out, one), f, AreRedacted-IsRefused texts outs more (add total one) counted e h k)

  -- A result has the shape asked for with the texts redacted, or a text was refused.
  abbrev pub IsOutcome :
      {A : Type 0}
      → (A → List Bytes)
      → (A → A)
      → List Bytes
      → A
      → Redaction
      → Result PrivacyError (A × Redaction)
      → Type 0
  IsOutcome view shape texts wanted total (ok (out, counted)) =
      (shape out ≡ wanted) × AreRedacted texts (view out) total counted
  IsOutcome view shape texts wanted total (err e) = IsRefused texts e

  abbrev ValueOutcome : JsonValue → Redaction → Result PrivacyError (JsonValue × Redaction) → Type 0
  ValueOutcome value = IsOutcome strings_of shape_of (strings_of value) (shape_of value)

  abbrev ItemsOutcome : JsonItems → Redaction → Result PrivacyError (JsonItems × Redaction) → Type 0
  ItemsOutcome items = IsOutcome item_strings item_shapes (item_strings items) (item_shapes items)

  abbrev FieldsOutcome :
      JsonFields → Redaction → Result PrivacyError (JsonFields × Redaction) → Type 0
  FieldsOutcome fields =
      IsOutcome field_strings field_shapes (field_strings fields) (field_shapes fields)

  string-ValueOutcome :
      (text : Bytes) (total : Redaction) (r : Result PrivacyError (Bytes × Redaction))
      → redact_privacy library text ≡ r
      → ValueOutcome (string text) total (r >>= λ q. ok (string q.0, add total q.1))
  unfolding strings_of shape_of
  string-ValueOutcome text total (err e) h = inl h
  string-ValueOutcome text total (ok (out, one)) h = (refl, (one, h, refl))

  array-ValueOutcome :
      (items : JsonItems) (total : Redaction) (r : Result PrivacyError (JsonItems × Redaction))
      → ItemsOutcome items total r
      → ValueOutcome (array items) total (r >>= λ q. ok (array q.0, q.1))
  unfolding strings_of shape_of
  array-ValueOutcome items total (err e) h = h
  array-ValueOutcome items total (ok (out, counted)) (shape, h) = (ap array shape, h)

  object-ValueOutcome :
      (fields : JsonFields) (total : Redaction) (r : Result PrivacyError (JsonFields × Redaction))
      → FieldsOutcome fields total r
      → ValueOutcome (object fields) total (r >>= λ q. ok (object q.0, q.1))
  unfolding strings_of shape_of
  object-ValueOutcome f total (err e) h = h
  object-ValueOutcome f total (ok (out, counted)) (shape, h) = (ap object shape, h)

  -- One value, and behind it what stands behind it.
  module _ {A B : Type 0} (f : JsonValue → A → B) (view_rest : A → List Bytes) (shape_rest : A → A)
      (view : B → List Bytes) (shape : B → B)
      (views : (v : JsonValue) (a : A) → view (f v a) ≡ strings_of v ++ view_rest a)
      (shapes : (v : JsonValue) (a : A) → shape (f v a) ≡ f (shape_of v) (shape_rest a)) where
    rest-IsOutcome :
        (value first : JsonValue) (rest : A) (total c : Redaction)
        (r : Result PrivacyError (A × Redaction))
        → ValueOutcome value total (ok (first, c))
        → IsOutcome view_rest shape_rest (view_rest rest) (shape_rest rest) c r
        → IsOutcome view shape
            (view (f value rest))
            (shape (f value rest))
            total
            (r >>= λ q. ok (f first q.0, q.1))
    rest-IsOutcome value first rest total c (err e) (_, done) h = rw (views value rest) (
        AreRedacted-IsRefused (strings_of value) (strings_of first) (view_rest rest) total c e done
          h)
    rest-IsOutcome value first rest total c (ok (out, counted)) (same, done) (others, h) = (
      shapes first out
          ∙ ap (λ v. f v (shape_rest out)) same
          ∙ ap (f (shape_of value)) others
          ∙ sym (shapes value rest),
      rw (views value rest, views first out)
          (AreRedacted-append (strings_of value) (strings_of first) (view_rest rest) (view_rest out)
            total c counted done h),
    )

    both-IsOutcome :
        (value : JsonValue) (rest : A) (total : Redaction)
        (r : Result PrivacyError (JsonValue × Redaction))
        (next : Redaction → Result PrivacyError (A × Redaction))
        → ValueOutcome value total r
        → ((c : Redaction)
            → IsOutcome view_rest shape_rest (view_rest rest) (shape_rest rest) c (next c))
        → IsOutcome view shape
            (view (f value rest))
            (shape (f value rest))
            total
            (r >>= λ p. next p.1 >>= λ q. ok (f p.0 q.0, q.1))
    both-IsOutcome value rest total (err e) next h k =
        rw (views value rest) (IsRefused-append (strings_of value) (view_rest rest) e h)
    both-IsOutcome value rest total (ok (first, c)) next h k =
        rest-IsOutcome value first rest total c (next c) h (k c)

  mutual
    unfolding redact_value strings_of shape_of

    redact_value-Outcome :
        (value : JsonValue) (total : Redaction)
        → ValueOutcome value total (redact_value library value total)
    redact_value-Outcome (string text) total =
        string-ValueOutcome text total (redact_privacy library text) refl
    redact_value-Outcome (array items) total =
        array-ValueOutcome items total (redact_items library items total)
          (redact_items-Outcome items total)
    redact_value-Outcome (object fields) total =
        object-ValueOutcome fields total (redact_fields library fields total)
          (redact_fields-Outcome fields total)
    redact_value-Outcome (other text) total = (refl, refl)

    redact_items-Outcome :
        (items : JsonItems) (total : Redaction)
        → ItemsOutcome items total (redact_items library items total)
    redact_items-Outcome no_items total = (refl, refl)
    redact_items-Outcome (item value items) total =
        both-IsOutcome item item_strings item_shapes item_strings item_shapes (λ v a. refl)
          (λ v a. refl) value items total (redact_value library value total)
          (redact_items library items) (redact_value-Outcome value total)
          (redact_items-Outcome items)

    redact_fields-Outcome :
        (fields : JsonFields) (total : Redaction)
        → FieldsOutcome fields total (redact_fields library fields total)
    redact_fields-Outcome no_fields total = (refl, refl)
    redact_fields-Outcome (field key value fields) total =
        both-IsOutcome (field key) field_strings field_shapes field_strings field_shapes
          (λ v a. refl) (λ v a. refl) value fields total (redact_value library value total)
          (redact_fields library fields) (redact_value-Outcome value total)
          (redact_fields-Outcome fields)

  -- Every string of a JSON value, and nothing else, is redacted, one after the other. If none is
  -- refused, `redactJSONStrings` returns the value of the same shape that has the redacted strings
  -- at their places, with the sum of their counts; else the error of the first that is refused.
  pub redact_json_strings-IsOutcome :
      (value : JsonValue)
      → IsOutcome strings_of shape_of
          (strings_of value)
          (shape_of value)
          no_redaction
          (redact_json_strings library value)
  unfolding redact_json_strings
  redact_json_strings-IsOutcome value = redact_value-Outcome value no_redaction
