-- ===== src/Ingest/Values.antt =====
-- `redactJSONValue` of internal/ingest/privacy_redaction.go: the redaction of the strings in a decoded
-- JSON value. The fields of an object are visited in the order of their list.
mod Strings
pub mod Redacted
mod Tests
use waldo.Base.{ℕ, List, [], ◌∷◌}
use waldo.Base.Bytes.{Bytes}
use waldo.Base.Results.{Result, ok, err, ◌>>=◌}
use waldo.Ingest.Privacy.{Redaction, no_redaction, add, Library, PrivacyError, redact_privacy}

-- A number, a Boolean and null are left as they are.
mutual
  pub data JsonValue : Type 0 where
    string : Bytes → JsonValue
    array : JsonItems → JsonValue
    object : JsonFields → JsonValue
    other : Bytes → JsonValue

  pub data JsonItems : Type 0 where
    no_items : JsonItems
    item : JsonValue → JsonItems → JsonItems

  pub data JsonFields : Type 0 where
    no_fields : JsonFields
    field : Bytes → JsonValue → JsonFields → JsonFields

unfoldable mutual
  -- `redactJSONValue`
  pub redact_value : Library → JsonValue → Redaction → Result PrivacyError (JsonValue × Redaction)
  redact_value library (string text) total = do
    (redacted, one) ← redact_privacy library text
    ok (string redacted, add total one)
  redact_value library (array items) total = do
    (redacted, counted) ← redact_items library items total
    ok (array redacted, counted)
  redact_value library (object fields) total = do
    (redacted, counted) ← redact_fields library fields total
    ok (object redacted, counted)
  redact_value library (other text) total = ok (other text, total)

  pub redact_items : Library → JsonItems → Redaction → Result PrivacyError (JsonItems × Redaction)
  redact_items library no_items total = ok (no_items, total)
  redact_items library (item value items) total = do
    (first, counted) ← redact_value library value total
    (rest, all_counted) ← redact_items library items counted
    ok (item first rest, all_counted)

  pub redact_fields :
      Library → JsonFields → Redaction → Result PrivacyError (JsonFields × Redaction)
  redact_fields library no_fields total = ok (no_fields, total)
  redact_fields library (field key value fields) total = do
    (child, counted) ← redact_value library value total
    (rest, all_counted) ← redact_fields library fields counted
    ok (field key child rest, all_counted)

-- `redactJSONStrings`, between the decoding and the encoding.
pub redact_json_strings : Library → JsonValue → Result PrivacyError (JsonValue × Redaction)
redact_json_strings library value = redact_value library value no_redaction
