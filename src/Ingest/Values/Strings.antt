-- ===== src/Ingest/Values/Strings.antt =====
-- The strings in a JSON value and what is left without them, for the redaction of
-- internal/ingest/privacy_redaction.go.
use waldo.Base.{List, [], ◌∷◌, ◌++◌}
use waldo.Base.Bytes.{Bytes}
use waldo.Ingest.Values.{
  JsonValue, string, array, object, other, JsonItems, no_items, item, JsonFields, no_fields, field,
}

unfoldable mutual
  -- The strings of a value, in the order in which they stand. A key of an object is none of them.
  pub strings_of : JsonValue → List Bytes
  strings_of (string text) = text ∷ []
  strings_of (array items) = item_strings items
  strings_of (object fields) = field_strings fields
  strings_of (other text) = []

  pub item_strings : JsonItems → List Bytes
  item_strings no_items = []
  item_strings (item value items) = strings_of value ++ item_strings items

  pub field_strings : JsonFields → List Bytes
  field_strings no_fields = []
  field_strings (field key value fields) = strings_of value ++ field_strings fields

unfoldable mutual
  -- The value with its strings left blank.
  pub shape_of : JsonValue → JsonValue
  shape_of (string text) = string []
  shape_of (array items) = array (item_shapes items)
  shape_of (object fields) = object (field_shapes fields)
  shape_of (other text) = other text

  pub item_shapes : JsonItems → JsonItems
  item_shapes no_items = no_items
  item_shapes (item value items) = item (shape_of value) (item_shapes items)

  pub field_shapes : JsonFields → JsonFields
  field_shapes no_fields = no_fields
  field_shapes (field key value fields) = field key (shape_of value) (field_shapes fields)
