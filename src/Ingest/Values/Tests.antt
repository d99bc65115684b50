-- ===== src/Ingest/Values/Tests.antt =====
-- The redaction of a small JSON value, and the theorem at it.
use waldo.Base.{◌≡◌, refl, false, ◌∷◌, [], if◌then◌else◌}
use waldo.Base.Bytes.{codes, bytes_eq}
use waldo.Base.Strings.{index, has_prefix}
use waldo.Base.Results.{ok}
use waldo.Ingest.Privacy.{
  no_redaction, is_empty, add, Pattern, Library, replace_loop, replace_validated, replace_matches,
  separator_of, remove_mail_routing_headers, redact_pass, is_settled, placeholders_hold,
  converge_loop, redact_privacy,
}
use waldo.Ingest.Values.Strings.{strings_of, shape_of}
use waldo.Ingest.Values.Redacted.{IsOutcome, redact_json_strings-IsOutcome}
use waldo.Ingest.Values.{
  JsonValue, string, array, other, no_items, item, redact_value, redact_json_strings,
}

abbrev nothing_found : Pattern
nothing_found = λ t. record { matches = []; rest = t }

-- A text that is "a@b" as a whole.
abbrev short_address : Pattern
short_address = λ t.
    if bytes_eq t (codes "a@b")
    then record { matches = ([], t) ∷ []; rest = [] }
    else record { matches = []; rest = t }

abbrev short_addresses : Library
short_addresses = record {
  private_key = nothing_found;
  credential = nothing_found;
  email_address = short_address;
  ip_candidate = nothing_found;
  phone_candidate = nothing_found;
  parse_ip = λ _. false;
  to_lower = λ name. name;
  trim_space = λ name. name;
}

abbrev pair : JsonValue
pair = array (item (string (codes "a@b")) (item (other (codes "7")) no_items))

abbrev redacted_pair : JsonValue
redacted_pair = array (item (string (codes "<EMAIL_ADDRESS>")) (item (other (codes "7")) no_items))

pair_redacted :
    redact_json_strings short_addresses pair
    ≡ ok (redacted_pair, record no_redaction { email_addresses = 1 })
unfolding redact_json_strings redact_value redact_privacy converge_loop placeholders_hold is_settled
    redact_pass is_empty add replace_loop replace_validated replace_matches
    remove_mail_routing_headers separator_of index has_prefix bytes_eq
pair_redacted = refl

redact_json_strings-IsOutcome_example :
    IsOutcome short_addresses strings_of shape_of
      (codes "a@b" ∷ [])
      (shape_of pair)
      no_redaction
      (redact_json_strings short_addresses pair)
unfolding strings_of
redact_json_strings-IsOutcome_example = redact_json_strings-IsOutcome short_addresses pair
