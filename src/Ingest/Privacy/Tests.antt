-- ===== src/Ingest/Privacy/Tests.antt =====
-- Redaction of small texts, and its theorems at them.
use mathlib.Core.List.{append-nil}
use waldo.Base.{
  some, ◌≡◌, refl, true, false, ◌∷◌, [], ◌++◌, if◌then◌else◌, arith, Bool-cases, inl, inr,
}
use waldo.Base.Bytes.{Bytes, codes, bytes_eq}
use waldo.Base.Strings.{has_prefix, index, split, join, before, trim_left, trim_right, contains_any}
use waldo.Base.Results.{ok}
use waldo.Ingest.Privacy.{
  no_redaction, is_empty, add, Pattern, Library, replace_loop, replace_validated, replace_matches,
  digits_of, likely_phone_number, is_continuation, recognized, is_routing, keep_loop,
  remove_headers, separator_of, remove_mail_routing_headers, is_ip, redact_pass, is_settled,
  placeholders_hold, converge_loop, redact_privacy,
}
use waldo.Ingest.Privacy.Settled.{spelled, SearchLaws, redact_privacy_settled}
use waldo.Ingest.Privacy.Headers.{IsCleaned, remove_mail_routing_headers-IsCleaned}

abbrev nowhere : Pattern
nowhere = λ text. record { matches = []; rest = text }

-- A text that is one address as a whole.
abbrev address : Bytes
address = codes "a@b.c"

abbrev whole_address : Pattern
whole_address = λ text.
    if bytes_eq text address
    then record { matches = ([], text) ∷ []; rest = [] }
    else record { matches = []; rest = text }

abbrev addresses_only : Library
addresses_only = record {
  private_key = nowhere;
  credential = nowhere;
  email_address = whole_address;
  ip_candidate = nowhere;
  phone_candidate = nowhere;
  parse_ip = λ _. false;
  to_lower = λ name. name;
  trim_space = λ name. name;
}

email_found : (t : Bytes) → spelled (whole_address t).matches (whole_address t).rest ≡ t
email_found t = elim (Bool-cases (bytes_eq t address)) [
  | inl e ↦ rw e (append-nil t)
  | inr e ↦ rw e refl
]

addresses_only-SearchLaws : SearchLaws addresses_only
addresses_only-SearchLaws = record {
  private_key = λ t. refl;
  credential = λ t. refl;
  email_address = λ t. email_found t;
  ip_candidate = λ t. refl;
  phone_candidate = λ t. refl;
}

phone_digits : digits_of (codes "+1 (555) 12") ≡ 6
unfolding digits_of
phone_digits = refl

short_phone : likely_phone_number (codes "+1 555 123") ≡ true
unfolding likely_phone_number digits_of has_prefix
short_phone = refl

no_ip : is_ip addresses_only (codes "[1.2]") ≡ false
unfolding is_ip contains_any trim_right trim_left
no_ip = refl

abbrev mail : Bytes
mail = codes "received: a" ++ (10 ∷ codes "subject: b") ++ (10 ∷ 10 ∷ codes "text")

mail_cleaned :
    remove_mail_routing_headers addresses_only mail
    ≡ (codes "subject: b" ++ (10 ∷ 10 ∷ codes "text"), 1)
unfolding remove_mail_routing_headers separator_of index remove_headers recognized split
    is_continuation before keep_loop is_routing bytes_eq join
mail_cleaned = refl

address_redacted :
    redact_privacy addresses_only address
    ≡ ok (
      codes "<EMAIL_ADDRESS>",
      record {
        email_addresses = 1;
        ip_addresses = 0;
        phone_numbers = 0;
        mail_routing_headers = 0;
        credentials = 0;
      },
    )
unfolding redact_privacy placeholders_hold is_settled bytes_eq redact_pass replace_validated
    replace_loop replace_matches remove_mail_routing_headers separator_of index is_empty
    converge_loop add
address_redacted = refl

redact_privacy_settled_example :
    (is_empty (redact_pass addresses_only (codes "<EMAIL_ADDRESS>")).1 ≡ true)
    × (redact_privacy addresses_only (codes "<EMAIL_ADDRESS>")
        ≡ ok (codes "<EMAIL_ADDRESS>", no_redaction))
redact_privacy_settled_example =
    redact_privacy_settled addresses_only address (codes "<EMAIL_ADDRESS>")
      (record {
        email_addresses = 1;
        ip_addresses = 0;
        phone_numbers = 0;
        mail_routing_headers = 0;
        credentials = 0;
      })
      addresses_only-SearchLaws address_redacted

mail_separated : separator_of addresses_only mail ≡ some 22
unfolding separator_of index has_prefix
mail_separated = refl

folded_header_removed :
    remove_mail_routing_headers addresses_only
      (codes "received: a" ++ (10 ∷ codes " by c") ++ (10 ∷ mail))
    ≡ (codes "subject: b" ++ (10 ∷ 10 ∷ codes "text"), 2)
unfolding remove_mail_routing_headers separator_of index remove_headers recognized split
    is_continuation before keep_loop is_routing bytes_eq join
folded_header_removed = refl

remove_mail_routing_headers-IsCleaned_example : IsCleaned addresses_only mail 22
remove_mail_routing_headers-IsCleaned_example =
    remove_mail_routing_headers-IsCleaned addresses_only mail 22 mail_separated (omega arith)
