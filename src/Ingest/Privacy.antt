-- ===== src/Ingest/Privacy.antt =====
-- internal/ingest/privacy_redaction.go: the passes that replace personal data by placeholders. The
-- patterns are regular expressions of Go's library: a pattern is a parameter that tells where it
-- matches.
pub mod Settled
pub mod Headers
mod Tests
use waldo.Base.{
  ℕ, zero, suc, ◌+◌, Bool, true, false, not, ◌&&◌, ◌||◌, Option, none, some, List, [], ◌∷◌, ◌++◌,
  any, length, take, drop, ltb, leb, ◌==◌, if◌then◌else◌,
}
use waldo.Base.Bytes.{Bytes, codes, bytes_eq}
use waldo.Base.Strings.{has_prefix, index, split, join, before, trim_left, trim_right, contains_any}
use waldo.Base.Results.{Result, ok, err}

pub record Redaction : Type 0 where
  pub email_addresses : ℕ
  pub ip_addresses : ℕ
  pub phone_numbers : ℕ
  pub mail_routing_headers : ℕ
  pub credentials : ℕ

abbrev pub no_redaction : Redaction
no_redaction = record {
  email_addresses = 0;
  ip_addresses = 0;
  phone_numbers = 0;
  mail_routing_headers = 0;
  credentials = 0;
}

-- `empty`
unfoldable pub is_empty : Redaction → Bool
is_empty r =
    r.email_addresses == 0
    && r.ip_addresses == 0
    && r.phone_numbers == 0
    && r.mail_routing_headers == 0
    && r.credentials == 0

-- `addPrivacyRedaction`
unfoldable pub add : Redaction → Redaction → Redaction
add total value = record {
  email_addresses = total.email_addresses + value.email_addresses;
  ip_addresses = total.ip_addresses + value.ip_addresses;
  phone_numbers = total.phone_numbers + value.phone_numbers;
  mail_routing_headers = total.mail_routing_headers + value.mail_routing_headers;
  credentials = total.credentials + value.credentials;
}

-- Where a pattern matches in a text: each match with what stands before it, and what stands behind
-- the last one.
pub record Matches : Type 0 where
  pub matches : List (Bytes × Bytes)
  pub rest : Bytes

abbrev pub Pattern : Type 0
Pattern = Bytes → Matches

-- What the code uses of Go's regexp, net, strings and unicode.
pub record Library : Type 0 where
  pub private_key : Pattern
  pub credential : Pattern
  pub email_address : Pattern
  pub ip_candidate : Pattern
  pub phone_candidate : Pattern
  pub parse_ip : Bytes → Bool
  pub to_lower : Bytes → Bytes
  pub trim_space : Bytes → Bytes

-- `ReplaceAllStringFunc` with the count of `replaceValidated`.
unfoldable pub replace_loop : (Bytes → Bool) → Bytes → List (Bytes × Bytes) → Bytes → Bytes × ℕ
replace_loop valid replacement [] rest = (rest, 0)
replace_loop valid replacement ((between, found) ∷ matches) rest =
    let (text, count) = replace_loop valid replacement matches rest in
    if valid found
    then (between ++ (replacement ++ text), suc count)
    else (between ++ (found ++ text), count)

-- `replaceValidated`
unfoldable pub replace_validated : Bytes → Pattern → Bytes → (Bytes → Bool) → Bytes × ℕ
replace_validated text pattern replacement valid =
    replace_loop valid replacement (pattern text).matches (pattern text).rest

-- `replaceMatches`
unfoldable pub replace_matches : Bytes → Pattern → Bytes → Bytes × ℕ
replace_matches text pattern replacement = replace_validated text pattern replacement (λ _. true)

-- The digits of a candidate.
pub digits_of : Bytes → ℕ
digits_of [] = 0
digits_of (c ∷ value) = if leb b'0' c && leb c b'9' then suc (digits_of value) else digits_of value

-- `likelyPhoneNumber`
pub likely_phone_number : Bytes → Bool
likely_phone_number value =
    let digits = digits_of value in
    if ltb 15 digits
    then false
    else leb 10 digits
      || (leb 7 digits && (has_prefix value (codes "+") || contains_any value (codes "()")))

abbrev pub routing_headers : List Bytes
routing_headers =
    codes "received"
    ∷ codes "return-path"
    ∷ codes "x-originating-ip"
    ∷ codes "authentication-results"
    ∷ codes "arc-authentication-results"
    ∷ codes "arc-message-signature"
    ∷ codes "arc-seal"
    ∷ codes "dkim-signature"
    ∷ codes "received-spf"
    ∷ codes "x-received"
    ∷ codes "delivered-to"
    ∷ codes "message-id"
    ∷ []

-- A line that goes on with the header of the line before.
pub is_continuation : Bytes → Bool
is_continuation line = has_prefix line (codes " ") || has_prefix line (9 ∷ [])

-- The number of lines that begin a header.
pub recognized : List Bytes → ℕ
recognized [] = 0
recognized (line ∷ lines) =
    let rest = recognized lines in
    if is_continuation line then rest else elim (before line b':') [
      | none ↦ rest
      | some name ↦ if length name == 0 then rest else suc rest
    ]

module _ (library : Library) where
  -- `ok && mailRoutingHeaders[strings.ToLower(strings.TrimSpace(name))]`
  pub is_routing : Bytes → Bool
  is_routing line = elim (before line b':') [
    | none ↦ false
    | some name ↦ any (bytes_eq (library.to_lower (library.trim_space name))) routing_headers
  ]

  -- The loop over the lines: those kept, and the number of headers removed.
  pub keep_loop : Bool → List Bytes → List Bytes × ℕ
  keep_loop dropping [] = ([], 0)
  keep_loop dropping (line ∷ lines) = elim (is_continuation line) [
    | true ↦
        let (kept, removed) = keep_loop dropping lines in
        if dropping then (kept, removed) else (line ∷ kept, removed)
    | false ↦
        let (kept, removed) = keep_loop (is_routing line) lines in
        if is_routing line then (kept, suc removed) else (line ∷ kept, removed)
  ]

  -- The headers and the rest of the text, behind the search for the separator.
  pub remove_headers : Bytes → ℕ → Bytes × ℕ
  remove_headers text separator =
      let header = take separator text in
      let newline : Bytes = elim (index header (13 ∷ 10 ∷ [])) [
        | none ↦ 10 ∷ []
        | some k ↦ 13 ∷ 10 ∷ []
      ] in
      let lines = split header newline in
      let (kept, removed) = keep_loop false lines in
      if ltb (recognized lines) 2 || removed == 0
      then (text, 0)
      else (join kept newline ++ drop separator text, removed)

  -- The end of the headers, by an empty line of either kind.
  unfoldable pub separator_of : Bytes → Option ℕ
  separator_of text = elim (index text (13 ∷ 10 ∷ 13 ∷ 10 ∷ [])) [
    | some k ↦ some k
    | none ↦ index text (10 ∷ 10 ∷ [])
  ]

  -- `removeMailRoutingHeaders`
  unfoldable pub remove_mail_routing_headers : Bytes → Bytes × ℕ
  remove_mail_routing_headers text = elim (separator_of text) [
    | none ↦ (text, 0)
    | some separator ↦ if separator == 0 then (text, 0) else remove_headers text separator
  ]

  -- The test of a candidate for an IP address.
  pub is_ip : Bytes → Bool
  is_ip value =
      let trimmed = trim_right (trim_left value (codes "[].,;()")) (codes "[].,;()") in
      contains_any trimmed (codes ".:") && library.parse_ip trimmed

  -- `redactPrivacyPass`
  unfoldable pub redact_pass : Bytes → Bytes × Redaction
  redact_pass text =
      let headers = remove_mail_routing_headers text in
      let keys = replace_matches headers.0 library.private_key (codes "<CREDENTIAL>") in
      let secrets = replace_matches keys.0 library.credential (codes "<CREDENTIAL>") in
      let emails = replace_matches secrets.0 library.email_address (codes "<EMAIL_ADDRESS>") in
      let ips = replace_validated emails.0 library.ip_candidate (codes "<IP_ADDRESS>") is_ip in
      let phones =
        replace_validated ips.0 library.phone_candidate (codes "<PHONE_NUMBER>")
          likely_phone_number in
      (
        phones.0,
        record {
          email_addresses = emails.1;
          ip_addresses = ips.1;
          phone_numbers = phones.1;
          mail_routing_headers = headers.1;
          credentials = keys.1 + secrets.1;
        },
      )

  -- `validatePrivacyPlaceholders`: no detector finds anything in a placeholder.
  unfoldable pub is_settled : Bytes → Bool
  is_settled text = bytes_eq (redact_pass text).0 text && is_empty (redact_pass text).1

  unfoldable pub placeholders_hold : Bool
  placeholders_hold =
      is_settled (codes "<EMAIL_ADDRESS>")
      && is_settled (codes "<IP_ADDRESS>")
      && is_settled (codes "<PHONE_NUMBER>")
      && is_settled (codes "<CREDENTIAL>")

pub data PrivacyError : Type 0 where
  placeholder_matches : PrivacyError
  not_converged : Redaction → PrivacyError

-- `convergePrivacyRedaction`: a round for each of the passes left, and one to see what remains.
unfoldable pub converge_loop :
    (Bytes → Bytes × Redaction) → ℕ → Bytes → Redaction → Result PrivacyError (Bytes × Redaction)
converge_loop pass zero text total =
    let remaining = (pass text).1 in
    if is_empty remaining then ok (text, total) else err (not_converged remaining)
converge_loop pass (suc passes) text total = elim (is_empty (pass text).1) [
  | true ↦ ok ((pass text).0, total)
  | false ↦ converge_loop pass passes (pass text).0 (add total (pass text).1)
]

abbrev pub pass_limit : ℕ
pass_limit = 8

-- `redactPrivacy`
unfoldable pub redact_privacy : Library → Bytes → Result PrivacyError (Bytes × Redaction)
redact_privacy library text =
    if not (placeholders_hold library)
    then err placeholder_matches
    else converge_loop (redact_pass library) pass_limit text no_redaction
