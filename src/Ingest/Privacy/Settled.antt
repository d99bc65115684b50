-- ===== src/Ingest/Privacy/Settled.antt =====
-- What `redactPrivacy` of internal/ingest/privacy_redaction.go returns.
use waldo.Base.{
  ℕ, zero, suc, ◌≡◌, refl, sym, ap, ◌∙◌, Bool, true, false, List, [], ◌∷◌, ◌++◌, arith, Bool-cases,
  Option-cases, inl, inr,
}
use waldo.Base.Bytes.{Bytes}
use waldo.Base.Results.{ok}
use waldo.Ingest.Privacy.{
  Redaction, no_redaction, is_empty, add, Pattern, Library, replace_loop, replace_validated,
  replace_matches, likely_phone_number, remove_headers, separator_of, remove_mail_routing_headers,
  is_ip, redact_pass, placeholders_hold, converge_loop, pass_limit, redact_privacy,
}

-- The matches and what stands around them, in order.
abbrev pub spelled : List (Bytes × Bytes) → Bytes → Bytes
spelled [] rest = rest
spelled ((between, found) ∷ matches) rest = between ++ (found ++ spelled matches rest)

-- A search takes a text apart: its matches and what stands around them are the text.
pub record SearchLaws (library : Library) : Type 0 where
  pub private_key :
      (t : Bytes) → spelled (library.private_key t).matches (library.private_key t).rest ≡ t
  pub credential :
      (t : Bytes) → spelled (library.credential t).matches (library.credential t).rest ≡ t
  pub email_address :
      (t : Bytes) → spelled (library.email_address t).matches (library.email_address t).rest ≡ t
  pub ip_candidate :
      (t : Bytes) → spelled (library.ip_candidate t).matches (library.ip_candidate t).rest ≡ t
  pub phone_candidate :
      (t : Bytes) → spelled (library.phone_candidate t).matches (library.phone_candidate t).rest ≡ t

replace_loop_unchanged :
    (valid : Bytes → Bool) (replacement : Bytes) (matches : List (Bytes × Bytes)) (rest : Bytes)
    → (replace_loop valid replacement matches rest).1 ≡ 0
    → (replace_loop valid replacement matches rest).0 ≡ spelled matches rest
unfolding replace_loop
replace_loop_unchanged valid replacement [] rest h = refl
replace_loop_unchanged valid replacement ((between, found) ∷ matches) rest h =
    ground (arith, replace_loop_unchanged valid replacement matches rest)

-- Where nothing is counted, nothing is replaced.
replace_validated_unchanged :
    (text : Bytes) (pattern : Pattern) (replacement : Bytes) (valid : Bytes → Bool)
    → spelled (pattern text).matches (pattern text).rest ≡ text
    → (replace_validated text pattern replacement valid).1 ≡ 0
    → (replace_validated text pattern replacement valid).0 ≡ text
unfolding replace_validated
replace_validated_unchanged text pattern replacement valid law h =
    replace_loop_unchanged valid replacement (pattern text).matches (pattern text).rest h ∙ law

replace_matches_unchanged :
    (text : Bytes) (pattern : Pattern) (replacement : Bytes)
    → spelled (pattern text).matches (pattern text).rest ≡ text
    → (replace_matches text pattern replacement).1 ≡ 0
    → (replace_matches text pattern replacement).0 ≡ text
unfolding replace_matches
replace_matches_unchanged text pattern replacement law h =
    replace_validated_unchanged text pattern replacement (λ _. true) law h

module _ (library : Library) where
  remove_headers_unchanged :
      (text : Bytes) (separator : ℕ)
      → (remove_headers library text separator).1 ≡ 0
      → (remove_headers library text separator).0 ≡ text
  unfolding remove_headers
  remove_headers_unchanged text separator h = ground arith

  remove_mail_routing_headers_unchanged :
      (text : Bytes)
      → (remove_mail_routing_headers library text).1 ≡ 0
      → (remove_mail_routing_headers library text).0 ≡ text
  unfolding remove_mail_routing_headers
  remove_mail_routing_headers_unchanged text h = elim (Option-cases (separator_of library text)) [
    | inl e ↦ ground (arith, e)
    | inr (k, e) ↦ ground (arith, e, remove_headers_unchanged text k)
  ]

  redact_pass_unchanged :
      SearchLaws library
      → (text : Bytes) → is_empty (redact_pass library text).1 ≡ true
      → (redact_pass library text).0 ≡ text
  unfolding redact_pass is_empty
  redact_pass_unchanged laws text h =
      replace_validated_unchanged _ library.phone_candidate _ likely_phone_number
        (laws.phone_candidate _) (ground arith)
      ∙ replace_validated_unchanged _ library.ip_candidate _ (is_ip library) (laws.ip_candidate _)
          (ground arith)
      ∙ replace_matches_unchanged _ library.email_address _ (laws.email_address _) (ground arith)
      ∙ replace_matches_unchanged _ library.credential _ (laws.credential _) (ground arith)
      ∙ replace_matches_unchanged _ library.private_key _ (laws.private_key _) (ground arith)
      ∙ remove_mail_routing_headers_unchanged text (ground arith)

converge_loop_done :
    (pass : Bytes → Bytes × Redaction) (passes : ℕ) (text : Bytes) (total : Redaction)
    → is_empty (pass text).1 ≡ true
    → converge_loop pass (suc passes) text total ≡ ok ((pass text).0, total)
unfolding converge_loop
converge_loop_done pass passes text total h = ground arith

converge_loop_more :
    (pass : Bytes → Bytes × Redaction) (passes : ℕ) (text : Bytes) (total : Redaction)
    → is_empty (pass text).1 ≡ false
    → converge_loop pass (suc passes) text total
      ≡ converge_loop pass passes (pass text).0 (add total (pass text).1)
unfolding converge_loop
converge_loop_more pass passes text total h = ground arith

converge_loop_settled :
    (pass : Bytes → Bytes × Redaction)
    → ((t : Bytes) → is_empty (pass t).1 ≡ true → (pass t).0 ≡ t)
    → (passes : ℕ) (text : Bytes) (total : Redaction) (out : Bytes) (counted : Redaction)
    → converge_loop pass passes text total ≡ ok (out, counted)
    → is_empty (pass out).1 ≡ true
converge_loop_settled pass unchanged zero text total out counted h =
    unfold converge_loop in ground (arith, h)
converge_loop_settled pass unchanged (suc passes) text total out counted h =
    elim (Bool-cases (is_empty (pass text).1)) [
      | inr more ↦
          converge_loop_settled pass unchanged passes (pass text).0 (add total (pass text).1) out
            counted (sym (converge_loop_more pass passes text total more) ∙ h)
      | inl done ↦
          let same : out ≡ text =
            ground
              (arith, h, converge_loop_done pass passes text total done, done, unchanged text) in
          rw same done
    ]

converge_at_once :
    (library : Library)
    → SearchLaws library
    → (out : Bytes) → is_empty (redact_pass library out).1 ≡ true
    → converge_loop (redact_pass library) pass_limit out no_redaction ≡ ok (out, no_redaction)
converge_at_once library laws out settled =
    converge_loop_done (redact_pass library) 7 out no_redaction settled
    ∙ (ap (λ t. ok (t, no_redaction)) (redact_pass_unchanged library laws out settled))

-- When `redactPrivacy` returns a text, a pass over that text finds nothing: to redact it again gives
-- the same text, with nothing counted.
pub redact_privacy_settled :
    (library : Library) (text out : Bytes) (counted : Redaction)
    → SearchLaws library
    → redact_privacy library text ≡ ok (out, counted)
    → (is_empty (redact_pass library out).1 ≡ true)
      × (redact_privacy library out ≡ ok (out, no_redaction))
unfolding redact_privacy
redact_privacy_settled library text out counted laws h =
    let hold : placeholders_hold library ≡ true = ground arith in
    let settled : is_empty (redact_pass library out).1 ≡ true =
      converge_loop_settled (redact_pass library) (redact_pass_unchanged library laws) pass_limit
        text no_redaction out counted (ground (arith, h, hold)) in
    (settled, rw hold (converge_at_once library laws out settled))
