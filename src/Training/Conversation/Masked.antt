-- ===== src/Training/Conversation/Masked.antt =====
-- The mask that `tokenizeRecord` of internal/training/conversation.go returns with the tokens.
use waldo.Base.{
  ℕ, zero, suc, ◌+◌, ◌≡◌, refl, ap, ◌∙◌, Bool, true, false, not, ◌&&◌, ◌||◌, List, [], ◌∷◌, ◌++◌,
  ◌<◌, ◌==◌, arith, length, length-append, length-replicate, length-map, replicate, if◌then◌else◌,
}
use waldo.Base.Bytes.{codes, bytes_eq}
use waldo.Base.Results.{ok_injective, ok, reject_if, bind_ok}
use waldo.Record.{Conversation, is_blank, validate_conversation}
use waldo.Training.Capacity.{has_true}
use waldo.Training.Conversation.{
  Library, ConversationTransform, Rendered, Objective, is_causal, is_assistant, user_assistant_v1,
  chatml_v1, is_supervised, append_messages, messages_of, render, nothing_rendered, last_role,
  tokenize_conversation, validate_transform, all_true, tokenize_record, Content, undecoded, plain,
  structured, unsupported_template, tools_disabled, no_tokens, no_targets, not_structured, checked,
}
use waldo.Training.Conversation.Targets.{
  marked, marked-append, marked-replicate, marked_of, IsAligned, replies, HasTemplate,
  append_messages-IsGrown, replies-messages_of,
}

validate_transform-HasTemplate :
    (transform : ConversationTransform)
    → validate_transform transform ≡ ok tt
    → HasTemplate transform
unfolding validate_transform
validate_transform-HasTemplate transform h =
    let (d, e, _) =
      bind_ok
        (reject_if
          (not (bytes_eq transform.template user_assistant_v1)
            && not (bytes_eq transform.template chatml_v1))
          unsupported_template)
        _ h in
    ground (arith, e)

-- What a rendered conversation has: tokens, as many values in the mask, and the replies marked.
render_inv :
    (library : Library) (transform : ConversationTransform) (conversation : Conversation)
    (out : Rendered)
    → render library transform conversation ≡ ok out
    → (0 < length out.tokens)
      × IsAligned out
      × (marked_of out ≡ replies library transform (messages_of library conversation))
unfolding render
render_inv library transform conversation out h =
    let (d0, e0, h0) = bind_ok (validate_transform transform) _ h in
    let (d1, e1, h1) = bind_ok (checked (validate_conversation library.checks conversation)) _ h0 in
    let (d2, e2, h2) =
      bind_ok (reject_if (not (is_blank conversation.tools) && not transform.tools) tools_disabled)
        _ h1 in
    let all =
      append_messages library transform 0 (messages_of library conversation) nothing_rendered in
    let (d3, e3, h3) = bind_ok (reject_if (length all.tokens == 0) no_tokens) _ h2 in
    let (aligned, grown) =
      append_messages-IsGrown library transform (validate_transform-HasTemplate transform e0) 0
        (messages_of library conversation) nothing_rendered refl in
    rw (← ok_injective h3) (ground (arith, e3), aligned, grown)

-- The mask that `tokenizeRecord` makes of the rendered one.
abbrev finished_mask : Bool → Bool → List Bool → List Bool
finished_mask causal last mask = (if causal then all_true mask else mask) ++ (causal || last) ∷ []

length-finished_mask :
    (causal last : Bool) (mask : List Bool)
    → length (finished_mask causal last mask) ≡ length mask + 1
length-finished_mask true last mask =
    omega (arith, length-append (all_true mask) (true ∷ []), length-map mask (λ (b : Bool). true))
length-finished_mask false last mask = omega (arith, length-append mask (last ∷ []))

finished_mask_causal :
    (last : Bool) (mask : List Bool) (n : ℕ)
    → length mask ≡ n
    → finished_mask true last mask ≡ replicate (n + 1) true
finished_mask_causal last [] n h = ground (arith, h)
finished_mask_causal last (b ∷ mask) zero h = absurd (omega (arith, h))
finished_mask_causal last (b ∷ mask) (suc n) h =
    ap (λ ms. true ∷ ms) (finished_mask_causal last mask n (omega (arith, h))) ∙ ground arith

-- What `tokenizeRecord` returns has in the mask a value for each token and one for the EOS; for the
-- causal objective all of them are true, and for that of the assistant one is.
pub tokenize_record-IsMasked :
    (library : Library) (objective : Objective) (transform : ConversationTransform)
    (content : Content) (out : Rendered)
    → tokenize_record library objective transform content ≡ ok out
    → (length out.mask ≡ length out.tokens + 1)
      × (is_causal objective ≡ true → out.mask ≡ replicate (length out.tokens + 1) true)
      × (is_assistant objective ≡ true → has_true out.mask ≡ true)
unfolding tokenize_record tokenize_conversation
tokenize_record-IsMasked library objective transform undecoded out h = cc
tokenize_record-IsMasked library objective transform (plain value counted) out h =
    let (d, e, h0) = bind_ok (reject_if (is_assistant objective) not_structured) _ h in
    rw (← ok_injective h0) (
      length-replicate (length (library.encode value) + 1) true,
      λ causal. refl,
      λ assistant. absurd (ground (arith, e, assistant)),
    )
tokenize_record-IsMasked library objective transform (structured conversation) out h =
    let (shown, e0, h0) = bind_ok (render library transform conversation) _ h in
    let last = is_supervised transform (last_role conversation.messages) in
    let mask = finished_mask (is_causal objective) last shown.mask in
    let (d, e1, h1) =
      bind_ok (reject_if (is_assistant objective && not (has_true mask)) no_targets) _ h0 in
    let (some_tokens, aligned, _) = render_inv library transform conversation shown e0 in
    rw (← ok_injective h1) (
      omega (arith, length-finished_mask (is_causal objective) last shown.mask, aligned),
      λ causal.
          ap (λ c. finished_mask c last shown.mask) causal
          ∙ finished_mask_causal last shown.mask (length shown.tokens) aligned,
      λ assistant. ground (arith, e1, assistant),
    )

-- Where the objective is not causal and the role of the system is not supervised, the targets of a
-- conversation, its EOS included, are the contents of the messages of supervised roles, each with
-- the end mark in ChatML, in the order of the conversation, and the EOS if the last message has a
-- supervised role. Tools are no target.
pub tokenize_record-replies :
    (library : Library) (objective : Objective) (transform : ConversationTransform)
    (conversation : Conversation) (out : Rendered) (eos : ℕ)
    → tokenize_record library objective transform (structured conversation) ≡ ok out
    → is_causal objective ≡ false
    → is_supervised transform (codes "system") ≡ false
    → marked out.mask (out.tokens ++ eos ∷ [])
      ≡ replies library transform conversation.messages
        ++ (if is_supervised transform (last_role conversation.messages) then eos ∷ [] else [])
unfolding tokenize_record tokenize_conversation
tokenize_record-replies library objective transform conversation out eos h other silent =
    let (shown, e0, h0) = bind_ok (render library transform conversation) _ h in
    let last = is_supervised transform (last_role conversation.messages) in
    let mask = finished_mask (is_causal objective) last shown.mask in
    let (d, e1, h1) =
      bind_ok (reject_if (is_assistant objective && not (has_true mask)) no_targets) _ h0 in
    let (some_tokens, aligned, same) = render_inv library transform conversation shown e0 in
    rw (← ok_injective h1) (
      rw other (
        marked-append shown.mask shown.tokens (last ∷ []) (eos ∷ []) aligned
        ∙ ap (λ ts. ts ++ marked (last ∷ []) (eos ∷ []))
            (same ∙ replies-messages_of library transform conversation silent)
        ∙ ap (λ ts. replies library transform conversation.messages ++ ts)
            (marked-replicate (eos ∷ []) last)))
