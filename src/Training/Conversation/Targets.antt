-- ===== src/Training/Conversation/Targets.antt =====
-- The targets of a conversation that `tokenizeRecord` of internal/training/conversation.go marks.
use waldo.Base.{
  ℕ, ◌+◌, ◌≡◌, refl, sym, ap, ◌∙◌, Bool, true, false, ◌||◌, List, [], ◌∷◌, ◌++◌, append-nil,
  append_assoc, arith, length, length-append, length-replicate, replicate, ltb, if◌then◌else◌,
  Bool-cases, inl, inr,
}
use waldo.Base.Bytes.{Bytes, codes, bytes_eq, bytes_eq_sound}
use waldo.Record.{Message, Conversation, is_blank}
use waldo.Training.Conversation.{
  Library, ConversationTransform, Rendered, user_assistant_v1, chatml_v1, is_supervised, content_of,
  marker_of, append_part, append_user_assistant, append_chatml, append_message, append_messages,
  add_tool_message, messages_of,
}

-- The values at the places that the mask marks.
abbrev pub marked : List Bool → List ℕ → List ℕ
marked [] tokens = []
marked (b ∷ mask) [] = []
marked (true ∷ mask) (t ∷ tokens) = t ∷ marked mask tokens
marked (false ∷ mask) (t ∷ tokens) = marked mask tokens

pub marked-append :
    (xs : List Bool) (ts : List ℕ) (ys : List Bool) (us : List ℕ)
    → length xs ≡ length ts
    → marked (xs ++ ys) (ts ++ us) ≡ marked xs ts ++ marked ys us
marked-append [] [] ys us h = refl
marked-append [] (t ∷ ts) ys us h = absurd (omega (arith, h))
marked-append (x ∷ xs) [] ys us h = absurd (omega (arith, h))
marked-append (true ∷ xs) (t ∷ ts) ys us h = rw (marked-append xs ts ys us (omega (arith, h))) refl
marked-append (false ∷ xs) (t ∷ ts) ys us h = marked-append xs ts ys us (omega (arith, h))

pub marked-replicate :
    (ts : List ℕ) (b : Bool) → marked (replicate (length ts) b) ts ≡ (if b then ts else [])
marked-replicate [] true = refl
marked-replicate [] false = refl
marked-replicate (t ∷ ts) true = rw (marked-replicate ts true) refl
marked-replicate (t ∷ ts) false = marked-replicate ts false

abbrev pub marked_of : Rendered → List ℕ
marked_of out = marked out.mask out.tokens

-- The mask has a value for each token.
abbrev pub IsAligned : Rendered → Type 0
IsAligned out = length out.mask ≡ length out.tokens

-- What a model is asked for where a message is supervised: its content, and the end mark of ChatML.
abbrev pub reply : Library → ConversationTransform → Message → List ℕ
reply library transform message =
    library.encode (content_of message)
    ++ (if bytes_eq transform.template user_assistant_v1
        then []
        else library.encode (codes "<|im_end|>\n"))

-- The replies of the supervised messages, in order.
abbrev pub replies : Library → ConversationTransform → List Message → List ℕ
replies library transform [] = []
replies library transform (message ∷ messages) =
    (if is_supervised transform message.role then reply library transform message else [])
    ++ replies library transform messages

module _ (library : Library) where
  append_part-IsAligned :
      (value : Bytes) (b : Bool) (out : Rendered)
      → IsAligned out
      → IsAligned (append_part library value b out)
  unfolding append_part
  append_part-IsAligned value b out h = omega (
    arith,
    h,
    length-append out.mask (replicate (length (library.encode value)) b),
    length-append out.tokens (library.encode value),
    length-replicate (length (library.encode value)) b,
  )

  append_part-marked :
      (value : Bytes) (b : Bool) (out : Rendered)
      → IsAligned out
      → marked_of (append_part library value b out)
        ≡ marked_of out ++ (if b then library.encode value else [])
  unfolding append_part
  append_part-marked value b out h =
      marked-append out.mask out.tokens _ _ h
      ∙ ap (λ ts. marked_of out ++ ts) (marked-replicate (library.encode value) b)

  -- What a step adds to the marked tokens.
  abbrev pub IsGrown : List ℕ → Rendered → Rendered → Type 0
  IsGrown more out next = IsAligned next × (marked_of next ≡ marked_of out ++ more)

  append_part-IsGrown :
      (value : Bytes) (b : Bool) (out : Rendered)
      → IsAligned out
      → IsGrown (if b then library.encode value else []) out (append_part library value b out)
  append_part-IsGrown value b out h =
      (append_part-IsAligned value b out h, append_part-marked value b out h)

  append_part-false :
      (value : Bytes) (out : Rendered)
      → IsAligned out
      → IsAligned (append_part library value false out)
        × (marked_of (append_part library value false out) ≡ marked_of out)
  append_part-false value out h =
      let (aligned, same) = append_part-IsGrown value false out h in
      (aligned, same ∙ append-nil (marked_of out))

  append_user_assistant-IsGrown :
      (b : Bool) (position : ℕ) (message : Message) (out : Rendered)
      → IsAligned out
      → IsGrown
          (if b then library.encode (content_of message) else [])
          out
          (append_user_assistant library b position message out)
  unfolding append_user_assistant
  append_user_assistant-IsGrown b position message out h = elim (Bool-cases (ltb 0 position)) [
    | inl e ↦
        let (h1, e1) = append_part-false (codes "\n\n") out h in
        let (h2, e2) = append_part-false (marker_of library message.role) _ h1 in
        let (h3, e3) = append_part-IsGrown (content_of message) b _ h2 in
        rw e (
          h3,
          e3 ∙ ap (λ ts. ts ++ (if b then library.encode (content_of message) else [])) (e2 ∙ e1),
        )
    | inr e ↦
        let (h2, e2) = append_part-false (marker_of library message.role) out h in
        let (h3, e3) = append_part-IsGrown (content_of message) b _ h2 in
        rw e (h3, e3 ∙ ap (λ ts. ts ++ (if b then library.encode (content_of message) else [])) e2)
  ]

  append_chatml-IsGrown :
      (b : Bool) (message : Message) (out : Rendered)
      → IsAligned out
      → IsGrown
          (if b
            then library.encode (content_of message) ++ library.encode (codes "<|im_end|>\n")
            else [])
          out
          (append_chatml library b message out)
  unfolding append_chatml
  append_chatml-IsGrown true message out h =
      let (h1, e1) =
        append_part-false (codes "<|im_start|>" ++ (message.role ++ codes "\n")) out h in
      let (h2, e2) = append_part-IsGrown (content_of message) true _ h1 in
      let (h3, e3) = append_part-IsGrown (codes "<|im_end|>\n") true _ h2 in
      (
        h3,
        e3
            ∙ ap (λ ts. ts ++ library.encode (codes "<|im_end|>\n"))
                (e2 ∙ ap (λ ts. ts ++ library.encode (content_of message)) e1)
            ∙ append_assoc (marked_of out) (library.encode (content_of message)) _,
      )
  append_chatml-IsGrown false message out h =
      let (h1, e1) =
        append_part-false (codes "<|im_start|>" ++ (message.role ++ codes "\n")) out h in
      let (h2, e2) = append_part-false (content_of message) _ h1 in
      let (h3, e3) = append_part-false (codes "<|im_end|>\n") _ h2 in
      (h3, e3 ∙ e2 ∙ e1 ∙ sym (append-nil (marked_of out)))

-- The template is one of the two that `Validate` lets pass.
abbrev pub HasTemplate : ConversationTransform → Type 0
HasTemplate transform =
    (bytes_eq transform.template user_assistant_v1 || bytes_eq transform.template chatml_v1) ≡ true

module _ (library : Library) (transform : ConversationTransform)
    (known : HasTemplate transform) where
  append_message-IsGrown :
      (position : ℕ) (message : Message) (out : Rendered)
      → IsAligned out
      → IsGrown library
          (if is_supervised transform message.role then reply library transform message else [])
          out
          (append_message library transform position message out)
  unfolding append_message
  append_message-IsGrown position message out h =
      let b = is_supervised transform message.role in
      elim (Bool-cases (bytes_eq transform.template user_assistant_v1)) [
        | inl e ↦
            rw (e, append-nil (library.encode (content_of message)))
              (append_user_assistant-IsGrown library b position message out h)
        | inr e ↦
            let chatml : bytes_eq transform.template chatml_v1 ≡ true = ground (arith, e, known) in
            rw (e, chatml) (append_chatml-IsGrown library b message out h)
      ]

  pub append_messages-IsGrown :
      (position : ℕ) (messages : List Message) (out : Rendered)
      → IsAligned out
      → IsGrown library
          (replies library transform messages)
          out
          (append_messages library transform position messages out)
  unfolding append_messages
  append_messages-IsGrown position [] out h = (h, sym (append-nil (marked_of out)))
  append_messages-IsGrown position (message ∷ messages) out h =
      let (h1, e1) = append_message-IsGrown position message out h in
      let (h2, e2) = append_messages-IsGrown (position + 1) messages _ h1 in
      (
        h2,
        e2
            ∙ ap (λ ts. ts ++ replies library transform messages) e1
            ∙ append_assoc (marked_of out)
                (if is_supervised transform message.role
                  then reply library transform message
                  else [])
                (replies library transform messages),
      )

module _ (library : Library) (transform : ConversationTransform) where
  -- The tools are told to the model as a message of the system.
  replies-add_tool_message :
      (added : Bytes) (messages : List Message)
      → is_supervised transform (codes "system") ≡ false
      → replies library transform (add_tool_message added messages)
        ≡ replies library transform messages
  unfolding add_tool_message
  replies-add_tool_message added [] silent = rw silent refl
  replies-add_tool_message added (message ∷ messages) silent =
      elim (Bool-cases (bytes_eq message.role (codes "system"))) [
        | inl e ↦
            let quiet : is_supervised transform message.role ≡ false =
              ap (is_supervised transform) (bytes_eq_sound message.role (codes "system") e)
              ∙ silent in
            rw (e, quiet) refl
        | inr e ↦ rw (e, silent) refl
      ]

  pub replies-messages_of :
      (conversation : Conversation)
      → is_supervised transform (codes "system") ≡ false
      → replies library transform (messages_of library conversation)
        ≡ replies library transform conversation.messages
  unfolding messages_of
  replies-messages_of conversation silent = elim (Bool-cases (is_blank conversation.tools)) [
    | inl e ↦ rw e refl
    | inr e ↦ rw e (replies-add_tool_message _ conversation.messages silent)
  ]
