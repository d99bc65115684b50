-- ===== src/Record.antt =====
-- internal/record/record.go: conversations of schema 1.
use waldo.Base.{ℕ, ◌+◌, Bool, true, false, not, ◌&&◌, ◌||◌, List, [], ◌∷◌, any}
use waldo.Base.Bytes.{Bytes, codes, bytes_eq}
use waldo.Base.Results.{Result, ok, ◌>>=◌, ◌>>◌, reject_if}

pub record Message : Type 0 where
  pub role : Bytes
  pub content : Bytes
  pub context : Bytes

-- The raw JSON of the tools is empty where there is none.
pub record Conversation : Type 0 where
  pub messages : List Message
  pub tools : Bytes

pub data ConversationError : Type 0 where
  messages_required : ConversationError
  unsupported_role : ℕ → ConversationError
  bad_content : ℕ → ConversationError
  bad_context : ℕ → ConversationError
  no_exchange : ConversationError
  bad_tools : ConversationError

-- `utf8.ValidString` and `json.Valid`.
pub record Checks : Type 0 where
  pub valid_string : Bytes → Bool
  pub valid_json : Bytes → Bool

-- `len(text) == 0`
unfoldable pub is_blank : Bytes → Bool
is_blank [] = true
is_blank (b ∷ text) = false

-- The roles that a message can have.
abbrev pub roles : List Bytes
roles = codes "system" ∷ codes "user" ∷ codes "assistant" ∷ codes "tool" ∷ []

abbrev pub is_among : List Bytes → Bytes → Bool
is_among names name = any (λ candidate. bytes_eq candidate name) names

-- The tests of one message.
unfoldable pub check_message : Checks → ℕ → Message → Result ConversationError (Unit {0})
unfolding is_blank
check_message checks position message = do
  reject_if (not (is_among roles message.role)) (unsupported_role (position + 1))
  reject_if (is_blank message.content || not (checks.valid_string message.content))
      (bad_content (position + 1))
  reject_if (not (checks.valid_string message.context)) (bad_context (position + 1))

-- The loop over the messages, with whether a user and an assistant were seen.
unfoldable pub check_messages :
    Checks → ℕ → List Message → Bool → Bool → Result ConversationError (Bool × Bool)
check_messages checks position [] has_user has_assistant = ok (has_user, has_assistant)
check_messages checks position (message ∷ messages) has_user has_assistant = do
  check_message checks position message
  check_messages checks (position + 1) messages (has_user || bytes_eq message.role (codes "user"))
      (has_assistant || bytes_eq message.role (codes "assistant"))

abbrev pub has_none : List Message → Bool
has_none [] = true
has_none (message ∷ messages) = false

-- `Conversation.Validate`
unfoldable pub validate_conversation : Checks → Conversation → Result ConversationError (Unit {0})
unfolding is_blank
validate_conversation checks conversation = do
  reject_if (has_none conversation.messages) messages_required
  seen ← check_messages checks 0 conversation.messages false false
  reject_if (not seen.0 || not seen.1) no_exchange
  reject_if (not (is_blank conversation.tools) && not (checks.valid_json conversation.tools))
      bad_tools
