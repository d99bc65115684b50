-- ===== src/Training/Conversation.antt =====
-- internal/training/conversation.go: the tokens of a conversation and which of them are targets.
pub mod Targets
pub mod Masked
pub mod Tests
use waldo.Base.{
  ℕ, zero, suc, ◌+◌, ◌≡◌, Bool, true, false, not, ◌&&◌, ◌||◌, Option, none, some, List, [], ◌∷◌,
  ◌++◌, map, length, replicate, ltb, ◌==◌, if◌then◌else◌, take, drop,
}
use waldo.Base.Bytes.{Bytes, codes, bytes_eq}
use waldo.Base.Strings.{trim_right}
use waldo.Base.Results.{Result, ok, err, ◌>>=◌, ◌>>◌, reject_if}
use waldo.Record.{
  Message, Conversation, ConversationError, Checks, roles, is_among, is_blank,
  validate_conversation,
}
use waldo.Training.Capacity.{has_true, Demand, masked, text, failed}

-- `user-assistant-v1` and `chatml-v1`
abbrev pub user_assistant_v1 : Bytes
user_assistant_v1 = codes "user-assistant-v1"

abbrev pub chatml_v1 : Bytes
chatml_v1 = codes "chatml-v1"

pub record ConversationTransform : Type 0 where
  pub template : Bytes
  pub supervised_roles : List Bytes
  pub tools : Bool

pub data RenderError : Type 0 where
  unsupported_template : RenderError
  supervised_roles_required : RenderError
  invalid_role : Bytes → RenderError
  tools_need_assistant : RenderError
  invalid_conversation : ConversationError → RenderError
  tools_disabled : RenderError
  no_tokens : RenderError
  undecodable : RenderError
  no_targets : RenderError
  not_structured : RenderError

-- The codec of a run, and what the code uses of Go's encoding/json, strings and utf8:
-- `unmarshal_string` is `json.Unmarshal` into a string, none where it fails.
pub record Library : Type 0 where
  pub checks : Checks
  pub encode : Bytes → List ℕ
  pub count : Bytes → ℕ
  pub unmarshal_string : Bytes → Option Bytes
  pub to_upper : Bytes → Bytes

-- The loop over the supervised roles, with those seen.
pub check_roles : List Bytes → List Bytes → Result RenderError (List Bytes)
check_roles seen [] = ok seen
check_roles seen (role ∷ supervised_roles) = do
  reject_if (not (is_among roles role) || is_among seen role) (invalid_role role)
  check_roles (role ∷ seen) supervised_roles

-- `ConversationTransform.Validate`
pub validate_transform : ConversationTransform → Result RenderError (Unit {0})
unfolding check_roles
validate_transform transform = do
  reject_if
      (not (bytes_eq transform.template user_assistant_v1)
        && not (bytes_eq transform.template chatml_v1))
      unsupported_template
  reject_if (length transform.supervised_roles == 0) supervised_roles_required
  seen ← check_roles [] transform.supervised_roles
  reject_if (transform.tools && not (is_among seen (codes "assistant"))) tools_need_assistant

-- `supervised`
abbrev pub is_supervised : ConversationTransform → Bytes → Bool
is_supervised transform role = is_among transform.supervised_roles role

-- The text that tells of the tools: the string that the JSON is, or the JSON.
pub tool_message : Library → Bytes → Bytes
tool_message library tools =
    codes "Available tools:\n"
    ++ elim (library.unmarshal_string tools) [ none ↦ tools | some decoded ↦ decoded ]

-- It joins the first message of the system, or is a message before all others.
pub add_tool_message : Bytes → List Message → List Message
unfolding trim_right
add_tool_message added [] = record { role = codes "system"; content = added; context = [] } ∷ []
add_tool_message added (message ∷ messages) =
    if bytes_eq message.role (codes "system")
    then record message {
      content = trim_right message.content (codes "\n") ++ (codes "\n\n" ++ added);
    }
      ∷ messages
    else record { role = codes "system"; content = added; context = [] } ∷ message ∷ messages

pub messages_of : Library → Conversation → List Message
unfolding is_blank tool_message add_tool_message
messages_of library conversation =
    if is_blank conversation.tools
    then conversation.messages
    else add_tool_message (tool_message library conversation.tools) conversation.messages

pub record Rendered : Type 0 where
  pub tokens : List ℕ
  pub mask : List Bool

-- `appendPart`
pub append_part : Library → Bytes → Bool → Rendered → Rendered
append_part library value supervised out = record {
  tokens = out.tokens ++ library.encode value;
  mask = out.mask ++ replicate (length (library.encode value)) supervised;
}

-- The content of a message, with its context.
pub content_of : Message → Bytes
unfolding is_blank
content_of message =
    if is_blank message.context
    then message.content
    else message.content ++ (codes "\n\n" ++ message.context)

-- `strings.ToUpper(message.Role[:1]) + message.Role[1:] + ":"`, and a blank for others than the
-- assistant.
pub marker_of : Library → Bytes → Bytes
marker_of library role =
    library.to_upper (take 1 role)
    ++ (drop 1 role ++ (if not (bytes_eq role (codes "assistant")) then codes ": " else codes ":"))

-- The two cases of the loop over the messages.
pub append_user_assistant : Library → Bool → ℕ → Message → Rendered → Rendered
unfolding append_part content_of marker_of
append_user_assistant library supervised position message out =
    let separated : Rendered =
      if ltb 0 position then append_part library (codes "\n\n") false out else out in
    append_part library (content_of message) supervised
      (append_part library (marker_of library message.role) false separated)

pub append_chatml : Library → Bool → Message → Rendered → Rendered
unfolding append_part content_of
append_chatml library supervised message out =
    append_part library (codes "<|im_end|>\n") supervised (
      append_part library (content_of message) supervised
        (append_part library (codes "<|im_start|>" ++ (message.role ++ codes "\n")) false out))

-- One round of the loop; no template but the two passes `Validate`.
unfoldable pub append_message : Library → ConversationTransform → ℕ → Message → Rendered → Rendered
unfolding append_user_assistant append_chatml
append_message library transform position message out =
    let supervised = is_supervised transform message.role in
    if bytes_eq transform.template user_assistant_v1
    then append_user_assistant library supervised position message out
    else if bytes_eq transform.template chatml_v1
    then append_chatml library supervised message out
    else out

pub append_messages : Library → ConversationTransform → ℕ → List Message → Rendered → Rendered
append_messages library transform position [] out = out
append_messages library transform position (message ∷ messages) out =
    append_messages library transform (position + 1) messages
      (append_message library transform position message out)

pub checked : Result ConversationError (Unit {0}) → Result RenderError (Unit {0})
checked (err e) = err (invalid_conversation e)
checked (ok done) = ok done

abbrev pub nothing_rendered : Rendered
nothing_rendered = record { tokens = []; mask = [] }

-- `render`
pub render : Library → ConversationTransform → Conversation → Result RenderError Rendered
unfolding checked validate_conversation validate_transform messages_of append_messages is_blank
render library transform conversation = do
  validate_transform transform
  checked (validate_conversation library.checks conversation)
  reject_if (not (is_blank conversation.tools) && not transform.tools) tools_disabled
  let out = append_messages library transform 0 (messages_of library conversation) nothing_rendered
  reject_if (length out.tokens == 0) no_tokens
  ok out

-- A record: its text with the count of its tokens where that was made before, a conversation, or
-- the error met when it was decoded.
pub data Content : Type 0 where
  undecoded : Content
  structured : Conversation → Content
  plain : Bytes → Option ℕ → Content

-- The objectives of a stage.
pub data Objective : Type 0 where
  causal_language_modeling : Objective
  assistant_response_modeling : Objective
  other_objective : Objective

abbrev pub is_causal : Objective → Bool
is_causal causal_language_modeling = true
is_causal assistant_response_modeling = false
is_causal other_objective = false

abbrev pub is_assistant : Objective → Bool
is_assistant causal_language_modeling = false
is_assistant assistant_response_modeling = true
is_assistant other_objective = false

-- The role of the last message; the code indexes the messages, of which a valid conversation has
-- one or more.
pub last_role : List Message → Bytes
last_role [] = []
last_role (message ∷ []) = message.role
last_role (message ∷ next ∷ messages) = last_role (next ∷ messages)

abbrev pub all_true : List Bool → List Bool
all_true mask = map (λ supervised. true) mask

-- `tokenizeRecord` of a conversation: the mask gets the value of the EOS behind the tokens.
pub tokenize_conversation :
    Library → Objective → ConversationTransform → Conversation → Result RenderError Rendered
unfolding render last_role
tokenize_conversation library objective transform conversation = do
  out ← render library transform conversation
  let last = is_causal objective || is_supervised transform (last_role conversation.messages)
  let mask = (if is_causal objective then all_true out.mask else out.mask) ++ last ∷ []
  reject_if (is_assistant objective && not (has_true mask)) no_targets
  ok (record { tokens = out.tokens; mask = mask })

-- `tokenizeRecord`
unfoldable pub tokenize_record :
    Library → Objective → ConversationTransform → Content → Result RenderError Rendered
unfolding tokenize_conversation
tokenize_record library objective transform undecoded = err undecodable
tokenize_record library objective transform (structured conversation) =
    tokenize_conversation library objective transform conversation
tokenize_record library objective transform (plain value counted) = do
  reject_if (is_assistant objective) not_structured
  ok (record {
    tokens = library.encode value;
    mask = replicate (length (library.encode value) + 1) true;
  })

-- What `addRecordCapacity` does with what `tokenizeRecord` returns.
unfoldable pub demand_from : Result RenderError Rendered → Demand
demand_from (err e) = failed
demand_from (ok out) = masked (length out.tokens) out.mask

-- `addRecordCapacity`, up to the calls of the packer.
unfoldable pub demand_of : Library → Objective → ConversationTransform → Content → Demand
unfolding demand_from tokenize_record
demand_of library objective transform undecoded = failed
demand_of library objective transform (structured conversation) =
    demand_from (tokenize_record library objective transform (structured conversation))
demand_of library objective transform (plain value counted) =
    if is_causal objective
    then text (elim counted [ none ↦ library.count value | some n ↦ n ])
    else demand_from (tokenize_record library objective transform (plain value counted))
