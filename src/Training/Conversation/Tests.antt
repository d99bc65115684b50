-- ===== src/Training/Conversation/Tests.antt =====
-- Small conversations, with a codec that gives a part one token, its length, and the theorems at
-- them.
use waldo.Base.{
  ◌+◌, ◌≡◌, refl, true, false, none, [], ◌∷◌, ◌++◌, List, length, replicate, if◌then◌else◌,
}
use waldo.Base.Bytes.{Bytes, codes, bytes_eq}
use waldo.Base.Results.{ok, err}
use waldo.Record.{
  Message, Conversation, no_exchange, bad_content, unsupported_role, check_message, check_messages,
}
use waldo.Training.Capacity.{has_true, masked, text, failed}
use waldo.Training.Conversation.{
  Library, ConversationTransform, Rendered, causal_language_modeling, assistant_response_modeling,
  is_causal, is_assistant, structured, plain, user_assistant_v1, chatml_v1, validate_transform,
  add_tool_message, messages_of, append_message, render, last_role, tokenize_record, demand_of,
  is_supervised, unsupported_template, invalid_role, tools_need_assistant, tools_disabled,
  no_targets, invalid_conversation,
}
use waldo.Training.Conversation.Targets.{marked, replies}
use waldo.Training.Conversation.Masked.{tokenize_record-IsMasked, tokenize_record-replies}

abbrev pub library : Library
library = record {
  checks = record { valid_string = λ _. true; valid_json = λ _. true };
  encode = λ value. length value ∷ [];
  count = λ _. 1;
  unmarshal_string = λ _. none;
  to_upper = λ letters. letters;
}

abbrev assistant : List Bytes
assistant = codes "assistant" ∷ []

abbrev pub chatml : ConversationTransform
chatml = record { template = chatml_v1; supervised_roles = assistant; tools = true }

abbrev question : Message
question = record { role = codes "user"; content = codes "hi"; context = codes "now" }

abbrev answer : Message
answer = record { role = codes "assistant"; content = codes "yes"; context = [] }

abbrev pub exchange : Conversation
exchange = record { messages = question ∷ answer ∷ []; tools = [] }

abbrev pub shown : Rendered
shown = record {
  tokens = 17 ∷ 7 ∷ 11 ∷ 22 ∷ 3 ∷ 11 ∷ [];
  mask = false ∷ false ∷ false ∷ false ∷ true ∷ true ∷ true ∷ [];
}

pub exchange_tokenized :
    tokenize_record library assistant_response_modeling chatml (structured exchange) ≡ ok shown
unfolding tokenize_record bytes_eq check_messages check_message append_message
exchange_tokenized = refl

exchange_demand :
    demand_of library assistant_response_modeling chatml (structured exchange) ≡ masked 6 shown.mask
unfolding demand_of bytes_eq check_messages check_message append_message
exchange_demand = refl

text_demand : demand_of library causal_language_modeling chatml (plain (codes "text") none) ≡ text 1
unfolding demand_of
text_demand = refl

error_demand : demand_of library assistant_response_modeling chatml (plain [] none) ≡ failed
unfolding demand_of
error_demand = refl

-- The tools come first, where there is no message of the system, or behind its content.
tools_first :
    messages_of library (record exchange { tools = codes "[]" })
    ≡ (record { role = codes "system"; content = codes "Available tools:\n[]"; context = [] })
      ∷ question
      ∷ answer
      ∷ []
unfolding messages_of bytes_eq
tools_first = refl

tools_appended :
    add_tool_message
      (codes "tools")
      (record { role = codes "system"; content = codes "be\n\n"; context = [] } ∷ [])
    ≡ (record { role = codes "system"; content = codes "be\n\ntools"; context = [] }) ∷ []
unfolding add_tool_message bytes_eq
tools_appended = refl

-- `User: ` and `Assistant:`, with a blank line between the messages.
user_assistant_shown :
    render library (record chatml { template = user_assistant_v1 }) exchange
    ≡ ok (record {
      tokens = 6 ∷ 7 ∷ 2 ∷ 10 ∷ 3 ∷ [];
      mask = false ∷ false ∷ false ∷ false ∷ true ∷ [];
    })
unfolding render bytes_eq check_messages check_message append_message
user_assistant_shown = refl

bad_template :
    render library (record chatml { template = codes "chatml-v2" }) exchange
    ≡ err unsupported_template
unfolding render bytes_eq
bad_template = refl

twice :
    validate_transform (record chatml { supervised_roles = codes "user" ∷ codes "user" ∷ [] })
    ≡ err (invalid_role (codes "user"))
unfolding validate_transform bytes_eq
twice = refl

tools_unanswered :
    validate_transform (record chatml { supervised_roles = codes "user" ∷ [] })
    ≡ err tools_need_assistant
unfolding validate_transform bytes_eq
tools_unanswered = refl

tools_unexpected :
    render library (record chatml { tools = false }) (record exchange { tools = codes "[]" })
    ≡ err tools_disabled
unfolding render bytes_eq check_messages check_message
tools_unexpected = refl

no_answer :
    render library chatml (record exchange { messages = question ∷ [] })
    ≡ err (invalid_conversation no_exchange)
unfolding render bytes_eq check_messages check_message
no_answer = refl

tool_unanswered :
    tokenize_record library assistant_response_modeling
      (record chatml { supervised_roles = codes "tool" ∷ []; tools = false })
      (structured exchange)
    ≡ err no_targets
unfolding tokenize_record bytes_eq check_messages check_message append_message
tool_unanswered = refl

nothing_said : check_message library.checks 3 (record answer { content = [] }) ≡ err (bad_content 4)
unfolding check_message bytes_eq
nothing_said = refl

who_said : check_message library.checks 0 (record answer { role = [] }) ≡ err (unsupported_role 1)
unfolding check_message bytes_eq
who_said = refl

tokenize_record-IsMasked_example :
    (length shown.mask ≡ length shown.tokens + 1)
    × (is_causal assistant_response_modeling ≡ true
        → shown.mask ≡ replicate (length shown.tokens + 1) true)
    × (is_assistant assistant_response_modeling ≡ true → has_true shown.mask ≡ true)
tokenize_record-IsMasked_example =
    tokenize_record-IsMasked library assistant_response_modeling chatml (structured exchange) shown
      exchange_tokenized

tokenize_record-replies_example :
    marked shown.mask (shown.tokens ++ 0 ∷ [])
    ≡ replies library chatml (question ∷ answer ∷ [])
      ++ (if is_supervised chatml (last_role (question ∷ answer ∷ [])) then 0 ∷ [] else [])
unfolding bytes_eq
tokenize_record-replies_example =
    tokenize_record-replies library assistant_response_modeling chatml exchange shown 0
      exchange_tokenized refl refl
