-- ===== src/Provider/Llm.antt =====
-- internal/provider/llm/client.go, and agentCall of internal/provider/llm/agent.go: the requests to a
-- language model, and what is made of its replies.
pub mod Replies
use Prim.Native.String.{◌++◌ as append, len, slice}
use weave_server.Prelude.{
  ℕ, zero, suc, ◌-◌, ◌==◌, String, Bool, Option, none, some, List, [], ◌∷◌, not, ◌&&◌, str_eq,
  if◌then◌else◌,
}
use weave_server.Prelude.Int.{ℤ, pos}
use weave_server.Http.{Method, post}
use weave_server.Provider.{Decimal}
use weave_server.Provider.Transport.{
  AgentChatRequest, ChatRequest, Payload, HttpRequest, Reply, Transport, Reader, Answer, got,
  failed, value_of,
}
use weave_server.Provider.Transport.ClientError.{http_call, decode, api_error, no_choices}
use weave_server.Chat.Agent.{AgentMessage, AgentToolCall, Message, Choice}

-- `Client`
pub record Client : Type 0 where
  pub api_key : String
  pub model : String
  pub base_url : String

-- `strings.TrimRight(s, "/")`: at most as many times as the text is long.
unfoldable pub trim_slashes : ℕ → String → String
trim_slashes zero s = s
trim_slashes (suc n) s =
    let rest = trim_slashes n (slice s 0 (len s - 1)) in
    if str_eq (slice s (len s - 1) (len s)) "/" then rest else s

abbrev or_default : String → String → String
or_default text default = if str_eq text "" then default else text

-- `NewClient`
unfoldable pub new_client : (api_key model base_url : String) → Client
new_client api_key model base_url =
    let url = or_default base_url "http://localhost:11434/v1" in
    record {
      api_key = api_key;
      model = or_default model "llama3.2";
      base_url = trim_slashes (len url) url;
    }

-- `Intent`: the word for what a user wants. Two of the words decide something.
abbrev pub Intent : Type 0
Intent = String

abbrev pub intent_send_money : Intent
intent_send_money = "send_money"

abbrev pub intent_unknown : Intent
intent_unknown = "unknown"

-- `ParsedIntent`; the confidence is in millionths
pub record ParsedIntent : Type 0 where
  pub intent : Intent
  pub amount : Decimal
  pub currency : String
  pub recipient_account : String
  pub recipient_bank : String
  pub recipient_name : String
  pub reference : String
  pub bank_identifier : String
  pub priority : ℤ
  pub confidence : Decimal
  pub raw : String

-- encoding/json on the body of a reply (its choices), and on the arguments of the tool, and
-- `strings.TrimSpace`.
pub record Json : Type 0 where
  pub choices : Reader (List Choice)
  pub intent : Reader ParsedIntent
  pub trim : String → String

-- The POST to /chat/completions; without a key there is no Authorization.
unfoldable pub completion_request : Client → Payload → HttpRequest
completion_request c body = record {
  method = post;
  url = append c.base_url "/chat/completions";
  headers =
      if str_eq c.api_key ""
      then ("Content-Type", "application/json") ∷ []
      else ("Content-Type", "application/json")
        ∷ ("Authorization", append "Bearer " c.api_key)
        ∷ [];
  body = body;
}

abbrev pub or_decode : {A : Type 0} → (body : String) → Option A → Answer A
or_decode body none = failed (decode body)
or_decode body (some result) = got result

-- The reply, which must have the status 200.
unfoldable pub completion : Reader (List Choice) → Option Reply → Answer (List Choice)
completion reads none = failed http_call
completion reads (some reply) =
    if reply.status_code == 200
    then or_decode reply.body (reads reply.body)
    else failed (api_error reply.status_code reply.body)

-- `agentCall`
unfoldable pub agent_call :
    Json → Transport → Client → List AgentMessage → (tools : List String) → Answer (List Choice)
agent_call json send c msgs tools = completion json.choices (
    send (
      completion_request c (
        Payload.agent_chat (record {
          model = c.model;
          messages = msgs;
          tools = tools;
          temperature = 2;
          max_tokens = 600;
        }))))

-- The model as the loop of the agent asks it, by how many calls came before.
unfoldable pub ask_over :
    Json
    → (ℕ → Transport)
    → Client
    → (tools : List String) → ℕ
    → List AgentMessage
    → Option (List Choice)
ask_over json send c tools n msgs =
    value_of (λ choices. choices) (agent_call json (send n) c msgs tools)

-- The prompt, with the state that the caller knows.
abbrev system_text : (prompt system_context : String) → String
system_text prompt system_context =
    if str_eq system_context ""
    then prompt
    else append prompt (append "\n\nCurrent state:\n" system_context)

abbrev pub unknown_intent : (raw : String) → ParsedIntent
unknown_intent raw = record {
  intent = intent_unknown;
  amount = pos 0;
  currency = "";
  recipient_account = "";
  recipient_bank = "";
  recipient_name = "";
  reference = "";
  bank_identifier = "";
  priority = pos 0;
  confidence = pos 0;
  raw = raw;
}

abbrev pub is_zero : Decimal → Bool
is_zero (pos n) = n == 0
is_zero (ℤ.negsuc n) = Bool.false

-- What is filled in, where the model left it out.
unfoldable pub with_defaults : (raw : String) → ParsedIntent → ParsedIntent
with_defaults raw p = record p {
  raw = or_default p.raw raw;
  confidence = if is_zero p.confidence then pos 900000 else p.confidence;
  currency =
      if str_eq p.currency "" && str_eq p.intent intent_send_money then "NGN" else p.currency;
}

abbrev pub filled : (raw arguments : String) → Option ParsedIntent → Answer ParsedIntent
filled raw arguments none = failed (decode arguments)
filled raw arguments (some p) = got (with_defaults raw p)

module _ (json : Json) where
  -- The first call of a tool, which must be that of the one tool that was offered.
  unfoldable pub intent_of : (raw : String) → List AgentToolCall → Answer ParsedIntent
  intent_of raw [] = got (unknown_intent raw)
  intent_of raw (tc ∷ others) =
      if not (str_eq tc.name "parse_transfer_intent")
      then got (unknown_intent raw)
      else filled raw tc.arguments (json.intent tc.arguments)

  unfoldable pub first_intent : Answer (List Choice) → Answer ParsedIntent
  first_intent (failed e) = failed e
  first_intent (got []) = failed no_choices
  first_intent (got (choice ∷ others)) = intent_of (json.trim choice.content) choice.tool_calls

-- `ParseIntentWithContext`, with the text of its prompt
unfoldable pub parse_intent_with_context :
    Json
    → Transport
    → Client
    → (prompt : String) → (history : List Message) → (system_context : String) → Answer ParsedIntent
parse_intent_with_context json send c prompt history system_context = first_intent json (
    completion json.choices (
      send (
        completion_request c (
          Payload.chat (record {
            model = c.model;
            messages =
                record { role = "system"; content = system_text prompt system_context } ∷ history;
            tools = "parse_transfer_intent" ∷ [];
            tool_choice = "parse_transfer_intent";
            temperature = 1;
            max_tokens = 300;
          })))))

-- `ParseIntent`
unfoldable pub parse_intent :
    Json → Transport → Client → (prompt message : String) → Answer ParsedIntent
parse_intent json send c prompt message =
    parse_intent_with_context json send c prompt (record { role = "user"; content = message } ∷ [])
      ""
