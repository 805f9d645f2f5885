-- ===== src/Provider/Transport.antt =====
-- The net/http side of the clients of internal/provider: a request, the reply to it, and what a client
-- makes of the two. The encoding of a body is left out: a request holds the value that is encoded.
use weave_server.Prelude.{ℕ, String, Option, none, some, List}
use weave_server.Http.{Method}
use weave_server.Model.{Amount}
use weave_server.Provider.{CreateCustomerRequest}
use weave_server.Chat.Agent.{AgentMessage, Message}

-- paystack.TransferRequest
pub record TransferRequest : Type 0 where
  pub amount : Amount
  pub recipient : String
  pub reference : String
  pub reason : String

-- paystack.CreateRecipientRequest
pub record CreateRecipientRequest : Type 0 where
  pub type_ : String
  pub name : String
  pub account_number : String
  pub bank_code : String
  pub currency : String

-- mono.PaymentInitiateRequest, with all its fields
pub record PaymentRequest : Type 0 where
  pub amount : Amount
  pub type_ : String
  pub description : String
  pub reference : String
  pub redirect_url : String
  pub method : String
  pub customer_name : String
  pub customer_email : String

-- llm.agentChatRequest; a tool is its name, a temperature is in tenths
pub record AgentChatRequest : Type 0 where
  pub model : String
  pub messages : List AgentMessage
  pub tools : List String
  pub temperature : ℕ
  pub max_tokens : ℕ

-- llm.ChatRequest, of the messages by role and content; the tool that must be called, by its name
pub record ChatRequest : Type 0 where
  pub model : String
  pub messages : List Message
  pub tools : List String
  pub tool_choice : String
  pub temperature : ℕ
  pub max_tokens : ℕ

-- The value that `json.Marshal` encodes.
pub data Payload : Type 0 where
  no_body : Payload
  customer : CreateCustomerRequest → Payload
  dedicated_account : (customer preferred_bank : String) → Payload
  transfer : TransferRequest → Payload
  recipient : CreateRecipientRequest → Payload
  connect : (name email ref scope redirect_url : String) → Payload
  exchange : (code : String) → Payload
  payment : PaymentRequest → Payload
  agent_chat : AgentChatRequest → Payload
  chat : ChatRequest → Payload

pub record HttpRequest : Type 0 where
  pub method : Method
  pub url : String
  pub headers : List (String × String)
  pub body : Payload

-- A reply, with what could be read of its body.
pub record Reply : Type 0 where
  pub status_code : ℕ
  pub body : String

-- `httpClient.Do`: none where the request cannot be made or sent, or is not answered in time.
abbrev pub Transport : Type 0
Transport = HttpRequest → Option Reply

-- `json.Unmarshal` into a type; none is a body that cannot be read as one.
abbrev pub Reader : Type 0 → Type 0
Reader A = String → Option A

pub data ClientError : Type 0 where
  http_call no_choices : ClientError
  -- the body that was not understood
  decode : String → ClientError
  -- Paystack's message
  refused : String → ClientError
  -- a status code, and what is said of it
  api_error : ℕ → String → ClientError

-- What a client returns: a result or an error.
pub data Answer {ℓ} (A : Type ℓ) : Type ℓ where
  got : A → Answer A
  failed : ClientError → Answer A

-- The same, where only the caller's `err != nil` matters.
unfoldable pub value_of : {A B : Type 0} → (A → B) → Answer A → Option B
value_of f (got a) = some (f a)
value_of f (failed e) = none
