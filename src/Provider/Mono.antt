-- ===== src/Provider/Mono.antt =====
-- internal/provider/mono/client.go: the requests to Mono, and what is made of its replies.
pub mod Replies
use Prim.Native.String.{◌++◌ as append}
use weave_server.Prelude.{
  ℕ, String, Bool, Option, none, some, List, [], ◌∷◌, str_eq, leb, if◌then◌else◌,
}
use weave_server.Http.{Method, get, post}
use weave_server.Provider.{Decimal}
use weave_server.Provider.Transport.{
  PaymentRequest, Payload, HttpRequest, Reply, Transport, Reader, Answer, got, failed,
}
use weave_server.Provider.Transport.ClientError.{http_call, decode, api_error}

-- `Client`
pub record Client : Type 0 where
  pub secret_key : String

-- A response: its `status`, a word that no method reads, its message, and the field `data`.
pub record Envelope {ℓ} (A : Type ℓ) : Type ℓ where
  pub status : String
  pub message : String
  pub content : A

-- The `data` of ConnectResponse, ExchangeResponse, CustomerAccountsResponse, AccountResponse,
-- BalanceResponse and PaymentInitiateResponse.
pub record ConnectData : Type 0 where
  pub mono_url : String
  pub customer : String
  pub ref : String

pub record ExchangeData : Type 0 where
  pub id : String

pub record CustomerAccount : Type 0 where
  pub bvn : String
  pub account_number : String
  pub auth_method : String
  pub bank : String
  pub account_name : String
  pub type_ : String
  pub currency : String
  pub balance : Decimal
  pub status : String

pub record AccountData : Type 0 where
  pub id : String
  pub account_number : String
  pub account_name : String
  pub bank_name : String
  pub bank_code : String
  pub balance : Decimal
  pub currency : String

pub record BalanceData : Type 0 where
  pub balance : Decimal
  pub currency : String

pub record PaymentData : Type 0 where
  pub id : String
  pub reference : String
  pub status : String
  pub mono_url : String

-- What is read of an error: "" for a field that is not there.
pub record ApiError : Type 0 where
  pub message : String
  pub error : String

-- encoding/json on the bodies of the replies, for each type.
pub record Json : Type 0 where
  pub connect : Reader (Envelope ConnectData)
  pub exchange : Reader (Envelope ExchangeData)
  pub customer_accounts : Reader (Envelope (List CustomerAccount))
  pub account : Reader (Envelope AccountData)
  pub balance : Reader (Envelope BalanceData)
  pub payment : Reader (Envelope PaymentData)
  pub api_error : String → ApiError

abbrev base_url : String
base_url = "https://api.withmono.com/v2"

abbrev sec_key : Client → String × String
sec_key c = ("mono-sec-key", c.secret_key)

abbrev json_body : String × String
json_body = ("Content-Type", "application/json")

unfoldable pub request :
    Method → (path : String) → (headers : List (String × String)) → Payload → HttpRequest
request method path headers body = record {
  method = method;
  url = append base_url path;
  headers = headers;
  body = body;
}

-- The first of the two that says something.
abbrev pub or_else : String → String → String
or_else text other = if str_eq text "" then other else text

-- What is said of an error: its message, its error, or the body as it is.
unfoldable pub full_message : (String → ApiError) → String → String
full_message read_error body =
    or_else (read_error body).message (or_else (read_error body).error body)

abbrev pub short_message : (String → ApiError) → String → String
short_message read_error body = (read_error body).message

abbrev pub or_decode : {A : Type 0} → (body : String) → Option A → Answer A
or_decode body none = failed (decode body)
or_decode body (some result) = got result

module _ {A : Type 0} (reads : Reader A) where
  -- `json.Unmarshal` on the reply, whatever its status code.
  unfoldable pub decoded : Option Reply → Answer A
  decoded none = failed http_call
  decoded (some reply) = or_decode reply.body (reads reply.body)

-- `parseResponse`: a status code from 400 on is an error.
unfoldable pub parse_response :
    {A : Type 0} → (say : String → String) → Reader A → Option Reply → Answer A
parse_response say reads none = failed http_call
parse_response say reads (some reply) =
    if leb 400 reply.status_code
    then failed (api_error reply.status_code (say reply.body))
    else decoded reads (some reply)

abbrev pub sync_request : Client → (account_id : String) → HttpRequest
sync_request c account_id =
    request post (append "/accounts/" (append account_id "/sync")) (sec_key c ∷ []) Payload.no_body

module _ (json : Json) (send : Transport) (c : Client) where
  -- `GenerateConnectURL`
  unfoldable pub generate_connect_url :
      (customer_id name email redirect_url : String) → Answer (Envelope ConnectData)
  generate_connect_url customer_id name email redirect_url =
      parse_response (full_message json.api_error) json.connect (
        send (
          request post "/accounts/initiate" (sec_key c ∷ json_body ∷ [])
            (Payload.connect name email customer_id "auth" redirect_url)))

  -- `ExchangeCode`
  unfoldable pub exchange_code : (code : String) → Answer (Envelope ExchangeData)
  exchange_code code =
      parse_response (short_message json.api_error) json.exchange
        (send (request post "/accounts/auth" (sec_key c ∷ json_body ∷ []) (Payload.exchange code)))

  -- `GetCustomerAccounts`
  unfoldable pub get_customer_accounts :
      (customer_id : String) → Answer (Envelope (List CustomerAccount))
  get_customer_accounts customer_id =
      parse_response (short_message json.api_error) json.customer_accounts (
        send (
          request get (append "/customers/" (append customer_id "/accounts"))
            (sec_key c ∷ ("accept", "application/json") ∷ []) Payload.no_body))

  -- `SyncAccount`, which does not look at the status code
  unfoldable pub sync_account : (account_id : String) → Answer (Envelope AccountData)
  sync_account account_id = decoded json.account (send (sync_request c account_id))

  -- `GetBalance`
  unfoldable pub get_balance : (account_id : String) → Answer (Envelope BalanceData)
  get_balance account_id = parse_response (full_message json.api_error) json.balance (
      send (
        request get (append "/accounts/" (append account_id "/balance")) (sec_key c ∷ [])
          Payload.no_body))

  -- `PaymentInitiate`
  unfoldable pub payment_initiate : PaymentRequest → Answer (Envelope PaymentData)
  payment_initiate req =
      parse_response (full_message json.api_error) json.payment (
        send (request post "/payments/initiate" (sec_key c ∷ json_body ∷ []) (Payload.payment req)))

-- `VerifyWebhook`, with the digits of HMAC-SHA512 for a key and a body.
unfoldable pub verify_webhook :
    (hmac_hex : (key body : String) → String) → Client → (signature body : String) → Bool
verify_webhook hmac_hex c signature body = str_eq signature (hmac_hex c.secret_key body)
