-- ===== src/Provider/Paystack.antt =====
-- internal/provider/paystack/client.go: the requests to Paystack, and what is made of its replies.
pub mod Replies
use Prim.Native.String.{◌++◌ as append}
use weave_server.Prelude.{String, Bool, Option, none, some, List, [], ◌∷◌, str_eq, if◌then◌else◌}
use weave_server.Prelude.Int.{ℤ}
use weave_server.Http.{Method, get, post}
use weave_server.Provider.{CreateCustomerRequest}
use weave_server.Provider.Transport.{
  TransferRequest, CreateRecipientRequest, Payload, HttpRequest, Reply, Transport, Reader, Answer,
  got, failed,
}
use weave_server.Provider.Transport.ClientError.{http_call, decode, refused}

-- `Client`
pub record Client : Type 0 where
  pub secret_key : String

-- A response: whether Paystack has done it, what it says, and the field `data`.
pub record Envelope {ℓ} (A : Type ℓ) : Type ℓ where
  pub status : Bool
  pub message : String
  pub content : A

-- The `data` of CreateCustomerResponse, AssignDVAResponse, TransferResponse, CreateRecipientResponse,
-- BalanceResponse and ResolveAccountResponse, and `Bank`.
pub record CustomerData : Type 0 where
  pub customer_code : String
  pub email : String

pub record DvaData : Type 0 where
  pub account_number : String
  pub account_name : String
  pub bank_name : String
  pub bank_slug : String
  pub provider : String

pub record TransferData : Type 0 where
  pub reference : String
  pub amount : ℤ
  pub status : String

pub record RecipientData : Type 0 where
  pub recipient_code : String
  pub active : Bool

pub record BalanceData : Type 0 where
  pub currency : String
  pub balance : ℤ

pub record Bank : Type 0 where
  pub name : String
  pub slug : String
  pub code : String
  pub long_code : String
  pub active : Bool

pub record ResolvedData : Type 0 where
  pub account_number : String
  pub account_name : String

-- encoding/json on the bodies of the replies, for each type, and what crypto/hmac gives for a key and a
-- body, in hexadecimal digits.
pub record Json : Type 0 where
  pub customer : Reader (Envelope CustomerData)
  pub dva : Reader (Envelope DvaData)
  pub transfer : Reader (Envelope TransferData)
  pub recipient : Reader (Envelope RecipientData)
  pub balance : Reader (Envelope (List BalanceData))
  pub banks : Reader (Envelope (List Bank))
  pub resolved : Reader (Envelope ResolvedData)

abbrev base_url : String
base_url = "https://api.paystack.co"

abbrev authorization : Client → String × String
authorization c = ("Authorization", append "Bearer " c.secret_key)

-- How each POST is built, and each GET.
unfoldable pub post_request : Client → (path : String) → Payload → HttpRequest
post_request c path body = record {
  method = post;
  url = append base_url path;
  headers = authorization c ∷ ("Content-Type", "application/json") ∷ [];
  body = body;
}

unfoldable pub get_request : Client → (path : String) → HttpRequest
get_request c path = record {
  method = get;
  url = append base_url path;
  headers = authorization c ∷ [];
  body = Payload.no_body;
}

abbrev pub or_decode : {A : Type 0} → (body : String) → Option A → Answer A
or_decode body none = failed (decode body)
or_decode body (some result) = got result

module _ {A : Type 0} (reads : Reader A) where
  -- The reply as it is read; its status code is not looked at.
  unfoldable pub decoded : Option Reply → Answer A
  decoded none = failed http_call
  decoded (some reply) = or_decode reply.body (reads reply.body)

-- `if !result.Status`
unfoldable pub accepted : {A : Type 0} → Answer (Envelope A) → Answer (Envelope A)
accepted (failed e) = failed e
accepted (got result) = if result.status then got result else failed (refused result.message)

module _ (json : Json) (send : Transport) (c : Client) where
  -- `CreateCustomer`
  unfoldable pub create_customer : CreateCustomerRequest → Answer (Envelope CustomerData)
  create_customer req =
      accepted (decoded json.customer (send (post_request c "/customer" (Payload.customer req))))

  -- `AssignDVA`
  unfoldable pub assign_dva : (customer_code preferred_bank : String) → Answer (Envelope DvaData)
  assign_dva customer_code preferred_bank = accepted (
      decoded json.dva (
        send (
          post_request c "/dedicated_account"
            (Payload.dedicated_account customer_code preferred_bank))))

  -- `InitiateTransfer`
  unfoldable pub initiate_transfer : TransferRequest → Answer (Envelope TransferData)
  initiate_transfer req =
      accepted (decoded json.transfer (send (post_request c "/transfer" (Payload.transfer req))))

  -- `CreateTransferRecipient`
  unfoldable pub create_transfer_recipient :
      CreateRecipientRequest → Answer (Envelope RecipientData)
  create_transfer_recipient req =
      accepted (
        decoded json.recipient (send (post_request c "/transferrecipient" (Payload.recipient req))))

  -- `GetBalance`
  unfoldable pub get_balance : Answer (Envelope (List BalanceData))
  get_balance = decoded json.balance (send (get_request c "/balance"))

  abbrev pub list_of : Answer (Envelope (List Bank)) → Answer (List Bank)
  list_of (failed e) = failed e
  list_of (got result) = got result.content

  -- `ListBanks`: the banks of the reply, whatever its field `status`.
  unfoldable pub list_banks : Answer (List Bank)
  list_banks = list_of (decoded json.banks (send (get_request c "/bank?country=nigeria")))

  -- `ResolveAccount`
  unfoldable pub resolve_account :
      (account_number bank_code : String) → Answer (Envelope ResolvedData)
  resolve_account account_number bank_code = accepted (
      decoded json.resolved (
        send (
          get_request c (
            append "/bank/resolve?account_number="
              (append account_number (append "&bank_code=" bank_code))))))

-- `VerifyWebhook`, with the digits of HMAC-SHA256 for a key and a body.
unfoldable pub verify_webhook :
    (hmac_hex : (key body : String) → String) → Client → (signature body : String) → Bool
verify_webhook hmac_hex c signature body = str_eq signature (hmac_hex c.secret_key body)
