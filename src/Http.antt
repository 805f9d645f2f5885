-- ===== src/Http.antt =====
-- net/http and the request's context, as the handlers and the middleware of internal/ see them. A
-- header that is not there reads as "".
use weave_server.Prelude.{ℕ, String, Bool, false, Option, List}
use weave_server.Prelude.Int.{ℤ}
use weave_server.Model.{
  Uuid, Amount, UserSession, Wallet, WalletAccount, Transaction, TransactionStatus, DebitPlan,
  BankAccount, BankFundStatus, ChatMessage,
}
use weave_server.Db.{World}
use weave_server.Middleware.RateLimiter.{Buckets}

pub data Method : Type 0 where
  get head options post put patch delete : Method

pub record Request : Type 0 where
  pub method : Method
  pub path : String
  pub remote_addr : String
  pub content_type : String
  pub authorization : String
  -- the header Idempotency-Key
  pub idempotency_header : String
  pub body : String
  -- the context: UserIDKey and IdempotencyKey
  pub user : Option Uuid
  pub idempotency_key : String

-- What is encoded in a response.
pub data Body : Type 0 where
  empty : Body
  -- {"error": …}, by the middleware
  plain_error : String → Body
  -- {"error": {"code": …}}, by the handlers
  error : String → Body
  -- {"status": …}
  status : String → Body
  -- {"status": …, "service": …}
  health : (status service : String) → Body
  session : UserSession → Body
  wallet : Wallet → Body
  account : WalletAccount → Body
  transfer : Uuid → String → TransactionStatus → Option DebitPlan → Body
  transaction : Transaction → Body
  -- rows, their total, page and rows per page
  transactions : List Transaction → ℕ → ℤ → ℤ → Body
  funding : String → BankFundStatus → Amount → Body
  bank : BankAccount → Body
  banks : List BankAccount → Body
  link : (connect_url reference : String) → Body
  refreshed : Amount → Body
  -- a text of the chat, and its messages
  reply : String → Body
  messages : List ChatMessage → Body

pub record Response : Type 0 where
  pub code : ℕ
  pub body : Body
  -- the header Idempotency-Replayed
  pub replayed : Bool

abbrev pub respond : ℕ → Body → Response
respond code body = record { code = code; body = body; replayed = false }

-- How a handler ends. A panic that no deferred call of its own goroutine recovers ends the process.
pub data Outcome : Type 0 where
  answered : Response → Outcome
  panicked crashed : Outcome

-- What the process and its database hold between requests.
pub record Site : Type 0 where
  pub world : World
  pub buckets : Buckets
  -- the responses that are kept for repeated requests
  pub answers : List (String × Response)
  -- the monotonic clock
  pub clock : ℕ

abbrev pub Handler : Type 0
Handler = Request → Site → Outcome × Site
