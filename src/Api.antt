-- ===== src/Api.antt =====
-- internal/server/server.go and the RegisterRoutes of internal/handler: the routes of the API behind
-- the middleware.
use weave_server.Prelude.{ℕ, String, Option}
use weave_server.Model.{Uuid}
use weave_server.Db.{World}
use weave_server.Http.{Outcome, answered, Response, Request, Site, Handler}
use weave_server.Middleware.RateLimiter.{RateLimiter}
use weave_server.Middleware.Idempotency.{ResponseCodec}
use weave_server.Middleware.Stack.{serve, chosen_store}
use weave_server.Provider.{Env}
use weave_server.Service.AuthService.{Auth}
use weave_server.Handler.Response.{Action, health_check}
use weave_server.Chat.Messages
use weave_server.Chat.Messages.{Assistant}
use weave_server.Handler.Logins
use weave_server.Handler.Wallets
use weave_server.Handler.Webhooks
use weave_server.Handler.Banks
use weave_server.Handler.Banks.Links
use weave_server.Handler.Transfers

-- A request by its route, with the user of its context, what its path holds, and its body decoded.
pub data Call : Type 0 where
  get_health : Call
  post_register : Option Logins.RegisterRequest → Call
  post_login : Option Logins.LoginRequest → Call
  post_pin_verify : Option Uuid → Option String → Call
  post_token_refresh : Option String → Call
  get_wallet get_wallet_account post_wallet_account : Option Uuid → Call
  post_wallet_fund : Option Uuid → Option Wallets.FundFromBankRequest → Call
  post_webhook_paystack : (signature body : String) → Option Webhooks.PaystackPayload → Call
  post_webhook_mono : (signature body : String) → Option Webhooks.MonoDirectDebitPayload → Call
  post_banks_webhook_mono : (signature body : String) → Option Webhooks.MonoPayload → Call
  post_banks_link post_banks_complete post_banks_exchange : Option Uuid → Option String → Call
  get_banks : Option Uuid → (page per_page : String) → Call
  put_bank_priority : Option Uuid → String → Option ℕ → Call
  delete_bank post_bank_refresh : Option Uuid → String → Call
  post_transfers : Option Uuid → String → Option Transfers.InitiateTransferRequest → Call
  get_transfers : Option Uuid → Transfers.ListQuery → Call
  get_transfer get_transfer_by_ref : String → Call
  post_chat_message : Option Uuid → Option String → Call
  post_chat_confirm delete_chat_history : Option Uuid → Call
  get_chat_history : Option Uuid → (limit : String) → Call

-- The handler of a route.
unfoldable pub route : Env → Auth → Assistant → Call → Action
route env auth chat get_health = health_check
route env auth chat (post_register body) = Logins.register env auth body
route env auth chat (post_login body) = Logins.login env auth body
route env auth chat (post_pin_verify user body) = Logins.verify_pin env auth user body
route env auth chat (post_token_refresh body) = Logins.refresh_token env auth body
route env auth chat (get_wallet user) = Wallets.get_wallet user
route env auth chat (get_wallet_account user) = Wallets.get_account user
route env auth chat (post_wallet_account user) = Wallets.issue_account env user
route env auth chat (post_wallet_fund user body) = Wallets.fund_from_bank env user body
route env auth chat (post_webhook_paystack s b payload) = Webhooks.paystack_deposit env s b payload
route env auth chat (post_webhook_mono s b payload) = Webhooks.mono_direct_debit env s b payload
route env auth chat (post_banks_webhook_mono s b payload) = Webhooks.mono_webhook env s b payload
route env auth chat (post_banks_link user body) = Links.initiate_link env user body
route env auth chat (post_banks_complete user body) = Links.complete_link env user body
route env auth chat (post_banks_exchange user body) = Banks.exchange_code env user body
route env auth chat (get_banks user page per_page) = Banks.list_banks env user page per_page
route env auth chat (put_bank_priority user id body) = Banks.update_priority env user id body
route env auth chat (delete_bank user id) = Banks.unlink_bank env user id
route env auth chat (post_bank_refresh user id) = Banks.refresh_balance env user id
route env auth chat (post_transfers user key body) = Transfers.initiate_transfer env user key body
route env auth chat (get_transfers user q) = Transfers.list_transactions env user q
route env auth chat (get_transfer id) = Transfers.get_transfer env id
route env auth chat (get_transfer_by_ref ref) = Transfers.get_transfer_by_ref ref
route env auth chat (post_chat_message user body) = Messages.handle_message env chat user body
route env auth chat (post_chat_confirm user) = Messages.confirm_transfer env chat user
route env auth chat (delete_chat_history user) = Messages.clear_history env user
route env auth chat (get_chat_history user limit) = Messages.get_history chat user limit

-- What chi and the decoding of a request come to: an answer of theirs, or a call.
pub data Routed : Type 0 where
  missed : Response → Routed
  to : Call → Routed

abbrev pub with_world : Site → Outcome × World → Outcome × Site
with_world s (outcome, w) = (outcome, record s { world = w })

-- The routes as one handler.
unfoldable pub api : Env → Auth → Assistant → (Request → Routed) → Handler
api env auth chat routes r s = elim (routes r) [
  | missed resp ↦ (answered resp, s)
  | to call ↦ with_world s (route env auth chat call s.world)
]

-- The server: the routes behind the middleware, over the store of answers that is chosen.
abbrev pub server :
    Env → Auth → Assistant → RateLimiter → ResponseCodec → (Request → Routed) → Handler
server env auth chat rl codec routes =
    serve env auth rl (chosen_store env codec) (api env auth chat routes)
