-- ===== src/Handler/Transfers.antt =====
-- internal/handler/transfer.go
pub mod Pages
use weave_server.Prelude.{ℕ, String, Option, none, List, [], ◌∷◌, str_eq, ◌||◌, if◌then◌else◌}
use weave_server.Prelude.Int.{ℤ, pos}
use weave_server.Model.{Uuid, new_amount, is_zero, is_negative}
use weave_server.Db.{Error, insufficient_funds, transfer_not_found}
use weave_server.Http.{transfer, transaction, transactions}
use weave_server.Provider.{Env, Decimal, whole}
use weave_server.Repository.TransactionRepo.Filters.{
  TransactionFilter, list_by_user_id, count_by_user_id,
}
use weave_server.Service.TransferService
use weave_server.Service.TransferService.{TransferRequest}
use weave_server.Handler.Response.{
  Action, respond_json, respond_error, handle, decode, on_user, refuse_if, parse_pagination,
  offset_of,
}

-- The amount is a float64 of naira. `narration` is not read.
pub record InitiateTransferRequest : Type 0 where
  pub amount : Decimal
  pub recipient_account : String
  pub recipient_bank : String
  pub recipient_name : String

-- No code makes `ErrDuplicateTransfer`.
abbrev pub transfer_error : Error → Action
transfer_error insufficient_funds = respond_error 400 "insufficient_funds"
transfer_error _ = respond_error 500 "transfer_failed"

-- `InitiateTransfer`: the key is the one that `Idempotency` puts in the context.
unfoldable pub initiate_transfer :
    Env → Option Uuid → (idempotency_key : String) → Option InitiateTransferRequest → Action
initiate_transfer env user idempotency_key body = on_user user (λ user_id.
    decode body "invalid_request_body" (λ req.
      let amount = new_amount (whole req.amount) in
      refuse_if (is_zero amount || is_negative amount) 400 "invalid_amount" (
        handle
          (TransferService.initiate_transfer env user_id (record {
            amount = amount;
            recipient_account = req.recipient_account;
            recipient_bank = req.recipient_bank;
            recipient_name = req.recipient_name;
            idempotency_key = idempotency_key;
          }))
          transfer_error
          (λ result.
            respond_json 201
              (transfer result.transaction_id result.our_ref result.status result.debit_plan)))))

abbrev pub get_error : Error → Action
get_error transfer_not_found = respond_error 404 "transfer_not_found"
get_error _ = respond_error 500 "get_transfer_failed"

-- `GetTransfer`: the user is not asked for.
unfoldable pub get_transfer : Env → (id : String) → Action
get_transfer env id = decode (env.uuid_parse id) "invalid_transaction_id" (λ txn_id.
    handle (TransferService.get_transfer txn_id) get_error
      (λ txn. respond_json 200 (transaction txn)))

-- `GetTransferByRef`
unfoldable pub get_transfer_by_ref : String → Action
get_transfer_by_ref our_ref =
    handle (TransferService.get_transfer_by_ref our_ref) get_error
      (λ txn. respond_json 200 (transaction txn))

-- The parameters of the query; "" for one that is not there.
pub record ListQuery : Type 0 where
  pub page : String
  pub per_page : String
  pub status : String
  pub kind : String
  pub from : String
  pub to : String

abbrev pub if_given : String → List String
if_given text = if str_eq text "" then [] else text ∷ []

abbrev pub time_if_given : Env → String → Option ℕ
time_if_given env text = if str_eq text "" then none else env.parse_time text

abbrev pub filter_of : Env → ListQuery → ℤ → ℤ → TransactionFilter
filter_of env q page per_page = record {
  statuses = if_given q.status;
  types = if_given q.kind;
  from = time_if_given env q.from;
  to = time_if_given env q.to;
  limit = per_page;
  offset = offset_of page per_page;
}

-- `ListTransactions` from the page on.
unfoldable pub list_page : Env → Uuid → ListQuery → ℤ → ℤ → Action
list_page env user_id q page per_page =
    handle (list_by_user_id env.ties user_id (filter_of env q page per_page))
      (λ e. respond_error 500 "internal_error")
      (λ txns.
        handle (count_by_user_id user_id (filter_of env q page per_page))
          (λ e. respond_error 500 "internal_error")
          (λ total. respond_json 200 (transactions txns total page per_page)))

-- `ListTransactions`
unfoldable pub list_transactions : Env → Option Uuid → ListQuery → Action
list_transactions env user q = on_user user (λ user_id.
    let (page, per_page) = parse_pagination env.atoi q.page q.per_page (pos 1) (pos 20) in
    list_page env user_id q page per_page)
