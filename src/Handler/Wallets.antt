-- ===== src/Handler/Wallets.antt =====
-- internal/handler/wallet.go: `WalletHandler`.
use weave_server.Prelude.{Option, ◌==◌}
use weave_server.Model.{Uuid, Amount}
use weave_server.Db.{
  Error, wallet_not_found, amount_too_small, amount_too_large, daily_limit_exceeded, forbidden,
  bank_not_active, mono_unavailable, direct_debit_failed,
}
use weave_server.Http.{wallet, account, funding}
use weave_server.Provider.{Env}
use weave_server.Service.WalletService
use weave_server.Service.WalletService.Accounts.{issue_wallet_account}
use weave_server.Handler.Response.{
  Action, respond_json, respond_error, handle, decode, present, on_user, refuse_if,
}

-- An id that is not in the body is `uuid.Nil`, which no draw gives: it is 0.
pub record FundFromBankRequest : Type 0 where
  pub bank_account_id : Uuid
  pub amount : Amount

abbrev pub fund_error : Error → Action
fund_error amount_too_small = respond_error 400 "amount_too_small"
fund_error amount_too_large = respond_error 400 "amount_too_large"
fund_error daily_limit_exceeded = respond_error 422 "daily_limit_exceeded"
fund_error forbidden = respond_error 403 "forbidden"
fund_error bank_not_active = respond_error 422 "bank_not_active"
fund_error mono_unavailable = respond_error 503 "mono_unavailable"
fund_error direct_debit_failed = respond_error 503 "direct_debit_failed"
fund_error _ = respond_error 500 "internal_error"

-- `FundFromBank`
unfoldable pub fund_from_bank : Env → Option Uuid → Option FundFromBankRequest → Action
fund_from_bank env user body = on_user user (λ user_id. decode body "invalid_request_body" (λ req.
    refuse_if (req.bank_account_id == 0) 400 "invalid_request" (
      handle (WalletService.fund_from_bank env user_id req.bank_account_id req.amount) fund_error
        (λ made. respond_json 202 (funding made.reference made.status req.amount)))))

abbrev pub wallet_error : Error → Action
wallet_error wallet_not_found = respond_error 404 "wallet_not_found"
wallet_error _ = respond_error 500 "get_wallet_failed"

-- `GetWallet`
unfoldable pub get_wallet : Option Uuid → Action
get_wallet user = on_user user (λ user_id.
    handle (WalletService.get_balance user_id) wallet_error (λ x. respond_json 200 (wallet x)))

-- `GetAccount`
unfoldable pub get_account : Option Uuid → Action
get_account user = on_user user (λ user_id.
    handle (WalletService.get_wallet_account user_id) (λ e. respond_error 500 "get_account_failed")
      (λ found.
        present found (respond_error 404 "no_wallet_account") (λ x. respond_json 200 (account x))))

-- `IssueAccount`
unfoldable pub issue_account : Env → Option Uuid → Action
issue_account env user = on_user user (λ user_id.
    handle (issue_wallet_account env user_id) (λ e. respond_error 500 "issue_account_failed")
      (λ x. respond_json 201 (account x)))
