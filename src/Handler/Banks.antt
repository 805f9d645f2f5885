-- ===== src/Handler/Banks.antt =====
-- internal/handler/bank.go, without its webhook. An id is the text in the path.
pub mod Links
pub mod Owner
pub mod Exchange
use weave_server.Prelude.{
  ℕ, String, Bool, true, not, Option, none, some, List, [], ◌∷◌, find, str_eq, if◌then◌else◌,
}
use weave_server.Prelude.Int.{pos}
use weave_server.Model.{Uuid, Amount, BankAccount, new_amount}
use weave_server.Db.{M, Result, ok, err, pure, fail, attempt, on_result, ◌>>=◌, provider_failed}
use weave_server.Http.{status, bank, banks, refreshed}
use weave_server.Provider.{Env, Decimal, MonoAccount, call_provider, whole}
use weave_server.Repository.BankAccountRepo
use weave_server.Service.WalletService.{owned_by}
use weave_server.Handler.Response.{
  Action, respond_json, respond_error, handle, decode, present, on_user, refuse_if,
  parse_pagination, offset_of,
}

-- The row of an account that Mono describes.
abbrev pub linked_account : Uuid → String → String → Amount → MonoAccount → BankAccount
linked_account user_id token bank_code balance acc = record {
  id = 0;
  user_id = user_id;
  provider = "mono";
  provider_token = token;
  account_number = acc.account_number;
  account_name = acc.account_name;
  bank_code = bank_code;
  bank_name = acc.bank_name;
  priority = 5;
  min_balance = pos 0;
  last_balance = balance;
  is_active = true;
  is_verified = true;
  created_at = 0;
  updated_at = 0;
}

-- `ExchangeCode`: the body is the code.
unfoldable pub exchange_code : Env → Option Uuid → Option String → Action
exchange_code env user body = on_user user (λ user_id. decode body "code_required" (λ code.
    refuse_if (str_eq code "") 400 "code_required" (
      refuse_if (not env.has_mono) 503 "mono_not_configured" (
        handle (call_provider (λ _. env.exchange_code code))
          (λ e. respond_error 500 "exchange_failed")
          (λ account_id.
            handle (call_provider (λ _. env.sync_account account_id))
              (λ e. respond_error 500 "sync_failed")
              (λ details.
                handle
                  (BankAccountRepo.create (
                    linked_account user_id account_id details.bank_code
                      (new_amount (whole details.balance)) details))
                  (λ e. respond_error 500 "save_failed")
                  (λ made. respond_json 200 (bank made))))))))

-- `ListBanks`
unfoldable pub list_banks : Env → Option Uuid → (page per_page : String) → Action
list_banks env user page per_page = on_user user (λ user_id.
    let (p, n) = parse_pagination env.atoi page per_page (pos 1) (pos 20) in
    handle (BankAccountRepo.get_page user_id n (offset_of p n))
      (λ e. respond_error 500 "list_failed") (λ accounts. respond_json 200 (banks accounts)))

-- `UpdatePriority`: the body is the priority, here one that is not negative.
unfoldable pub update_priority : Env → Option Uuid → (id : String) → Option ℕ → Action
update_priority env user id body = on_user user (λ _.
    decode (env.uuid_parse id) "invalid_id" (λ bank_id.
      decode body "invalid_request_body" (λ priority.
        handle (BankAccountRepo.update_priority bank_id priority)
          (λ e. respond_error 500 "update_failed") (λ _. respond_json 200 (status "updated")))))

-- `UnlinkBank`
unfoldable pub unlink_bank : Env → Option Uuid → (id : String) → Action
unlink_bank env user id = on_user user (λ _. decode (env.uuid_parse id) "invalid_id" (λ bank_id.
    handle (BankAccountRepo.delete bank_id) (λ e. respond_error 500 "delete_failed")
      (λ _. respond_json 200 (status "deleted"))))

-- The account of that number, or else the first.
abbrev pub matching : String → MonoAccount → Option MonoAccount → MonoAccount
matching number first none = first
matching number first (some acc) = acc

abbrev pub balance_among : String → List MonoAccount → M Decimal
balance_among number [] = fail provider_failed
balance_among number (acc ∷ accs) =
    pure (matching number acc (find (λ a. str_eq a.account_number number) (acc ∷ accs))).balance

-- The balance of an account at Mono, by its token, or by the accounts of the customer.
unfoldable pub live_balance : Env → BankAccount → M Decimal
live_balance env ba = do
  answer ← attempt (call_provider (λ _. env.mono_balance ba.provider_token))
  on_result answer
      (λ e. do
        accounts ← call_provider (λ _. env.customer_accounts ba.provider_token)
        balance_among ba.account_number accounts)
      (λ balance. pure balance)

-- `RefreshBalance` of an account that is the user's.
unfoldable pub refresh_account : Env → BankAccount → Action
refresh_account env ba = refuse_if (str_eq ba.provider_token "") 400 "no_provider_token" (
    refuse_if (not (str_eq ba.provider "mono")) 400 "unsupported_provider" (
      refuse_if (not env.has_mono) 503 "mono_not_configured" (
        handle (live_balance env ba) (λ e. respond_error 502 "balance_refresh_failed")
          (λ balance.
            handle (BankAccountRepo.update_balance ba.id (whole balance))
              (λ e. respond_error 500 "update_failed")
              (λ _. respond_json 200 (refreshed (whole balance)))))))

-- `RefreshBalance`
unfoldable pub refresh_balance : Env → Option Uuid → (id : String) → Action
refresh_balance env user id = on_user user (λ user_id.
    decode (env.uuid_parse id) "invalid_id" (λ bank_id.
      handle (BankAccountRepo.get_by_id bank_id) (λ e. respond_error 500 "lookup_failed")
        (λ found.
          present (owned_by user_id found) (respond_error 404 "bank_account_not_found")
            (λ ba. refresh_account env ba))))
