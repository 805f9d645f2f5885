-- ===== src/Service/WalletService.antt =====
-- internal/service/wallet_service.go: `WalletService`. Nothing here runs in a transaction: each
-- statement is committed on its own. The texts around errors and the log lines are left out.
pub mod Webhooks
pub mod Funding
pub mod Accounts
pub mod Issued
pub mod Deposits
use Prim.Native.String.{◌++◌ as append}
use weave_server.Prelude.{String, false, not, ◌||◌, Option, none, some, ◌==◌, str_eq, if◌then◌else◌}
use weave_server.Prelude.Int.{pos, ltb_ℤ}
use weave_server.Model.{
  Uuid, Amount, is_zero, is_negative, add, sub, Wallet, WalletTransaction, WalletAccount,
  WalletDeposit, BankAccount, BankFundRequest, BankFundStatus, User,
}
use weave_server.Db.{
  on_result, on_option, M, pure, fail, attempt, ignore, ◌>>=◌, ◌>>◌, or_fail, fail_if, new_uuid,
  Result, ok, err, wallet_not_found, wallet_account_not_found, invalid_credit_amount,
  invalid_debit_amount, amount_too_small, amount_too_large, forbidden, bank_not_active,
  daily_limit_exceeded, mono_unavailable, user_not_found, direct_debit_failed, nil_dereference,
}
use weave_server.Repository.WalletRepo
use weave_server.Repository.UserRepo
use weave_server.Repository.BankAccountRepo
use weave_server.Repository.BankFundRepo
use weave_server.Repository.AuditLogRepo
use weave_server.Provider.{PaymentInitiateRequest, Env, short_id, call_mono}

-- ₦100, ₦500,000 for a request, and ₦1,000,000 for a day
abbrev pub fund_from_bank_min_kobo : Amount
fund_from_bank_min_kobo = pos 10000

abbrev pub fund_from_bank_max_kobo : Amount
fund_from_bank_max_kobo = pos 50000000

abbrev pub fund_from_bank_daily_kobo : Amount
fund_from_bank_daily_kobo = pos 100000000

-- `GetBalance`
unfoldable pub get_balance : Uuid → M Wallet
get_balance user_id = do wallet ← WalletRepo.get_by_user_id user_id; or_fail wallet wallet_not_found

-- The entry that each change of a wallet leaves in `wallet_transactions`.
abbrev pub ledger_entry : Uuid → String → Amount → String → String → WalletTransaction
ledger_entry wallet_id kind amount reference description = record {
  id = 0;
  wallet_id = wallet_id;
  txn_type = kind;
  amount = amount;
  reference = reference;
  description = description;
  status = "COMPLETED";
  created_at = 0;
}

-- `CreditWallet`: a failure to write the entry is only logged.
unfoldable pub credit_wallet : Uuid → Amount → (reference description : String) → M (Unit {0})
credit_wallet wallet_id amount reference description = do
  fail_if (is_zero amount || is_negative amount) invalid_credit_amount
  WalletRepo.credit wallet_id amount
  ignore
      (WalletRepo.record_transaction (ledger_entry wallet_id "credit" amount reference description))

-- `DebitWallet`
unfoldable pub debit_wallet : Uuid → Amount → (reference description : String) → M (Unit {0})
debit_wallet wallet_id amount reference description = do
  fail_if (is_zero amount || is_negative amount) invalid_debit_amount
  WalletRepo.debit wallet_id amount
  ignore
      (WalletRepo.record_transaction (ledger_entry wallet_id "debit" amount reference description))

-- `Hold`
unfoldable pub hold : Uuid → Amount → String → M (Unit {0})
hold wallet_id amount reference = do
  WalletRepo.hold wallet_id amount
  ignore (
      WalletRepo.record_transaction
        (ledger_entry wallet_id "hold" amount reference "hold for pending transfer"))

-- `ReleaseHold`
unfoldable pub release_hold : Uuid → Amount → String → M (Unit {0})
release_hold wallet_id amount reference = do
  WalletRepo.release_hold wallet_id amount
  ignore (
      WalletRepo.record_transaction
        (ledger_entry wallet_id "release" amount (append reference "_release") "hold released"))

-- `GetWalletAccount`
unfoldable pub get_wallet_account : Uuid → M (Option WalletAccount)
get_wallet_account user_id = WalletRepo.get_wallet_account_by_user_id user_id

abbrev pub deposit_row : WalletAccount → Amount → Amount → String → String → WalletDeposit
deposit_row wa amount fee provider provider_ref = record {
  id = 0;
  wallet_account_id = wa.id;
  user_id = wa.user_id;
  amount = amount;
  fee = fee;
  provider = provider;
  provider_ref = provider_ref;
  sender_account = "";
  sender_bank = "";
  status = "COMPLETED";
  reconciled = false;
  created_at = 0;
}

-- What a deposit credits: never less than nothing.
abbrev pub net_amount : Amount → Amount → Amount
net_amount amount fee = let net = sub amount fee in if is_negative net then pos 0 else net

-- `ProcessDepositWebhook`
unfoldable pub process_deposit_webhook :
    (account_number : String) (amount fee : Amount) (provider provider_ref : String) → M (Unit {0})
process_deposit_webhook account_number amount fee provider provider_ref = do
  found ← WalletRepo.get_wallet_account_by_number account_number
  wa ← or_fail found wallet_account_not_found
  WalletRepo.record_deposit (deposit_row wa amount fee provider provider_ref)
  owned ← WalletRepo.get_by_user_id wa.user_id
  wallet ← or_fail owned wallet_not_found
  credit_wallet wallet.id (net_amount amount fee) provider_ref (append "deposit via " provider)

-- `writeAudit`
unfoldable pub write_audit : Env → Option Uuid → (action status : String) → M (Unit {0})
write_audit env user_id action status =
    if env.has_audit then ignore (AuditLogRepo.write user_id action status) else pure tt

-- The account, if it is the user's.
abbrev pub owned_by : Uuid → Option BankAccount → Option BankAccount
owned_by user_id none = none
owned_by user_id (some ba) = if ba.user_id == user_id then some ba else none

abbrev pub fund_request : Uuid → Uuid → String → Amount → BankFundRequest
fund_request user_id bank_account_id ref amount = record {
  id = 0;
  user_id = user_id;
  bank_account_id = bank_account_id;
  reference = ref;
  amount = amount;
  status = BankFundStatus.pending;
  provider_ref = "";
  payment_url = "";
  failure_reason = "";
  created_at = 0;
  completed_at = none;
}

-- The guards of `FundFromBank`, before anything is written.
unfoldable pub check_funding : Uuid → Uuid → Amount → M BankAccount
check_funding user_id bank_account_id amount = do
  fail_if (ltb_ℤ amount fund_from_bank_min_kobo) amount_too_small
  fail_if (ltb_ℤ fund_from_bank_max_kobo amount) amount_too_large
  found ← BankAccountRepo.get_by_id bank_account_id
  ba ← or_fail (owned_by user_id found) forbidden
  fail_if (not ba.is_active || not ba.is_verified) bank_not_active
  today_sum ← BankFundRepo.sum_completed_today user_id
  fail_if (ltb_ℤ fund_from_bank_daily_kobo (add today_sum amount)) daily_limit_exceeded
  pure ba

abbrev pub email_of : User → String
email_of user = if str_eq user.email "" then append user.phone "@weave.ng" else user.email

-- A user that can be read: an error of the statement counts as no user.
abbrev pub read_user : Result (Option User) → Option User
read_user (ok user) = user
read_user (err e) = none

abbrev pub payment_request : BankFundRequest → User → Amount → PaymentInitiateRequest
payment_request req user amount = record {
  amount = amount;
  description = append "Weave wallet top-up — " req.reference;
  reference = req.reference;
  customer_name = user.full_name;
  customer_email = email_of user;
}

-- `FundFromBank` from the call of Mono on.
unfoldable pub pay_by_mono : Env → Uuid → BankFundRequest → Amount → M BankFundRequest
pay_by_mono env user_id req amount = do
  found ← attempt (UserRepo.get_by_id user_id)
  on_option (read_user found)
      (do
        ignore (BankFundRepo.update_status req.reference BankFundStatus.failed "" "user not found")
        fail user_not_found)
      (λ user. do
        answer ← attempt (call_mono env (payment_request req user amount))
        on_result answer
            (λ e. do
              ignore (
                  BankFundRepo.update_status req.reference BankFundStatus.failed ""
                    "payment failed")
              write_audit env (some user_id) "fund_from_bank_failed" "failed"
              fail direct_debit_failed)
            (λ paid. do
              ignore (BankFundRepo.update_status req.reference BankFundStatus.pending paid.id "")
              pure (record req { provider_ref = paid.id; payment_url = paid.mono_url })))

-- `FundFromBank`
unfoldable pub fund_from_bank : Env → Uuid → Uuid → Amount → M BankFundRequest
fund_from_bank env user_id bank_account_id amount = do
  check_funding user_id bank_account_id amount
  drawn ← new_uuid
  let ref = append "WVF-FUND-" (short_id env drawn)
  req ← BankFundRepo.create (fund_request user_id bank_account_id ref amount)
  write_audit env (some user_id) "fund_from_bank_initiated" "ok"
  if env.has_mono then pay_by_mono env user_id req amount else do
    ignore (BankFundRepo.update_status ref BankFundStatus.failed "" "mono client not configured")
    write_audit env (some user_id) "fund_from_bank_failed" "failed"
    fail mono_unavailable

-- `CompleteFundFromBank` from the request on. `wallet.ID` is read without a test for nil.
unfoldable pub complete_request : Env → BankFundRequest → String → Amount → M (Unit {0})
complete_request env fund_req reference amount = do
  owned ← WalletRepo.get_by_user_id fund_req.user_id
  wallet ← or_fail owned nil_dereference
  credited ← attempt (credit_wallet wallet.id amount reference "bank top-up via Mono")
  on_result credited
      (λ e. do
        write_audit env (some fund_req.user_id) "fund_from_bank_credit_failed" "failed"
        fail e)
      (λ _. do
        ignore (BankFundRepo.update_status reference BankFundStatus.completed "" "")
        write_audit env (some fund_req.user_id) "fund_from_bank_completed" "ok")

-- `CompleteFundFromBank`: an unknown reference and a completed request are left alone.
unfoldable pub complete_fund_from_bank : Env → String → Amount → M (Unit {0})
complete_fund_from_bank env reference amount = do
  found ← BankFundRepo.get_by_reference reference
  on_option found (pure tt) (λ fund_req.
      if BankFundRepo.is_completed fund_req.status
      then pure tt
      else complete_request env fund_req reference amount)
