-- ===== src/Service/TransferService.antt =====
-- internal/service/transfer_service.go.
pub mod Preflight
pub mod Commit
use Prim.Native.String.{◌++◌ as append}
use weave_server.Prelude.{
  String, Bool, not, Option, none, some, List, [], ◌∷◌, str_eq, if◌then◌else◌,
}
use weave_server.Prelude.Int.{pos}
use weave_server.Model.{
  Uuid, Amount, add, Wallet, Transaction, TransactionStatus, TransactionType,
  CreateTransactionInput, BankAccount, DebitLeg, DebitPlan,
}
use weave_server.Db.{
  on_result, on_option, M, pure, fail, attempt, ignore, give, ◌>>=◌, ◌>>◌, or_fail, fail_if,
  new_uuid, begin_tx, commit_tx, rollback_tx, Result, ok, err, wallet_not_found,
  invalid_bank_source, bank_not_found, no_provider_token, unsupported_provider, mono_unavailable,
  transfer_not_found,
}
use weave_server.Repository.WalletRepo
use weave_server.Repository.TransactionRepo
use weave_server.Repository.BankAccountRepo
use weave_server.Repository.AuditLogRepo
use weave_server.Provider.{Env, call_mono, short_id}
use weave_server.Service.Sourcing.{build_debit_plan}
use weave_server.Service.PayoutService.{send_payout}

pub record TransferRequest : Type 0 where
  pub amount : Amount
  pub recipient_account : String
  pub recipient_bank : String
  pub recipient_name : String
  pub idempotency_key : String

pub record TransferResult : Type 0 where
  pub transaction_id : Uuid
  pub our_ref : String
  pub status : TransactionStatus
  -- nil where the transfer was made before
  pub debit_plan : Option DebitPlan

abbrev pub is_wallet_leg : DebitLeg → Bool
is_wallet_leg leg = str_eq leg.source "wallet"

abbrev pub parent_input : Uuid → TransferRequest → DebitPlan → String → CreateTransactionInput
parent_input user_id req plan our_ref = record {
  user_id = user_id;
  parent_id = none;
  txn_type = TransactionType.debit_leg;
  amount = req.amount;
  fee = plan.fees;
  currency = "NGN";
  source_account_id = none;
  source_provider = "";
  recipient_account = req.recipient_account;
  recipient_bank_code = req.recipient_bank;
  recipient_name = req.recipient_name;
  our_ref = our_ref;
  idempotency_key = req.idempotency_key;
}

abbrev pub leg_input : Uuid → Uuid → DebitLeg → (provider leg_ref : String) → CreateTransactionInput
leg_input user_id parent_id leg provider leg_ref = record {
  user_id = user_id;
  parent_id = some parent_id;
  txn_type = TransactionType.debit_leg;
  amount = leg.amount;
  fee = leg.fee;
  currency = "NGN";
  source_account_id = none;
  source_provider = provider;
  recipient_account = "";
  recipient_bank_code = "";
  recipient_name = "";
  our_ref = leg_ref;
  idempotency_key = "";
}

abbrev pub payout_input : Uuid → Uuid → TransferRequest → String → CreateTransactionInput
payout_input user_id parent_id req payout_ref = record {
  user_id = user_id;
  parent_id = some parent_id;
  txn_type = TransactionType.payout_leg;
  amount = req.amount;
  fee = pos 0;
  currency = "NGN";
  source_account_id = none;
  source_provider = "paystack";
  recipient_account = req.recipient_account;
  recipient_bank_code = req.recipient_bank;
  recipient_name = req.recipient_name;
  our_ref = payout_ref;
  idempotency_key = "";
}

-- `executeBankDebit`
unfoldable pub execute_bank_debit : Env → BankAccount → DebitLeg → String → M (Unit {0})
execute_bank_debit env bank leg leg_ref = do
  fail_if (str_eq bank.provider_token "") no_provider_token
  fail_if (not (str_eq bank.provider "mono")) unsupported_provider
  fail_if (not env.has_mono) mono_unavailable
  call_mono env (record {
    amount = leg.amount;
    description = append "Weave transfer " leg_ref;
    reference = leg_ref;
    customer_name = bank.account_name;
    customer_email = "";
  })
  pure tt

-- The wallet's leg: the funds are held, and let go again if the leg cannot be recorded.
unfoldable pub debit_wallet_leg : Uuid → Uuid → String → DebitLeg → M (Unit {0})
debit_wallet_leg user_id parent_id our_ref leg = do
  owned ← WalletRepo.get_by_user_id user_id
  wallet ← or_fail owned wallet_not_found
  WalletRepo.hold wallet.id (add leg.amount leg.fee)
  made ←
      attempt
        (TransactionRepo.create (leg_input user_id parent_id leg "wallet" (append our_ref "-WL")))
  on_result made
      (λ e. do ignore (WalletRepo.release_hold wallet.id (add leg.amount leg.fee)); fail e)
      (λ _. pure tt)

unfoldable pub debit_bank_leg : Env → Uuid → Uuid → String → DebitLeg → M (Unit {0})
debit_bank_leg env user_id parent_id our_ref leg = do
  bank_id ← or_fail (env.uuid_parse leg.source) invalid_bank_source
  found ← BankAccountRepo.get_by_id bank_id
  bank ← or_fail found bank_not_found
  let leg_ref = append our_ref (append "-BA-" (short_id env bank.id))
  TransactionRepo.create (leg_input user_id parent_id leg bank.provider leg_ref)
  execute_bank_debit env bank leg leg_ref

unfoldable pub debit_legs : Env → Uuid → Uuid → String → List DebitLeg → M (Unit {0})
debit_legs env user_id parent_id our_ref [] = pure tt
debit_legs env user_id parent_id our_ref (leg ∷ legs) =
    (if is_wallet_leg leg
      then debit_wallet_leg user_id parent_id our_ref leg
      else debit_bank_leg env user_id parent_id our_ref leg)
    >> debit_legs env user_id parent_id our_ref legs

-- `wallet, _ := GetByUserID`: an error counts as no wallet.
abbrev pub wallet_if_read : Result (Option Wallet) → Option Wallet
wallet_if_read (ok wallet) = wallet
wallet_if_read (err e) = none

-- What is done to the wallet for a leg, if there is a wallet; errors are dropped.
unfoldable pub on_wallet : Uuid → (Uuid → M (Unit {0})) → M (Unit {0})
on_wallet user_id act = do
  found ← attempt (WalletRepo.get_by_user_id user_id)
  on_option (wallet_if_read found) (pure tt) (λ wallet. ignore (act wallet.id))

unfoldable pub for_wallet_legs :
    Uuid → (Uuid → Amount → M (Unit {0})) → List DebitLeg → M (Unit {0})
for_wallet_legs user_id act [] = pure tt
for_wallet_legs user_id act (leg ∷ legs) =
    (if is_wallet_leg leg
      then on_wallet user_id (λ id. act id (add leg.amount leg.fee))
      else pure tt)
    >> for_wallet_legs user_id act legs

-- The payout at Paystack; where it fails, both rows are marked, the holds are let go, and the
-- transfer ends in the error.
unfoldable pub execute_payout :
    Env → Uuid → TransferRequest → DebitPlan → (parent payout : Uuid) → String → M (Unit {0})
execute_payout env user_id req plan parent payout payout_ref =
    if not env.has_paystack
    then ignore (TransactionRepo.update_provider_ref payout (append "simulated-" payout_ref))
    else do
      answer ← attempt (
          send_payout env payout_ref req.amount req.recipient_account req.recipient_bank
            req.recipient_name)
      on_result answer
          (λ e. do
            ignore (TransactionRepo.update_status payout TransactionStatus.failed "payout error")
            ignore (TransactionRepo.update_status parent TransactionStatus.failed "payout failed")
            for_wallet_legs user_id WalletRepo.release_hold plan.legs
            fail e)
          (λ provider_ref. ignore (TransactionRepo.update_provider_ref payout provider_ref))

-- `InitiateTransfer` between BEGIN and the deferred calls.
unfoldable pub transfer_in_tx : Env → Uuid → TransferRequest → DebitPlan → M TransferResult
transfer_in_tx env user_id req plan = do
  drawn ← new_uuid
  let our_ref = append "WVF-" (short_id env drawn)
  parent ← TransactionRepo.create (parent_input user_id req plan our_ref)
  debit_legs env user_id parent.id our_ref plan.legs
  TransactionRepo.update_status parent.id TransactionStatus.processing ""
  let payout_ref = append our_ref "-PO"
  payout ← TransactionRepo.create (payout_input user_id parent.id req payout_ref)
  execute_payout env user_id req plan parent.id payout.id payout_ref
  for_wallet_legs user_id WalletRepo.debit plan.legs
  TransactionRepo.update_status parent.id TransactionStatus.completed ""
  TransactionRepo.update_status payout.id TransactionStatus.completed ""
  pure (record {
    transaction_id = parent.id;
    our_ref = our_ref;
    status = TransactionStatus.completed;
    debit_plan = some plan;
  })

-- The two deferred calls. They look at the `err` of `tx, err := s.pool.Begin(ctx)`, which is nil
-- whatever the function returns: they commit always, and roll back only where COMMIT fails.
unfoldable pub deferred : M (Unit {0})
deferred = do done ← attempt commit_tx; on_result done (λ e. ignore rollback_tx) (λ _. pure tt)

unfoldable pub in_tx : {A : Type 0} → Env → M A → M A
in_tx env body =
    if not env.has_pool then body else do begin_tx; result ← attempt body; deferred; give result

abbrev pub replay : Transaction → TransferResult
replay existing = record {
  transaction_id = existing.id;
  our_ref = existing.our_ref;
  status = existing.status;
  debit_plan = none;
}

-- `InitiateTransfer` for a request that has not been seen.
unfoldable pub start_transfer : Env → Uuid → TransferRequest → M TransferResult
start_transfer env user_id req = do
  planned ← attempt (build_debit_plan env user_id req.amount)
  on_result planned
      (λ e. do
        (if env.has_audit
            then ignore (AuditLogRepo.write (some user_id) "transfer_attempt" "failed")
            else pure tt)
        fail e)
      (λ plan. in_tx env (transfer_in_tx env user_id req plan))

-- `InitiateTransfer`
unfoldable pub initiate_transfer : Env → Uuid → TransferRequest → M TransferResult
initiate_transfer env user_id req =
    if str_eq req.idempotency_key "" then start_transfer env user_id req else do
      existing ← TransactionRepo.get_by_idempotency_key req.idempotency_key
      on_option existing (start_transfer env user_id req) (λ txn. pure (replay txn))

-- `GetTransfer`
unfoldable pub get_transfer : Uuid → M Transaction
get_transfer id = do txn ← TransactionRepo.get_by_id id; or_fail txn transfer_not_found

-- `GetTransferByRef`
unfoldable pub get_transfer_by_ref : String → M Transaction
get_transfer_by_ref our_ref = do
  txn ← TransactionRepo.get_by_our_ref our_ref
  or_fail txn transfer_not_found
