-- ===== src/Model/Transactions.antt =====
-- internal/model/transaction.go: the rows of the transfer ledger, and debit plans.
use weave_server.Prelude.{ℕ, String, Option, List}
use weave_server.Model.Wallets.{Amount, Uuid}

pub data TransactionType : Type 0 where
  debit_leg payout_leg deposit txn_fee refund hold release : TransactionType

pub data TransactionStatus : Type 0 where
  pending processing completed failed refunded : TransactionStatus

pub record Transaction : Type 0 where
  pub id : Uuid
  pub user_id : Uuid
  -- none for a parent transaction
  pub parent_id : Option Uuid
  pub txn_type : TransactionType
  pub amount : Amount
  pub fee : Amount
  pub currency : String
  pub status : TransactionStatus
  pub source_account_id : Option Uuid
  pub source_provider : String
  pub recipient_account : String
  pub recipient_bank_code : String
  pub recipient_name : String
  pub provider_ref : String
  pub our_ref : String
  pub idempotency_key : String
  pub failure_reason : String
  pub created_at : ℕ
  pub completed_at : Option ℕ

pub record CreateTransactionInput : Type 0 where
  pub user_id : Uuid
  pub parent_id : Option Uuid
  pub txn_type : TransactionType
  pub amount : Amount
  pub fee : Amount
  pub currency : String
  pub source_account_id : Option Uuid
  pub source_provider : String
  pub recipient_account : String
  pub recipient_bank_code : String
  pub recipient_name : String
  pub our_ref : String
  pub idempotency_key : String

-- `source` is "wallet" or the text of a bank account's UUID.
pub record DebitLeg : Type 0 where
  pub source : String
  pub amount : Amount
  pub fee : Amount
  pub bank_name : String

pub record DebitPlan : Type 0 where
  pub legs : List DebitLeg
  pub total : Amount
  pub fees : Amount
