-- ===== src/Model/Banks.antt =====
-- internal/model/transaction.go (BankAccount) and bank_fund_request.go.
use weave_server.Prelude.{ℕ, String, Option, Bool}
use weave_server.Model.Wallets.{Amount, Uuid}

pub record BankAccount : Type 0 where
  pub id : Uuid
  pub user_id : Uuid
  pub provider : String
  pub provider_token : String
  pub account_number : String
  pub account_name : String
  pub bank_code : String
  pub bank_name : String
  -- 1 is the highest
  pub priority : ℕ
  -- what a debit leaves in the account
  pub min_balance : Amount
  pub last_balance : Amount
  pub is_active : Bool
  pub is_verified : Bool
  pub created_at : ℕ
  pub updated_at : ℕ

pub data BankFundStatus : Type 0 where
  pending completed failed : BankFundStatus

pub record BankFundRequest : Type 0 where
  pub id : Uuid
  pub user_id : Uuid
  pub bank_account_id : Uuid
  pub reference : String
  pub amount : Amount
  pub status : BankFundStatus
  pub provider_ref : String
  pub payment_url : String
  pub failure_reason : String
  pub created_at : ℕ
  pub completed_at : Option ℕ
