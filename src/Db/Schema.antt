-- ===== src/Db/Schema.antt =====
-- The tables of internal/db/migrations, the state of a connection, and the effects outside it.
use weave_server.Prelude.{ℕ, String, Option, Bool, List}
use weave_server.Model.{
  Amount, Wallet, WalletAccount, WalletTransaction, WalletDeposit, Transaction, BankAccount,
  BankFundRequest, User, PinAttempt, AuditLog, ChatMessage,
}

pub record Tables : Type 0 where
  pub users : List User
  pub pin_attempts : List PinAttempt
  pub wallets : List Wallet
  pub wallet_transactions : List WalletTransaction
  pub wallet_accounts : List WalletAccount
  pub wallet_deposits : List WalletDeposit
  pub bank_accounts : List BankAccount
  pub transactions : List Transaction
  pub bank_fund_requests : List BankFundRequest
  pub audit_logs : List AuditLog
  pub chat_messages : List ChatMessage

-- A request that a provider has accepted, so that money moves outside the database.
pub data Effect : Type 0 where
  -- POST /transfer at Paystack: reference and amount
  payout : String → Amount → Effect
  -- POST /payments/initiate at Mono: reference and amount
  direct_debit : String → Amount → Effect

-- A key of Redis with its text, and the time at which it goes.
pub record CacheEntry : Type 0 where
  pub key : String
  pub text : String
  pub expires : ℕ

pub record World : Type 0 where
  pub tables : Tables
  -- what the tables were at BEGIN, while a transaction is open
  pub snapshot : Option Tables
  -- a statement of the open transaction has failed
  pub aborted : Bool
  -- which of the statements to come fail because the database cannot be reached; none after the end
  pub faults : List Bool
  pub now : ℕ
  -- how many UUIDs have been drawn
  pub drawn : ℕ
  -- how many calls of providers have been made
  pub called : ℕ
  -- what providers have accepted, the latest first
  pub effects : List Effect
  -- the recipient codes that `PayoutService` holds in memory, by their key
  pub recipients : List (String × String)
  -- Redis
  pub cache : List CacheEntry

-- The errors of the services, by what `errors.Is` tells apart; the text around them is left out.
pub data Error : Type 0 where
  -- a statement failed, or COMMIT did
  database : Error
  insufficient_wallet_balance insufficient_available_balance : Error
  invalid_credit_amount invalid_debit_amount : Error
  wallet_not_found wallet_account_not_found user_not_found insufficient_funds : Error
  amount_too_small amount_too_large daily_limit_exceeded : Error
  bank_not_active mono_unavailable direct_debit_failed forbidden : Error
  paystack_not_configured provider_failed : Error
  invalid_bank_source bank_not_found no_provider_token unsupported_provider : Error
  transfer_not_found : Error
  duplicate_phone invalid_pin pin_locked hash_failed token_failed : Error
  invalid_refresh_token invalid_token_scope invalid_token_subject : Error
  -- a nil pointer was dereferenced: the request ends in a panic
  nil_dereference : Error

pub data Result {ℓ} (A : Type ℓ) : Type ℓ where
  ok : A → Result A
  err : Error → Result A
