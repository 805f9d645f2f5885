-- ===== src/Tests.antt =====
-- One user with a wallet and a bank, and the theorems at that user.
pub mod Wallets
pub mod Transfers
pub mod Logins
pub mod Requests
pub mod Handlers
pub mod Headers
pub mod Links
pub mod Chats
pub mod Conversations
pub mod Migrations
pub mod Clients
pub mod Startups
use weave_server.Prelude.{
  str_eq, ◌≡◌, refl, String, Bool, true, false, Option, none, some, List, [], ◌∷◌, ◌++◌, arith, leb,
  if◌then◌else◌, inl, inr, map, any,
}
use weave_server.Prelude.Int.{pos}
use weave_server.Model.{
  Uuid, Amount, Wallet, WalletType, WalletAccount, WalletDeposit, BankAccount, BankFundRequest,
  BankFundStatus, Transaction, TransactionStatus, TransactionType, User, KycLevel, DebitPlan,
}
use weave_server.Db.{
  Tables, World, ok, err, insufficient_funds, amount_too_small, insufficient_wallet_balance,
  insufficient_available_balance, Result, M, pure, fail, database, ignore, ◌>>=◌, ◌>>◌,
}
use weave_server.Provider.{Env}
use weave_server.Service.TransferService.{TransferRequest, replay}

abbrev pub env : Env
env = record {
  has_mono = true;
  has_paystack = true;
  has_pool = true;
  has_audit = true;
  payment_initiate = λ n req. some (record { id = "pay"; mono_url = "https://mono" });
  mono_balance = λ token. some (pos 1);
  create_recipient = λ n account bank name. some "RCP";
  initiate_transfer = λ n req. some "TRF";
  sha256_hex = λ s. s;
  uuid_string = λ id. "00000014-0000";
  uuid_parse = λ s. some 20;
  pin_matches = λ hash pin. true;
  hash_pin = λ pin. some pin;
  has_redis = true;
  paystack_bank = "test-bank";
  ties = λ limit offset x y. true;
  mono_verify = λ signature body. str_eq signature "mono-ok";
  paystack_verify = λ signature body. str_eq signature "paystack-ok";
  create_customer = λ n req. some "CUS";
  assign_dva = λ n customer bank.
      some (record { account_number = "9911111111"; account_name = "Ada"; bank_name = "Wema" });
  generate_connect_url =
      λ n ref name email. some (record { mono_url = "https://link"; customer = "cust" });
  customer_accounts = λ customer. some [];
  exchange_code = λ code. some "acc";
  sync_account = λ id. none;
  fields_of = λ s. s ∷ [];
  atoi = λ s. if str_eq s "2" then some (pos 2) else none;
  parse_time = λ s. none;
  unix_milli = λ n. "100000000";
}

abbrev pub user : User
user = record {
  id = 1;
  phone = "+2348000000000";
  email = "";
  full_name = "Ada";
  bvn_hash = "";
  nin_hash = "";
  kyc_level = KycLevel.basic;
  pin_hash = "h";
  biometric_enabled = false;
  biometric_public_key = "";
  created_at = 0;
  updated_at = 0;
}

abbrev pub wallet : Wallet
wallet = record {
  id = 10;
  user_id = 1;
  wallet_type = WalletType.user;
  balance = pos 50000;
  ledger_balance = pos 50000;
  currency = "NGN";
  created_at = 0;
  updated_at = 0;
}

abbrev pub bank : BankAccount
bank = record {
  id = 20;
  user_id = 1;
  provider = "mono";
  provider_token = "tok";
  account_number = "0123456789";
  account_name = "Ada";
  bank_code = "058";
  bank_name = "GTBank";
  priority = 1;
  min_balance = pos 10000;
  last_balance = pos 100000;
  is_active = true;
  is_verified = true;
  created_at = 0;
  updated_at = 0;
}

abbrev pub account : WalletAccount
account = record {
  id = 30;
  user_id = 1;
  provider = "paystack";
  provider_ref = "dva";
  account_number = "9900000000";
  account_name = "Ada";
  bank_name = "Wema";
  bank_code = "035";
  is_active = true;
  is_default = true;
  created_at = 0;
  updated_at = 0;
}

abbrev pub deposit : WalletDeposit
deposit = record {
  id = 31;
  wallet_account_id = 30;
  user_id = 1;
  amount = pos 50000;
  fee = pos 0;
  provider = "paystack";
  provider_ref = "D1";
  sender_account = "";
  sender_bank = "";
  status = "COMPLETED";
  reconciled = false;
  created_at = 0;
}

abbrev pub request : BankFundRequest
request = record {
  id = 40;
  user_id = 1;
  bank_account_id = 20;
  reference = "F1";
  amount = pos 20000;
  status = BankFundStatus.completed;
  provider_ref = "";
  payment_url = "";
  failure_reason = "";
  created_at = 0;
  completed_at = some 5;
}

abbrev pub transfer : Transaction
transfer = record {
  id = 50;
  user_id = 1;
  parent_id = none;
  txn_type = TransactionType.debit_leg;
  amount = pos 700;
  fee = pos 0;
  currency = "NGN";
  status = TransactionStatus.completed;
  source_account_id = none;
  source_provider = "";
  recipient_account = "0000000001";
  recipient_bank_code = "058";
  recipient_name = "Bola";
  provider_ref = "";
  our_ref = "WVF-1";
  idempotency_key = "K1";
  failure_reason = "";
  created_at = 0;
  completed_at = some 3;
}

abbrev pub tables : Tables
tables = record {
  users = user ∷ [];
  pin_attempts = [];
  wallets = wallet ∷ [];
  wallet_transactions = [];
  wallet_accounts = account ∷ [];
  wallet_deposits = deposit ∷ [];
  bank_accounts = bank ∷ [];
  transactions = transfer ∷ [];
  bank_fund_requests = request ∷ [];
  audit_logs = [];
  chat_messages = [];
}

abbrev pub world : World
world = record {
  tables = tables;
  snapshot = none;
  aborted = false;
  faults = [];
  now = 100000;
  drawn = 60;
  called = 0;
  effects = [];
  recipients = [];
  cache = [];
}

abbrev pub transfer_request : String → Amount → TransferRequest
transfer_request key amount = record {
  amount = amount;
  recipient_account = "0000000001";
  recipient_bank = "058";
  recipient_name = "Bola";
  idempotency_key = key;
}
