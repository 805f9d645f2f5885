-- ===== src/Service/WalletService/Accounts.antt =====
-- internal/service/wallet_service.go: `IssueWalletAccount`, which gives a user an account at Paystack.
use Prim.Native.String.{◌++◌ as append}
use weave_server.Prelude.{String, true, not, List, [], ◌∷◌}
use weave_server.Model.{Uuid, User, WalletAccount}
use weave_server.Db.{
  M, pure, fail_if, or_fail, on_option, ◌>>=◌, ◌>>◌, paystack_not_configured, user_not_found,
}
use weave_server.Provider.{Env, CreateCustomerRequest, AssignedAccount, call_provider}
use weave_server.Repository.WalletRepo
use weave_server.Repository.UserRepo
use weave_server.Service.WalletService.{email_of}

-- `strings.Join(parts, " ")`
unfoldable pub join : List String → String
join [] = ""
join (x ∷ []) = x
join (x ∷ y ∷ ys) = append x (append " " (join (y ∷ ys)))

-- `splitName`, on the fields of the name.
abbrev pub first_and_last : List String → String × String
first_and_last [] = ("User", "Unknown")
first_and_last (x ∷ []) = (x, x)
first_and_last (x ∷ y ∷ ys) = (x, join (y ∷ ys))

abbrev pub split_name : Env → String → String × String
split_name env full = first_and_last (env.fields_of full)

abbrev pub customer_request : Env → User → CreateCustomerRequest
customer_request env user = record {
  email = email_of user;
  phone = user.phone;
  first_name = (split_name env user.full_name).0;
  last_name = (split_name env user.full_name).1;
}

-- The row of a new account; the INSERT draws its id and its times.
abbrev pub issued_account : Uuid → String → AssignedAccount → WalletAccount
issued_account user_id customer dva = record {
  id = 0;
  user_id = user_id;
  provider = "paystack";
  provider_ref = customer;
  account_number = dva.account_number;
  account_name = dva.account_name;
  bank_name = dva.bank_name;
  bank_code = "";
  is_active = true;
  is_default = true;
  created_at = 0;
  updated_at = 0;
}

-- `IssueWalletAccount` for a user without an account.
unfoldable pub assign_account : Env → Uuid → M WalletAccount
assign_account env user_id = do
  fail_if (not env.has_paystack) paystack_not_configured
  found ← UserRepo.get_by_id user_id
  user ← or_fail found user_not_found
  customer ← call_provider (λ n. env.create_customer n (customer_request env user))
  dva ← call_provider (λ n. env.assign_dva n customer env.paystack_bank)
  WalletRepo.create_wallet_account (issued_account user_id customer dva)

-- `IssueWalletAccount`
unfoldable pub issue_wallet_account : Env → Uuid → M WalletAccount
issue_wallet_account env user_id = do
  existing ← WalletRepo.get_wallet_account_by_user_id user_id
  on_option existing (assign_account env user_id) (λ account. pure account)
