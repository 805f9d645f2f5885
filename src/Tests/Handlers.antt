-- ===== src/Tests/Handlers.antt =====
-- The theorems on the handlers, at the example's user.
use weave_server.Prelude.{◌≡◌, refl, some, [], arith}
use weave_server.Prelude.Int.{pos, ◌≤ℤ◌}
use weave_server.Db.{World, ok}
use weave_server.Service.WalletService.{get_wallet_account}
use weave_server.Service.WalletService.Accounts.{issue_wallet_account}
use weave_server.Service.WalletService.Issued.{new_account, with_account, issue_wallet_account_once}
use weave_server.Handler.Response.{parse_pagination}
use weave_server.Handler.Webhooks.{PaystackPayload, paystack_deposit}
use weave_server.Handler.Webhooks.Signature.{bad_signature, paystack_deposit_signature}
use weave_server.Handler.Transfers.Pages.{parse_pagination_bounds}
use weave_server.Provider.{AssignedAccount}
use weave_server.Model.{WalletAccount}
use weave_server.Tests.{env, world, tables, user}

abbrev charge : PaystackPayload
charge = record {
  event = "charge.success";
  amount = pos 900;
  reference = "D9";
  fees = pos 0;
  account_number = "9900000000";
}

paystack_deposit_signature_example :
    (paystack_deposit env "forged" "{}" (some charge) world ≡ bad_signature world)
    × (paystack_deposit env "" "{}" (some charge) world
        ≡ paystack_deposit env "paystack-ok" "{}" (some charge) world)
paystack_deposit_signature_example =
    paystack_deposit_signature env "forged" "paystack-ok" "{}" (some charge) world refl refl refl
      refl

parse_pagination_bounds_example :
    let (p, n) = parse_pagination env.atoi "2" "500" (pos 1) (pos 20) in
    (pos 1 ≤ℤ p) × (pos 1 ≤ℤ n) × (n ≤ℤ pos 100)
parse_pagination_bounds_example =
    parse_pagination_bounds env.atoi "2" "500" (pos 1) (pos 20) (omega arith) (omega arith)

-- A user without an account.
abbrev bare : World
bare = record world { tables = record tables { wallet_accounts = [] } }

abbrev assigned : AssignedAccount
assigned = record { account_number = "9911111111"; account_name = "Ada"; bank_name = "Wema" }

abbrev made : WalletAccount
made = new_account 1 "CUS" assigned bare

issue_wallet_account_once_example :
    (issue_wallet_account env 1 bare ≡ (ok made, with_account made bare))
    × (issue_wallet_account env 1 (with_account made bare) ≡ (ok made, with_account made bare))
    × (get_wallet_account 1 (with_account made bare) ≡ (ok (some made), with_account made bare))
issue_wallet_account_once_example =
    issue_wallet_account_once env 1 user "CUS" assigned bare (refl, refl) refl refl refl refl refl
      refl refl
