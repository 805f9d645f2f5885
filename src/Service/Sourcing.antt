-- ===== src/Service/Sourcing.antt =====
-- internal/service/wallet_service.go: `SourcingEngine`, which splits a debit over the wallet and the
-- linked banks. Mono's answers about balances do not depend on the order of the goroutines.
pub mod Room
pub mod Loop
pub mod Plan
pub mod Reads
pub mod Build
pub mod Covers
use weave_server.Prelude.{
  not, ◌||◌, Option, none, some, List, [], ◌∷◌, ◌++◌, ◌==◌, str_eq, if◌then◌else◌,
}
use weave_server.Prelude.Int.{pos, ◌*ℤ◌, ltb_ℤ, leb_ℤ}
use weave_server.Model.{Uuid, Amount, add, sub, Wallet, BankAccount, DebitPlan}
use weave_server.Db.{
  on_option, M, pure, fail, attempt, ignore, ◌>>=◌, ◌>>◌, fail_if, Result, ok, err,
  wallet_not_found, insufficient_funds,
}
use weave_server.Repository.BankAccountRepo
use weave_server.Repository.AuditLogRepo
use weave_server.Provider.{Env, whole}
use weave_server.Service.WalletService.{get_balance}

-- ₦35, the fee of an NIP transfer
abbrev pub nip_fee : Amount
nip_fee = pos 3500

-- `map[uuid.UUID]model.Amount`; a missing key reads as 0.
abbrev pub Balances : Type 0
Balances = List (Uuid × Amount)

unfoldable pub balance_of : Uuid → Balances → Amount
balance_of id [] = pos 0
balance_of id ((j, b) ∷ bs) = if j == id then b else balance_of id bs

abbrev pub write_failure : Env → Uuid → M (Unit {0})
write_failure env user_id =
    if env.has_audit
    then ignore (AuditLogRepo.write (some user_id) "balance_refresh_failed" "failed")
    else pure tt

-- One goroutine of `refreshBankBalances`: Mono's balance, or the stored one.
unfoldable pub refresh_one : Env → Uuid → BankAccount → M Amount
refresh_one env user_id acct =
    if not (str_eq acct.provider "mono") || str_eq acct.provider_token ""
    then pure acct.last_balance
    else on_option (env.mono_balance acct.provider_token)
        (do write_failure env user_id; pure acct.last_balance)
        (λ balance. do
          let fresh = whole (balance *ℤ pos 100)
          ignore (BankAccountRepo.update_balance acct.id fresh)
          pure fresh)

unfoldable pub stored_balances : List BankAccount → Balances
stored_balances [] = []
stored_balances (a ∷ as') = (a.id, a.last_balance) ∷ stored_balances as'

unfoldable pub refresh_all : Env → Uuid → List BankAccount → M Balances
refresh_all env user_id [] = pure []
refresh_all env user_id (a ∷ as') = do
  b ← refresh_one env user_id a
  bs ← refresh_all env user_id as'
  pure ((a.id, b) ∷ bs)

-- `refreshBankBalances`
unfoldable pub refresh_bank_balances : Env → Uuid → List BankAccount → M Balances
refresh_bank_balances env user_id accounts =
    if env.has_mono then refresh_all env user_id accounts else pure (stored_balances accounts)

-- A plan in the making, and what it does not cover yet.
pub record Sourced : Type 0 where
  pub plan : DebitPlan
  pub remaining : Amount

abbrev pub no_plan : DebitPlan
no_plan = record { legs = []; total = pos 0; fees = pos 0 }

abbrev pub at_most : Amount → Amount → Amount
at_most limit x = if ltb_ℤ limit x then limit else x

-- The wallet comes first, up to its ledger balance.
unfoldable pub from_wallet : Option Wallet → Amount → Sourced
from_wallet none amount = record { plan = no_plan; remaining = amount }
from_wallet (some wallet) amount =
    if ltb_ℤ (pos 0) wallet.ledger_balance
    then (let taken = at_most amount wallet.ledger_balance in
        record {
          plan = record no_plan {
            legs =
                record {
                  source = "wallet";
                  amount = taken;
                  fee = pos 0;
                  bank_name = "Weave Wallet";
                }
                ∷ [];
          };
          remaining = sub amount taken;
        })
    else record { plan = no_plan; remaining = amount }

-- The plan with a leg that takes `taken` from a bank.
abbrev pub draw : Env → BankAccount → Amount → Sourced → Sourced
draw env acct taken s = record {
  plan = record s.plan {
    legs =
        s.plan.legs
        ++ record {
          source = env.uuid_string acct.id;
          amount = taken;
          fee = nip_fee;
          bank_name = acct.bank_name;
        }
          ∷ [];
    fees = add s.plan.fees nip_fee;
  };
  remaining = sub s.remaining taken;
}

-- The loop over the linked banks, in the order of their priority.
unfoldable pub from_banks : Env → Balances → List BankAccount → Sourced → Sourced
from_banks env live [] s = s
from_banks env live (acct ∷ rest) s =
    let available = sub (balance_of acct.id live) acct.min_balance in
    let drawn = draw env acct (at_most s.remaining available) s in
    let skipped = from_banks env live rest s in
    let drawn_on = from_banks env live rest drawn in
    if not acct.is_active || not acct.is_verified
    then skipped
    else if leb_ℤ available (pos 0)
    then skipped
    else if leb_ℤ drawn.remaining (pos 0)
    then drawn
    else drawn_on

-- The wallet, or nil where the user has none; another error ends the plan.
abbrev pub wallet_or_nil : Result Wallet → M (Option Wallet)
wallet_or_nil (ok wallet) = pure (some wallet)
wallet_or_nil (err wallet_not_found) = pure none
wallet_or_nil (err e) = fail e

abbrev pub with_total : Amount → DebitPlan → DebitPlan
with_total amount plan = record plan { total = amount }

-- `BuildDebitPlan` from the wallet on.
unfoldable pub source_debit : Env → Uuid → Amount → Option Wallet → M DebitPlan
source_debit env user_id amount wallet =
    let first = from_wallet wallet amount in
    if leb_ℤ first.remaining (pos 0) then pure (with_total amount first.plan) else do
      accounts ← BankAccountRepo.get_by_user_id user_id 100 0
      live ← refresh_bank_balances env user_id accounts
      let s = from_banks env live accounts first
      fail_if (ltb_ℤ (pos 0) s.remaining) insufficient_funds
      pure (with_total amount s.plan)

-- `BuildDebitPlan`
unfoldable pub build_debit_plan : Env → Uuid → Amount → M DebitPlan
build_debit_plan env user_id amount = do
  found ← attempt (get_balance user_id)
  wallet ← wallet_or_nil found
  source_debit env user_id amount wallet
