-- ===== src/Service/Sourcing/Reads.antt =====
-- `BuildDebitPlan` on a database that answers, as a function of the wallet and the accounts read.
use weave_server.Prelude.{
  Option, none, some, List, ◌≡◌, refl, ◌∙◌, arith, Bool-cases, inl, inr, if◌then◌else◌,
}
use weave_server.Prelude.Int.{pos, ltb_ℤ, leb_ℤ}
use weave_server.Model.{Uuid, Amount, Wallet, BankAccount, DebitPlan}
use weave_server.Db.{
  wallet_not_found, or_fail, attempt, Tables, World, Result, ok, err, ◌>>=◌, insufficient_funds,
}
use weave_server.Db.Fine.{Fine, query-Fine}
use weave_server.Repository.WalletRepo.{user_wallet}
use weave_server.Repository.BankAccountRepo.{listed}
use weave_server.Repository.WalletRepo
use weave_server.Repository.BankAccountRepo
use weave_server.Service.WalletService.{get_balance}
use weave_server.Service.Sourcing.Plan.{refresh_bank_balances-listed}
use weave_server.Provider.{Env}
use weave_server.Service.Sourcing.{
  wallet_or_nil, source_debit, from_wallet, from_banks, stored_balances, build_debit_plan,
  with_total,
}

-- The user's accounts as the plan sees them.
abbrev pub accounts_of : Uuid → Tables → List BankAccount
accounts_of user t = listed user 100 0 t

-- The code after the reads, on the wallet and the accounts that were read.
abbrev pub outcome : Env → Amount → Option Wallet → List BankAccount → Result DebitPlan
outcome env amount wallet as' =
    let first = from_wallet wallet amount in
    let s = from_banks env (stored_balances as') as' first in
    if leb_ℤ first.remaining (pos 0)
    then ok (with_total amount first.plan)
    else if ltb_ℤ (pos 0) s.remaining
    then err insufficient_funds
    else ok (with_total amount s.plan)

source_debit-outcome :
    (env : Env) (user : Uuid) (amount : Amount) (wallet : Option Wallet) (w : World)
    → Fine w
    → source_debit env user amount wallet w
      ≡ (outcome env amount wallet (accounts_of user w.tables), w)
unfolding source_debit ◌>>=◌ BankAccountRepo.get_by_user_id
source_debit-outcome env user amount wallet w fine =
    elim (Bool-cases (leb_ℤ (from_wallet wallet amount).remaining (pos 0))) [
      | inl covered ↦ rw covered refl
      | inr short ↦ rw short (
          rw (query-Fine (listed user 100 0) w fine)
            (rw (refresh_bank_balances-listed env user 100 0 w w) (ground arith)))
    ]

wallet_or_nil-wallet :
    (env : Env) (user : Uuid) (amount : Amount) (wallet : Option Wallet) (w : World)
    → (attempt (or_fail wallet wallet_not_found) >>= λ found.
          wallet_or_nil found >>= source_debit env user amount)
        w
      ≡ source_debit env user amount wallet w
unfolding ◌>>=◌
wallet_or_nil-wallet env user amount none w = refl
wallet_or_nil-wallet env user amount (some x) w = refl

pub build_debit_plan-outcome :
    (env : Env) (user : Uuid) (amount : Amount) (w : World)
    → Fine w
    → build_debit_plan env user amount w
      ≡ (outcome env amount (user_wallet user w.tables) (accounts_of user w.tables), w)
unfolding build_debit_plan ◌>>=◌ get_balance WalletRepo.get_by_user_id
build_debit_plan-outcome env user amount w fine = rw (query-Fine (user_wallet user) w fine) (
    wallet_or_nil-wallet env user amount (user_wallet user w.tables) w
    ∙ source_debit-outcome env user amount (user_wallet user w.tables) w fine)
