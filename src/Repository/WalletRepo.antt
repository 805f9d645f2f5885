-- ===== src/Repository/WalletRepo.antt =====
-- internal/repository/wallet_repo.go, over the tables of 000001_initial.up.sql.
pub mod Valid
pub mod Change
use weave_server.Prelude.{
  ◌^◌, ◌||◌, select, String, Bool, true, false, not, ◌&&◌, Option, none, some, List, [], ◌∷◌, ◌++◌,
  find, any, ◌==◌, str_eq, ltb, if◌then◌else◌,
}
use weave_server.Prelude.Int.{pos, ◌+ℤ◌, ◌-ℤ◌, leb_ℤ, pos_part}
use weave_server.Model.{
  Uuid, Amount, Wallet, WalletType, WalletAccount, WalletTransaction, WalletDeposit,
}
use weave_server.Db.{
  Tables, M, pure, gets, ◌>>=◌, ◌>>◌, fail_if, new_uuid, statement, query,
  insufficient_wallet_balance, insufficient_available_balance,
}
use weave_server.Db.Rows.{update_rows}

-- The CHECK constraints of `wallets`, with the range of BIGINT.
abbrev pub wallet_check : Wallet → Bool
wallet_check w =
    leb_ℤ (pos 0) w.balance
    && leb_ℤ (pos 0) w.ledger_balance
    && leb_ℤ w.ledger_balance w.balance
    && ltb (pos_part w.balance) (2 ^ 63)

abbrev pub has_user : Uuid → Tables → Bool
has_user u t = any (λ r. r.id == u) t.users

abbrev pub is_user_type : WalletType → Bool
is_user_type WalletType.user = true
is_user_type WalletType.settlement = false
is_user_type WalletType.fee = false

insert_wallet : Wallet → Tables → Option (Wallet × Tables)
insert_wallet wallet t =
    if has_user wallet.user_id t
      && not (any (λ r. r.user_id == wallet.user_id) t.wallets)
      && wallet_check wallet
    then some (wallet, record t { wallets = t.wallets ++ wallet ∷ [] })
    else none

-- `Create`: the wallet comes back with its id and times.
unfoldable pub create : Wallet → M Wallet
unfolding insert_wallet
create wallet = do
  id ← new_uuid
  now ← gets (λ w. w.now)
  statement (insert_wallet (record wallet { id = id; created_at = now; updated_at = now }))

-- SELECT … FROM wallets WHERE user_id = $1 AND type = 'user'
abbrev pub user_wallet : Uuid → Tables → Option Wallet
user_wallet user_id t = find (λ w. w.user_id == user_id && is_user_type w.wallet_type) t.wallets

unfoldable pub get_by_user_id : Uuid → M (Option Wallet)
get_by_user_id user_id = query (user_wallet user_id)

unfoldable pub get_by_id : Uuid → M (Option Wallet)
get_by_id id = query (λ t. find (λ w. w.id == id) t.wallets)

-- UPDATE wallets SET f WHERE p: whether it touched a row.
unfoldable pub update_wallets :
    (Wallet → Bool) → (Wallet → Wallet) → Tables → Option (Bool × Tables)
update_wallets p f t = elim (update_rows p f wallet_check t.wallets) [
  | none ↦ none
  | some ws ↦ some (any p t.wallets, record t { wallets = ws })
]

unfoldable pub credit : Uuid → Amount → M (Unit {0})
credit id amount = do
  now ← gets (λ w. w.now)
  statement (
      update_wallets (λ w. w.id == id)
        (λ w. record w {
          balance = w.balance +ℤ amount;
          ledger_balance = w.ledger_balance +ℤ amount;
          updated_at = now;
        }))
  pure tt

unfoldable pub debit : Uuid → Amount → M (Unit {0})
debit id amount = do
  now ← gets (λ w. w.now)
  touched ← statement (
      update_wallets (λ w. w.id == id && leb_ℤ amount w.balance && leb_ℤ amount w.ledger_balance)
        (λ w. record w {
          balance = w.balance -ℤ amount;
          ledger_balance = w.ledger_balance -ℤ amount;
          updated_at = now;
        }))
  fail_if (not touched) insufficient_wallet_balance

unfoldable pub hold : Uuid → Amount → M (Unit {0})
hold id amount = do
  now ← gets (λ w. w.now)
  touched ← statement (
      update_wallets (λ w. w.id == id && leb_ℤ amount w.ledger_balance)
        (λ w. record w { ledger_balance = w.ledger_balance -ℤ amount; updated_at = now }))
  fail_if (not touched) insufficient_available_balance

unfoldable pub release_hold : Uuid → Amount → M (Unit {0})
release_hold id amount = do
  now ← gets (λ w. w.now)
  statement (
      update_wallets (λ w. w.id == id)
        (λ w. record w { ledger_balance = w.ledger_balance +ℤ amount; updated_at = now }))
  pure tt

unfoldable pub insert_transaction : WalletTransaction → Tables → Option (Unit {0} × Tables)
insert_transaction wt t =
    if any (λ r. r.id == wt.wallet_id) t.wallets
      && not (any (λ r. str_eq r.reference wt.reference) t.wallet_transactions)
    then some (tt, record t { wallet_transactions = t.wallet_transactions ++ wt ∷ [] })
    else none

unfoldable pub record_transaction : WalletTransaction → M (Unit {0})
unfolding insert_transaction
record_transaction wt = do
  id ← new_uuid
  now ← gets (λ w. w.now)
  statement (insert_transaction (record wt { id = id; created_at = now }))

unfoldable pub insert_account : WalletAccount → Tables → Option (WalletAccount × Tables)
insert_account wa t =
    if has_user wa.user_id t
      && not (any (λ r. str_eq r.account_number wa.account_number) t.wallet_accounts)
    then some (wa, record t { wallet_accounts = t.wallet_accounts ++ wa ∷ [] })
    else none

-- `is_active` is not in the INSERT: the row takes the column's default, TRUE.
unfoldable pub create_wallet_account : WalletAccount → M WalletAccount
unfolding insert_account
create_wallet_account wa = do
  id ← new_uuid
  now ← gets (λ w. w.now)
  statement
      (insert_account (record wa { id = id; is_active = true; created_at = now; updated_at = now }))

-- Does `a` stand before `b` in ORDER BY is_default DESC, created_at DESC?
abbrev before : WalletAccount → WalletAccount → Bool
before a b =
    if a.is_default
    then not b.is_default || ltb b.created_at a.created_at
    else not b.is_default && ltb b.created_at a.created_at

abbrev pub preferred : Option WalletAccount → List WalletAccount → Option WalletAccount
preferred best [] = best
preferred none (a ∷ as') = preferred (some a) as'
preferred (some b) (a ∷ as') = preferred (some (if before a b then a else b)) as'

unfoldable pub get_wallet_account_by_user_id : Uuid → M (Option WalletAccount)
get_wallet_account_by_user_id user_id =
    query
      (λ t. preferred none (select (λ a. a.user_id == user_id && a.is_active) t.wallet_accounts))

unfoldable pub get_wallet_account_by_number : String → M (Option WalletAccount)
get_wallet_account_by_number number =
    query (λ t. find (λ a. str_eq a.account_number number && a.is_active) t.wallet_accounts)

unfoldable pub insert_deposit : WalletDeposit → Tables → Option (Unit {0} × Tables)
insert_deposit d t =
    if any (λ r. r.id == d.wallet_account_id) t.wallet_accounts
      && has_user d.user_id t
      && not (any (λ r. str_eq r.provider_ref d.provider_ref) t.wallet_deposits)
    then some (tt, record t { wallet_deposits = t.wallet_deposits ++ d ∷ [] })
    else none

unfoldable pub record_deposit : WalletDeposit → M (Unit {0})
unfolding insert_deposit
record_deposit d = do
  id ← new_uuid
  now ← gets (λ w. w.now)
  statement (insert_deposit (record d { id = id; reconciled = false; created_at = now }))
