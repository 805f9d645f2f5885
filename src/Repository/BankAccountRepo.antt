-- ===== src/Repository/BankAccountRepo.antt =====
-- internal/repository/bank_account_repo.go, with the constraint of 000002.
pub mod Order
use weave_server.Prelude.{
  ℕ, Bool, false, not, ◌&&◌, ◌||◌, Option, none, some, List, [], ◌∷◌, ◌++◌, find, any, map, ◌==◌,
  str_eq, if◌then◌else◌, select, take, drop, ltb, leb,
}
use weave_server.Prelude.Int.{ℤ, pos_part}
use weave_server.Model.{Uuid, Amount, BankAccount, is_negative}
use weave_server.Db.{Tables, M, gets, ◌>>=◌, new_uuid, statement, query}
use weave_server.Db.Rows.{update_rows, unchecked}

abbrev same_account : BankAccount → BankAccount → Bool
same_account ba r = r.user_id == ba.user_id && str_eq r.account_number ba.account_number

unfoldable pub update_bank_accounts :
    (BankAccount → Bool) → (BankAccount → BankAccount) → Tables → Option (Unit {0} × Tables)
update_bank_accounts p f t = elim (update_rows p f unchecked t.bank_accounts) [
  | none ↦ none
  | some rs ↦ some (tt, record t { bank_accounts = rs })
]

-- ON CONFLICT (user_id, account_number) DO UPDATE: the old row keeps its id, priority and cushion.
refresh : BankAccount → BankAccount → BankAccount
refresh ba r = record r {
  last_balance = ba.last_balance;
  provider_token = ba.provider_token;
  is_active = ba.is_active;
  is_verified = ba.is_verified;
  updated_at = ba.updated_at;
}

-- `ba` with the id and times that RETURNING gives.
abbrev returning : BankAccount → BankAccount → BankAccount
returning ba r = record ba { id = r.id; created_at = r.created_at; updated_at = ba.updated_at }

abbrev pub after_update : BankAccount → Option (Unit {0} × Tables) → Option (BankAccount × Tables)
after_update ba none = none
after_update ba (some (_, t)) = some (ba, t)

-- With the row that has the user and the account number, if there is one.
unfoldable pub insert_or_refresh :
    BankAccount → Option BankAccount → Tables → Option (BankAccount × Tables)
unfolding refresh
insert_or_refresh ba none t = some (ba, record t { bank_accounts = t.bank_accounts ++ ba ∷ [] })
insert_or_refresh ba (some old) t =
    after_update (returning ba old) (update_bank_accounts (same_account ba) (refresh ba) t)

unfoldable pub upsert : BankAccount → Tables → Option (BankAccount × Tables)
upsert ba t =
    if not (any (λ u. u.id == ba.user_id) t.users)
    then none
    else insert_or_refresh ba (find (same_account ba) t.bank_accounts) t

unfoldable pub create : BankAccount → M BankAccount
unfolding upsert
create ba = do
  id ← new_uuid
  now ← gets (λ w. w.now)
  statement (upsert (record ba { id = id; created_at = now; updated_at = now }))

-- ORDER BY priority ASC, created_at ASC
abbrev pub goes_first : BankAccount → BankAccount → Bool
goes_first a b =
    ltb a.priority b.priority || (a.priority == b.priority && leb a.created_at b.created_at)

abbrev pub place : BankAccount → List BankAccount → List BankAccount
place x [] = x ∷ []
place x (y ∷ ys) = if goes_first x y then x ∷ y ∷ ys else y ∷ place x ys

unfoldable pub in_order : List BankAccount → List BankAccount
in_order [] = []
in_order (x ∷ xs) = place x (in_order xs)

-- The list does not read `provider_token`: it is "" in each account.
abbrev pub without_token : BankAccount → BankAccount
without_token a = record a { provider_token = "" }

-- SELECT … FROM bank_accounts WHERE user_id = $1 ORDER BY … LIMIT $2 OFFSET $3
abbrev pub listed : Uuid → (limit offset : ℕ) → Tables → List BankAccount
listed user_id limit offset t =
    map without_token
      (take limit (drop offset (in_order (select (λ a. a.user_id == user_id) t.bank_accounts))))

unfoldable pub get_by_user_id : Uuid → (limit offset : ℕ) → M (List BankAccount)
get_by_user_id user_id limit offset = query (listed user_id limit offset)

-- The same with LIMIT and OFFSET as they are sent: PostgreSQL refuses a negative one.
unfoldable pub get_page : Uuid → (limit offset : ℤ) → M (List BankAccount)
get_page user_id limit offset =
    if is_negative limit || is_negative offset
    then statement (λ t. none)
    else get_by_user_id user_id (pos_part limit) (pos_part offset)

unfoldable pub get_by_id : Uuid → M (Option BankAccount)
get_by_id id = query (λ t. find (λ a. a.id == id) t.bank_accounts)

unfoldable pub update_priority : Uuid → ℕ → M (Unit {0})
update_priority id priority = do
  now ← gets (λ w. w.now)
  statement (
      update_bank_accounts (λ a. a.id == id)
        (λ a. record a { priority = priority; updated_at = now }))

unfoldable pub update_balance : Uuid → Amount → M (Unit {0})
update_balance id balance = do
  now ← gets (λ w. w.now)
  statement (
      update_bank_accounts (λ a. a.id == id)
        (λ a. record a { last_balance = balance; updated_at = now }))

abbrev pub is_source : Uuid → Option Uuid → Bool
is_source id none = false
is_source id (some source) = source == id

-- A row that a transaction or a fund request refers to cannot be deleted.
unfoldable pub delete_row : Uuid → Tables → Option (Unit {0} × Tables)
delete_row id t =
    if any (λ r. is_source id r.source_account_id) t.transactions
      || any (λ r. r.bank_account_id == id) t.bank_fund_requests
    then none
    else some (tt, record t { bank_accounts = select (λ a. not (a.id == id)) t.bank_accounts })

unfoldable pub delete : Uuid → M (Unit {0})
unfolding delete_row
delete id = statement (delete_row id)
