-- ===== src/Repository/TransactionRepo.antt =====
-- internal/repository/transaction_repo.go: the ledger of transfers.
pub mod Filters
use weave_server.Prelude.{
  ℕ, String, Bool, true, false, not, ◌&&◌, Option, none, some, List, [], ◌∷◌, ◌++◌, find, any, ◌==◌,
  str_eq, if◌then◌else◌, select, leb,
}
use weave_server.Model.{Uuid, Transaction, CreateTransactionInput, TransactionStatus}
use weave_server.Db.{Tables, M, gets, ◌>>=◌, new_uuid, statement, query}
use weave_server.Db.Rows.{update_rows, unchecked}

-- A reference to a row that may be NULL.
abbrev refers : Option Uuid → (Uuid → Bool) → Bool
refers none exists_ = true
refers (some id) exists_ = exists_ id

unfoldable pub insert : Transaction → Tables → Option (Transaction × Tables)
insert txn t =
    if any (λ u. u.id == txn.user_id) t.users
      && refers txn.parent_id (λ id. any (λ r. r.id == id) t.transactions)
      && refers txn.source_account_id (λ id. any (λ b. b.id == id) t.bank_accounts)
      && not (any (λ r. str_eq r.our_ref txn.our_ref) t.transactions)
    then some (txn, record t { transactions = t.transactions ++ txn ∷ [] })
    else none

-- The row that `Create` inserts; the columns that the INSERT leaves out read back as "" or NULL.
abbrev pub new_row : CreateTransactionInput → Uuid → ℕ → Transaction
new_row input id now = record {
  id = id;
  user_id = input.user_id;
  parent_id = input.parent_id;
  txn_type = input.txn_type;
  amount = input.amount;
  fee = input.fee;
  currency = input.currency;
  status = TransactionStatus.pending;
  source_account_id = input.source_account_id;
  source_provider = input.source_provider;
  recipient_account = input.recipient_account;
  recipient_bank_code = input.recipient_bank_code;
  recipient_name = input.recipient_name;
  provider_ref = "";
  our_ref = input.our_ref;
  idempotency_key = input.idempotency_key;
  failure_reason = "";
  created_at = now;
  completed_at = none;
}

unfoldable pub create : CreateTransactionInput → M Transaction
unfolding insert
create input = do id ← new_uuid; now ← gets (λ w. w.now); statement (insert (new_row input id now))

unfoldable pub get_by_id : Uuid → M (Option Transaction)
get_by_id id = query (λ t. find (λ r. r.id == id) t.transactions)

unfoldable pub get_by_our_ref : String → M (Option Transaction)
get_by_our_ref our_ref = query (λ t. find (λ r. str_eq r.our_ref our_ref) t.transactions)

abbrev is_child : Uuid → Option Uuid → Bool
is_child id none = false
is_child id (some parent) = parent == id

-- ORDER BY created_at ASC
abbrev by_age : Transaction → List Transaction → List Transaction
by_age x [] = x ∷ []
by_age x (y ∷ ys) = if leb x.created_at y.created_at then x ∷ y ∷ ys else y ∷ by_age x ys

abbrev sort_by_age : List Transaction → List Transaction
sort_by_age [] = []
sort_by_age (x ∷ xs) = by_age x (sort_by_age xs)

unfoldable pub get_by_parent_id : Uuid → M (List Transaction)
get_by_parent_id id =
    query (λ t. sort_by_age (select (λ r. is_child id r.parent_id) t.transactions))

unfoldable pub update_transactions :
    (Transaction → Bool) → (Transaction → Transaction) → Tables → Option (Unit {0} × Tables)
update_transactions p f t = elim (update_rows p f unchecked t.transactions) [
  | none ↦ none
  | some rs ↦ some (tt, record t { transactions = rs })
]

-- Only a status in which a transfer ends sets `completed_at`.
abbrev pub is_terminal : TransactionStatus → Bool
is_terminal TransactionStatus.completed = true
is_terminal TransactionStatus.failed = true
is_terminal TransactionStatus.pending = false
is_terminal TransactionStatus.processing = false
is_terminal TransactionStatus.refunded = false

unfoldable pub update_status : Uuid → TransactionStatus → String → M (Unit {0})
update_status id status failure_reason = do
  now ← gets (λ w. w.now)
  if is_terminal status
      then statement (
          update_transactions (λ r. r.id == id)
            (λ r. record r {
              status = status;
              failure_reason = failure_reason;
              completed_at = some now;
            }))
      else statement (
          update_transactions (λ r. r.id == id)
            (λ r. record r { status = status; failure_reason = failure_reason }))

unfoldable pub update_provider_ref : Uuid → String → M (Unit {0})
update_provider_ref id provider_ref =
    statement
      (update_transactions (λ r. r.id == id) (λ r. record r { provider_ref = provider_ref }))

unfoldable pub get_by_idempotency_key : String → M (Option Transaction)
get_by_idempotency_key key = query (λ t. find (λ r. str_eq r.idempotency_key key) t.transactions)
