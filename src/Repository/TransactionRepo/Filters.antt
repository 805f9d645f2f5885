-- ===== src/Repository/TransactionRepo/Filters.antt =====
-- internal/repository/transaction_repo.go: the filtered lists of a user's transactions.
use weave_server.Prelude.{
  ℕ, String, str_eq, Bool, true, ◌&&◌, ◌||◌, Option, none, some, List, [], ◌∷◌, ◌==◌, if◌then◌else◌,
  select, any, leb, ltb, length, take, drop,
}
use weave_server.Prelude.Int.{ℤ, pos_part}
use weave_server.Model.{Uuid, Transaction, TransactionStatus, TransactionType, is_negative}
use weave_server.Db.{M, statement, query}

-- Statuses and types are texts, as in Go. A time that is zero is none.
pub record TransactionFilter : Type 0 where
  pub statuses : List String
  pub types : List String
  pub from : Option ℕ
  pub to : Option ℕ
  pub limit : ℤ
  pub offset : ℤ

abbrev pub status_text : TransactionStatus → String
status_text TransactionStatus.pending = "PENDING"
status_text TransactionStatus.processing = "PROCESSING"
status_text TransactionStatus.completed = "COMPLETED"
status_text TransactionStatus.failed = "FAILED"
status_text TransactionStatus.refunded = "REFUNDED"

abbrev pub type_text : TransactionType → String
type_text TransactionType.debit_leg = "debit_leg"
type_text TransactionType.payout_leg = "payout_leg"
type_text TransactionType.deposit = "deposit"
type_text TransactionType.txn_fee = "fee"
type_text TransactionType.refund = "refund"
type_text TransactionType.hold = "hold"
type_text TransactionType.release = "release"

-- `status IN (…)` and `type IN (…)`; the empty list is no condition.
abbrev pub is_in : List String → String → Bool
is_in [] text = true
is_in (s ∷ ss) text = any (λ x. str_eq x text) (s ∷ ss)

abbrev pub not_before : Option ℕ → ℕ → Bool
not_before none time = true
not_before (some from) time = leb from time

abbrev pub not_after : Option ℕ → ℕ → Bool
not_after none time = true
not_after (some to) time = leb time to

-- `buildFilterWhere`, with the condition on the user.
unfoldable pub passes : Uuid → TransactionFilter → Transaction → Bool
passes user_id filter txn =
    txn.user_id == user_id
    && is_in filter.statuses (status_text txn.status)
    && is_in filter.types (type_text txn.txn_type)
    && not_before filter.from txn.created_at
    && not_after filter.to txn.created_at

-- Which of two rows of the same time comes first. Nothing in the query says it, and PostgreSQL may
-- decide it anew for each LIMIT and OFFSET.
abbrev pub Ties : Type 0
Ties = (limit offset : ℤ) → Transaction → Transaction → Bool

-- ORDER BY created_at DESC
unfoldable pub place_newest :
    (Transaction → Transaction → Bool) → Transaction → List Transaction → List Transaction
place_newest tie x [] = x ∷ []
place_newest tie x (y ∷ ys) =
    let rest = place_newest tie x ys in
    if ltb y.created_at x.created_at || (y.created_at == x.created_at && tie x y)
    then x ∷ y ∷ ys
    else y ∷ rest

unfoldable pub newest_first :
    (Transaction → Transaction → Bool) → List Transaction → List Transaction
newest_first tie [] = []
newest_first tie (x ∷ xs) = place_newest tie x (newest_first tie xs)

-- LIMIT and OFFSET: PostgreSQL refuses the statement where one of them is negative.
unfoldable pub list_by_user_id : Ties → Uuid → TransactionFilter → M (List Transaction)
list_by_user_id ties user_id filter =
    if is_negative filter.limit || is_negative filter.offset
    then statement (λ t. none)
    else query (λ t. take (pos_part filter.limit) (
        drop (pos_part filter.offset) (
          newest_first (ties filter.limit filter.offset)
            (select (passes user_id filter) t.transactions))))

unfoldable pub count_by_user_id : Uuid → TransactionFilter → M ℕ
count_by_user_id user_id filter =
    query (λ t. length (select (passes user_id filter) t.transactions))
