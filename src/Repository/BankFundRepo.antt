-- ===== src/Repository/BankFundRepo.antt =====
-- internal/repository/bank_fund_repo.go: the requests to fund a wallet from a bank.
use weave_server.Prelude.{
  ℕ, String, Bool, true, false, not, ◌&&◌, ◌+◌, Option, none, some, List, [], ◌∷◌, ◌++◌, find, any,
  ◌==◌, str_eq, if◌then◌else◌, ltb,
}
use weave_server.Prelude.Int.{pos, ◌+ℤ◌}
use weave_server.Model.{Uuid, Amount, BankFundRequest, BankFundStatus}
use weave_server.Db.{Tables, M, gets, ◌>>=◌, new_uuid, statement, query}
use weave_server.Db.Rows.{update_rows, unchecked}

unfoldable pub insert : BankFundRequest → Tables → Option (BankFundRequest × Tables)
insert req t =
    if any (λ u. u.id == req.user_id) t.users
      && any (λ a. a.id == req.bank_account_id) t.bank_accounts
      && not (any (λ r. str_eq r.reference req.reference) t.bank_fund_requests)
    then some (req, record t { bank_fund_requests = t.bank_fund_requests ++ req ∷ [] })
    else none

unfoldable pub create : BankFundRequest → M BankFundRequest
unfolding insert
create req = do
  id ← new_uuid
  now ← gets (λ w. w.now)
  statement (insert (record req { id = id; created_at = now }))

unfoldable pub get_by_reference : String → M (Option BankFundRequest)
get_by_reference ref = query (λ t. find (λ r. str_eq r.reference ref) t.bank_fund_requests)

unfoldable pub update_requests :
    (BankFundRequest → Bool)
    → (BankFundRequest → BankFundRequest)
    → Tables
    → Option (Unit {0} × Tables)
update_requests p f t = elim (update_rows p f unchecked t.bank_fund_requests) [
  | none ↦ none
  | some rs ↦ some (tt, record t { bank_fund_requests = rs })
]

abbrev pub is_completed : BankFundStatus → Bool
is_completed BankFundStatus.completed = true
is_completed BankFundStatus.pending = false
is_completed BankFundStatus.failed = false

-- Every column is overwritten: `completed_at` becomes NULL unless the status is "completed".
unfoldable pub update_status : String → BankFundStatus → String → String → M (Unit {0})
update_status ref status provider_ref failure_reason = do
  now ← gets (λ w. w.now)
  statement (
      update_requests (λ r. str_eq r.reference ref)
        (λ r. record r {
          status = status;
          provider_ref = provider_ref;
          failure_reason = failure_reason;
          completed_at = if is_completed status then some now else none;
        }))

-- The requests that the sum counts: completed, and made in the last 24 hours.
abbrev pub counts : Uuid → ℕ → BankFundRequest → Bool
counts user_id now r =
    r.user_id == user_id && is_completed r.status && ltb now (r.created_at + 86400)

abbrev pub sum_requests : (BankFundRequest → Bool) → List BankFundRequest → Amount
sum_requests p [] = pos 0
sum_requests p (r ∷ rs) = if p r then r.amount +ℤ sum_requests p rs else sum_requests p rs

unfoldable pub sum_completed_today : Uuid → M Amount
sum_completed_today user_id = do
  now ← gets (λ w. w.now)
  query (λ t. sum_requests (counts user_id now) t.bank_fund_requests)
