-- ===== src/Handler/Banks/Owner.antt =====
-- Whose accounts the handlers of bank accounts touch.
use weave_server.Prelude.{
  ◌≡◌, refl, String, Bool, false, not, ◌||◌, none, some, List, [], ◌∷◌, find, any, select, ◌==◌,
  Bool-cases, inl, inr,
}
use weave_server.Model.{Uuid, BankAccount}
use weave_server.Db.{World, Tables}
use weave_server.Db.Fine.{Fine, query-Fine, statement-Fine}
use weave_server.Http.{answered, respond, error, status}
use weave_server.Provider.{Env}
use weave_server.Repository.BankAccountRepo.{get_by_id, delete, delete_row, is_source}
use weave_server.Service.WalletService.{owned_by}
use weave_server.Handler.Banks.{refresh_balance, unlink_bank}

-- On a connection that works, RefreshBalance of an account that is another user's, or of none, is
-- answered as one that is not there: no row changes and Mono is not asked.
pub refresh_balance_other :
    (env : Env) (user_id bank_id : Uuid) (id : String) (w : World)
    → Fine w
    → env.uuid_parse id ≡ some bank_id
    → owned_by user_id (find (λ a. a.id == bank_id) w.tables.bank_accounts) ≡ none
    → refresh_balance env (some user_id) id w
      ≡ (answered (respond 404 (error "bank_account_not_found")), w)
unfolding refresh_balance get_by_id
refresh_balance_other env user_id bank_id id w fine parsed other =
    rw (parsed, query-Fine (λ t. find (λ a. a.id == bank_id) t.bank_accounts) w fine, other) refl

-- Is the account referred to by a transaction or a request to fund a wallet?
abbrev pub is_used : Uuid → Tables → Bool
is_used id t =
    any (λ r. is_source id r.source_account_id) t.transactions
    || any (λ r. r.bank_account_id == id) t.bank_fund_requests

find-select-not :
    (id : Uuid) (xs : List BankAccount)
    → find (λ a. a.id == id) (select (λ a. not (a.id == id)) xs) ≡ none
find-select-not id [] = refl
find-select-not id (x ∷ xs) = elim (Bool-cases (x.id == id)) [
  | inl same ↦ rw same (find-select-not id xs)
  | inr other ↦ rw (other, other) (find-select-not id xs)
]

-- On a connection that works, UnlinkBank deletes an account that no transaction and no request
-- refers to, whoever's it is: the answer is the same for every user that is logged in, and the
-- account is gone.
pub unlink_bank_any :
    (env : Env) (user_id bank_id : Uuid) (id : String) (w : World)
    → Fine w
    → env.uuid_parse id ≡ some bank_id
    → is_used bank_id w.tables ≡ false
    → ((unlink_bank env (some user_id) id w).0 ≡ answered (respond 200 (status "deleted")))
      × (find (λ a. a.id == bank_id) (unlink_bank env (some user_id) id w).1.tables.bank_accounts
          ≡ none)
unfolding unlink_bank delete delete_row
unlink_bank_any env user_id bank_id id w fine parsed unused =
    rw (parsed, statement-Fine (delete_row bank_id) w fine, unused)
      (refl, find-select-not bank_id w.tables.bank_accounts)
