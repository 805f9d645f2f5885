-- ===== src/Service/WalletService/Issued.antt =====
-- `IssueWalletAccount`: one account for each user.
use weave_server.Provider.Answered.{call_provider_answered}
use weave_server.Prelude.{
  ◌≡◌, refl, ==_refl, String, ◌+◌, Bool, true, false, ◌&&◌, Option, none, some, List, [], ◌∷◌, ◌++◌,
  find, any, select, str_eq, ◌==◌, arith, Bool-cases, inl, inr,
}
use weave_server.Model.{Uuid, User, WalletAccount}
use weave_server.Db.{World, Tables, ok, ◌>>=◌, new_uuid}
use weave_server.Db.Fine.{Fine, query-Fine, statement-Fine}
use weave_server.Provider.{Env, AssignedAccount}
use weave_server.Repository.UserRepo.{get_by_id, selected}
use weave_server.Repository.WalletRepo.{
  get_wallet_account_by_user_id, has_user, create_wallet_account, insert_account, preferred,
}
use weave_server.Service.WalletService.{get_wallet_account}
use weave_server.Service.WalletService.Accounts.{
  issue_wallet_account, assign_account, issued_account, customer_request,
}

-- The account that is the user's, as the service finds it.
abbrev pub account_of : Uuid → Tables → Option WalletAccount
account_of user_id t =
    preferred none (select (λ a. a.user_id == user_id && a.is_active) t.wallet_accounts)

-- On a connection that works, a user who has an active account is given it again: nothing is
-- written and Paystack is not asked.
pub issue_wallet_account_again :
    (env : Env) (user_id : Uuid) (account : WalletAccount) (w : World)
    → Fine w
    → account_of user_id w.tables ≡ some account
    → issue_wallet_account env user_id w ≡ (ok account, w)
unfolding issue_wallet_account get_wallet_account_by_user_id ◌>>=◌
issue_wallet_account_again env user_id account w fine found =
    simp (query-Fine (account_of user_id) w fine, found)

-- The account that Paystack assigned, as it is inserted.
abbrev pub new_account : Uuid → String → AssignedAccount → World → WalletAccount
new_account user_id customer dva w = record (issued_account user_id customer dva) {
  id = w.drawn;
  created_at = w.now;
  updated_at = w.now;
}

-- The world in which it is inserted, after two calls of Paystack.
abbrev pub with_account : WalletAccount → World → World
with_account account w = record w {
  called = w.called + 1 + 1;
  drawn = w.drawn + 1;
  tables = record w.tables { wallet_accounts = w.tables.wallet_accounts ++ account ∷ [] };
}

preferred_found : (as' : List WalletAccount) (a : WalletAccount) → preferred (some a) as' ≡ none → ⊥
preferred_found [] a h = ground arith
preferred_found (b ∷ bs) a h = preferred_found bs _ h

-- The only entry that passes the test is the one that is put at the end.
only_preferred :
    (p : WalletAccount → Bool) (account : WalletAccount) (xs : List WalletAccount)
    → p account ≡ true
    → preferred none (select p xs) ≡ none
    → preferred none (select p (xs ++ account ∷ [])) ≡ some account
only_preferred p account [] passing h = rw passing refl
only_preferred p account (x ∷ xs) passing h = elim (Bool-cases (p x)) [
  | inl hit ↦ elim (preferred_found (select p xs) x (rw hit at h)) [ ]
  | inr miss ↦ rw miss (only_preferred p account xs passing (rw miss at h))
]

create_account_lem :
    (account : WalletAccount) (w : World)
    → Fine w
    → account.is_active ≡ true
    → has_user account.user_id w.tables ≡ true
    → any (λ r. str_eq r.account_number account.account_number) w.tables.wallet_accounts ≡ false
    → create_wallet_account account w ≡ (
      ok (record account { id = w.drawn; created_at = w.now; updated_at = w.now }),
      record w {
        drawn = w.drawn + 1;
        tables = record w.tables {
          wallet_accounts =
              w.tables.wallet_accounts
              ++ record account { id = w.drawn; created_at = w.now; updated_at = w.now } ∷ [];
        };
      },
    )
unfolding create_wallet_account insert_account new_uuid ◌>>=◌
create_account_lem account w fine active known new = simp (
  statement-Fine
      (insert_account
        (record account { id = w.drawn; is_active = true; created_at = w.now; updated_at = w.now }))
      (record w { drawn = w.drawn + 1 }) fine,
  known,
  new,
  active,
)

-- On a connection that works, with Paystack configured: where a user has no active account, and
-- Paystack creates the customer and assigns an account whose number is new, IssueWalletAccount
-- inserts that account and returns it, and from then on it returns the same account again, as
-- GetWalletAccount does, without a further call of Paystack.
pub issue_wallet_account_once :
    (env : Env) (user_id : Uuid) (u : User) (customer : String) (dva : AssignedAccount) (w : World)
    → Fine w
    → env.has_paystack ≡ true
    → account_of user_id w.tables ≡ none
    → selected (find (λ x. x.id == user_id) w.tables.users) ≡ some u
    → has_user user_id w.tables ≡ true
    → env.create_customer w.called (customer_request env u) ≡ some customer
    → env.assign_dva (w.called + 1) customer env.paystack_bank ≡ some dva
    → any (λ r. str_eq r.account_number dva.account_number) w.tables.wallet_accounts ≡ false
    → let account = new_account user_id customer dva w in
      let w' = with_account account w in
      (issue_wallet_account env user_id w ≡ (ok account, w'))
      × (issue_wallet_account env user_id w' ≡ (ok account, w'))
      × (get_wallet_account user_id w' ≡ (ok (some account), w'))
unfolding issue_wallet_account assign_account get_wallet_account_by_user_id get_wallet_account
    get_by_id ◌>>=◌
issue_wallet_account_once env user_id u customer dva w fine paystack free found known made assigned
      new =
    let account = new_account user_id customer dva w in
    let mine : account_of user_id (with_account account w).tables ≡ some account =
      only_preferred (λ a. a.user_id == user_id && a.is_active) account w.tables.wallet_accounts
        (rw (==_refl user_id) refl) free in
    (
      simp (
        query-Fine (account_of user_id) w fine,
        free,
        paystack,
        query-Fine (λ t. selected (find (λ x. x.id == user_id) t.users)) w fine,
        found,
        call_provider_answered (λ n. env.create_customer n (customer_request env u)) w customer
            made,
        call_provider_answered (λ n. env.assign_dva n customer env.paystack_bank)
            (record w { called = w.called + 1 }) dva assigned,
        create_account_lem (issued_account user_id customer dva)
            (record w { called = w.called + 1 + 1 }) fine refl known new,
      ),
      issue_wallet_account_again env user_id account (with_account account w) fine mine,
      simp (query-Fine (account_of user_id) (with_account account w) fine, mine),
    )
