-- ===== src/Service/WalletService/Webhooks.antt =====
-- The webhooks of Paystack and Mono that add money: a delivery that has been handled before.
use weave_server.Prelude.{
  ◌⊎◌, ◌≡◌, refl, String, Bool, true, false, Option, none, some, any, find, ◌&&◌, str_eq, arith,
  Option-cases, ◌+◌, inl, inr,
}
use weave_server.Model.{Amount, WalletDeposit, BankFundRequest}
use weave_server.Db.{M, continue, Tables, World, Result, ok, err, ◌>>=◌, new_uuid}
use weave_server.Db.Fine.{Fine, query-Fine, statement-Fine}
use weave_server.Provider.{Env}
use weave_server.Repository.WalletRepo.{
  record_deposit, insert_deposit, get_wallet_account_by_number,
}
use weave_server.Repository.BankFundRepo.{get_by_reference, is_completed}
use weave_server.Service.WalletService.{
  process_deposit_webhook, complete_fund_from_bank, deposit_row,
}

-- The action failed, and left the tables and the outside world as they were.
abbrev pub Refused : {A : Type 0} → World → Result A × World → Type 0
Refused w (ok a, v) = ⊥
Refused w (err e, v) = (v.tables ≡ w.tables) × (v.effects ≡ w.effects)

-- Is the reference the one of a deposit that is recorded?
abbrev pub is_recorded : String → Tables → Bool
is_recorded provider_ref t = any (λ d. str_eq d.provider_ref provider_ref) t.wallet_deposits

recorded_before :
    (d : WalletDeposit) (t : Tables)
    → is_recorded d.provider_ref t ≡ true
    → insert_deposit d t ≡ none
unfolding insert_deposit
recorded_before d t h = ground arith

record_deposit-Refused :
    (d : WalletDeposit) (w : World)
    → Fine w
    → is_recorded d.provider_ref w.tables ≡ true
    → Refused w (record_deposit d w)
unfolding record_deposit ◌>>=◌ new_uuid
record_deposit-Refused d w fine h =
    rw
      (statement-Fine
        (insert_deposit (record d { id = w.drawn; reconciled = false; created_at = w.now }))
        (record w { drawn = w.drawn + 1 }) fine)
      (rw
        (recorded_before (record d { id = w.drawn; reconciled = false; created_at = w.now })
          w.tables h)
        (refl, refl))

-- What fails first, fails.
Refused-bind :
    {A B : Type 0} (m : M A) (f : A → M B) (w : World) → Refused w (m w) → Refused w ((m >>= f) w)
unfolding ◌>>=◌
Refused-bind {A = A} m f w h = go (m w) h
  where
    go : (r : Result A × World) → Refused w r → Refused w (continue r.0 f r.1)
    go (ok a, v) h = ground arith
    go (err e, v) h = h

-- On a connection that works, a deposit whose provider reference is recorded already is refused,
-- whatever else the webhook says: no table changes and no provider is asked, so no wallet is
-- credited twice for one payment.
pub process_deposit_webhook_replay :
    (number : String) (amount fee : Amount) (provider provider_ref : String) (w : World)
    → Fine w
    → is_recorded provider_ref w.tables ≡ true
    → Refused w (process_deposit_webhook number amount fee provider provider_ref w)
unfolding process_deposit_webhook get_wallet_account_by_number ◌>>=◌
process_deposit_webhook_replay number amount fee provider provider_ref w fine h =
    rw
      (query-Fine (λ t. find (λ a. str_eq a.account_number number && a.is_active) t.wallet_accounts)
        w fine)
      (elim (Option-cases
        (find (λ a. str_eq a.account_number number && a.is_active) w.tables.wallet_accounts)) [
          | inl missing ↦ rw missing (refl, refl)
          | inr (wa, found) ↦ rw found (
              Refused-bind (record_deposit (deposit_row wa amount fee provider provider_ref)) _ w
                (record_deposit-Refused (deposit_row wa amount fee provider provider_ref) w fine h))
        ])

-- Is the reference the one of a request to fund a wallet that is completed?
abbrev pub is_settled : String → Tables → Bool
is_settled reference t = elim (find (λ r. str_eq r.reference reference) t.bank_fund_requests) [
  | none ↦ false
  | some r ↦ is_completed r.status
]

settled_request :
    (o : Option BankFundRequest)
    → (elim o as (λ x. Bool) [ none ↦ false | some r ↦ is_completed r.status ]) ≡ true
    → (r : BankFundRequest) × (o ≡ some r) × (is_completed r.status ≡ true)
settled_request none h = ground arith
settled_request (some r) h = (r, refl, h)

-- On a connection that works, Mono's webhook about a top-up that is completed succeeds and changes
-- nothing at all, and so does one about a reference that is not known.
pub complete_fund_from_bank_replay :
    (env : Env) (reference : String) (amount : Amount) (w : World)
    → Fine w
    → is_settled reference w.tables ≡ true
      ⊎ find (λ r. str_eq r.reference reference) w.tables.bank_fund_requests ≡ none
    → complete_fund_from_bank env reference amount w ≡ (ok tt, w)
unfolding complete_fund_from_bank get_by_reference ◌>>=◌
complete_fund_from_bank_replay env reference amount w fine (inl h) =
    let (r, found, completed) = settled_request _ h in
    rw (query-Fine (λ t. find (λ r. str_eq r.reference reference) t.bank_fund_requests) w fine)
      (rw (found, completed) refl)
complete_fund_from_bank_replay env reference amount w fine (inr unknown) =
    rw (query-Fine (λ t. find (λ r. str_eq r.reference reference) t.bank_fund_requests) w fine)
      (rw unknown refl)
