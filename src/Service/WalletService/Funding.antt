-- ===== src/Service/WalletService/Funding.antt =====
-- `FundFromBank`: which requests pass its guards, and that a request that does not has no effect.
use weave_server.Prelude.{
  ◌∙◌, ap, ◌≡◌, refl, ℕ, ◌+◌, ltb, Bool, List, [], ◌∷◌, ◌&&◌, arith, not, true, false, Option, none,
  some, find, ◌==◌, ◌||◌, Bool-cases, Option-cases, inl, inr, if◌then◌else◌,
}
use weave_server.Prelude.Int.{ℤ, pos, ltb_ℤ, leb_ℤ, ◌+ℤ◌}
use weave_server.Prelude.Word.{wrap}
use weave_server.Model.{Uuid, Amount, add, add-wrap, BankAccount, BankFundRequest, BankFundStatus}
use weave_server.Db.{
  Tables, M, pure, fail_if, ◌>>◌, World, Error, Result, ok, err, ◌>>=◌, amount_too_small,
  amount_too_large, forbidden, bank_not_active, daily_limit_exceeded,
}
use weave_server.Db.Fine.{Fine, query-Fine, bind-err}
use weave_server.Provider.{Env}
use weave_server.Repository.BankAccountRepo
use weave_server.Repository.BankFundRepo
use weave_server.Repository.BankFundRepo.{sum_requests, counts, is_completed}
use weave_server.Service.WalletService.{
  check_funding, fund_from_bank, owned_by, fund_from_bank_min_kobo, fund_from_bank_max_kobo,
  fund_from_bank_daily_kobo,
}

abbrev is_done : BankFundStatus → Bool
is_done BankFundStatus.completed = true
is_done BankFundStatus.pending = false
is_done BankFundStatus.failed = false

-- A request of the user that is completed, and not older than a day.
abbrev pub is_of_today : Uuid → ℕ → BankFundRequest → Bool
is_of_today user now r = is_done r.status && ltb now (r.created_at + 86400) && r.user_id == user

is_completed-done : (s : BankFundStatus) → is_completed s ≡ is_done s
is_completed-done BankFundStatus.completed = refl
is_completed-done BankFundStatus.pending = refl
is_completed-done BankFundStatus.failed = refl

-- What the user has funded in the last 24 hours, in kobo.
abbrev pub total : Uuid → ℕ → List BankFundRequest → Amount
total user now [] = pos 0
total user now (r ∷ rs) = (if is_of_today user now r then r.amount else pos 0) +ℤ total user now rs

abbrev pub funded_today : Uuid → World → Amount
funded_today user w = total user w.now w.tables.bank_fund_requests

counts-is_of_today :
    (user : Uuid) (now : ℕ) (r : BankFundRequest) → counts user now r ≡ is_of_today user now r
counts-is_of_today user now r = rw (is_completed-done r.status) (ground arith)

plus_zero : (a : Amount) → pos 0 +ℤ a ≡ a
unfolding ◌+ℤ◌
plus_zero a = ground arith

sum-total :
    (user : Uuid) (now : ℕ) (rs : List BankFundRequest)
    → sum_requests (counts user now) rs ≡ total user now rs
sum-total user now [] = refl
sum-total user now (r ∷ rs) =
    rw (counts-is_of_today user now r, sum-total user now rs)
      (elim (Bool-cases (is_of_today user now r)) [
        | inl hit ↦ rw hit refl
        | inr miss ↦ rw (miss, plus_zero (total user now rs)) refl
      ])

-- The account by its id, if it is the user's.
abbrev mine : Uuid → Option BankAccount → Option BankAccount
mine user none = none
mine user (some a) = if user == a.user_id then some a else none

abbrev pub own_account : Uuid → Uuid → Tables → Option BankAccount
own_account user bank t = mine user (find (λ a. a.id == bank) t.bank_accounts)

owned_by-mine : (user : Uuid) (o : Option BankAccount) → owned_by user o ≡ mine user o
owned_by-mine user none = refl
owned_by-mine user (some a) = ground arith

-- A reason to refuse, by what must hold, and the first whose condition fails.
abbrev pub first_refusal : List (Bool × Error) → Result BankAccount → Result BankAccount
first_refusal [] r = r
first_refusal ((holds, e) ∷ rules) r = if holds then first_refusal rules r else err e

abbrev pub account_verdict : Amount → Amount → Option BankAccount → Result BankAccount
account_verdict amount today none = err forbidden
account_verdict amount today (some a) =
    first_refusal
      ((a.is_active && a.is_verified, bank_not_active)
        ∷ (leb_ℤ (wrap (today +ℤ amount)) (pos 100000000), daily_limit_exceeded)
        ∷ [])
      (ok a)

-- The rules of a top-up, in kobo, in the order in which they are told to the user.
abbrev pub verdict : Amount → Amount → Option BankAccount → Result BankAccount
verdict amount today account =
    first_refusal
      ((leb_ℤ (pos 10000) amount, amount_too_small)
        ∷ (leb_ℤ amount (pos 50000000), amount_too_large)
        ∷ [])
      (account_verdict amount today account)

leb-ltb : (a b : ℤ) (r : Bool) → ltb_ℤ b a ≡ r → leb_ℤ a b ≡ not r
leb-ltb a b true h = ground arith
leb-ltb a b false h = ground arith

both : (a b r : Bool) → (not a || not b) ≡ r → (a && b) ≡ not r
both true b r h = ground arith
both false b r h = ground arith

-- The guards from the account on.
abbrev pub account_guards : Uuid → Amount → BankAccount → M BankAccount
account_guards user amount a = do
  fail_if (not a.is_active || not a.is_verified) bank_not_active
  today_sum ← BankFundRepo.sum_completed_today user
  fail_if (ltb_ℤ fund_from_bank_daily_kobo (add today_sum amount)) daily_limit_exceeded
  pure a

on_account :
    (user : Uuid) (amount : Amount) (a : BankAccount) (w : World)
    → Fine w
    → account_guards user amount a w ≡ (account_verdict amount (funded_today user w) (some a), w)
unfolding BankFundRepo.sum_completed_today ◌>>=◌
on_account user amount a w fine = elim (Bool-cases (not a.is_active || not a.is_verified)) [
  | inl idle ↦ rw (idle, both a.is_active a.is_verified true idle) refl
  | inr active ↦
      rw (active, both a.is_active a.is_verified false active)
        (rw
          (
            query-Fine (λ t. sum_requests (counts user w.now) t.bank_fund_requests) w fine,
            sum-total user w.now w.tables.bank_fund_requests,
            add-wrap (funded_today user w) amount,
          )
          (elim (Bool-cases (ltb_ℤ (pos 100000000) (wrap (funded_today user w +ℤ amount)))) [
            | inl over ↦
                rw (over, leb-ltb (wrap (funded_today user w +ℤ amount)) (pos 100000000) true over)
                  refl
            | inr within ↦
                rw
                  (
                    within,
                    leb-ltb (wrap (funded_today user w +ℤ amount)) (pos 100000000) false within,
                  )
                  refl
          ]))
]

-- On a connection that works, the guards of `FundFromBank` pass the account exactly if the amount is
-- at least ₦100 and at most ₦500,000, the account is the user's, active and verified, and the amounts
-- of the user's top-ups that are completed and were asked for in the last 24 hours come, with this one
-- and in 64 bits, to at most ₦1,000,000; otherwise they end in the error of the first rule that is
-- broken, in this order. They change nothing.
pub check_funding-verdict :
    (user bank : Uuid) (amount : Amount) (w : World)
    → Fine w
    → check_funding user bank amount w
      ≡ (verdict amount (funded_today user w) (own_account user bank w.tables), w)
unfolding check_funding BankAccountRepo.get_by_id BankFundRepo.sum_completed_today ◌>>=◌
check_funding-verdict user bank amount w fine =
    elim (Bool-cases (ltb_ℤ amount fund_from_bank_min_kobo)) [
      | inl small ↦ rw (small, leb-ltb (pos 10000) amount true small) refl
      | inr enough ↦
          rw (enough, leb-ltb (pos 10000) amount false enough)
            (elim (Bool-cases (ltb_ℤ fund_from_bank_max_kobo amount)) [
              | inl large ↦ rw (large, leb-ltb amount (pos 50000000) true large) refl
              | inr small ↦
                  rw (small, leb-ltb amount (pos 50000000) false small)
                    (rw
                      (
                        query-Fine (λ t. find (λ a. a.id == bank) t.bank_accounts) w fine,
                        owned_by-mine user (find (λ a. a.id == bank) w.tables.bank_accounts),
                      )
                      (elim (Option-cases (own_account user bank w.tables)) [
                        | inl missing ↦ rw missing refl
                        | inr (a, found) ↦ rw found (on_account user amount a w fine)
                      ]))
            ])
    ]

-- On a connection that works, a top-up that the rules refuse ends in their error, and nothing is
-- written or sent to Mono.
pub fund_from_bank_refused :
    (env : Env) (user bank : Uuid) (amount : Amount) (w : World) (e : Error)
    → Fine w
    → verdict amount (funded_today user w) (own_account user bank w.tables) ≡ err e
    → fund_from_bank env user bank amount w ≡ (err e, w)
unfolding fund_from_bank
fund_from_bank_refused env user bank amount w e fine h =
    bind-err (check_funding user bank amount) _ w
      (check_funding-verdict user bank amount w fine ∙ ap (λ (r : Result BankAccount). (r, w)) h)
