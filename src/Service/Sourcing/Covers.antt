-- ===== src/Service/Sourcing/Covers.antt =====
-- What a plan of `BuildDebitPlan` takes, and from where.
use weave_server.Prelude.{
  ℕ, ◌+◌, ◌-◌, ◌≤◌, ◌<◌, ◌^◌, ◌≡◌, refl, sym, subst, ◌∙◌, List, [], ◌∷◌, ◌++◌, All, All-append,
  arith, leb, ◌==◌, Bool-cases, ◌⊎◌, inl, inr, if◌then◌else◌,
}
use weave_server.Prelude.Int.{pos, pos_part}
use weave_server.Model.{Uuid, DebitLeg, DebitPlan}
use weave_server.Db.{World, Tables, Result, ok, err, insufficient_funds}
use weave_server.Db.Fine.{Fine}
use weave_server.Provider.{Env}
use weave_server.Repository.WalletRepo.{user_wallet}
use weave_server.Service.Sourcing.{stored_balances, build_debit_plan}
use weave_server.Service.Sourcing.Reads.{accounts_of}
use weave_server.Service.Sourcing.Plan.{taken, taken-greedy, SomeGives, greedy-SomeGives}
use weave_server.Service.Sourcing.Build.{
  IsSound, wallet_room, wallet_legs, spendable, bank_legs, greedy_plan, build_debit_plan-greedy,
}

taken-append : (xs ys : List DebitLeg) → taken (xs ++ ys) ≡ taken xs + taken ys
taken-append [] ys = omega arith
taken-append (x ∷ xs) ys = omega (arith, taken-append xs ys)

-- The wallet's leg, within what the wallet can spend.
pub record FromWallet (have : ℕ) (leg : DebitLeg) : Type 0 where
  pub source : leg.source ≡ "wallet"
  pub fee : leg.fee ≡ pos 0
  pub positive : 0 < pos_part leg.amount
  pub within : pos_part leg.amount ≤ have

-- A leg comes from the wallet or from one of the accounts.
abbrev pub IsSourced : Env → Uuid → Tables → DebitLeg → Type 0
IsSourced env user t leg =
    FromWallet (wallet_room (user_wallet user t)) leg
    ⊎ SomeGives env (stored_balances (accounts_of user t)) leg (accounts_of user t)

-- What is promised of a plan for `r` kobo.
abbrev pub Covers : Env → Uuid → ℕ → Tables → DebitPlan → Type 0
Covers env user r t plan =
    (plan.total ≡ pos r) × (taken plan.legs ≡ r) × All (IsSourced env user t) plan.legs

wallet_legs-All :
    (env : Env) (user : Uuid) (r : ℕ) (t : Tables)
    → 0 < r
    → All (IsSourced env user t) (wallet_legs r (wallet_room (user_wallet user t)))
wallet_legs-All env user r t some_kobo =
    let have = wallet_room (user_wallet user t) in
    elim (Bool-cases (have == 0)) [
      | inl empty ↦ rw empty tt
      | inr full ↦ rw full (
        inl (record { source = refl; fee = refl; positive = ground arith; within = omega arith }),
        tt,
      )
    ]

All-inr : (P Q : DebitLeg → Type 0) (legs : List DebitLeg) → All Q legs → All (λ l. P l ⊎ Q l) legs
All-inr P Q [] h = tt
All-inr P Q (leg ∷ legs) h = (inr h.0, All-inr P Q legs h.1)

greedy_plan-Covers :
    (env : Env) (user : Uuid) (r : ℕ) (t : Tables)
    → 0 < r
    → r ≤ spendable user t
    → Covers env user r t (greedy_plan env user r t)
greedy_plan-Covers env user r t some_kobo h =
    let as' = accounts_of user t in
    let have = wallet_room (user_wallet user t) in
    (
      refl,
      taken-append (wallet_legs r have) (bank_legs env user r t)
          ∙ ground (arith, taken-greedy env (stored_balances as') (r - have) as'),
      All-append (IsSourced env user t) (wallet_legs r have) (bank_legs env user r t)
          (wallet_legs-All env user r t some_kobo)
          (All-inr _ _ (bank_legs env user r t)
            (greedy-SomeGives env (stored_balances as') (r - have) as')),
    )

-- The promise, where there is a plan.
abbrev CoversResult : Env → Uuid → ℕ → Tables → Result DebitPlan × World → Type 0
CoversResult env user r t (ok plan, v) = Covers env user r t plan
CoversResult env user r t (err e, v) = Unit {0}

outcome-Covers :
    (env : Env) (user : Uuid) (r : ℕ) (w : World)
    → 0 < r
    → CoversResult env user r w.tables (
      (if leb r (spendable user w.tables)
          then ok (greedy_plan env user r w.tables)
          else err insufficient_funds),
      w,
    )
outcome-Covers env user r w some_kobo = elim (Bool-cases (leb r (spendable user w.tables))) [
  | inl covered ↦ rw covered (greedy_plan-Covers env user r w.tables some_kobo (ground arith))
  | inr short ↦ rw short tt
]

-- On a connection that works, where balances and cushions are below 2^62 in size, a plan for `r`
-- kobo takes exactly `r` kobo, and each of its legs takes something: without a fee from the user's
-- wallet, within its ledger balance, or for a fee from one of the user's accounts, active and
-- verified, within what the account has above its cushion.
pub build_debit_plan-Covers :
    (env : Env) (user : Uuid) (r : ℕ) (w v : World) (plan : DebitPlan)
    → Fine w
    → 0 < r
    → r < 2 ^ 63
    → All IsSound w.tables.bank_accounts
    → build_debit_plan env user (pos r) w ≡ (ok plan, v)
    → Covers env user r w.tables plan
build_debit_plan-Covers env user r w v plan fine some_kobo small sound made =
    subst (CoversResult env user r w.tables)
      (sym (build_debit_plan-greedy env user r w fine small sound) ∙ made)
      (outcome-Covers env user r w some_kobo)
