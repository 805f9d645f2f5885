-- ===== src/Service/Sourcing/Build.antt =====
-- The whole of `BuildDebitPlan` on a database that answers: when there is a plan, and which.
use Prim.Native.Nat.{min}
use weave_server.Prelude.{
  ℕ, zero, suc, ◌+◌, ◌-◌, ◌^◌, ◌≤◌, ◌<◌, Option, none, some, false, List, [], ◌∷◌, ◌++◌, ◌≡◌, refl,
  ◌∙◌, ap, All, length, ◌==◌, leb, if◌then◌else◌, append-nil, arith, Bool-cases, inl, inr, map,
  take, select,
}
use weave_server.Prelude.Int.{
  pos, negsuc, pos_part, neg_part, ltb_ℤ, leb_ℤ, ◌-ℤ◌, int_laws, parts_min,
}
use weave_server.Model.{sub, Uuid, Amount, Wallet, BankAccount, DebitLeg, DebitPlan}
use weave_server.Db.{Tables, World, Result, ok, err, insufficient_funds}
use weave_server.Db.Fine.{Fine}
use weave_server.Repository.WalletRepo.{user_wallet}
use weave_server.Repository.BankAccountRepo.{listed, in_order, without_token}
use weave_server.Repository.BankAccountRepo.Order.{All-listed}
use weave_server.Provider.{Env}
use weave_server.Service.Sourcing.Reads.{accounts_of, outcome, build_debit_plan-outcome}
use weave_server.Service.Sourcing.{
  at_most, Balances, Sourced, from_wallet, from_banks, stored_balances, build_debit_plan,
  with_total, balance_of,
}
use weave_server.Service.Sourcing.Room.{at_most-pos, sub-pos, capacity, Fits}
use weave_server.Service.Sourcing.Loop.{from_banks-IsGreedy, greedy-zero, greedy, bank_fees}

-- A balance and a cushion whose difference is an int64.
abbrev pub IsModerate : Amount → Type 0
IsModerate z = (pos_part z < 2 ^ 62) × (neg_part z < 2 ^ 62)

abbrev pub IsSound : BankAccount → Type 0
IsSound a = IsModerate a.last_balance × IsModerate a.min_balance

listed-IsSound :
    (user : Uuid) (t : Tables) → All IsSound t.bank_accounts → All IsSound (listed user 100 0 t)
listed-IsSound user t h = All-listed IsSound (λ a k. k) user 100 t h

balance-IsModerate :
    (id : Uuid) (as' : List BankAccount)
    → All IsSound as'
    → IsModerate (balance_of id (stored_balances as'))
unfolding balance_of stored_balances
balance-IsModerate id [] h = omega arith
balance-IsModerate id (a ∷ as') h = elim (Bool-cases (a.id == id)) [
  | inl e ↦ rw e h.0.0
  | inr e ↦ rw e (balance-IsModerate id as' h.1)
]

moderate-Fits :
    (a : BankAccount) (live : Balances)
    → IsModerate (balance_of a.id live)
    → IsModerate a.min_balance
    → Fits live a
moderate-Fits a live b m = omega (int_laws, parts_min (balance_of a.id live -ℤ a.min_balance))

length-map-take : (n : ℕ) (xs : List BankAccount) → length (map without_token (take n xs)) ≤ n
length-map-take zero xs = omega arith
length-map-take (suc n) [] = omega arith
length-map-take (suc n) (x ∷ xs) = omega (arith, length-map-take n xs)

-- Every account of a list fits, given that all of them are sound.
All-Fits :
    (live : Balances) (as' : List BankAccount)
    → ((id : Uuid) → IsModerate (balance_of id live))
    → All IsSound as'
    → All (Fits live) as'
All-Fits live [] b h = tt
All-Fits live (a ∷ as') b h = (moderate-Fits a live (b a.id) h.0.1, All-Fits live as' b h.1)

-- What the wallet has to give.
abbrev pub wallet_room : Option Wallet → ℕ
wallet_room none = 0
wallet_room (some w) = pos_part w.ledger_balance

abbrev pub wallet_legs : ℕ → ℕ → List DebitLeg
wallet_legs r have =
    if have == 0
    then []
    else record {
      source = "wallet";
      amount = pos (min r have);
      fee = pos 0;
      bank_name = "Weave Wallet";
    }
      ∷ []

-- A plan with the wallet's leg only, and what is left to find.
abbrev first_sourced : Amount → List DebitLeg → Sourced
first_sourced left legs = record {
  plan = record { legs = legs; total = pos 0; fees = pos 0 };
  remaining = left;
}

-- The two tests on the ledger balance `b`.
wallet_tests :
    (b : Amount) (r : ℕ)
    → r < 2 ^ 63
    → (if ltb_ℤ (pos 0) b
        then record {
          plan = record {
            legs =
                record {
                  source = "wallet";
                  amount = at_most (pos r) b;
                  fee = pos 0;
                  bank_name = "Weave Wallet";
                }
                ∷ [];
            total = pos 0;
            fees = pos 0;
          };
          remaining = sub (pos r) (at_most (pos r) b);
        }
        else first_sourced (pos r) [])
      ≡ first_sourced (pos (r - pos_part b)) (wallet_legs r (pos_part b))
wallet_tests (negsuc n) r h = ground arith
wallet_tests (pos n) r h = rw (at_most-pos r n, sub-pos r (min r n) h (omega arith)) (ground arith)

from_wallet-pos :
    (wallet : Option Wallet) (r : ℕ)
    → r < 2 ^ 63
    → from_wallet wallet (pos r)
      ≡ first_sourced (pos (r - wallet_room wallet)) (wallet_legs r (wallet_room wallet))
unfolding from_wallet
from_wallet-pos none r h = ground arith
from_wallet-pos (some w) r h = wallet_tests w.ledger_balance r h

-- All that a plan for the user can draw on.
abbrev pub spendable : Uuid → Tables → ℕ
spendable user t =
    let as' = accounts_of user t in
    wallet_room (user_wallet user t) + capacity (stored_balances as') as'

-- The legs from the banks for what the wallet does not cover.
abbrev pub bank_legs : Env → Uuid → ℕ → Tables → List DebitLeg
bank_legs env user r t =
    let as' = accounts_of user t in
    greedy env (stored_balances as') (r - wallet_room (user_wallet user t)) as'

-- The plan for `r` kobo: the wallet first, then the banks by priority, and a fee for each bank.
abbrev pub greedy_plan : Env → Uuid → ℕ → Tables → DebitPlan
greedy_plan env user r t = record {
  legs = wallet_legs r (wallet_room (user_wallet user t)) ++ bank_legs env user r t;
  total = pos r;
  fees = pos (bank_fees (bank_legs env user r t));
}

length-accounts : (user : Uuid) (t : Tables) → length (accounts_of user t) ≤ 100
length-accounts user t =
    length-map-take 100 (in_order (select (λ a. a.user_id == user) t.bank_accounts))

stored-IsModerate :
    (user : Uuid) (t : Tables)
    → All IsSound t.bank_accounts
    → All (Fits (stored_balances (accounts_of user t))) (accounts_of user t)
stored-IsModerate user t sound =
    let as' = listed-IsSound user t sound in
    All-Fits (stored_balances (accounts_of user t)) (accounts_of user t)
      (λ id. balance-IsModerate id (accounts_of user t) as') as'

-- The last test, on what the loop has made.
last_test :
    (s : Sourced) (legs : List DebitLeg) (r left cap paid : ℕ)
    → s.plan.legs ≡ legs
    → s.remaining ≡ pos (left - cap)
    → s.plan.fees ≡ pos paid
    → (if ltb_ℤ (pos 0) s.remaining then err insufficient_funds else ok (with_total (pos r) s.plan))
      ≡ (if leb left cap
          then ok (record { legs = legs; total = pos r; fees = pos paid })
          else err insufficient_funds)
last_test s legs r left cap paid l e f = rw (e, l, f) (ground arith)

-- The outcome in numbers.
outcome-greedy :
    (env : Env) (user : Uuid) (r : ℕ) (t : Tables)
    → r < 2 ^ 63
    → All IsSound t.bank_accounts
    → outcome env (pos r) (user_wallet user t) (accounts_of user t)
      ≡ (if leb r (spendable user t) then ok (greedy_plan env user r t) else err insufficient_funds)
outcome-greedy env user r t small sound =
    let have = wallet_room (user_wallet user t) in
    let as' = accounts_of user t in
    let first = first_sourced (pos (r - have)) (wallet_legs r have) in
    let split : (leb r (spendable user t)) ≡ leb (r - have) (capacity (stored_balances as') as') =
      ground arith in
    rw (from_wallet-pos (user_wallet user t) r small) (elim (Bool-cases (r - have == 0)) [
      | inl covered ↦
          let zero_left : r - have ≡ 0 = ground arith in
          rw split (
            rw (zero_left, greedy-zero env (stored_balances as') as')
              (rw append-nil (ground arith)))
      | inr short ↦
          let (legs, left, paid) =
            from_banks-IsGreedy env (stored_balances as') as' first (r - have) 0 refl (ground arith)
              (omega arith) refl (omega (arith, length-accounts user t))
              (stored-IsModerate user t sound) in
          let past : leb_ℤ (pos (r - have)) (pos 0) ≡ false = ground arith in
          rw split (
            rw past (
              last_test (from_banks env (stored_balances as') as' first) _ r (r - have)
                (capacity (stored_balances as') as') _ legs left (paid ∙ ground arith)))
    ])

-- On a database that answers, where balances and cushions are below 2^62 in size, a debit of `r`
-- kobo gets the greedy plan exactly if the wallet and the banks together have that much, and is
-- refused for insufficient funds otherwise. Nothing is written.
pub build_debit_plan-greedy :
    (env : Env) (user : Uuid) (r : ℕ) (w : World)
    → Fine w
    → r < 2 ^ 63
    → All IsSound w.tables.bank_accounts
    → build_debit_plan env user (pos r) w ≡ (
      if leb r (spendable user w.tables)
          then ok (greedy_plan env user r w.tables)
          else err insufficient_funds,
      w,
    )
build_debit_plan-greedy env user r w fine small sound =
    build_debit_plan-outcome env user (pos r) w fine
    ∙ ap (λ (o : Result DebitPlan). (o, w)) (outcome-greedy env user r w.tables small sound)
