-- ===== src/Service/Sourcing/Plan.antt =====
-- The whole of `BuildDebitPlan`: when there is a plan, and what it takes from where.
use Prim.Native.Nat.{min}
use weave_server.Prelude.{
  if◌then◌else◌, Bool, true, false, ℕ, ◌+◌, ◌-◌, ◌≤◌, ◌<◌, List, [], ◌∷◌, ◌≡◌, ◌⊎◌, refl, All, ◌==◌,
  arith, Bool-cases, inl, inr, map, eq_iff,
}
use weave_server.Prelude.Int.{pos_part}
use weave_server.Model.{Uuid, BankAccount, DebitLeg}
use weave_server.Db.{pure, M, World, ok, ◌>>=◌}
use weave_server.Repository.BankAccountRepo
use weave_server.Provider.{Env}
use weave_server.Service.Sourcing.{
  Balances, nip_fee, refresh_bank_balances, refresh_one, refresh_all, stored_balances,
}
use weave_server.Service.Sourcing.Room.{room, capacity}
use weave_server.Service.Sourcing.Loop.{greedy}

-- What the legs of a plan take together, in kobo.
abbrev pub taken : List DebitLeg → ℕ
taken [] = 0
taken (leg ∷ legs) = pos_part leg.amount + taken legs

pub taken-greedy :
    (env : Env) (live : Balances) (r : ℕ) (as' : List BankAccount)
    → taken (greedy env live r as') ≡ min r (capacity live as')
unfolding greedy capacity
taken-greedy env live r [] = omega arith
taken-greedy env live r (a ∷ as') =
    ground (arith, taken-greedy env live (r - min r (room live a)) as')

-- An account that gives `leg`: active and verified, and left with its cushion.
pub record Gives (env : Env) (live : Balances) (leg : DebitLeg) (a : BankAccount) : Type 0 where
  pub source : leg.source ≡ env.uuid_string a.id
  pub fee : leg.fee ≡ nip_fee
  pub positive : 0 < pos_part leg.amount
  pub within : pos_part leg.amount ≤ room live a

abbrev pub SomeGives : Env → Balances → DebitLeg → List BankAccount → Type 0
SomeGives env live leg [] = ⊥
SomeGives env live leg (a ∷ as') = Gives env live leg a ⊎ SomeGives env live leg as'

later_gives :
    (env : Env) (live : Balances) (a : BankAccount) (as' : List BankAccount) (legs : List DebitLeg)
    → All (λ leg. SomeGives env live leg as') legs
    → All (λ leg. SomeGives env live leg (a ∷ as')) legs
later_gives env live a as' [] h = tt
later_gives env live a as' (leg ∷ legs) h = (inr h.0, later_gives env live a as' legs h.1)

-- Every leg comes from one of the accounts.
pub greedy-SomeGives :
    (env : Env) (live : Balances) (r : ℕ) (as' : List BankAccount)
    → All (λ leg. SomeGives env live leg as') (greedy env live r as')
unfolding greedy
greedy-SomeGives env live r [] = tt
greedy-SomeGives env live r (a ∷ as') =
    let t = min r (room live a) in
    let rest = later_gives env live a as' _ (greedy-SomeGives env live (r - t) as') in
    elim (Bool-cases (t == 0)) [
      | inl nothing ↦ rw nothing rest
      | inr something ↦ rw something (
        inl (record { source = refl; fee = refl; positive = ground arith; within = omega arith }),
        rest,
      )
    ]

abbrev pub HasNoToken : BankAccount → Type 0
HasNoToken a = a.provider_token ≡ ""

refresh_one-stored :
    (env : Env) (user : Uuid) (a : BankAccount) (w : World)
    → HasNoToken a
    → refresh_one env user a w ≡ (ok a.last_balance, w)
unfolding refresh_one ◌>>=◌
refresh_one-stored env user a w h = ground (arith, (eq_iff a.provider_token "").1 h)

refresh_all-stored :
    (env : Env) (user : Uuid) (as' : List BankAccount) (w : World)
    → All HasNoToken as'
    → refresh_all env user as' w ≡ (ok (stored_balances as'), w)
unfolding refresh_all stored_balances ◌>>=◌
refresh_all-stored env user [] w h = refl
refresh_all-stored env user (a ∷ as') w h =
    rw (refresh_one-stored env user a w h.0) (rw (refresh_all-stored env user as' w h.1))

map-HasNoToken : (as' : List BankAccount) → All HasNoToken (map BankAccountRepo.without_token as')
map-HasNoToken [] = tt
map-HasNoToken (a ∷ as') = (refl, map-HasNoToken as')

either_way :
    (b : Bool) (m : M Balances) (as' : List BankAccount) (v : World)
    → m v ≡ (ok (stored_balances as'), v)
    → (if b then m else pure (stored_balances as')) v ≡ (ok (stored_balances as'), v)
unfolding ◌>>=◌
either_way true m as' v h = h
either_way false m as' v h = refl

-- The accounts that `GetByUserID` lists carry no token, so no balance is ever refreshed: the plan is
-- made from the stored balances, and Mono is not asked.
pub refresh_bank_balances-listed :
    (env : Env) (user : Uuid) (limit offset : ℕ) (w v : World)
    → let accounts = BankAccountRepo.listed user limit offset w.tables in
      refresh_bank_balances env user accounts v ≡ (ok (stored_balances accounts), v)
unfolding refresh_bank_balances
refresh_bank_balances-listed env user limit offset w v =
    either_way env.has_mono (refresh_all env user _) _ v
      (refresh_all-stored env user _ v (map-HasNoToken _))
