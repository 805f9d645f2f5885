-- ===== src/Repository/BankAccountRepo/Order.antt =====
-- The list of a user's accounts: it holds the user's accounts only, and what holds of every row that
-- the list does not alter holds of each of them.
use weave_server.Prelude.{
  ℕ, zero, suc, Bool, List, [], ◌∷◌, All, map, take, select, Bool-cases, inl, inr,
}
use weave_server.Model.{Uuid, BankAccount}
use weave_server.Db.{Tables}
use weave_server.Repository.BankAccountRepo.{listed, in_order, place, goes_first, without_token}

module _ (P : BankAccount → Type 0) where
  All-select : (p : BankAccount → Bool) (xs : List BankAccount) → All P xs → All P (select p xs)
  All-select p [] h = tt
  All-select p (x ∷ xs) h = elim (Bool-cases (p x)) [
    | inl e ↦ rw e (h.0, All-select p xs h.1)
    | inr e ↦ rw e (All-select p xs h.1)
  ]

  All-take : (n : ℕ) (xs : List BankAccount) → All P xs → All P (take n xs)
  All-take zero xs h = tt
  All-take (suc n) [] h = tt
  All-take (suc n) (x ∷ xs) h = (h.0, All-take n xs h.1)

  All-place : (x : BankAccount) (xs : List BankAccount) → P x → All P xs → All P (place x xs)
  All-place x [] p h = (p, tt)
  All-place x (y ∷ ys) p h = elim (Bool-cases (goes_first x y)) [
    | inl e ↦ rw e (p, h)
    | inr e ↦ rw e (h.0, All-place x ys p h.1)
  ]

  All-in_order : (xs : List BankAccount) → All P xs → All P (in_order xs)
  unfolding in_order
  All-in_order [] h = tt
  All-in_order (x ∷ xs) h = All-place x (in_order xs) h.0 (All-in_order xs h.1)

  All-map :
      ((a : BankAccount) → P a → P (without_token a))
      → (xs : List BankAccount) → All P xs
      → All P (map without_token xs)
  All-map keep [] h = tt
  All-map keep (x ∷ xs) h = (keep x h.0, All-map keep xs h.1)

  pub All-listed :
      ((a : BankAccount) → P a → P (without_token a))
      → (user : Uuid) (limit : ℕ) (t : Tables) → All P t.bank_accounts
      → All P (listed user limit 0 t)
  All-listed keep user limit t h =
      All-map keep _ (All-take limit _ (All-in_order _ (All-select _ t.bank_accounts h)))
