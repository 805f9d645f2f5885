-- ===== src/Repository/WalletRepo/Change.antt =====
-- What `Debit`, `Hold` and `ReleaseHold` do to the rows of `wallets`, on a connection that works.
use weave_server.Prelude.{
  ◌≡◌, refl, ap, map, Bool, true, false, not, Option, none, some, List, [], ◌∷◌, All, any, ◌&&◌,
  ◌==◌, arith, Bool-cases, inl, inr, if◌then◌else◌,
}
use weave_server.Prelude.Int.{pos, ◌≤ℤ◌, ◌-ℤ◌, leb_ℤ, -ℤ_parts, parts_min}
use weave_server.Model.{Uuid, Amount, Wallet}
use weave_server.Db.{
  ◌>>◌, ignore, Error, fail_if, Tables, World, ok, err, ◌>>=◌, insufficient_wallet_balance,
  insufficient_available_balance,
}
use weave_server.Db.Rows.{update_rows, push_row}
use weave_server.Db.Fine.{Fine, statement-Fine}
use weave_server.Repository.WalletRepo.{debit, hold, update_wallets, wallet_check}
use weave_server.Repository.WalletRepo.Valid.{IsValid, WalletsValid, wallet_check-IsValid}

touched_test :
    (touched : Bool) (e : Error) (w : World)
    → fail_if (not touched) e w ≡ ((if touched then ok tt else err e), w)
unfolding ◌>>=◌
touched_test true e w = refl
touched_test false e w = refl

-- The rows that pass `p` are changed by `f`, the others stay.
abbrev pub change_where : (Wallet → Bool) → (Wallet → Wallet) → List Wallet → List Wallet
change_where p f [] = []
change_where p f (x ∷ xs) = (if p x then f x else x) ∷ change_where p f xs

abbrev pub with_wallets : World → List Wallet → World
with_wallets w ws = record w { tables = record w.tables { wallets = ws } }

push_row-some :
    (hit check : Bool) (old new : Wallet) (ys : List Wallet)
    → (hit ≡ true → check ≡ true)
    → push_row hit check old new (some ys) ≡ some ((if hit then new else old) ∷ ys)
unfolding push_row
push_row-some true true old new ys h = refl
push_row-some true false old new ys h = ground (arith, h refl)
push_row-some false check old new ys h = refl

-- An UPDATE whose guard keeps every valid row valid goes through.
update_rows-change :
    (P : Wallet → Type 0) (p : Wallet → Bool) (f : Wallet → Wallet) (xs : List Wallet)
    → ((x : Wallet) → P x → p x ≡ true → wallet_check (f x) ≡ true)
    → All P xs
    → update_rows p f wallet_check xs ≡ some (change_where p f xs)
unfolding update_rows
update_rows-change P p f [] sound h = refl
update_rows-change P p f (x ∷ xs) sound h =
    rw (update_rows-change P p f xs sound h.1)
      (push_row-some (p x) (wallet_check (f x)) x (f x) (change_where p f xs) (sound x h.0))

pub update_wallets-change :
    (P : Wallet → Type 0) (p : Wallet → Bool) (f : Wallet → Wallet) (t : Tables)
    → ((x : Wallet) → P x → p x ≡ true → wallet_check (f x) ≡ true)
    → All P t.wallets
    → update_wallets p f t
      ≡ some (any p t.wallets, record t { wallets = change_where p f t.wallets })
unfolding update_wallets
update_wallets-change P p f t sound h =
    ap
      (λ (o : Option (List Wallet)).
        let r : Option (Bool × Tables) = elim o [
          | none ↦ none
          | some ws ↦ some (any p t.wallets, record t { wallets = ws })
        ] in
        r)
      (update_rows-change P p f t.wallets sound h)

-- The guard of `Debit`, and the row that it leaves.
abbrev pub can_debit : Uuid → Amount → Wallet → Bool
can_debit id amount x = x.id == id && leb_ℤ amount x.balance && leb_ℤ amount x.ledger_balance

abbrev pub debited : Amount → World → Wallet → Wallet
debited amount w x = record x {
  balance = x.balance -ℤ amount;
  ledger_balance = x.ledger_balance -ℤ amount;
  updated_at = w.now;
}

abbrev pub can_hold : Uuid → Amount → Wallet → Bool
can_hold id amount x = x.id == id && leb_ℤ amount x.ledger_balance

abbrev pub held : Amount → World → Wallet → Wallet
held amount w x = record x { ledger_balance = x.ledger_balance -ℤ amount; updated_at = w.now }

debited-checks :
    (id : Uuid) (amount : Amount) (w : World)
    → pos 0 ≤ℤ amount
    → (x : Wallet) → IsValid x
    → can_debit id amount x ≡ true
    → wallet_check (debited amount w x) ≡ true
debited-checks id amount w a x v h = ground (
  arith,
  -ℤ_parts x.balance amount,
  -ℤ_parts x.ledger_balance amount,
  parts_min (x.balance -ℤ amount),
  parts_min (x.ledger_balance -ℤ amount),
)

held-checks :
    (id : Uuid) (amount : Amount) (w : World)
    → pos 0 ≤ℤ amount
    → (x : Wallet) → IsValid x
    → can_hold id amount x ≡ true
    → wallet_check (held amount w x) ≡ true
held-checks id amount w a x v h =
    ground (arith, -ℤ_parts x.ledger_balance amount, parts_min (x.ledger_balance -ℤ amount))

-- On a connection that works and over valid wallets, `Debit` of an amount that is not negative
-- takes the amount off both balances of the wallet with the given id that has that much of both;
-- no CHECK is violated, and where there is no such wallet no row changes and the error is
-- `insufficient wallet balance`.
pub debit_lem :
    (id : Uuid) (amount : Amount) (w : World)
    → Fine w
    → WalletsValid w.tables
    → pos 0 ≤ℤ amount
    → debit id amount w ≡ (
      (if any (can_debit id amount) w.tables.wallets
          then ok tt
          else err insufficient_wallet_balance),
      with_wallets w (change_where (can_debit id amount) (debited amount w) w.tables.wallets),
    )
unfolding debit ◌>>=◌
debit_lem id amount w fine valid a =
    rw (statement-Fine (update_wallets (can_debit id amount) (debited amount w)) w fine) (
      rw
        (update_wallets-change IsValid (can_debit id amount) (debited amount w) w.tables
          (debited-checks id amount w a) valid)
        (touched_test (any (can_debit id amount) w.tables.wallets) insufficient_wallet_balance _))

-- On a connection that works and over valid wallets, `Hold` of an amount that is not negative takes
-- the amount off the ledger balance of the wallet with the given id whose ledger balance is that
-- much, and leaves its balance; no CHECK is violated, and where there is no such wallet no row
-- changes and the error is `insufficient available balance`.
pub hold_lem :
    (id : Uuid) (amount : Amount) (w : World)
    → Fine w
    → WalletsValid w.tables
    → pos 0 ≤ℤ amount
    → hold id amount w ≡ (
      (if any (can_hold id amount) w.tables.wallets
          then ok tt
          else err insufficient_available_balance),
      with_wallets w (change_where (can_hold id amount) (held amount w) w.tables.wallets),
    )
unfolding hold ◌>>=◌
hold_lem id amount w fine valid a =
    rw (statement-Fine (update_wallets (can_hold id amount) (held amount w)) w fine) (
      rw
        (update_wallets-change IsValid (can_hold id amount) (held amount w) w.tables
          (held-checks id amount w a) valid)
        (touched_test (any (can_hold id amount) w.tables.wallets) insufficient_available_balance _))

change_where-IsValid :
    (p : Wallet → Bool) (f : Wallet → Wallet) (xs : List Wallet)
    → ((x : Wallet) → IsValid x → p x ≡ true → wallet_check (f x) ≡ true)
    → All IsValid xs
    → All IsValid (change_where p f xs)
change_where-IsValid p f [] sound h = tt
change_where-IsValid p f (x ∷ xs) sound h = (
  elim (Bool-cases (p x)) [
    | inl hit ↦ rw hit (wallet_check-IsValid (f x) (sound x h.0 hit))
    | inr miss ↦ rw miss h.0
  ],
  change_where-IsValid p f xs sound h.1,
)

-- A row after its hold and then its debit.
abbrev pub spent : Uuid → Amount → World → Wallet → Wallet
spent id amount w x =
    if can_hold id amount x
    then (if leb_ℤ amount (x.ledger_balance -ℤ amount)
        then record x {
          balance = x.balance -ℤ amount;
          ledger_balance = x.ledger_balance -ℤ amount -ℤ amount;
          updated_at = w.now;
        }
        else held amount w x)
    else x

-- One row under the two updates.
row-spent :
    (id : Uuid) (amount : Amount) (w : World) (x : Wallet)
    → IsValid x
    → let y = if can_hold id amount x then held amount w x else x in
      (if can_debit id amount y then debited amount w y else y) ≡ spent id amount w x
row-spent id amount w x v = elim (Bool-cases (can_hold id amount x)) [
  | inl hit ↦
      let test : can_debit id amount (held amount w x) ≡ leb_ℤ amount (x.ledger_balance -ℤ amount) =
        ground arith in
      rw (hit, test) refl
  | inr miss ↦ let test : can_debit id amount x ≡ false = ground arith in rw (miss, test) refl
]

rows-spent :
    (id : Uuid) (amount : Amount) (w : World) (xs : List Wallet)
    → All IsValid xs
    → change_where
        (can_debit id amount)
        (debited amount w)
        (change_where (can_hold id amount) (held amount w) xs)
      ≡ map (spent id amount w) xs
rows-spent id amount w [] h = refl
rows-spent id amount w (x ∷ xs) h =
    rw (row-spent id amount w x h.0) (rw (rows-spent id amount w xs h.1))

-- A transfer holds a wallet leg and debits it once the payout is sent. On a connection that works
-- and over valid wallets, where the hold of an amount that is not negative succeeds, the two
-- updates together take the amount off the balance and twice the amount off the ledger balance of
-- the held wallet; where its ledger balance is less than twice the amount, the debit does nothing
-- and only the hold stays.
pub hold-debit :
    (id : Uuid) (amount : Amount) (w : World)
    → Fine w
    → WalletsValid w.tables
    → pos 0 ≤ℤ amount
    → any (can_hold id amount) w.tables.wallets ≡ true
    → (hold id amount >> ignore (debit id amount)) w
      ≡ (ok tt, with_wallets w (map (spent id amount w) w.tables.wallets))
unfolding ◌>>=◌
hold-debit id amount w fine valid a found =
    let rows = change_where (can_hold id amount) (held amount w) w.tables.wallets in
    let valid' =
      change_where-IsValid (can_hold id amount) (held amount w) w.tables.wallets
        (held-checks id amount w a) valid in
    rw (hold_lem id amount w fine valid a) (
      rw found (
        rw (debit_lem id amount (with_wallets w rows) fine valid' a)
          (rw (rows-spent id amount w w.tables.wallets valid) refl)))
