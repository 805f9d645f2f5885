-- ===== src/Service/WalletService/Deposits.antt =====
-- A deposit that has not been seen before: `ProcessDepositWebhook` where nothing fails.
use Prim.Native.String.{◌++◌ as append}
use weave_server.Prelude.{
  ◌≡◌, refl, ℕ, suc, ◌+◌, ◌<◌, ◌^◌, String, Bool, true, false, ◌&&◌, ◌||◌, none, some, List, [],
  ◌∷◌, ◌++◌, All, any, find, ◌==◌, str_eq, eq_iff, arith, if◌then◌else◌,
}
use weave_server.Prelude.Int.{pos, pos_part, ◌+ℤ◌, +ℤ_parts, parts_min}
use weave_server.Model.{
  Uuid, Amount, is_zero, is_negative, Wallet, WalletAccount, WalletDeposit, WalletTransaction,
}
use weave_server.Db.{World, ok, ◌>>=◌, new_uuid, ignore}
use weave_server.Db.Statement.{settle}
use weave_server.Db.Fine.{Fine, query-Fine, statement-Fine}
use weave_server.Repository.WalletRepo.{
  credit, wallet_check, update_wallets, user_wallet, has_user, record_transaction,
  insert_transaction, record_deposit, insert_deposit, get_wallet_account_by_number, get_by_user_id,
}
use weave_server.Repository.WalletRepo.Valid.{IsValid}
use weave_server.Repository.WalletRepo.Change.{change_where, with_wallets, update_wallets-change}
use weave_server.Service.WalletService.{
  credit_wallet, process_deposit_webhook, net_amount, deposit_row, ledger_entry,
}
use weave_server.Service.WalletService.Webhooks.{is_recorded}

abbrev pub credited : ℕ → World → Wallet → Wallet
credited n w x = record x {
  balance = x.balance +ℤ pos n;
  ledger_balance = x.ledger_balance +ℤ pos n;
  updated_at = w.now;
}

-- A valid wallet that has room for n kobo more.
abbrev pub HasRoom : ℕ → Wallet → Type 0
HasRoom n x = IsValid x × (pos_part x.balance + n < 2 ^ 63)

credited-checks :
    (id : Uuid) (n : ℕ) (w : World) (x : Wallet)
    → HasRoom n x
    → (x.id == id) ≡ true
    → wallet_check (credited n w x) ≡ true
credited-checks id n w x room h = ground (
  arith,
  +ℤ_parts x.balance (pos n),
  +ℤ_parts x.ledger_balance (pos n),
  parts_min (x.balance +ℤ pos n),
  parts_min (x.ledger_balance +ℤ pos n),
)

credit_lem :
    (id : Uuid) (n : ℕ) (w : World)
    → Fine w
    → All (HasRoom n) w.tables.wallets
    → credit id (pos n) w
      ≡ (ok tt, with_wallets w (change_where (λ x. x.id == id) (credited n w) w.tables.wallets))
unfolding credit ◌>>=◌
credit_lem id n w fine room =
    rw (statement-Fine (update_wallets (λ x. x.id == id) (credited n w)) w fine) (
      rw
        (update_wallets-change (HasRoom n) (λ x. x.id == id) (credited n w) w.tables
          (credited-checks id n w) room)
        refl)

-- What a deposit leaves alone, and what its entry does.
abbrev pub SameMoney : World → World → Type 0
SameMoney w v =
    (v.tables.wallets ≡ w.tables.wallets)
    × (v.tables.wallet_deposits ≡ w.tables.wallet_deposits)
    × (v.effects ≡ w.effects)

settled_entry :
    (x : WalletTransaction) (b : Bool) (w : World)
    → SameMoney w
        (settle
          (if b
            then some (
              tt,
              record w.tables { wallet_transactions = w.tables.wallet_transactions ++ x ∷ [] },
            )
            else none)
          w).1
settled_entry x true w = (refl, refl, refl)
settled_entry x false w = (refl, refl, refl)

-- Whether the entry can be written or not.
entry-SameMoney :
    (x : WalletTransaction) (w : World)
    → Fine w
    → ((ignore (record_transaction x) w).0 ≡ ok tt)
      × SameMoney w (ignore (record_transaction x) w).1
unfolding record_transaction insert_transaction new_uuid ◌>>=◌
entry-SameMoney x w fine =
    let row = record x { id = w.drawn; created_at = w.now } in
    let u = record w { drawn = w.drawn + 1 } in
    (refl, rw (statement-Fine (insert_transaction row) u fine) (settled_entry row _ u))

is_positive : (n : ℕ) → (is_zero (pos (suc n)) || is_negative (pos (suc n))) ≡ false
is_positive n = ground arith

credit_wallet_lem :
    (id : Uuid) (n : ℕ) (reference description : String) (w : World)
    → Fine w
    → All (HasRoom (suc n)) w.tables.wallets
    → ((credit_wallet id (pos (suc n)) reference description w).0 ≡ ok tt)
      × SameMoney
          (with_wallets w (change_where (λ x. x.id == id) (credited (suc n) w) w.tables.wallets))
          (credit_wallet id (pos (suc n)) reference description w).1
unfolding credit_wallet ◌>>=◌
credit_wallet_lem id n reference description w fine room =
    simp (is_positive n, credit_lem id (suc n) w fine room)
      (entry-SameMoney (ledger_entry id "credit" (pos (suc n)) reference description)
        (with_wallets w (change_where (λ x. x.id == id) (credited (suc n) w) w.tables.wallets))
        fine)

any-append-last :
    (p : WalletDeposit → Bool) (xs : List WalletDeposit) (d : WalletDeposit)
    → p d ≡ true
    → any p (xs ++ d ∷ []) ≡ true
any-append-last p [] d h = rw h refl
any-append-last p (x ∷ xs) d h = ground (arith, any-append-last p xs d h)

-- The deposit as it is recorded.
abbrev pub recorded : WalletAccount → Amount → Amount → String → String → World → WalletDeposit
recorded wa amount fee provider provider_ref w =
    record (deposit_row wa amount fee provider provider_ref) { id = w.drawn; created_at = w.now }

abbrev pub with_deposit : WalletDeposit → World → World
with_deposit d w = record w {
  drawn = w.drawn + 1;
  tables = record w.tables { wallet_deposits = w.tables.wallet_deposits ++ d ∷ [] };
}

record_deposit_lem :
    (wa : WalletAccount) (amount fee : Amount) (provider provider_ref : String) (w : World)
    → Fine w
    → any (λ r. r.id == wa.id) w.tables.wallet_accounts ≡ true
    → has_user wa.user_id w.tables ≡ true
    → is_recorded provider_ref w.tables ≡ false
    → record_deposit (deposit_row wa amount fee provider provider_ref) w
      ≡ (ok tt, with_deposit (recorded wa amount fee provider provider_ref w) w)
unfolding record_deposit insert_deposit new_uuid ◌>>=◌
record_deposit_lem wa amount fee provider provider_ref w fine known user new = simp (
  statement-Fine (insert_deposit (recorded wa amount fee provider provider_ref w))
      (record w { drawn = w.drawn + 1 }) fine,
  known,
  user,
  new,
)

-- On a connection that works, a deposit to the number of an active account, whose reference is new, whose
-- amount less its fee is positive, and for which every wallet is valid and has room: it succeeds; the wallets
-- with the id of the user's wallet, and no others, have that much more of both balances; the reference is
-- recorded from then on, so that a second delivery is refused; and nothing is sent to a provider.
pub process_deposit_webhook_credits :
    (number : String) (amount fee : Amount) (provider provider_ref : String) (wa : WalletAccount)
    (wallet : Wallet) (n : ℕ) (w : World)
    → Fine w
    → find (λ a. str_eq a.account_number number && a.is_active) w.tables.wallet_accounts ≡ some wa
    → any (λ r. r.id == wa.id) w.tables.wallet_accounts ≡ true
    → has_user wa.user_id w.tables ≡ true
    → is_recorded provider_ref w.tables ≡ false
    → user_wallet wa.user_id w.tables ≡ some wallet
    → net_amount amount fee ≡ pos (suc n)
    → All (HasRoom (suc n)) w.tables.wallets
    → let (result, v) = process_deposit_webhook number amount fee provider provider_ref w in
      (result ≡ ok tt)
      × (v.tables.wallets
          ≡ change_where (λ x. x.id == wallet.id) (credited (suc n) w) w.tables.wallets)
      × (is_recorded provider_ref v.tables ≡ true)
      × (v.effects ≡ w.effects)
unfolding process_deposit_webhook get_wallet_account_by_number get_by_user_id ◌>>=◌
process_deposit_webhook_credits number amount fee provider provider_ref wa wallet n w fine found
      known user new owned net room =
    let d = recorded wa amount fee provider provider_ref w in
    let u = with_deposit d w in
    let (good, (wallets, deposits, effects)) =
      credit_wallet_lem wallet.id n provider_ref (append "deposit via " provider) u fine room in
    let last : is_recorded provider_ref u.tables ≡ true =
      any-append-last (λ x. str_eq x.provider_ref provider_ref) w.tables.wallet_deposits d
        ((eq_iff provider_ref provider_ref).1 refl) in
    simp
      (
        query-Fine
            (λ t. find (λ a. str_eq a.account_number number && a.is_active) t.wallet_accounts) w
            fine,
        found,
        record_deposit_lem wa amount fee provider provider_ref w fine known user new,
        query-Fine (user_wallet wa.user_id) u fine,
        owned,
        net,
      )
      (good, wallets, rw deposits last, effects)
