-- ===== src/Repository/WalletRepo/Valid.antt =====
-- What a valid row of `wallets` is: no balance is negative, no wallet has more to spend than it
-- holds, and the numbers fit a BIGINT.
use weave_server.Prelude.{◌<◌, ◌^◌, ◌≡◌, true, All, arith}
use weave_server.Prelude.Int.{pos, pos_part, ◌≤ℤ◌}
use weave_server.Model.{Wallet}
use weave_server.Db.{Tables}
use weave_server.Repository.WalletRepo.{wallet_check}

abbrev pub IsValid : Wallet → Type 0
IsValid w =
    (pos 0 ≤ℤ w.ledger_balance) × (w.ledger_balance ≤ℤ w.balance) × (pos_part w.balance < 2 ^ 63)

abbrev pub WalletsValid : Tables → Type 0
WalletsValid t = All IsValid t.wallets

pub wallet_check-IsValid : (w : Wallet) → wallet_check w ≡ true → IsValid w
wallet_check-IsValid w h = ground arith
