-- ===== src/Tests/Transfers.antt =====
-- The theorems on transfers and debit plans, at the example's user.
use weave_server.Prelude.{◌≡◌, refl, arith, [], ◌∷◌, inr, leb, if◌then◌else◌}
use weave_server.Prelude.Int.{pos, ◌-ℤ◌}
use weave_server.Db.{ok, err, insufficient_funds, fail, database, statement, ◌>>=◌, ◌>>◌}
use weave_server.Db.Rows.{update_rows, push_row}
use weave_server.Repository.WalletRepo
use weave_server.Repository.WalletRepo.Change.{held, with_wallets}
use weave_server.Service.Sourcing.{balance_of, build_debit_plan, stored_balances}
use weave_server.Service.Sourcing.Room.{capacity, room}
use weave_server.Repository.BankAccountRepo.{in_order}
use weave_server.Service.Sourcing.Build.{build_debit_plan-greedy, greedy_plan, spendable}
use weave_server.Service.Sourcing.Covers.{Covers, build_debit_plan-Covers}
use weave_server.Service.TransferService.{initiate_transfer, in_tx}
use weave_server.Service.TransferService.Preflight.{initiate_transfer_refused, OnlyAudited}
use weave_server.Service.TransferService.Commit.{in_tx_commits}
use weave_server.Tests.{env, wallet, world, transfer_request}

build_debit_plan-greedy_example : build_debit_plan env 1 (pos 120000) world ≡ (
  (if leb 120000 (spendable 1 world.tables)
      then ok (greedy_plan env 1 120000 world.tables)
      else err insufficient_funds),
  world,
)
build_debit_plan-greedy_example =
    build_debit_plan-greedy env 1 120000 world (refl, refl) (omega arith)
      (((omega arith, omega arith), (omega arith, omega arith)), tt)

build_debit_plan-Covers_example :
    Covers env 1 120000 world.tables (greedy_plan env 1 120000 world.tables)
unfolding capacity room balance_of stored_balances in_order ◌-ℤ◌
build_debit_plan-Covers_example =
    build_debit_plan-Covers env 1 120000 world world (greedy_plan env 1 120000 world.tables)
      (refl, refl) (omega arith) (omega arith)
      (((omega arith, omega arith), (omega arith, omega arith)), tt)
      (build_debit_plan-greedy env 1 120000 world (refl, refl) (omega arith)
        (((omega arith, omega arith), (omega arith, omega arith)), tt))

initiate_transfer_refused_example :
    let result = initiate_transfer env 1 (transfer_request "K2" (pos 900000)) world in
    (result.0 ≡ err insufficient_funds) × OnlyAudited world result.1
unfolding capacity room balance_of stored_balances in_order ◌-ℤ◌
initiate_transfer_refused_example =
    initiate_transfer_refused env 1 (transfer_request "K2" (pos 900000)) 900000 world (refl, refl)
      (((omega arith, omega arith), (omega arith, omega arith)), tt) (omega arith) refl
      (omega arith) (inr refl)

in_tx_commits_example :
    in_tx env (WalletRepo.hold 10 (pos 700) >> fail {A = Unit {0}} database) world
    ≡ (err database, with_wallets world (held (pos 700) world wallet ∷ []))
unfolding WalletRepo.hold WalletRepo.update_wallets update_rows push_row statement ◌-ℤ◌ ◌>>=◌
in_tx_commits_example =
    in_tx_commits env (WalletRepo.hold 10 (pos 700) >> fail database) world refl (refl, refl)
      (refl, refl)
