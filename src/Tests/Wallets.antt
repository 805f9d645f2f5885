-- ===== src/Tests/Wallets.antt =====
-- The theorems on wallets, deposits and top-ups, at the example's user.
use weave_server.Prelude.{true, ◌==◌, [], ◌∷◌, ◌≡◌, refl, arith}
use weave_server.Prelude.Int.{pos}
use weave_server.Db.{World, ok, err, amount_too_small, ignore, ◌>>◌}
use weave_server.Repository.WalletRepo
use weave_server.Repository.WalletRepo.Change.{hold-debit, change_where, with_wallets, spent}
use weave_server.Service.WalletService.{process_deposit_webhook, check_funding, net_amount}
use weave_server.Service.WalletService.Webhooks.{
  Refused, is_recorded, process_deposit_webhook_replay,
}
use weave_server.Service.WalletService.Funding.{check_funding-verdict}
use weave_server.Service.WalletService.Deposits.{process_deposit_webhook_credits, credited}
use weave_server.Service.Sourcing.Room.{sub-pos}
use weave_server.Service.PayoutService.{create_or_get_recipient}
use weave_server.Tests.{env, world, wallet, account}

net_850 : net_amount (pos 900) (pos 50) ≡ pos 850
net_850 = rw (sub-pos 900 50 (omega arith) (omega arith)) refl

process_deposit_webhook_credits_example :
    let (result, v) =
      process_deposit_webhook "9900000000" (pos 900) (pos 50) "paystack" "D2" world in
    (result ≡ ok tt)
    × (v.tables.wallets ≡ change_where (λ x. x.id == 10) (credited 850 world) (wallet ∷ []))
    × (is_recorded "D2" v.tables ≡ true)
    × (v.effects ≡ world.effects)
process_deposit_webhook_credits_example =
    process_deposit_webhook_credits "9900000000" (pos 900) (pos 50) "paystack" "D2" account wallet
      849 world (refl, refl) refl refl refl refl refl net_850
      (((omega arith, omega arith, omega arith), omega arith), tt)

hold-debit_example :
    (WalletRepo.hold 10 (pos 700) >> ignore (WalletRepo.debit 10 (pos 700))) world
    ≡ (ok tt, with_wallets world (spent 10 (pos 700) world wallet ∷ []))
hold-debit_example =
    hold-debit 10 (pos 700) world (refl, refl) ((omega arith, omega arith, omega arith), tt)
      (omega arith) refl

process_deposit_webhook_replay_example :
    Refused world (process_deposit_webhook "9900000000" (pos 50000) (pos 0) "paystack" "D1" world)
process_deposit_webhook_replay_example =
    process_deposit_webhook_replay "9900000000" (pos 50000) (pos 0) "paystack" "D1" world
      (refl, refl) refl

check_funding-verdict_example : check_funding 1 20 (pos 9999) world ≡ (err amount_too_small, world)
check_funding-verdict_example = check_funding-verdict 1 20 (pos 9999) world (refl, refl)

-- Paystack has been asked once.
abbrev known_recipient : World
known_recipient = (create_or_get_recipient env "0000000001" "058" "Bola" world).1
