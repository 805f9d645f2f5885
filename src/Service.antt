-- ===== src/Service.antt =====
-- internal/service: wallets, the sourcing of a debit, transfers, payouts and logins.
pub mod WalletService
pub mod Sourcing
pub mod PayoutService
pub mod TransferService
pub mod AuthService
