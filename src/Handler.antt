-- ===== src/Handler.antt =====
-- internal/handler.
pub mod Response
pub mod Wallets
pub mod Webhooks
pub mod Banks
pub mod Transfers
pub mod Logins
