-- ===== src/Model.antt =====
-- internal/model: amounts, and the rows that the services and the repositories exchange. A UUID is
-- a number that is only compared, a time is a number of seconds, `*T` is an `Option`.
mod Wallets
mod Transactions
mod Banks
mod Users
mod Chats
pub use Wallets.*
pub use Transactions.*
pub use Banks.*
pub use Users.*
pub use Chats.*
