-- ===== src/Repository.antt =====
-- internal/repository: one module for each repository, its SQL read as functions of the tables.
pub mod WalletRepo
pub mod TransactionRepo
pub mod UserRepo
pub mod BankAccountRepo
pub mod BankFundRepo
pub mod AuditLogRepo
pub mod ChatMessageRepo
