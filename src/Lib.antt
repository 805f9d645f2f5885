-- ===== src/Lib.antt =====
-- The money of the weave server: wallets, linked banks, transfers, deposits and top-ups.
--
-- A client asks for a transfer. `SourcingEngine` splits its amount over the user's wallet and the
-- linked banks; `TransferService` opens a database transaction, holds the wallet's part, charges
-- the banks by Mono, and sends the whole by Paystack. Webhooks of Paystack and Mono add money to
-- wallets through `WalletService`; `AuthService` registers users and checks their PINs. The
-- repositories below send SQL to PostgreSQL.
--
-- The files, by the part that they model (paths from the repository's root):
--   Model          internal/model: the records; `Amount` is an int64 that wraps around
--   Db             the tables of internal/db/migrations, statements, transactions (repository/tx.go);
--                  Db.Fine has what a connection does that works; Db.Migrate is
--                  internal/db/migrate.go, with `loadMigrations` in Db.Migrate.Load
--   Repository     internal/repository, a module for each repository, a function for each method:
--                  `GetByUserID` of WalletRepo is Repository.WalletRepo.get_by_user_id
--   Provider       the answers of Mono and Paystack, hashes and the text of UUIDs: parameters; and
--                  internal/provider, the clients that give such answers: Provider.Paystack, Provider.Mono
--                  and Provider.Llm over a transport, Provider.Clients for the environment that they make
--   Service        internal/service: WalletService, Sourcing (the sourcing engine of
--                  wallet_service.go), PayoutService, TransferService, AuthService
--   Http           requests, responses, and what the process holds from one request to the next
--   Middleware     internal/middleware, and its order in internal/server/server.go (Stack); Writer is
--                  what is written to the client, step by step, with the headers
--   Handler        internal/handler: Logins is auth.go, Wallets and Webhooks are wallet.go, Banks is
--                  bank.go, Transfers is transfer.go; health.go is in Handler.Response
--   Chat           internal/handler/chat_tools.go: Dispatch is executeTool, Tools, Banks and Reads have
--                  the tools, Toolbox their names, Pending is what waits for a confirmation; Messages
--                  is chat.go, History and Prompt are chat_support.go, Wording the texts of all three;
--                  Chat.Agent is internal/provider/llm/agent.go
--   Api            the routes behind the middleware
--   Config         internal/config/config.go: `Load`; Config.Verdict has the table of its numbers
--   Startup        cmd/server/main.go up to the first request, and what `New` of internal/server/server.go
--                  makes of the configuration
--   Tests          one user with a wallet and a bank, and the theorems at that user
--
-- A Go function is an action on `World`: the tables, the tables at BEGIN while a transaction is open,
-- what the providers have accepted, and the faults to come. It returns a value or an error, and what
-- it has done before an error stays. A list in the world says which of the next statements fail
-- because the database cannot be reached; a statement also fails where it violates a constraint, and
-- then PostgreSQL refuses the rest of its transaction. UUIDs are numbered by their draw, so two draws
-- never collide. The order of rows of the same time, where a page of transactions is read, is a
-- parameter. A provider's answer may depend on how many calls came before. Every function of
-- these services ends: its loops are over lists, and no fuel is used. The loop of the agent runs on
-- fuel: the 8 iterations that the code itself allows.
--
-- A handler is a function of the user of the context, the decoded body and the world. A panic is an
-- outcome of its own: under Timeout it ends the process. Redis is a list of entries with the time at
-- which each goes. The store of answers that Idempotency uses is a parameter, with both stores of the code
-- (in memory, and in Redis) as its values.
--
-- Numbers from requests and rows are integers; the code's own arithmetic on them wraps around at 64
-- bits, and SQL arithmetic fails out of the range of BIGINT. A float64 is a number of millionths.
-- Not modelled: two requests at once (each theorem is about one action, in any world), a handler
-- that writes just when `Timeout` answers 504 (it answers before the handler or after it), log
-- lines, the metadata of audit entries, the texts around errors, the encoding of requests and
-- responses, what the language model says, listening and shutting down, the connections themselves,
-- the headers of an answer outside Middleware.Writer, and pkg/httpclient, which nothing uses.
pub mod Api
pub mod Chat
pub mod Config
pub mod Db
pub mod Handler
pub mod Http
pub mod Middleware
pub mod Model
pub mod Prelude
pub mod Provider
pub mod Repository
pub mod Service
pub mod Startup
pub mod Tests
