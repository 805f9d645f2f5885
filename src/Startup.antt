-- ===== src/Startup.antt =====
-- cmd/server/main.go and internal/server/server.go: what the process does before it serves requests,
-- and what `New` makes of the configuration.
pub mod Migrated
pub mod Configured
use weave_server.Prelude.{
  ℕ, ◌/◌, ltb, String, Bool, true, not, Option, none, some, List, str_eq, if◌then◌else◌,
}
use weave_server.Prelude.Int.{ℤ, pos, negsuc}
use weave_server.Model.{Uuid}
use weave_server.Config.{Config, Environ, Loaded, loaded, invalid, load}
use weave_server.Db.Migrate.{Migration, MigrationError, Database, run_migrations}
use weave_server.Db.Migrate.Load.{Entry, load_migrations}
use weave_server.Provider.{Env}
use weave_server.Service.AuthService.{Auth, Claims}
use weave_server.Middleware.RateLimiter.{RateLimiter}

-- What the process meets: the variables (those of .env included), whether PostgreSQL and Redis answer
-- under their URL, the migration files, what they do to a schema, and whether
-- they end with a COMMIT of their own.
pub record Outside (S : Type 0) : Type 0 where
  pub environ : Environ
  pub new_pool : String → Bool
  pub new_redis : String → Bool
  pub exec : String → S → Option S
  pub commits : String → Bool
  pub version_of : String → Option ℕ
  pub entries : List Entry

-- How `main` goes on: it exits with an error, or serves with a configuration and perhaps with Redis.
pub data Started : Type 0 where
  config_failed : (what key text : String) → Started
  database_failed : Started
  migrations_failed : MigrationError → Started
  serving : Config → (has_redis : Bool) → Started

module _ {S : Type 0} (o : Outside S) where
  -- The migrations that `RunMigrations` loads.
  abbrev pub migrations : List Migration
  migrations = load_migrations o.version_of o.entries

  abbrev on_migrated : Config → Option MigrationError × Database S → Started × Database S
  on_migrated cfg (some e, db) = (migrations_failed e, db)
  on_migrated cfg (none, db) = (serving cfg (o.new_redis cfg.redis_url), db)

  -- `main` from the configuration on.
  abbrev with_config : Loaded Config → Database S → Started × Database S
  with_config (invalid what key text) db = (config_failed what key text, db)
  with_config (loaded cfg) db =
      if o.new_pool cfg.database_url
      then on_migrated cfg (run_migrations o.exec o.commits migrations db)
      else (database_failed, db)

  -- `main`
  unfoldable pub main : Database S → Started × Database S
  main db = with_config (load o.environ) db

-- jwt, by the secret and the time that a token lives.
pub record Tokens : Type 0 where
  pub sign_access : (secret : String) → (ttl : ℤ) → Uuid → ℕ → Option String
  pub sign_refresh : (secret : String) → (ttl : ℤ) → Uuid → ℕ → Option String
  pub read_token : (secret : String) → ℕ → String → Option Claims

-- A time that tokens live, in whole seconds; none for a time that is negative.
abbrev pub seconds : ℤ → Option ℕ
seconds (pos n) = some (n / 1000000000)
seconds (negsuc n) = none

-- The service for logins, as `setupRoutes` makes it.
abbrev auth_of : Tokens → Config → ℕ → Auth
auth_of tokens cfg ttl = record {
  max_pin_attempts = cfg.auth.max_pin_attempts;
  pin_lockout_mins = cfg.auth.pin_lockout_mins;
  access_ttl = ttl;
  sign_access = tokens.sign_access cfg.jwt.secret cfg.jwt.access_ttl;
  sign_refresh = tokens.sign_refresh cfg.jwt.secret cfg.jwt.refresh_ttl;
  read_token = tokens.read_token cfg.jwt.secret;
}

unfoldable pub new_auth : Tokens → Config → Option Auth
new_auth tokens cfg = elim (seconds cfg.jwt.access_ttl) [
  | none ↦ none
  | some ttl ↦ some (auth_of tokens cfg ttl)
]

-- `NewRateLimiter`, for a window that is positive.
abbrev limiter_of : ℤ → ℤ → Option RateLimiter
limiter_of rate (pos n) = if not (ltb 0 n) then none else some (record { rate = rate; window = n })
limiter_of rate (negsuc n) = none

unfoldable pub new_limiter : Config → Option RateLimiter
new_limiter cfg = limiter_of cfg.ratelimit.requests cfg.ratelimit.window

-- The clients that are there: a client without a secret key is nil.
unfoldable pub new_env : Config → (has_redis : Bool) → Env → Env
new_env cfg has_redis env = record env {
  has_mono = not (str_eq cfg.mono_secret_key "");
  has_paystack = not (str_eq cfg.paystack.secret_key "");
  has_pool = true;
  has_audit = true;
  has_redis = has_redis;
  paystack_bank = cfg.paystack.bank;
}
