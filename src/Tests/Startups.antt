-- ===== src/Tests/Startups.antt =====
-- The theorems on the configuration, the migrations and the start of the process, with a schema that is
-- the list of the files applied.
use weave_server.Prelude.{
  ◌≡◌, refl, ℕ, String, true, false, Option, none, some, List, [], ◌∷◌, ◌++◌, All, find, str_eq,
  if◌then◌else◌, arith,
}
use weave_server.Prelude.Int.{pos, ◌+ℤ◌, ◌*ℤ◌}
use weave_server.Db.{err, pin_locked}
use weave_server.Service.AuthService.{Auth, login}
use weave_server.Config.{Environ, loaded, load, int_env, duration_env, config_of, env}
use weave_server.Config.Verdict.{settings, unreadable, verdict, described, load-verdict}
use weave_server.Db.Migrate.{
  Migration, Database, run_migrations, applied, apply_all, apply_migration,
}
use weave_server.Db.Migrate.Complete.{Recorded, run_migrations_again}
use weave_server.Db.Migrate.Consistent.{Consistent}
use weave_server.Db.Migrate.Load.{Entry, load_migrations}
use weave_server.Db.Migrate.Load.Sorted.{
  Ascending, at_version, text_of, last_text, load_migrations_lem,
}
use weave_server.Startup.{Outside, Tokens, main, migrations, new_auth}
use weave_server.Startup.Migrated.{texts, main-Migrated}
use weave_server.Startup.Configured.{login_configured}
use weave_server.Tests.{env as providers, user}
use weave_server.Tests.Logins.{twice_failed}

-- One PIN may fail; the rest is not set.
abbrev variable : String → String
variable key = if str_eq key "MAX_PIN_ATTEMPTS" then "1" else ""

abbrev environ : Environ
environ = record {
  getenv = variable;
  atoi = λ s. if str_eq s "1" then some (pos 1) else none;
  parse_duration = λ s. none;
}

load-verdict_example :
    load environ ≡ verdict environ (find (unreadable environ) settings) (described environ)
load-verdict_example = load-verdict environ

one_attempt : load environ ≡ loaded (described environ)
unfolding load int_env duration_env config_of env
one_attempt = refl

abbrev tokens : Tokens
tokens = record {
  sign_access = λ secret ttl id now. some secret;
  sign_refresh = λ secret ttl id now. some secret;
  read_token = λ secret now token. none;
}

abbrev auth : Auth
auth = record {
  max_pin_attempts = pos 1;
  pin_lockout_mins = pos 15;
  access_ttl = 900;
  sign_access = λ id now. some "dev-secret-change-in-production-min-32-chars!!";
  sign_refresh = λ id now. some "dev-secret-change-in-production-min-32-chars!!";
  read_token = λ now token. none;
}

login_configured_example :
    login providers auth "+2348000000000" "1234" twice_failed ≡ (err pin_locked, twice_failed)
unfolding new_auth ◌+ℤ◌ ◌*ℤ◌
login_configured_example =
    login_configured environ (described environ) tokens auth providers "+2348000000000" "1234" user
      twice_failed one_attempt refl (omega arith, omega arith) (refl, refl) refl refl

-- A folder in which a second file is empty, and one goes down.
abbrev version_of : String → Option ℕ
version_of name =
    if str_eq name "1.up.sql" then some 1 else if str_eq name "2.up.sql" then some 2 else some 3

abbrev entries : List Entry
entries =
    record { name = "2.up.sql"; is_dir = false; text = "more" }
    ∷ record { name = "1.up.sql"; is_dir = false; text = "initial" }
    ∷ record { name = "1.down.sql"; is_dir = false; text = "drop" }
    ∷ []

load_migrations_lem_example :
    Ascending (load_migrations version_of entries)
    × ((v : ℕ)
        → text_of (at_version v (load_migrations version_of entries))
          ≡ last_text version_of v entries none)
load_migrations_lem_example = load_migrations_lem version_of entries

abbrev exec : String → List String → Option (List String)
exec text s = some (s ++ text ∷ [])

abbrev outside : Outside (List String)
outside = record {
  environ = environ;
  new_pool = λ url. true;
  new_redis = λ url. false;
  exec = exec;
  commits = λ text. false;
  version_of = version_of;
  entries = entries;
}

abbrev fresh : Database (List String)
fresh = record { schema = []; versions = none; faults = [] }

abbrev migrated : Database (List String)
migrated = record { schema = "initial" ∷ "more" ∷ []; versions = some (1 ∷ 2 ∷ []); faults = [] }

run_migrations_again_example :
    All (λ m. Recorded migrated (Migration.version m)) (migrations outside)
    × (run_migrations exec (λ text. false) (migrations outside) (record migrated { faults = [] })
        ≡ (none, record migrated { versions = some (applied migrated.versions); faults = [] }))
unfolding run_migrations load_migrations apply_all apply_migration
run_migrations_again_example =
    run_migrations_again exec (λ text. false) (migrations outside) fresh migrated refl

main-Migrated_example :
    (load environ ≡ loaded (described environ))
    × (outside.new_pool (described environ).database_url ≡ true)
    × (false ≡ outside.new_redis (described environ).redis_url)
    × All (λ m. Recorded migrated (Migration.version m)) (migrations outside)
    × Consistent exec (texts outside) [] migrated
unfolding main load int_env duration_env run_migrations load_migrations apply_all apply_migration
    config_of env
main-Migrated_example = main-Migrated outside [] fresh migrated (described environ) false refl refl
