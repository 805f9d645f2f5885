-- ===== src/Startup/Migrated.antt =====
-- The process serves no request before all migrations are recorded.
use weave_server.Prelude.{
  ◌≡◌, refl, subst, ℕ, String, Bool, true, Bool-cases, Option, none, some, All, inl, inr,
}
use weave_server.Config.{Config, Loaded, loaded, invalid, load}
use weave_server.Db.Migrate.{Migration, MigrationError, Database, run_migrations}
use weave_server.Db.Migrate.Complete.{Recorded, run_migrations-Recorded}
use weave_server.Db.Migrate.Consistent.{Consistent, Left, run_migrations-Left}
use weave_server.Db.Migrate.Load.Sorted.{text_in, load_migrations_texts}
use weave_server.Startup.{Outside, migrations, Started, serving, with_config, on_migrated, main}

abbrev pub texts : {S : Type 0} → Outside S → ℕ → String
texts o = text_in (migrations o)

module _ {S : Type 0} (o : Outside S) (origin : S) where
  -- What is behind a process that serves.
  abbrev Founded : Started × Database S → Type 0
  Founded (serving cfg has_redis, db) =
      (load o.environ ≡ loaded cfg)
      × (o.new_pool cfg.database_url ≡ true)
      × (has_redis ≡ o.new_redis cfg.redis_url)
      × All (λ m. Recorded db (Migration.version m)) (migrations o)
      × Consistent o.exec (texts o) origin db
  Founded (_, db) = Unit {0}

  on_migrated-Founded :
      (cfg : Config) (x : Option MigrationError × Database S)
      → load o.environ ≡ loaded cfg
      → o.new_pool cfg.database_url ≡ true
      → ((t : Database S)
          → x ≡ (none, t)
          → All (λ m. Recorded t (Migration.version m)) (migrations o))
      → Left o.exec (texts o) o.commits origin x
      → Founded (on_migrated o cfg x)
  on_migrated-Founded cfg (some e, db) read pool recorded agrees = tt
  on_migrated-Founded cfg (none, db) read pool recorded agrees =
      (read, pool, refl, recorded db refl, agrees)

  with_config-Founded :
      (l : Loaded Config) (db : Database S)
      → load o.environ ≡ l
      → Consistent o.exec (texts o) origin db
      → Founded (with_config o l db)
  with_config-Founded (invalid what key text) db read agrees = tt
  with_config-Founded (loaded cfg) db read agrees =
      elim (Bool-cases (o.new_pool cfg.database_url)) [
        | inl pool ↦ rw pool (
            on_migrated-Founded cfg (run_migrations o.exec o.commits (migrations o) db) read pool
              (λ t done. run_migrations-Recorded o.exec o.commits (migrations o) db t done)
              (run_migrations-Left o.exec (texts o) o.commits origin (migrations o) db
                (load_migrations_texts o.version_of o.entries) agrees))
        | inr lost ↦ rw lost tt
      ]

-- Where the process comes to serve requests, `Load` has read its configuration, PostgreSQL has
-- answered, and every migration of the folder is recorded in the database; if the schema was what the
-- files of the recorded versions make of the original, one after the other, it is so then. Redis may
-- be missing: then the process serves without it.
pub main-Migrated :
    {S : Type 0} (o : Outside S) (origin : S) (db db' : Database S) (cfg : Config)
    (has_redis : Bool)
    → Consistent o.exec (texts o) origin db
    → main o db ≡ (serving cfg has_redis, db')
    → (load o.environ ≡ loaded cfg)
      × (o.new_pool cfg.database_url ≡ true)
      × (has_redis ≡ o.new_redis cfg.redis_url)
      × All (λ m. Recorded db' (Migration.version m)) (migrations o)
      × Consistent o.exec (texts o) origin db'
unfolding main
main-Migrated o origin db db' cfg has_redis agrees serves =
    subst (Founded o origin) serves (with_config-Founded o origin (load o.environ) db refl agrees)
