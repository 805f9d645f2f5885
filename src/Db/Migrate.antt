-- ===== src/Db/Migrate.antt =====
-- internal/db/migrate.go: `RunMigrations`, on the sorted list that `loadMigrations` returns. What a
-- file of SQL does to the schema is a parameter, and so is whether it ends with a COMMIT of its own, as
-- migrations/000001_initial.up.sql does; no file touches the table `schema_migrations`. A COMMIT that
-- fails leaves what was there before BEGIN.
pub mod Consistent
pub mod Complete
pub mod Load
use weave_server.Prelude.{
  ℕ, ◌==◌, String, Bool, true, false, ◌||◌, Option, none, some, List, [], ◌∷◌, ◌++◌, any,
  if◌then◌else◌,
}
use weave_server.Db.Statement.{unreachable, later}

pub record Migration : Type 0 where
  pub version : ℕ
  pub up : String

pub data MigrationError : Type 0 where
  create_table : MigrationError
  check_failed : ℕ → MigrationError
  begin_failed : ℕ → MigrationError
  apply_failed : ℕ → MigrationError
  record_failed : ℕ → MigrationError
  commit_failed : ℕ → MigrationError

-- The schema, the table `schema_migrations` if it is there, and which of the next statements fail.
pub record Database (S : Type 0) : Type 0 where
  pub schema : S
  pub versions : Option (List ℕ)
  pub faults : List Bool

abbrev pub applied : Option (List ℕ) → List ℕ
applied none = []
applied (some vs) = vs

module _ {S : Type 0} where
  -- A statement has been sent.
  abbrev pub sent : Database S → Database S
  sent s = record s { faults = later s.faults }

  -- `CREATE TABLE IF NOT EXISTS`
  abbrev pub create_tracking : Database S → Database S
  create_tracking s = record (sent s) { versions = some (applied s.versions) }

  -- `tx.Commit`, with the schema and the versions of the transaction.
  abbrev pub commit : Migration → S → List ℕ → Database S → Option MigrationError × Database S
  commit m schema vs s =
      if unreachable s.faults
      then (some (MigrationError.commit_failed m.version), sent s)
      else (none, record (sent s) { schema = schema; versions = some vs })

  -- The INSERT after a file that has ended the transaction itself: it stands by itself, and the COMMIT
  -- has nothing to do.
  abbrev pub record_alone : Migration → S → Database S → Option MigrationError × Database S
  record_alone m schema s =
      let known = any (λ v. v == m.version) (applied s.versions) in
      let made = record (sent s) { schema = schema } in
      let recorded = record made { versions = some (applied s.versions ++ m.version ∷ []) } in
      if unreachable s.faults || known
      then (some (MigrationError.record_failed m.version), sent made)
      else if unreachable recorded.faults
      then (some (MigrationError.commit_failed m.version), sent recorded)
      else (none, sent recorded)

  -- The INSERT in the transaction; `tx.Rollback` is a statement too, and its error is dropped.
  abbrev pub record_version : Migration → S → Database S → Option MigrationError × Database S
  record_version m schema s =
      let known = any (λ v. v == m.version) (applied s.versions) in
      if unreachable s.faults || known
      then (some (MigrationError.record_failed m.version), sent (sent s))
      else commit m schema (applied s.versions ++ m.version ∷ []) (sent s)

  abbrev pub on_up :
      (commits : Bool) → Migration → Option S → Database S → Option MigrationError × Database S
  on_up commits m none s = (some (MigrationError.apply_failed m.version), sent s)
  on_up true m (some schema) s = record_alone m schema s
  on_up false m (some schema) s = record_version m schema s

  -- The loop goes on where there is no error.
  abbrev pub and_then :
      (Database S → Option MigrationError × Database S)
      → Option MigrationError × Database S
      → Option MigrationError × Database S
  and_then next (none, s) = next s
  and_then next (some e, s) = (some e, s)

module _ {S : Type 0} (exec : String → S → Option S) (commits : String → Bool) where
  -- From `pool.Begin` to `tx.Commit`.
  unfoldable pub apply_migration : Migration → Database S → Option MigrationError × Database S
  apply_migration m s =
      if unreachable s.faults
      then (some (MigrationError.begin_failed m.version), sent s)
      else if unreachable (sent s).faults
      then (some (MigrationError.apply_failed m.version), sent (sent (sent s)))
      else on_up (commits m.up) m (exec m.up s.schema) (sent (sent s))

  unfoldable pub apply_all : List Migration → Database S → Option MigrationError × Database S
  apply_all [] s = (none, s)
  apply_all (m ∷ ms) s =
      let next = apply_all ms in
      let known = any (λ v. v == m.version) (applied s.versions) in
      if unreachable s.faults
      then (some (MigrationError.check_failed m.version), sent s)
      else if known
      then next (sent s)
      else and_then next (apply_migration m (sent s))

  -- `RunMigrations`
  unfoldable pub run_migrations : List Migration → Database S → Option MigrationError × Database S
  run_migrations ms s =
      if unreachable s.faults
      then (some MigrationError.create_table, sent s)
      else apply_all ms (create_tracking s)
