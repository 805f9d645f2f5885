-- ===== src/Tests/Migrations.antt =====
-- The theorem on migrations, with a schema that is the list of the files applied.
use weave_server.Prelude.{
  ℕ, ◌==◌, refl, String, Bool, true, false, Option, none, some, List, [], ◌∷◌, ◌++◌, str_eq,
  if◌then◌else◌,
}
use weave_server.Db.Migrate.{
  Migration, MigrationError, Database, run_migrations, apply_all, apply_migration,
}
use weave_server.Db.Migrate.Consistent.{Left, run_migrations-Left}

-- The first file ends its own transaction.
abbrev texts : ℕ → String
texts v = if v == 1 then "initial" else ""

abbrev exec : String → List String → Option (List String)
exec text s = some (s ++ text ∷ [])

abbrev commits : String → Bool
commits text = str_eq text "initial"

abbrev files : List Migration
files = record { version = 1; up = "initial" } ∷ []

-- The statement that records the version fails.
abbrev fresh : Database (List String)
fresh = record { schema = []; versions = none; faults = false ∷ false ∷ false ∷ false ∷ true ∷ [] }

-- The schema has it, and the table has not.
abbrev ahead : Option MigrationError × Database (List String)
ahead = (
  some (MigrationError.record_failed 1),
  record { schema = "initial" ∷ []; versions = some []; faults = [] },
)

run_migrations-Left_example : Left exec texts commits [] ahead
unfolding run_migrations apply_all apply_migration
run_migrations-Left_example = run_migrations-Left exec texts commits [] files fresh (refl, tt) refl
