-- ===== src/Db/Migrate/Load.antt =====
-- internal/db/migrate.go: `loadMigrations`, over the entries of the embedded folder, which can always be
-- read. What Sscanf reads of a name is a parameter. The order in which Go goes through a map is left to
-- the sort, which no two versions leave open.
pub mod Sorted
use Prim.Native.String.{slice, len}
use weave_server.Prelude.{
  ℕ, ◌==◌, ◌-◌, ltb, leb, not, ◌&&◌, ◌||◌, str_eq, String, Bool, Option, none, some, List, [], ◌∷◌,
  if◌then◌else◌,
}
use weave_server.Db.Migrate.{Migration}

pub record Entry : Type 0 where
  pub name : String
  pub is_dir : Bool
  pub text : String

-- `strings.HasSuffix`
abbrev ends_with : (s suffix : String) → Bool
ends_with s suffix =
    leb (len suffix) (len s) && str_eq (slice s (len s - len suffix) (len s)) suffix

-- `seen[version] = text`
pub put : ℕ → String → List Migration → List Migration
put v up [] = record { version = v; up = up } ∷ []
put v up (m ∷ ms) =
    let rest = put v up ms in
    if m.version == v then record { version = v; up = up } ∷ ms else m ∷ rest

abbrev put_read : Option ℕ → String → List Migration → List Migration
put_read none up ms = ms
put_read (some v) up ms = put v up ms

-- The loop over the entries.
pub collect : (String → Option ℕ) → List Entry → List Migration → List Migration
collect version_of [] seen = seen
collect version_of (e ∷ es) seen = collect version_of es (
    if e.is_dir || not (ends_with e.name ".up.sql")
    then seen
    else put_read (version_of e.name) e.text seen)

pub ordered : Migration → List Migration → List Migration
ordered m [] = m ∷ []
ordered m (x ∷ xs) =
    let rest = ordered m xs in if ltb m.version x.version then m ∷ x ∷ xs else x ∷ rest

-- `sort.Slice`
pub sorted : List Migration → List Migration
sorted [] = []
sorted (m ∷ ms) = ordered m (sorted ms)

-- `loadMigrations`
unfoldable pub load_migrations : (String → Option ℕ) → List Entry → List Migration
unfolding put collect ordered sorted
load_migrations version_of entries = sorted (collect version_of entries [])
