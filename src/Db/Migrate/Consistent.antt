-- ===== src/Db/Migrate/Consistent.antt =====
-- How the table `schema_migrations` and the schema agree, wherever `RunMigrations` stops.
use weave_server.Prelude.{
  ◌≡◌, refl, ◌∙◌, ap, subst, ℕ, ◌==◌, String, Bool, true, false, Bool-cases, Option, none, some,
  List, [], ◌∷◌, ◌++◌, All, any, inl, inr, ◌||◌, ◌⊎◌,
}
use weave_server.Db.Statement.{unreachable}
use weave_server.Db.Migrate.{
  Migration, MigrationError, Database, applied, sent, record_version, record_alone, on_up, and_then,
  apply_migration, apply_all, run_migrations,
}

abbrev then_run : {S : Type 0} → Option S → (S → Option S) → Option S
then_run none f = none
then_run (some s) f = f s

-- The schema after the files of the versions, in this order.
abbrev pub after : {S : Type 0} → (String → S → Option S) → (ℕ → String) → List ℕ → S → Option S
after exec texts [] s = some s
after exec texts (v ∷ vs) s = then_run (exec (texts v) s) (after exec texts vs)

-- What the files of the recorded versions make of a schema is the schema that is there.
abbrev pub Consistent :
    {S : Type 0} → (String → S → Option S) → (ℕ → String) → S → Database S → Type 0
Consistent exec texts origin s = after exec texts (applied s.versions) origin ≡ some s.schema

-- What a run leaves: it is consistent; or the run ended where a version could not be recorded, and
-- with that version it would be.
abbrev pub Left :
    {S : Type 0}
    → (String → S → Option S)
    → (ℕ → String)
    → (commits : String → Bool) → S
    → Option MigrationError × Database S
    → Type 0
Left exec texts commits origin (some (MigrationError.record_failed v), s) =
    Consistent exec texts origin s
    ⊎ ((commits (texts v) ≡ true)
        × (after exec texts (applied s.versions ++ v ∷ []) origin ≡ some s.schema))
Left exec texts commits origin (_, s) = Consistent exec texts origin s

module _ {S : Type 0} (exec : String → S → Option S) (texts : ℕ → String) (commits : String → Bool)
    (origin : S) where
  then_run-append :
      (vs : List ℕ) (v : ℕ) (o : Option S) (t : S)
      → ((u : S)
          → after exec texts vs u ≡ some t
          → after exec texts (vs ++ v ∷ []) u ≡ then_run (exec (texts v) t) (λ x. some x))
      → then_run o (after exec texts vs) ≡ some t
      → then_run o (after exec texts (vs ++ v ∷ [])) ≡ then_run (exec (texts v) t) (λ x. some x)
  then_run-append vs v none t rest h = cc
  then_run-append vs v (some u) t rest h = rest u h

  after-append :
      (vs : List ℕ) (v : ℕ) (s t : S)
      → after exec texts vs s ≡ some t
      → after exec texts (vs ++ v ∷ []) s ≡ then_run (exec (texts v) t) (λ u. some u)
  after-append [] v s t h = cc
  after-append (w ∷ vs) v s t h =
      then_run-append vs v (exec (texts w) s) t (λ u e. after-append vs v u t e) h

  record_version-Left :
      (m : Migration) (schema : S) (s : Database S)
      → Consistent exec texts origin s
      → after exec texts (applied s.versions ++ m.version ∷ []) origin ≡ some schema
      → Left exec texts commits origin (record_version m schema s)
  record_version-Left m schema s old new =
      elim (Bool-cases (unreachable s.faults || any (λ v. v == m.version) (applied s.versions))) [
        | inl bad ↦ rw bad (inl old)
        | inr good ↦ rw good (elim (Bool-cases (unreachable (sent s).faults)) [
          | inl lost ↦ rw lost old
          | inr fine ↦ rw fine new
        ])
      ]

  record_alone-Left :
      (m : Migration) (schema : S) (s : Database S)
      → commits (texts m.version) ≡ true
      → after exec texts (applied s.versions ++ m.version ∷ []) origin ≡ some schema
      → Left exec texts commits origin (record_alone m schema s)
  record_alone-Left m schema s own new =
      elim (Bool-cases (unreachable s.faults || any (λ v. v == m.version) (applied s.versions))) [
        | inl bad ↦ rw bad (inr (own, new))
        | inr good ↦ rw good (elim (Bool-cases (unreachable (sent s).faults)) [
          | inl lost ↦ rw lost new
          | inr fine ↦ rw fine new
        ])
      ]

  on_up-Left :
      (own : Bool) (m : Migration) (done : Option S) (s : Database S)
      → commits m.up ≡ own
      → Consistent exec texts origin s
      → exec m.up s.schema ≡ done
      → m.up ≡ texts m.version
      → Left exec texts commits origin (on_up own m done s)
  on_up-Left own m none s ends old e text = old
  on_up-Left own m (some schema) s ends old e text =
      let new : after exec texts (applied s.versions ++ m.version ∷ []) origin ≡ some schema =
        after-append (applied s.versions) m.version origin s.schema old
        ∙ ap (λ o. then_run o (λ u. some u))
            (ap (λ x. exec x s.schema) (subst (λ x. x ≡ m.up) text refl) ∙ e) in
      by_own own ends new
    where
      by_own :
          (own : Bool)
          → commits m.up ≡ own
          → after exec texts (applied s.versions ++ m.version ∷ []) origin ≡ some schema
          → Left exec texts commits origin (on_up own m (some schema) s)
      by_own true ends new =
          record_alone-Left m schema s (subst (λ x. commits x ≡ true) text ends) new
      by_own false ends new = record_version-Left m schema s old new

  apply_migration-Left :
      (m : Migration) (s : Database S)
      → Consistent exec texts origin s
      → m.up ≡ texts m.version
      → Left exec texts commits origin (apply_migration exec commits m s)
  unfolding apply_migration
  apply_migration-Left m s old text = elim (Bool-cases (unreachable s.faults)) [
    | inl lost ↦ rw lost old
    | inr fine ↦ rw fine (elim (Bool-cases (unreachable (sent s).faults)) [
      | inl lost ↦ rw lost old
      | inr good ↦ rw good (on_up-Left (commits m.up) m _ (sent (sent s)) refl old refl text)
    ])
  ]

  and_then-Left :
      (next : Database S → Option MigrationError × Database S)
      (r : Option MigrationError × Database S)
      → ((s : Database S)
          → Consistent exec texts origin s
          → Left exec texts commits origin (next s))
      → Left exec texts commits origin r
      → Left exec texts commits origin (and_then next r)
  and_then-Left next (none, s) keeps h = keeps s h
  and_then-Left next (some e, s) keeps h = h

  apply_all-Left :
      (ms : List Migration) (s : Database S)
      → All (λ m. Migration.up m ≡ texts m.version) ms
      → Consistent exec texts origin s
      → Left exec texts commits origin (apply_all exec commits ms s)
  unfolding apply_all
  apply_all-Left [] s read h = h
  apply_all-Left (m ∷ ms) s read h = elim (Bool-cases (unreachable s.faults)) [
    | inl lost ↦ rw lost h
    | inr fine ↦ rw fine (elim (Bool-cases (any (λ v. v == m.version) (applied s.versions))) [
      | inl known ↦ rw known (apply_all-Left ms (sent s) read.1 h)
      | inr new ↦ rw new (
          and_then-Left (apply_all exec commits ms) (apply_migration exec commits m (sent s))
            (λ t old. apply_all-Left ms t read.1 old) (apply_migration-Left m (sent s) h read.0))
    ])
  ]

-- Whichever statements and files of `RunMigrations` fail, and at whatever point it stops, where the
-- list has one text for a version: a schema that is what the files of the recorded versions make of
-- the original, one after the other, is so again afterwards; only where recording a version fails,
-- whose file has a COMMIT of its own, as 000001_initial.up.sql has, the schema may be one file ahead:
-- it is then what the files of the recorded versions and the file of that version make of the original.
pub run_migrations-Left :
    {S : Type 0} (exec : String → S → Option S) (texts : ℕ → String) (commits : String → Bool)
    (origin : S) (ms : List Migration) (s : Database S)
    → All (λ m. Migration.up m ≡ texts m.version) ms
    → Consistent exec texts origin s
    → Left exec texts commits origin (run_migrations exec commits ms s)
unfolding run_migrations
run_migrations-Left exec texts commits origin ms s read h =
    elim (Bool-cases (unreachable s.faults)) [
      | inl lost ↦ rw lost h
      | inr fine ↦ rw fine (apply_all-Left exec texts commits origin ms _ read h)
    ]
