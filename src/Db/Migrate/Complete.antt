-- ===== src/Db/Migrate/Complete.antt =====
-- What `RunMigrations` has recorded where it succeeds, and that it then has nothing more to do.
use weave_server.Prelude.{
  ◌≡◌, refl, subst, ℕ, ◌==◌, ◌||◌, ==_refl, String, Bool, true, false, Bool-cases, Option, none,
  some, List, [], ◌∷◌, ◌++◌, All, any, inl, inr,
}
use weave_server.Db.Statement.{unreachable}
use weave_server.Db.Migrate.{
  Migration, MigrationError, Database, applied, sent, commit, record_version, record_alone, on_up,
  and_then, apply_migration, apply_all, run_migrations,
}

any-append_left :
    {A : Type 0} (p : A → Bool) (xs ys : List A) → any p xs ≡ true → any p (xs ++ ys) ≡ true
any-append_left p [] ys h = cc
any-append_left p (x ∷ xs) ys h = elim (Bool-cases (p x)) [
  | inl hit ↦ rw hit refl
  | inr miss ↦ rw miss (any-append_left p xs ys (rw miss at h))
]

any-append_right :
    {A : Type 0} (p : A → Bool) (xs ys : List A) → any p ys ≡ true → any p (xs ++ ys) ≡ true
any-append_right p [] ys h = h
any-append_right p (x ∷ xs) ys h = elim (Bool-cases (p x)) [
  | inl hit ↦ rw hit refl
  | inr miss ↦ rw miss (any-append_right p xs ys h)
]

-- The version is in the table `schema_migrations`.
abbrev pub Recorded : {S : Type 0} → Database S → ℕ → Type 0
Recorded s v = any (λ x. x == v) (applied s.versions) ≡ true

-- What was recorded is still recorded.
abbrev Grows : {S : Type 0} → Database S → Database S → Type 0
Grows s t = (v : ℕ) → Recorded s v → Recorded t v

-- A run for one migration: the version is recorded, unless it fails.
abbrev RecordsIt : {S : Type 0} → ℕ → Option MigrationError × Database S → Type 0
RecordsIt v (none, t) = Recorded t v
RecordsIt v (some e, t) = Unit {0}

-- And for a list of them.
abbrev RecordsAll : {S : Type 0} → List Migration → Option MigrationError × Database S → Type 0
RecordsAll ms (none, t) = All (λ m. Recorded t (Migration.version m)) ms
RecordsAll ms (some e, t) = Unit {0}

module _ {S : Type 0} (exec : String → S → Option S) (commits : String → Bool) where
  -- A row more in `schema_migrations`.
  grows :
      (s : Database S) (m : Migration) (v : ℕ)
      → Recorded s v
      → any (λ x. x == v) (applied s.versions ++ m.version ∷ []) ≡ true
  grows s m v h = any-append_left (λ x. x == v) (applied s.versions) _ h

  there :
      (s : Database S) (m : Migration)
      → any (λ x. x == m.version) (applied s.versions ++ m.version ∷ []) ≡ true
  there s m =
      any-append_right (λ x. x == m.version) (applied s.versions) (m.version ∷ [])
        (rw (==_refl m.version) refl)

  commit_lem :
      (m : Migration) (schema : S) (s : Database S)
      → let x = commit m schema (applied s.versions ++ m.version ∷ []) s in
        Grows s x.1 × RecordsIt m.version x
  commit_lem m schema s = elim (Bool-cases (unreachable s.faults)) [
    | inl lost ↦ rw lost (λ v h. h, tt)
    | inr fine ↦ rw fine (grows s m, there s m)
  ]

  record_version_lem :
      (m : Migration) (schema : S) (s : Database S)
      → Grows s (record_version m schema s).1 × RecordsIt m.version (record_version m schema s)
  record_version_lem m schema s =
      elim (Bool-cases (unreachable s.faults || any (λ v. v == m.version) (applied s.versions))) [
        | inl bad ↦ rw bad (λ v h. h, tt)
        | inr good ↦ rw good (commit_lem m schema (sent s))
      ]

  record_alone_lem :
      (m : Migration) (schema : S) (s : Database S)
      → Grows s (record_alone m schema s).1 × RecordsIt m.version (record_alone m schema s)
  record_alone_lem m schema s =
      elim (Bool-cases (unreachable s.faults || any (λ v. v == m.version) (applied s.versions))) [
        | inl bad ↦ rw bad (λ v h. h, tt)
        | inr good ↦ rw good (elim (Bool-cases (unreachable (sent s).faults)) [
          | inl lost ↦ rw lost (grows s m, tt)
          | inr fine ↦ rw fine (grows s m, there s m)
        ])
      ]

  on_up_lem :
      (own : Bool) (m : Migration) (done : Option S) (s : Database S)
      → Grows s (on_up own m done s).1 × RecordsIt m.version (on_up own m done s)
  on_up_lem own m none s = (λ v h. h, tt)
  on_up_lem true m (some schema) s = record_alone_lem m schema s
  on_up_lem false m (some schema) s = record_version_lem m schema s

  apply_migration_lem :
      (m : Migration) (s : Database S)
      → Grows s (apply_migration exec commits m s).1
        × RecordsIt m.version (apply_migration exec commits m s)
  unfolding apply_migration
  apply_migration_lem m s = elim (Bool-cases (unreachable s.faults)) [
    | inl lost ↦ rw lost (λ v h. h, tt)
    | inr fine ↦ rw fine (elim (Bool-cases (unreachable (sent s).faults)) [
      | inl lost ↦ rw lost (λ v h. h, tt)
      | inr good ↦ rw good (on_up_lem (commits m.up) m (exec m.up s.schema) (sent (sent s)))
    ])
  ]

  -- A version that is recorded stays so through the rest of the list.
  RecordsAll-cons :
      (m : Migration) (ms : List Migration) (s : Database S)
      (x : Option MigrationError × Database S)
      → Recorded s m.version
      → Grows s x.1 × RecordsAll ms x
      → RecordsAll (m ∷ ms) x
  RecordsAll-cons m ms s (none, t) known (grows, rest) = (grows m.version known, rest)
  RecordsAll-cons m ms s (some e, t) known (grows, rest) = tt

  and_then_lem :
      (m : Migration) (ms : List Migration) (next : Database S → Option MigrationError × Database S)
      (s : Database S) (x : Option MigrationError × Database S)
      → ((t : Database S) → Grows t (next t).1 × RecordsAll ms (next t))
      → Grows s x.1 × RecordsIt m.version x
      → Grows s (and_then next x).1 × RecordsAll (m ∷ ms) (and_then next x)
  and_then_lem m ms next s (none, t) rest (grows, known) =
      (λ v h. (rest t).0 v (grows v h), RecordsAll-cons m ms t (next t) known (rest t))
  and_then_lem m ms next s (some e, t) rest (grows, known) = (grows, tt)

  apply_all_lem :
      (ms : List Migration) (s : Database S)
      → Grows s (apply_all exec commits ms s).1 × RecordsAll ms (apply_all exec commits ms s)
  unfolding apply_all
  apply_all_lem [] s = (λ v h. h, tt)
  apply_all_lem (m ∷ ms) s = elim (Bool-cases (unreachable s.faults)) [
    | inl lost ↦ rw lost (λ v h. h, tt)
    | inr fine ↦ rw fine (elim (Bool-cases (any (λ v. v == m.version) (applied s.versions))) [
      | inl known ↦
          let rest = apply_all_lem ms (sent s) in
          rw known (rest.0, RecordsAll-cons m ms (sent s) _ known rest)
      | inr new ↦ rw new (
          and_then_lem m ms (apply_all exec commits ms) s _ (λ t. apply_all_lem ms t)
            (apply_migration_lem m (sent s)))
    ])
  ]

  run_migrations_lem :
      (ms : List Migration) (s : Database S) → RecordsAll ms (run_migrations exec commits ms s)
  unfolding run_migrations
  run_migrations_lem ms s = elim (Bool-cases (unreachable s.faults)) [
    | inl lost ↦ rw lost tt
    | inr fine ↦ rw fine (apply_all_lem ms _).1
  ]

  pub run_migrations-Recorded :
      (ms : List Migration) (s t : Database S)
      → run_migrations exec commits ms s ≡ (none, t)
      → All (λ m. Recorded t (Migration.version m)) ms
  run_migrations-Recorded ms s t done = subst (RecordsAll ms) done (run_migrations_lem ms s)

  -- Where all is recorded and no statement fails, nothing is done.
  apply_all_again :
      (ms : List Migration) (s : Database S)
      → s.faults ≡ []
      → All (λ m. Recorded s (Migration.version m)) ms
      → apply_all exec commits ms s ≡ (none, s)
  unfolding apply_all
  apply_all_again [] s fine known = refl
  apply_all_again (m ∷ ms) s fine known =
      rw (fine, known.0) (apply_all_again ms (record s { faults = [] }) refl known.1)

  -- Where `RunMigrations` has succeeded, every migration of its list is recorded; and another run of
  -- it, in which no statement fails, succeeds, executes no file and records nothing: the schema and
  -- the recorded versions stay as they are.
  pub run_migrations_again :
      (ms : List Migration) (s t : Database S)
      → run_migrations exec commits ms s ≡ (none, t)
      → All (λ m. Recorded t (Migration.version m)) ms
        × (run_migrations exec commits ms (record t { faults = [] })
            ≡ (none, record t { versions = some (applied t.versions); faults = [] }))
  run_migrations_again ms s t done =
      let recorded = run_migrations-Recorded ms s t done in
      (
        recorded,
        unfold run_migrations in
            apply_all_again ms (record t { versions = some (applied t.versions); faults = [] }) refl
              recorded,
      )
