-- ===== src/Postgres/Migrations/Up.antt =====
-- `MigrateUp` against its specification: an initial part of the pending migrations, each applied
-- with its record in one step, and nothing else.
pub mod Again
use stdlib_lab.Prelude.{
  ◌≡◌, ◌⊎◌, inl, inr, refl, ap, Bool, true, false, List, [], ◌∷◌, ◌++◌, Option, none, some,
  Option-cases, Result, ok, err, Result-cases, Text, Bool-cases, if◌then◌else◌, arith,
}
use stdlib_lab.Postgres.Migrations.Files.{up, Migration, load_migrations}
use stdlib_lab.Postgres.Migrations.{
  HistoryRecord, Database, Driver, MigrationError, begin_failed, migration_failed, record_failed,
  commit_failed, is_applied, record_of, committed, apply_migration, apply_pending, sort_migrations,
  migrate_up, and_then,
}

-- The migrations of a list that a history does not hold.
abbrev pub pending : List HistoryRecord → List Migration → List Migration
pending history [] = []
pending history (m ∷ ms) =
    let rest = pending history ms in if is_applied history m.id then rest else m ∷ rest

module _ {D : Type 0} (driver : Driver D) where
  -- Each migration's statement runs on the tables that the one before left, and its record is added
  -- at the end of the history.
  pub data Applied : Database D → List Migration → Database D → Type 0 where
    nothing : {db : Database D} → Applied db [] db
    step :
        {db db' : Database D} {m : Migration} {ms : List Migration} (tables : D)
        → driver.exec m.sql db.tables ≡ ok tables
        → Applied (committed driver tables (record_of driver m db) db) ms db'
        → Applied db (m ∷ ms) db'

  pub apply_migration_cases :
      (m : Migration) (db : Database D)
      → ((tables : D) × (driver.exec m.sql db.tables ≡ ok tables)
          × (apply_migration driver m db
              ≡ (ok tt, committed driver tables (record_of driver m db) db)))
        ⊎ ((e : MigrationError) × (apply_migration driver m db ≡ (err e, db)))
  unfolding apply_migration
  apply_migration_cases m db = elim (Option-cases (driver.begin_error db)) [
    | inr (e, f) ↦ inr (begin_failed e, ground arith)
    | inl f ↦ elim (Result-cases (driver.exec m.sql db.tables)) [
      | inl (e, g) ↦ inr (migration_failed m.id e, ground arith)
      | inr (tables, g) ↦ elim (Option-cases (driver.create_error (record_of driver m db) db)) [
        | inr (e, h) ↦ inr (record_failed e, ground arith)
        | inl h ↦ elim (Option-cases (driver.commit_error db)) [
          | inr (e, k) ↦ inr (commit_failed e, ground arith)
          | inl k ↦ inl (tables, g, ground arith)
        ]
      ]
    ]
  ]

  -- How a run of the loop ends: all is applied, or a first part is and the next migration failed.
  abbrev pub Ends :
      Result MigrationError (Unit {0}) → Database D → Database D → List Migration → Type 0
  Ends result db db' ms =
      ((result ≡ ok tt) × Applied db ms db')
      ⊎ ((done : List Migration) × (failed : Migration) × (rest : List Migration)
          × (e : MigrationError) × (ms ≡ done ++ (failed ∷ rest))
          × (result ≡ err e)
          × Applied db done db')

  Ends-step :
      (result : Result MigrationError (Unit {0})) (db db' : Database D) (m : Migration)
      (ms : List Migration) (tables : D)
      → driver.exec m.sql db.tables ≡ ok tables
      → Ends result (committed driver tables (record_of driver m db) db) db' ms
      → Ends result db db' (m ∷ ms)
  Ends-step result db db' m ms tables ran (inl (all_done, a)) = inl (all_done, step tables ran a)
  Ends-step result db db' m ms tables ran (inr (done, failed, rest, e, split_at, bad, a)) =
      inr (m ∷ done, failed, rest, e, ap (λ l. m ∷ l) split_at, bad, step tables ran a)

  apply_pending-Ends :
      (history : List HistoryRecord) (ms : List Migration) (db : Database D)
      → Ends
          (apply_pending driver history ms db).0
          db
          (apply_pending driver history ms db).1
          (pending history ms)
  unfolding apply_pending
  apply_pending-Ends history [] db = inl (refl, nothing)
  apply_pending-Ends history (m ∷ ms) db = elim (Bool-cases (is_applied history m.id)) [
    | inl old ↦ rw old (apply_pending-Ends history ms db)
    | inr new ↦ elim (apply_migration_cases m db) [
      | inl (tables, ran, ran_ok) ↦
          rw (new, ran_ok)
            (Ends-step
              (apply_pending driver history ms
                (committed driver tables (record_of driver m db) db)).0
              db
              (apply_pending driver history ms
                (committed driver tables (record_of driver m db) db)).1
              m (pending history ms) tables ran
              (apply_pending-Ends history ms (committed driver tables (record_of driver m db) db)))
      | inr (e, ran_err) ↦
          rw (new, ran_err) (inr ([], m, pending history ms, e, refl, refl, nothing))
    ]
  ]

-- With the history table ensured, the history readable and the files loaded, `MigrateUp` ends in one
-- of two ways. Either it succeeds and has applied exactly the loaded migrations whose ids were not in
-- the history, in the order of `sort_migrations`; or it fails and has applied exactly those before
-- one of them. What is applied is applied whole: the statement together with its record.
pub migrate_up-Ends :
    {D : Type 0} (driver : Driver D) (db : Database D) (ms : List Migration)
    → driver.ensure_error db ≡ none
    → driver.find_error db ≡ none
    → load_migrations up driver.entries ≡ ok ms
    → Ends driver
        (migrate_up driver db).0
        db
        (migrate_up driver db).1
        (pending db.history (sort_migrations ms))
unfolding migrate_up
migrate_up-Ends driver db ms ensured found loaded =
    let same : migrate_up driver db ≡ apply_pending driver db.history (sort_migrations ms) db =
      ground arith in
    rw same (apply_pending-Ends driver db.history (sort_migrations ms) db)
