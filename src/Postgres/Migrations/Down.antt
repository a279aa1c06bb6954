-- ===== src/Postgres/Migrations/Down.antt =====
-- `MigrateDown`: which migration it reverts, and what `AutoMigrate` does to it.
use stdlib_lab.Prelude.{
  ◌≡◌, inl, inr, refl, true, List, [], ◌∷◌, ◌++◌, none, some, Option-cases, ok, err, Result-cases,
  All, arith,
}
use stdlib_lab.Postgres.Migrations.Files.{down, Migration, load_migrations}
use stdlib_lab.Postgres.Migrations.{
  HistoryRecord, Database, Driver, MigrationError, no_down_migration, text_ltb, last_record,
  find_migration, revert_migration, migrate_down, auto_migrate, auto_record,
}

-- A `MigrateDown` that fails, wherever it fails, changes neither the tables nor the history.
pub migrate_down-error :
    {D : Type 0} (driver : Driver D) (db : Database D) {e : MigrationError}
    → (migrate_down driver db).0 ≡ err e
    → (migrate_down driver db).1 ≡ db
unfolding migrate_down revert_migration
migrate_down-error driver db h = ground arith

last_record-append :
    (history : List HistoryRecord) (r : HistoryRecord)
    → All (λ (x : HistoryRecord). text_ltb x.id r.id ≡ true) history
    → last_record (history ++ (r ∷ [])) ≡ some r
unfolding last_record
last_record-append [] r h = refl
last_record-append (x ∷ history) r h = ground (arith, last_record-append history r h.1)

-- After an `AutoMigrate` whose time stamp is beyond every id in the history, `MigrateDown` cannot
-- revert anything: it looks for a down migration under the time stamp, and fails unless the directory
-- happens to hold one.
pub auto_migrate_blocks_down :
    {D : Type 0} (driver : Driver D) (db : Database D) (ms : List Migration)
    → (auto_migrate driver db).0 ≡ ok tt
    → All (λ (r : HistoryRecord). text_ltb r.id (driver.stamp db) ≡ true) db.history
    → load_migrations down driver.entries ≡ ok ms
    → find_migration (driver.stamp db) ms ≡ none
    → driver.find_error (auto_migrate driver db).1 ≡ none
    → migrate_down driver (auto_migrate driver db).1
      ≡ (err (no_down_migration (driver.stamp db)), (auto_migrate driver db).1)
unfolding auto_migrate migrate_down
auto_migrate_blocks_down driver db ms h later loaded missing found =
    elim (Option-cases (driver.ensure_error db)) [
      | inr (e, f) ↦ absurd (ground arith)
      | inl f ↦ elim (Result-cases (driver.auto_migrate db.tables)) [
        | inl (e, g) ↦ absurd (ground arith)
        | inr (tables, g) ↦ elim (Option-cases (driver.create_error (auto_record driver db) db)) [
          | inr (e, k) ↦ absurd (ground arith)
          | inl k ↦ ground (arith, last_record-append db.history (auto_record driver db) later)
        ]
      ]
    ]
