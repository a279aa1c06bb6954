-- ===== src/Postgres/Migrations/Status.antt =====
-- postgres/migrations.go: `GetMigrationStatus`. An entry is a Go map whose keys `executed_at` and
-- `status` are there only if the migration has been applied.
pub mod Applied
use stdlib_lab.Prelude.{
  Bool, true, false, List, [], ◌∷◌, map, Option, none, some, Result, ok, err, ℤ, Text, text_eqb,
  if◌then◌else◌,
}
use stdlib_lab.Postgres.Migrations.Files.{up, Migration, load_migrations}
use stdlib_lab.Postgres.Migrations.{
  HistoryRecord, Database, Driver, MigrationError, list_failed, load_failed, text_ltb,
}

pub record StatusEntry : Type 0 where
  pub id : Text
  pub name : Text
  pub migration_type : Text
  pub applied : Bool
  pub executed : Option (ℤ × Text)

-- The map from ids to records: of two records with one id, the later stays.
unfoldable pub applied_record : List HistoryRecord → Text → Option HistoryRecord
applied_record [] id = none
applied_record (r ∷ rs) id = elim (applied_record rs id) [
  | some later ↦ some later
  | none ↦ if text_eqb r.id id then some r else none
]

unfoldable pub status_entry : List HistoryRecord → Migration → StatusEntry
status_entry history m = elim (applied_record history m.id) [
  | none ↦ record {
    id = m.id;
    name = m.name;
    migration_type = m.migration_type;
    applied = false;
    executed = none;
  }
  | some r ↦ record {
    id = m.id;
    name = m.name;
    migration_type = m.migration_type;
    applied = true;
    executed = some (r.executed_at, r.status);
  }
]

unfoldable pub insert_entry : StatusEntry → List StatusEntry → List StatusEntry
insert_entry e [] = e ∷ []
insert_entry e (f ∷ rest) =
    let later = insert_entry e rest in if text_ltb f.id e.id then f ∷ later else e ∷ f ∷ rest

-- `sort.Slice` by id, as an insertion sort.
unfoldable pub sort_entries : List StatusEntry → List StatusEntry
unfolding insert_entry
sort_entries [] = []
sort_entries (e ∷ rest) = insert_entry e (sort_entries rest)

unfoldable pub get_migration_status :
    {D : Type 0} → Driver D → Database D → Result MigrationError (List StatusEntry)
get_migration_status driver db = elim (driver.find_error db) [
  | some e ↦ err (list_failed e)
  | none ↦ elim (load_migrations up driver.entries) [
    | err e ↦ err (load_failed e)
    | ok ms ↦ ok (sort_entries (map (status_entry db.history) ms))
  ]
]
