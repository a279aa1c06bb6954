-- ===== src/Postgres/Examples.antt =====
-- The PostgreSQL errors and migrations on concrete values: a directory with the two files of one
-- migration, and tables that are the list of the statements that ran.
mod Connections
mod Queries
use stdlib_lab.Prelude.{
  map, true, All, ◌≡◌, inl, refl, List, [], ◌∷◌, Option, some, none, ok, err, pos, Text, codes,
  arith,
}
use stdlib_lab.GoError.{GoError, leaf, wrap}
use stdlib_lab.GoError.Switch.{switch_contains, switch_any}
use stdlib_lab.Postgres.Errors.Sentinels.{lock_timeout, query_timeout}
use stdlib_lab.Postgres.Errors.Messages.{translate_by_error_message}
use stdlib_lab.Postgres.Errors.{Leaf, pg_error, other, translate_present, is_gorm, gorm_cases}
use stdlib_lab.Postgres.Errors.Laws.{sentinel-category}
use stdlib_lab.Postgres.Errors.Stability.{translate_error_idem, timeouts_unstable}
use stdlib_lab.Postgres.Migrations.Files.{
  up, down, Migration, load_migrations, load_entries, parse_filename, migration_filename, split,
  join, header_of,
}
use stdlib_lab.Postgres.Migrations.Files.Names.{parse-migration_filename, dotted_name_skipped}
use stdlib_lab.Postgres.Migrations.{
  HistoryRecord, Database, Driver, no_down_migration, sort_migrations, delete_record, migrate_up,
  auto_migrate, apply_pending, apply_migration, record_of, insert_migration, is_applied,
}
use stdlib_lab.Postgres.Migrations.Status.{
  StatusEntry, status_entry, sort_entries, get_migration_status,
}
use stdlib_lab.Postgres.Migrations.Status.Applied.{get_migration_status-migrate_up}
use stdlib_lab.Postgres.Migrations.Up.{pending, Ends, migrate_up-Ends}
use stdlib_lab.Postgres.Migrations.Up.Again.{migrate_up-migrate_up}
use stdlib_lab.Postgres.Migrations.Down.{migrate_down-error, auto_migrate_blocks_down}

-- The SQLSTATE of a unique violation, wrapped.
abbrev duplicate : GoError Leaf
duplicate = wrap (codes "insert") (leaf (pg_error "23505" (codes "duplicate")))

abbrev refused : Option (GoError Leaf)
refused = some (leaf (other (codes "Connection Refused")))

parse-migration_filename_example :
    parse_filename down (migration_filename down (codes "7") (codes "schema") (codes "add_users"))
    ≡ some (record { id = codes "7"; migration_type = codes "schema"; name = codes "add_users" })
parse-migration_filename_example =
    parse-migration_filename down (codes "7") (codes "schema") (codes "add_users") (omega arith)
      (omega arith) (omega arith) (omega arith) (omega arith)

abbrev Tables : Type 0
Tables = List Text

abbrev driver : Driver Tables
driver = record {
  exec = λ sql tables. ok (sql ∷ tables);
  auto_migrate = λ tables. ok (codes "models" ∷ tables);
  ensure_error = λ db. none;
  find_error = λ db. none;
  begin_error = λ db. none;
  create_error = λ r db. none;
  delete_error = λ id db. none;
  commit_error = λ db. none;
  entries = ok (
      (codes "1_s_a.up.sql", ok (codes "A"))
      ∷ (codes "1_s_a.down.sql", ok (codes "Z"))
      ∷ (codes "notes.sql", ok [])
      ∷ []);
  stamp = λ db. codes "2";
  now = λ db. pos 5;
  took = λ sql db. pos 1;
}

abbrev empty : Database Tables
empty = record { tables = []; history = [] }

abbrev forward : Migration
forward = record {
  id = codes "1";
  name = codes "a";
  migration_type = codes "s";
  direction = up;
  sql = codes "A";
}

abbrev backward : Migration
backward = record forward { direction = down; sql = codes "Z" }

abbrev first_record : HistoryRecord
first_record = record {
  id = codes "1";
  name = codes "a";
  record_type = codes "s";
  executed_at = pos 5;
  executed_by = codes "system";
  duration = pos 1;
  status = codes "success";
}

abbrev migrated : Database Tables
migrated = record { tables = codes "A" ∷ []; history = first_record ∷ [] }

migrate_up-Ends_example :
    Ends driver
      (migrate_up driver empty).0
      empty
      (migrate_up driver empty).1
      (pending [] (sort_migrations (forward ∷ [])))
unfolding load_migrations load_entries parse_filename split header_of
migrate_up-Ends_example = migrate_up-Ends driver empty (forward ∷ []) refl refl refl

migrate_up-migrate_up_example :
    migrate_up driver (migrate_up driver empty).1 ≡ (ok tt, (migrate_up driver empty).1)
unfolding migrate_up load_migrations load_entries parse_filename split header_of sort_migrations
    apply_pending apply_migration record_of insert_migration is_applied join
migrate_up-migrate_up_example = migrate_up-migrate_up driver empty refl refl refl

-- The history holds a migration that has no file.
abbrev stray : Database Tables
stray = record { tables = []; history = record first_record { id = codes "0" } ∷ [] }

get_migration_status-migrate_up_example :
    (ms : List Migration) × (entries : List StatusEntry) × (load_migrations up driver.entries
      ≡ ok ms)
    × (get_migration_status driver (migrate_up driver empty).1 ≡ ok entries)
    × (entries ≡ sort_entries (map (status_entry (migrate_up driver empty).1.history) ms))
    × All (λ (e : StatusEntry). e.applied ≡ true) entries
unfolding migrate_up load_migrations load_entries parse_filename split header_of sort_migrations
    apply_pending apply_migration record_of insert_migration is_applied join
get_migration_status-migrate_up_example = get_migration_status-migrate_up driver empty refl refl
