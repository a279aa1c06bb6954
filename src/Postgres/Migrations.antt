-- ===== src/Postgres/Migrations.antt =====
-- postgres/migrations.go: `AutoMigrate`, `MigrateUp` and `MigrateDown`; `GetMigrationStatus` is in Status.
-- `D` is the state of the tables other than the history. The database server is a parameter: what a
-- statement does to the tables, and where a call of the driver fails. A transaction that does not
-- commit changes nothing. What the observer is sent is left out.
pub mod Files
pub mod Up
pub mod Records
pub mod Down
pub mod Status
use stdlib_lab.Prelude.{
  ℕ, Bool, true, false, ◌||◌, List, [], ◌∷◌, ◌++◌, map, Option, none, some, Result, ok, err, ℤ, pos,
  Text, codes, text_eqb, any, ltb, nat_eqb, if◌then◌else◌,
}
use stdlib_lab.Postgres.Migrations.Files.{Direction, up, down, Migration, load_migrations}

pub record HistoryRecord : Type 0 where
  pub id : Text
  pub name : Text
  pub record_type : Text
  pub executed_at : ℤ
  pub executed_by : Text
  pub duration : ℤ
  pub status : Text

pub record Database (D : Type 0) : Type 0 where
  pub tables : D
  pub history : List HistoryRecord

-- The server, the clock and the directory of migrations. An error is `some`, with its text.
pub record Driver (D : Type 0) : Type 0 where
  pub exec : Text → D → Result Text D
  pub auto_migrate : D → Result Text D
  pub ensure_error : Database D → Option Text
  pub find_error : Database D → Option Text
  pub begin_error : Database D → Option Text
  pub create_error : HistoryRecord → Database D → Option Text
  pub delete_error : Text → Database D → Option Text
  pub commit_error : Database D → Option Text
  pub entries : Result Text (List (Text × Result Text Text))
  -- The time now, as `20060102150405` and as a number, and the milliseconds that a statement took.
  pub stamp : Database D → Text
  pub now : Database D → ℤ
  pub took : Text → Database D → ℤ

pub data MigrationError : Type 0 where
  ensure_failed list_failed load_failed begin_failed record_failed commit_failed :
      Text → MigrationError
  auto_failed down_failed delete_failed last_failed : Text → MigrationError
  migration_failed : Text → Text → MigrationError
  no_down_migration : Text → MigrationError

-- The order of Go's strings.
unfoldable pub text_ltb : Text → Text → Bool
text_ltb s [] = false
text_ltb [] (b ∷ t) = true
text_ltb (a ∷ s) (b ∷ t) =
    let rest = text_ltb s t in if ltb a b then true else if nat_eqb a b then rest else false

unfoldable pub insert_migration : Migration → List Migration → List Migration
insert_migration m [] = m ∷ []
insert_migration m (n ∷ ns) = if text_ltb n.id m.id then n ∷ insert_migration m ns else m ∷ n ∷ ns

-- `sort.Slice` by id, as an insertion sort. Migrations of one id, which `sort.Slice` may leave in any
-- order, keep theirs.
unfoldable pub sort_migrations : List Migration → List Migration
sort_migrations [] = []
sort_migrations (m ∷ ms) = insert_migration m (sort_migrations ms)

-- `appliedMap[id]`.
unfoldable pub is_applied : List HistoryRecord → Text → Bool
is_applied history id = any (λ (r : HistoryRecord). text_eqb r.id id) history

-- `Order("id DESC").First`: the record of the greatest id.
unfoldable pub last_record : List HistoryRecord → Option HistoryRecord
last_record [] = none
last_record (r ∷ rs) = elim (last_record rs) [
  | none ↦ some r
  | some s ↦ some (if text_ltb r.id s.id then s else r)
]

unfoldable pub find_migration : Text → List Migration → Option Migration
find_migration id [] = none
find_migration id (m ∷ ms) = if text_eqb m.id id then some m else find_migration id ms

unfoldable pub delete_record : Text → List HistoryRecord → List HistoryRecord
delete_record id [] = []
delete_record id (r ∷ rs) =
    let rest = delete_record id rs in if text_eqb r.id id then rest else r ∷ rest

module _ {D : Type 0} (driver : Driver D) where
  abbrev Outcome : Type 0
  Outcome = Result MigrationError (Unit {0}) × Database D

  unfoldable pub record_of : Migration → Database D → HistoryRecord
  record_of m db = record {
    id = m.id;
    name = m.name;
    record_type = m.migration_type;
    executed_at = driver.now db;
    executed_by = codes "system";
    duration = driver.took m.sql db;
    status = codes "success";
  }

  abbrev pub committed : D → HistoryRecord → Database D → Database D
  committed tables r db = record { tables = tables; history = db.history ++ (r ∷ []) }

  -- The body of the loop of `MigrateUp`: one transaction.
  unfoldable pub apply_migration : Migration → Database D → Outcome
  apply_migration m db = elim (driver.begin_error db) [
    | some e ↦ (err (begin_failed e), db)
    | none ↦ elim (driver.exec m.sql db.tables) [
      | err e ↦ (err (migration_failed m.id e), db)
      | ok tables ↦ elim (driver.create_error (record_of m db) db) [
        | some e ↦ (err (record_failed e), db)
        | none ↦ elim (driver.commit_error db) [
          | some e ↦ (err (commit_failed e), db)
          | none ↦ (ok tt, committed tables (record_of m db) db)
        ]
      ]
    ]
  ]

  abbrev pub and_then : Outcome → (Database D → Outcome) → Outcome
  and_then (err e, db) next = (err e, db)
  and_then (ok _, db) next = next db

  -- The loop; `history` is what was found applied before it.
  unfoldable pub apply_pending : List HistoryRecord → List Migration → Database D → Outcome
  apply_pending history [] db = (ok tt, db)
  apply_pending history (m ∷ ms) db =
      if is_applied history m.id
      then apply_pending history ms db
      else and_then (apply_migration m db) (apply_pending history ms)

  unfoldable pub migrate_up : Database D → Outcome
  migrate_up db = elim (driver.ensure_error db) [
    | some e ↦ (err (ensure_failed e), db)
    | none ↦ elim (driver.find_error db) [
      | some e ↦ (err (list_failed e), db)
      | none ↦ elim (load_migrations up driver.entries) [
        | err e ↦ (err (load_failed e), db)
        | ok ms ↦ apply_pending db.history (sort_migrations ms) db
      ]
    ]
  ]

  -- The transaction of `MigrateDown`.
  unfoldable pub revert_migration : Migration → Text → Database D → Outcome
  revert_migration m id db = elim (driver.begin_error db) [
    | some e ↦ (err (begin_failed e), db)
    | none ↦ elim (driver.exec m.sql db.tables) [
      | err e ↦ (err (down_failed e), db)
      | ok tables ↦ elim (driver.delete_error id db) [
        | some e ↦ (err (delete_failed e), db)
        | none ↦ elim (driver.commit_error db) [
          | some e ↦ (err (commit_failed e), db)
          | none ↦ (ok tt, record { tables = tables; history = delete_record id db.history })
        ]
      ]
    ]
  ]

  unfoldable pub migrate_down : Database D → Outcome
  migrate_down db = elim (driver.find_error db) [
    | some e ↦ (err (last_failed e), db)
    | none ↦ elim (last_record db.history) [
      | none ↦ (err (last_failed (codes "record not found")), db)
      | some last ↦ elim (load_migrations down driver.entries) [
        | err e ↦ (err (load_failed e), db)
        | ok ms ↦ elim (find_migration last.id ms) [
          | none ↦ (err (no_down_migration last.id), db)
          | some m ↦ revert_migration m last.id db
        ]
      ]
    ]
  ]

  abbrev pub auto_record : Database D → HistoryRecord
  auto_record db = record {
    id = driver.stamp db;
    name = codes "auto_migration";
    record_type = codes "schema";
    executed_at = driver.now db;
    executed_by = codes "system";
    duration = pos 0;
    status = codes "success";
  }

  -- Without a transaction: where the record fails, the tables stay migrated.
  unfoldable pub auto_migrate : Database D → Outcome
  auto_migrate db = elim (driver.ensure_error db) [
    | some e ↦ (err (ensure_failed e), db)
    | none ↦ elim (driver.auto_migrate db.tables) [
      | err e ↦ (err (auto_failed e), db)
      | ok tables ↦ elim (driver.create_error (auto_record db) db) [
        | some e ↦ (err (record_failed e), record db { tables = tables })
        | none ↦ (ok tt, committed tables (auto_record db) db)
      ]
    ]
  ]
