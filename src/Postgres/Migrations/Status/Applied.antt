-- ===== src/Postgres/Migrations/Status/Applied.antt =====
-- What `GetMigrationStatus` reports after `MigrateUp`.
use stdlib_lab.Prelude.{
  ◌≡◌, refl, inl, inr, true, List, [], ◌∷◌, map, none, some, Option-cases, ok, Text, Bool-cases,
  All, arith,
}
use stdlib_lab.Postgres.Migrations.Files.{up, Migration, load_migrations}
use stdlib_lab.Postgres.Migrations.{
  HistoryRecord, Database, Driver, text_ltb, is_applied, insert_migration, sort_migrations,
  migrate_up, apply_pending,
}
use stdlib_lab.Postgres.Migrations.Status.{
  StatusEntry, applied_record, status_entry, insert_entry, sort_entries, get_migration_status,
}
use stdlib_lab.Postgres.Migrations.Up.Again.{migrate_up-ok, apply_pending-applies}

All-insert_migration :
    (P : Migration → Type 0) (m : Migration) (ms : List Migration)
    → All P (insert_migration m ms)
    → P m × All P ms
unfolding insert_migration
All-insert_migration P m [] h = h
All-insert_migration P m (n ∷ ms) h = elim (Bool-cases (text_ltb n.id m.id)) [
  | inl after ↦
      let h' : P n × All P (insert_migration m ms) = rw after at h in
      let (here, rest) = All-insert_migration P m ms h'.1 in (here, (h'.0, rest))
  | inr before ↦ rw before at h
]

-- What holds of the sorted migrations holds of the migrations.
All-sort_migrations :
    (P : Migration → Type 0) (ms : List Migration) → All P (sort_migrations ms) → All P ms
unfolding sort_migrations
All-sort_migrations P [] h = tt
All-sort_migrations P (m ∷ ms) h =
    let (here, rest) = All-insert_migration P m (sort_migrations ms) h in
    (here, All-sort_migrations P ms rest)

All-insert_entry :
    (P : StatusEntry → Type 0) (e : StatusEntry) (es : List StatusEntry)
    → P e
    → All P es
    → All P (insert_entry e es)
unfolding insert_entry
All-insert_entry P e [] p h = (p, tt)
All-insert_entry P e (f ∷ es) p h = elim (Bool-cases (text_ltb f.id e.id)) [
  | inl after ↦ rw after (h.0, All-insert_entry P e es p h.1)
  | inr before ↦ rw before (p, h)
]

All-sort_entries :
    (P : StatusEntry → Type 0) (es : List StatusEntry) → All P es → All P (sort_entries es)
unfolding sort_entries
All-sort_entries P [] h = tt
All-sort_entries P (e ∷ es) h =
    All-insert_entry P e (sort_entries es) h.0 (All-sort_entries P es h.1)

found_record :
    (history : List HistoryRecord) (id : Text)
    → is_applied history id ≡ true
    → (r : HistoryRecord) × (applied_record history id ≡ some r)
unfolding is_applied applied_record
found_record [] id h = absurd (ground arith)
found_record (x ∷ history) id h = elim (Option-cases (applied_record history id)) [
  | inr (r, found) ↦ (r, ground arith)
  | inl missing ↦ elim (Bool-cases (is_applied history id)) [
    | inl older ↦ let (r, found) = found_record history id older in (r, ground arith)
    | inr no_older ↦ (x, ground arith)
  ]
]

entry-applied :
    (history : List HistoryRecord) (m : Migration)
    → is_applied history m.id ≡ true
    → (status_entry history m).applied ≡ true
unfolding status_entry
entry-applied history m h = let (r, found) = found_record history m.id h in ground arith

entries-applied :
    (history : List HistoryRecord) (ms : List Migration)
    → All (λ (m : Migration). is_applied history m.id ≡ true) ms
    → All (λ (e : StatusEntry). e.applied ≡ true) (map (status_entry history) ms)
entries-applied history [] h = tt
entries-applied history (m ∷ ms) h = (entry-applied history m h.0, entries-applied history ms h.1)

-- After a `MigrateUp` that succeeded, if the history can be read, `GetMigrationStatus` succeeds and
-- reports every migration of the directory as applied.
pub get_migration_status-migrate_up :
    {D : Type 0} (driver : Driver D) (db : Database D)
    → (migrate_up driver db).0 ≡ ok tt
    → driver.find_error (migrate_up driver db).1 ≡ none
    → (ms : List Migration) × (entries : List StatusEntry) × (load_migrations up driver.entries
        ≡ ok ms)
      × (get_migration_status driver (migrate_up driver db).1 ≡ ok entries)
      × (entries ≡ sort_entries (map (status_entry (migrate_up driver db).1.history) ms))
      × All (λ (e : StatusEntry). e.applied ≡ true) entries
unfolding get_migration_status
get_migration_status-migrate_up driver db h found =
    let (ms, loaded, ran) = migrate_up-ok driver db h in
    let final = (migrate_up driver db).1 in
    let finished : apply_pending driver db.history (sort_migrations ms) db ≡ (ok tt, final) =
      cc (ran, h) in
    let IsDone = λ (m : Migration). is_applied final.history m.id ≡ true in
    let all_done = All-sort_migrations IsDone ms (
      apply_pending-applies driver db.history (sort_migrations ms) db final (λ id k. k) finished) in
    let entries = sort_entries (map (status_entry final.history) ms) in
    (
      ms,
      entries,
      loaded,
      ground arith,
      refl,
      All-sort_entries (λ (e : StatusEntry). e.applied ≡ true) (map (status_entry final.history) ms)
          (entries-applied final.history ms all_done),
    )
