-- ===== src/Postgres/Migrations/Up/Again.antt =====
-- A second `MigrateUp` finds nothing to do.
use stdlib_lab.Prelude.{
  ◌≡◌, inl, inr, refl, sym, ◌∙◌, Bool, true, false, List, [], ◌∷◌, ◌++◌, ◌||◌, none, Option-cases,
  Result, ok, err, Result-cases, Text, text_eqb, text_eqb_iff, Bool-cases, All, arith,
}
use stdlib_lab.Postgres.Migrations.Files.{up, Migration, load_migrations}
use stdlib_lab.Postgres.Migrations.{
  HistoryRecord, Database, Driver, MigrationError, is_applied, record_of, committed,
  apply_migration, apply_pending, sort_migrations, migrate_up, and_then,
}
use stdlib_lab.Postgres.Migrations.Up.{apply_migration_cases}

is_applied-append :
    (history : List HistoryRecord) (r : HistoryRecord) (id : Text)
    → is_applied (history ++ (r ∷ [])) id ≡ (is_applied history id || text_eqb r.id id)
unfolding is_applied
is_applied-append [] r id = ground arith
is_applied-append (x ∷ history) r id = ground (arith, is_applied-append history r id)

module _ {D : Type 0} (driver : Driver D) where
  apply_pending-keeps :
      (history : List HistoryRecord) (ms : List Migration) (db : Database D) (id : Text)
      → is_applied db.history id ≡ true
      → is_applied (apply_pending driver history ms db).1.history id ≡ true
  unfolding apply_pending
  apply_pending-keeps history [] db id h = h
  apply_pending-keeps history (m ∷ ms) db id h = elim (Bool-cases (is_applied history m.id)) [
    | inl old ↦ rw old (apply_pending-keeps history ms db id h)
    | inr new ↦ elim (apply_migration_cases driver m db) [
      | inl (tables, ran, ran_ok) ↦
          rw (new, ran_ok)
            (apply_pending-keeps history ms (committed driver tables (record_of driver m db) db) id
              (rw (is_applied-append db.history (record_of driver m db) id, h)))
      | inr (e, ran_err) ↦ rw (new, ran_err) h
    ]
  ]

  skips :
      (history : List HistoryRecord) (m : Migration) (ms : List Migration) (db : Database D)
      → is_applied history m.id ≡ true
      → apply_pending driver history (m ∷ ms) db ≡ apply_pending driver history ms db
  unfolding apply_pending
  skips history m ms db h = rw h

  goes_on :
      (history : List HistoryRecord) (m : Migration) (ms : List Migration) (db : Database D)
      {result : Result MigrationError (Unit {0}) × Database D}
      → is_applied history m.id ≡ false
      → apply_migration driver m db ≡ result
      → apply_pending driver history (m ∷ ms) db
        ≡ and_then driver result (apply_pending driver history ms)
  unfolding apply_pending
  goes_on history m ms db h e = rw (h, e)

  pub apply_pending-applies :
      (history : List HistoryRecord) (ms : List Migration) (db final : Database D)
      → ((id : Text) → is_applied history id ≡ true → is_applied db.history id ≡ true)
      → apply_pending driver history ms db ≡ (ok tt, final)
      → All (λ (m : Migration). is_applied final.history m.id ≡ true) ms
  unfolding record_of
  apply_pending-applies history [] db final sub e = tt
  apply_pending-applies history (m ∷ ms) db final sub e =
      elim (Bool-cases (is_applied history m.id)) [
        | inl old ↦
            let e' = sym (skips history m ms db old) ∙ e in
            (kept ms db m.id e' (sub m.id old), apply_pending-applies history ms db final sub e')
        | inr new ↦ elim (apply_migration_cases driver m db) [
          | inl (tables, ran, ran_ok) ↦
              let r = record_of driver m db in
              let db' = committed driver tables r db in
              let e' : apply_pending driver history ms db' ≡ (ok tt, final) =
                sym (goes_on history m ms db new ran_ok) ∙ e in
              (
                kept ms db' m.id e' (
                    rw (is_applied-append db.history r m.id)
                      (own_id m (is_applied db.history m.id))),
                apply_pending-applies history ms db' final
                    (λ id h. rw (is_applied-append db.history r id, sub id h)) e',
              )
          | inr (bad, ran_err) ↦ absurd (not_ok (sym (goes_on history m ms db new ran_err) ∙ e))
        ]
      ]
    where
      kept :
          (ms : List Migration) (db : Database D) (id : Text)
          → apply_pending driver history ms db ≡ (ok tt, final)
          → is_applied db.history id ≡ true
          → is_applied final.history id ≡ true
      kept ms db id e h = ground (arith, apply_pending-keeps history ms db id h)

      own_id : (m : Migration) (b : Bool) → (b || text_eqb m.id m.id) ≡ true
      own_id m b = ground (arith, text_eqb_iff m.id m.id)

      not_ok :
          {bad : MigrationError} {db : Database D}
          → ◌≡◌ {A = Result MigrationError (Unit {0}) × Database D} (err bad, db) (ok tt, final)
          → ⊥
      not_ok e = ground arith

  nothing_pending :
      (history : List HistoryRecord) (ms : List Migration) (db : Database D)
      → All (λ (m : Migration). is_applied history m.id ≡ true) ms
      → apply_pending driver history ms db ≡ (ok tt, db)
  unfolding apply_pending
  nothing_pending history [] db h = refl
  nothing_pending history (m ∷ ms) db h = rw h.0 (nothing_pending history ms db h.1)

pub migrate_up-ok :
    {D : Type 0} (driver : Driver D) (db : Database D)
    → (migrate_up driver db).0 ≡ ok tt
    → (ms : List Migration) × (load_migrations up driver.entries ≡ ok ms)
      × (migrate_up driver db ≡ apply_pending driver db.history (sort_migrations ms) db)
unfolding migrate_up
migrate_up-ok driver db h = elim (Option-cases (driver.ensure_error db)) [
  | inr (e, f) ↦ absurd (ground arith)
  | inl f ↦ elim (Option-cases (driver.find_error db)) [
    | inr (e, g) ↦ absurd (ground arith)
    | inl g ↦ elim (Result-cases (load_migrations up driver.entries)) [
      | inl (e, k) ↦ absurd (ground arith)
      | inr (ms, k) ↦ (ms, k, ground arith)
    ]
  ]
]

migrate_up-eq :
    {D : Type 0} (driver : Driver D) (db : Database D) (ms : List Migration)
    → driver.ensure_error db ≡ none
    → driver.find_error db ≡ none
    → load_migrations up driver.entries ≡ ok ms
    → migrate_up driver db ≡ apply_pending driver db.history (sort_migrations ms) db
unfolding migrate_up
migrate_up-eq driver db ms ensured found loaded = ground arith

-- After a `MigrateUp` that succeeded, a second one over the same files succeeds and changes nothing,
-- if the server lets it read the history.
pub migrate_up-migrate_up :
    {D : Type 0} (driver : Driver D) (db : Database D)
    → (migrate_up driver db).0 ≡ ok tt
    → driver.ensure_error (migrate_up driver db).1 ≡ none
    → driver.find_error (migrate_up driver db).1 ≡ none
    → migrate_up driver (migrate_up driver db).1 ≡ (ok tt, (migrate_up driver db).1)
migrate_up-migrate_up driver db h ensured found =
    let (ms, loaded, ran) = migrate_up-ok driver db h in
    let final = (migrate_up driver db).1 in
    let finished : apply_pending driver db.history (sort_migrations ms) db ≡ (ok tt, final) =
      cc (ran, h) in
    migrate_up-eq driver final ms ensured found loaded
    ∙ nothing_pending driver final.history (sort_migrations ms) final
        (apply_pending-applies driver db.history (sort_migrations ms) db final (λ id k. k) finished)
