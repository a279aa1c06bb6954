-- ===== src/MariaDb/Query/Finishers.antt =====
-- mariadb/query_builder.go and mariadb/row_scanner.go: the methods of a builder that go to the database,
-- with what the observer is shown of them.
use stdlib_lab.Prelude.{ℤ, pos, Bool, List, [], ◌∷◌, Option, Text, codes, if◌then◌else◌}
use stdlib_lab.Observability.{Metadatum, text, int}
use stdlib_lab.Database.Observer.{Client}
use stdlib_lab.Database.Gorm.{Finisher, Outcome, Gorm, table_or_empty}
use stdlib_lab.MariaDb.Observer.{observe_operation}
use stdlib_lab.MariaDb.Query.{QueryBuilder}

module _ {V X Db E W : Type 0} (gorm : Gorm V X Db E W) where
  abbrev pub observed :
      Text
      → List (Text × Metadatum)
      → Finisher V
      → QueryBuilder Db
      → Client E
      → W
      → Outcome E × (Client E × W)
  observed name metadata finisher qb p w =
      let (o, w') = gorm.finish finisher qb.db w in
      (
        o,
        (observe_operation name (table_or_empty o.table) [] o.error o.rows_affected metadata p, w'),
      )

  abbrev pub error_only : Outcome E × (Client E × W) → Option E × (Client E × W)
  error_only (o, rest) = (o.error, rest)

  abbrev pub rows_and_error : Outcome E × (Client E × W) → (ℤ × Option E) × (Client E × W)
  rows_and_error (o, rest) = ((o.rows_affected, o.error), rest)

  unfoldable pub scan : V → QueryBuilder Db → Client E → W → Option E × (Client E × W)
  scan dest qb p w = error_only (observed (codes "scan") [] (Finisher.scan dest) qb p w)

  unfoldable pub find : V → QueryBuilder Db → Client E → W → Option E × (Client E × W)
  find dest qb p w = error_only (observed (codes "find") [] (Finisher.find dest []) qb p w)

  unfoldable pub first : V → QueryBuilder Db → Client E → W → Option E × (Client E × W)
  first dest qb p w = error_only (observed (codes "first") [] (Finisher.first dest []) qb p w)

  unfoldable pub last : V → QueryBuilder Db → Client E → W → Option E × (Client E × W)
  last dest qb p w = error_only (observed (codes "last") [] (Finisher.last dest) qb p w)

  -- The size that is shown is the count, or 0 if there is no target for it.
  unfoldable pub count : Bool → QueryBuilder Db → Client E → W → Option E × (Client E × W)
  count has_target qb p w =
      let (o, w') = gorm.finish Finisher.count qb.db w in
      let size = if has_target then o.counted else pos 0 in
      (
        o.error,
        (observe_operation (codes "count") (table_or_empty o.table) [] o.error size [] p, w'),
      )

  unfoldable pub updates : V → QueryBuilder Db → Client E → W → (ℤ × Option E) × (Client E × W)
  updates values qb p w =
      rows_and_error (observed (codes "update") [] (Finisher.updates values) qb p w)

  unfoldable pub delete : V → QueryBuilder Db → Client E → W → (ℤ × Option E) × (Client E × W)
  delete value qb p w =
      rows_and_error (observed (codes "delete") [] (Finisher.delete value []) qb p w)

  unfoldable pub pluck : Text → V → QueryBuilder Db → Client E → W → (ℤ × Option E) × (Client E × W)
  pluck column dest qb p w = rows_and_error (
      observed (codes "pluck") ((codes "column", text column) ∷ []) (Finisher.pluck column dest) qb
        p w)

  unfoldable pub create : V → QueryBuilder Db → Client E → W → (ℤ × Option E) × (Client E × W)
  create value qb p w = rows_and_error (observed (codes "create") [] (Finisher.create value) qb p w)

  unfoldable pub create_in_batches :
      V → ℤ → QueryBuilder Db → Client E → W → (ℤ × Option E) × (Client E × W)
  create_in_batches value batch_size qb p w = rows_and_error (
      observed (codes "create_in_batches") ((codes "batch_size", int batch_size) ∷ [])
        (Finisher.create_in_batches value batch_size) qb p w)

  unfoldable pub first_or_init :
      V → List V → QueryBuilder Db → Client E → W → Option E × (Client E × W)
  first_or_init dest conds qb p w =
      error_only (observed (codes "first_or_init") [] (Finisher.first_or_init dest conds) qb p w)

  unfoldable pub first_or_create :
      V → List V → QueryBuilder Db → Client E → W → Option E × (Client E × W)
  first_or_create dest conds qb p w =
      error_only
        (observed (codes "first_or_create") [] (Finisher.first_or_create dest conds) qb p w)

  -- The two methods of row_scanner.go show the observer nothing.
  unfoldable pub scan_row : V → QueryBuilder Db → Client E → W → Option E × (Client E × W)
  scan_row dest qb p w =
      let (o, w') = gorm.finish (Finisher.scan dest) qb.db w in (o.error, (p, w'))

  -- The rows themselves are GORM's.
  unfoldable pub query_rows : QueryBuilder Db → Client E → W → Option E × (Client E × W)
  query_rows qb p w = let (o, w') = gorm.finish Finisher.rows qb.db w in (o.error, (p, w'))
