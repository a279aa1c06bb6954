-- ===== src/Postgres/BasicOps.antt =====
-- postgres/basic_ops.go: the operations of the client itself, each with what the observer is shown of it.
use stdlib_lab.Prelude.{ℤ, List, [], ◌∷◌, Option, Text, codes}
use stdlib_lab.Observability.{text}
use stdlib_lab.Database.Observer.{Client}
use stdlib_lab.Database.Gorm.{Call, Finisher, Gorm, table_or_empty}
use stdlib_lab.Postgres.Observer.{observe_operation}
use stdlib_lab.Postgres.Query.{QueryBuilder}
use stdlib_lab.Postgres.Query.Finishers.{observed, error_only, rows_and_error}

module _ {V X Db E W : Type 0} (gorm : Gorm V X Db E W) where
  -- `p.DB().WithContext(ctx)`, and `Model` of it.
  abbrev pub fresh : W → QueryBuilder Db
  fresh w = record { db = gorm.connection w }

  abbrev pub of_model : V → W → QueryBuilder Db
  of_model value w = record { db = gorm.chain (gorm.connection w) (Call.model value) }

  unfoldable pub find : V → List V → Client E → W → Option E × (Client E × W)
  find dest conditions p w =
      error_only gorm
        (observed gorm (codes "find") [] (Finisher.find dest conditions) (fresh w) p w)

  unfoldable pub first : V → List V → Client E → W → Option E × (Client E × W)
  first dest conditions p w =
      error_only gorm
        (observed gorm (codes "first") [] (Finisher.first dest conditions) (fresh w) p w)

  unfoldable pub create : V → Client E → W → Option E × (Client E × W)
  create value p w =
      error_only gorm (observed gorm (codes "create") [] (Finisher.create value) (fresh w) p w)

  unfoldable pub save : V → Client E → W → Option E × (Client E × W)
  save value p w =
      error_only gorm (observed gorm (codes "save") [] (Finisher.save value) (fresh w) p w)

  unfoldable pub update : V → V → Client E → W → (ℤ × Option E) × (Client E × W)
  update value attrs p w =
      rows_and_error gorm
        (observed gorm (codes "update") [] (Finisher.updates attrs) (of_model value w) p w)

  unfoldable pub update_column : V → Text → V → Client E → W → (ℤ × Option E) × (Client E × W)
  update_column value column_name new p w = rows_and_error gorm (
      observed gorm (codes "update_column") [] (Finisher.update column_name new) (of_model value w)
        p w)

  unfoldable pub update_columns : V → V → Client E → W → (ℤ × Option E) × (Client E × W)
  update_columns value column_values p w = rows_and_error gorm (
      observed gorm (codes "update_columns") [] (Finisher.updates column_values) (of_model value w)
        p w)

  unfoldable pub delete : V → List V → Client E → W → (ℤ × Option E) × (Client E × W)
  delete value conditions p w =
      rows_and_error gorm
        (observed gorm (codes "delete") [] (Finisher.delete value conditions) (fresh w) p w)

  unfoldable pub exec : Text → List V → Client E → W → (ℤ × Option E) × (Client E × W)
  exec sql values p w = rows_and_error gorm (
      observed gorm (codes "exec") ((codes "sql", text sql) ∷ []) (Finisher.exec sql values)
        (fresh w) p w)

  -- The conditions are the first with the others for its arguments.
  abbrev pub restricted : List V → QueryBuilder Db → QueryBuilder Db
  restricted [] qb = qb
  restricted (cond ∷ args) qb = record qb { db = gorm.chain qb.db (Call.where_by cond args) }

  -- The table that is shown is that of the query before it is run. The target of the count is not nil.
  unfoldable pub count : V → List V → Client E → W → Option E × (Client E × W)
  count value conditions p w =
      let (o, w') = gorm.finish Finisher.count (restricted conditions (of_model value w)).db w in
      (
        o.error,
        (
          observe_operation (codes "count") (table_or_empty (gorm.table_of (of_model value w).db))
              [] o.error o.counted [] p,
          w',
        ),
      )

  abbrev pub where_text : Text → List V → QueryBuilder Db → QueryBuilder Db
  where_text condition args qb = record qb {
    db = gorm.chain qb.db (Call.where_by (gorm.as_value condition) args);
  }

  unfoldable pub update_where :
      V → V → Text → List V → Client E → W → (ℤ × Option E) × (Client E × W)
  update_where value attrs condition args p w = rows_and_error gorm (
      observed gorm (codes "update_where") [] (Finisher.updates attrs)
        (where_text condition args (of_model value w)) p w)
