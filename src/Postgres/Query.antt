-- ===== src/Postgres/Query.antt =====
-- postgres/query_builder.go: the methods that give a builder. The parent client and the release function,
-- which does nothing, are left out of the builder; the context is the world's.
pub mod Finishers
pub mod Refines
use stdlib_lab.Prelude.{
  ℤ, List, [], ◌∷◌, ◌++◌, Option, none, some, Text, codes, text_eqb, if◌then◌else◌,
}
use stdlib_lab.Database.Gorm.{Clause, locking, given, Call, Gorm}
use stdlib_lab.Database.Methods.{Method}

pub record QueryBuilder (Db : Type 0) : Type 0 where
  pub db : Db

-- The columns of `RETURNING`: a star stands for all, whatever stands before it.
unfoldable pub returning_columns : List Text → List Text → List Text
returning_columns made [] = made
returning_columns made (column ∷ columns) =
    let rest = returning_columns (made ++ (column ∷ [])) columns in
    if text_eqb column (codes "*") then codes "*" ∷ [] else rest

module _ {V X Db E W : Type 0} (gorm : Gorm V X Db E W) where
  unfoldable pub query : W → QueryBuilder Db
  query w = record { db = gorm.connection w }

  abbrev pub on : QueryBuilder Db → Call V X → QueryBuilder Db
  on qb call = record qb { db = gorm.chain qb.db call }

  unfoldable pub select : V → List V → QueryBuilder Db → QueryBuilder Db
  select query args qb = on qb (Call.select query args)

  unfoldable pub where_by : V → List V → QueryBuilder Db → QueryBuilder Db
  where_by query args qb = on qb (Call.where_by query args)

  unfoldable pub or_by : V → List V → QueryBuilder Db → QueryBuilder Db
  or_by query args qb = on qb (Call.or_by query args)

  unfoldable pub not_by : V → List V → QueryBuilder Db → QueryBuilder Db
  not_by query args qb = on qb (Call.not_by query args)

  unfoldable pub joins : Text → List V → QueryBuilder Db → QueryBuilder Db
  joins query args qb = on qb (Call.joins query args)

  unfoldable pub left_join : Text → List V → QueryBuilder Db → QueryBuilder Db
  left_join query args qb = on qb (Call.joins (codes "LEFT JOIN " ++ query) args)

  unfoldable pub right_join : Text → List V → QueryBuilder Db → QueryBuilder Db
  right_join query args qb = on qb (Call.joins (codes "RIGHT JOIN " ++ query) args)

  unfoldable pub preload : Text → List V → QueryBuilder Db → QueryBuilder Db
  preload query args qb = on qb (Call.preload query args)

  unfoldable pub group : Text → QueryBuilder Db → QueryBuilder Db
  group query qb = on qb (Call.group query)

  unfoldable pub having : V → List V → QueryBuilder Db → QueryBuilder Db
  having query args qb = on qb (Call.having query args)

  unfoldable pub order : V → QueryBuilder Db → QueryBuilder Db
  order value qb = on qb (Call.order value)

  unfoldable pub limit : ℤ → QueryBuilder Db → QueryBuilder Db
  limit n qb = on qb (Call.limit n)

  unfoldable pub offset : ℤ → QueryBuilder Db → QueryBuilder Db
  offset n qb = on qb (Call.offset n)

  unfoldable pub raw : Text → List V → QueryBuilder Db → QueryBuilder Db
  raw sql values qb = on qb (Call.raw sql values)

  unfoldable pub model : V → QueryBuilder Db → QueryBuilder Db
  model value qb = on qb (Call.model value)

  unfoldable pub distinct : List V → QueryBuilder Db → QueryBuilder Db
  distinct args qb = on qb (Call.distinct args)

  unfoldable pub table : Text → QueryBuilder Db → QueryBuilder Db
  table name qb = on qb (Call.table name)

  unfoldable pub unscoped : QueryBuilder Db → QueryBuilder Db
  unscoped qb = on qb (Call.unscoped)

  unfoldable pub scopes : List V → QueryBuilder Db → QueryBuilder Db
  scopes funcs qb = on qb (Call.scopes funcs)

  unfoldable pub for_update : QueryBuilder Db → QueryBuilder Db
  for_update qb = on qb (Call.clauses (locking (codes "UPDATE") [] ∷ []))

  unfoldable pub for_share : QueryBuilder Db → QueryBuilder Db
  for_share qb = on qb (Call.clauses (locking (codes "SHARE") [] ∷ []))

  unfoldable pub for_update_skip_locked : QueryBuilder Db → QueryBuilder Db
  for_update_skip_locked qb =
      on qb (Call.clauses (locking (codes "UPDATE") (codes "SKIP LOCKED") ∷ []))

  unfoldable pub for_share_skip_locked : QueryBuilder Db → QueryBuilder Db
  for_share_skip_locked qb =
      on qb (Call.clauses (locking (codes "SHARE") (codes "SKIP LOCKED") ∷ []))

  unfoldable pub for_update_no_wait : QueryBuilder Db → QueryBuilder Db
  for_update_no_wait qb = on qb (Call.clauses (locking (codes "UPDATE") (codes "NOWAIT") ∷ []))

  unfoldable pub for_no_key_update : QueryBuilder Db → QueryBuilder Db
  for_no_key_update qb = on qb (Call.clauses (locking (codes "NO KEY UPDATE") [] ∷ []))

  unfoldable pub for_key_share : QueryBuilder Db → QueryBuilder Db
  for_key_share qb = on qb (Call.clauses (locking (codes "KEY SHARE") [] ∷ []))

  unfoldable pub on_conflict : V → QueryBuilder Db → QueryBuilder Db
  on_conflict value qb = elim (gorm.as_on_conflict value) [
    | none ↦ qb
    | some oc ↦ on qb (Call.clauses (given oc ∷ []))
  ]

  unfoldable pub returning : List Text → QueryBuilder Db → QueryBuilder Db
  returning columns qb = on qb (Call.clauses (Clause.returning (returning_columns [] columns) ∷ []))

  -- The conditions that are clause expressions.
  abbrev pub expressions : List V → List (Clause X)
  expressions [] = []
  expressions (cond ∷ conds) = elim (gorm.as_expression cond) [
    | none ↦ expressions conds
    | some expr ↦ given expr ∷ expressions conds
  ]

  unfoldable pub clauses : List V → QueryBuilder Db → QueryBuilder Db
  clauses conds qb = on qb (Call.clauses (expressions conds))

  unfoldable pub apply : Method V → QueryBuilder Db → QueryBuilder Db
  unfolding select where_by or_by not_by joins left_join right_join preload group having order limit
      offset raw model distinct table unscoped scopes for_update for_share for_update_skip_locked
      for_share_skip_locked for_update_no_wait for_no_key_update for_key_share on_conflict returning
      clauses
  apply (Method.select query args) qb = select query args qb
  apply (Method.where_by query args) qb = where_by query args qb
  apply (Method.or_by query args) qb = or_by query args qb
  apply (Method.not_by query args) qb = not_by query args qb
  apply (Method.joins query args) qb = joins query args qb
  apply (Method.left_join query args) qb = left_join query args qb
  apply (Method.right_join query args) qb = right_join query args qb
  apply (Method.preload query args) qb = preload query args qb
  apply (Method.group query) qb = group query qb
  apply (Method.having query args) qb = having query args qb
  apply (Method.order value) qb = order value qb
  apply (Method.limit n) qb = limit n qb
  apply (Method.offset n) qb = offset n qb
  apply (Method.raw sql values) qb = raw sql values qb
  apply (Method.model value) qb = model value qb
  apply (Method.distinct args) qb = distinct args qb
  apply (Method.table name) qb = table name qb
  apply Method.unscoped qb = unscoped qb
  apply (Method.scopes funcs) qb = scopes funcs qb
  apply Method.for_update qb = for_update qb
  apply Method.for_share qb = for_share qb
  apply Method.for_update_skip_locked qb = for_update_skip_locked qb
  apply Method.for_share_skip_locked qb = for_share_skip_locked qb
  apply Method.for_update_no_wait qb = for_update_no_wait qb
  apply Method.for_no_key_update qb = for_no_key_update qb
  apply Method.for_key_share qb = for_key_share qb
  apply (Method.on_conflict value) qb = on_conflict value qb
  apply (Method.returning columns) qb = returning columns qb
  apply (Method.clauses conds) qb = clauses conds qb

  -- A chain of calls, the first one first.
  unfoldable pub build : List (Method V) → QueryBuilder Db → QueryBuilder Db
  build [] qb = qb
  build (m ∷ ms) qb = build ms (apply m qb)
