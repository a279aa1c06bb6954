-- ===== src/Database/Gorm.antt =====
-- GORM as postgres/ and mariadb/ call it. `V` are Go's values of any type, `X` the clause expressions of
-- a caller, `Db` GORM's queries, `E` its errors and `W` the world.
use stdlib_lab.Prelude.{ℤ, List, [], Option, none, some, Text}

-- An expression for `Clauses`: those that the builders make, and a caller's.
pub data Clause (X : Type 0) : Type 0 where
  locking : Text → Text → Clause X
  returning : List Text → Clause X
  given : X → Clause X

-- The methods of GORM that take a query to a query.
pub data Call (V X : Type 0) : Type 0 where
  select where_by or_by not_by having : V → List V → Call V X
  joins preload raw : Text → List V → Call V X
  group table : Text → Call V X
  order model : V → Call V X
  limit offset : ℤ → Call V X
  distinct scopes : List V → Call V X
  unscoped : Call V X
  clauses : List (Clause X) → Call V X

-- The methods of GORM that go to the database. `count` is told whether its target is not nil.
pub data Finisher (V : Type 0) : Type 0 where
  scan create save updates : V → Finisher V
  find first delete first_or_init first_or_create : V → List V → Finisher V
  last : V → Finisher V
  update : Text → V → Finisher V
  pluck : Text → V → Finisher V
  create_in_batches : V → ℤ → Finisher V
  exec : Text → List V → Finisher V
  count rows : Finisher V

-- What GORM returns: the error, the number of rows, the table of the statement, if there is one, and
-- the number that `Count` has stored.
pub record Outcome (E : Type 0) : Type 0 where
  pub error : Option E
  pub rows_affected : ℤ
  pub table : Option Text
  pub counted : ℤ

pub record Gorm (V X Db E W : Type 0) : Type 0 where
  -- `p.DB().WithContext(ctx)` for the connection that the world holds.
  pub connection : W → Db
  pub chain : Db → Call V X → Db
  pub finish : Finisher V → Db → W → Outcome E × W
  -- The table of a query that has not been run.
  pub table_of : Db → Option Text
  -- A string as a value of any type.
  pub as_value : Text → V
  -- The type assertions of `OnConflict` and `Clauses`.
  pub as_on_conflict : V → Option X
  pub as_expression : V → Option X

abbrev pub table_or_empty : Option Text → Text
table_or_empty (some found) = found
table_or_empty none = []
