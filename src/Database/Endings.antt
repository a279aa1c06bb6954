-- ===== src/Database/Endings.antt =====
-- The methods of the interface `QueryBuilder` that go to the database (postgres/interface.go and
-- mariadb/interface.go) and those of row_scanner.go, as data, and the request of GORM that each of them
-- makes.
use stdlib_lab.Prelude.{ℤ, Bool, List, [], Text}
use stdlib_lab.Database.Gorm.{Finisher}

-- The methods that end a query.
pub data Ending (V : Type 0) : Type 0 where
  scan find first last updates delete create scan_row : V → Ending V
  count : Bool → Ending V
  pluck : Text → V → Ending V
  create_in_batches : V → ℤ → Ending V
  first_or_init first_or_create : V → List V → Ending V
  query_rows : Ending V

abbrev pub request : {V : Type 0} → Ending V → Finisher V
request (Ending.scan dest) = Finisher.scan dest
request (Ending.find dest) = Finisher.find dest []
request (Ending.first dest) = Finisher.first dest []
request (Ending.last dest) = Finisher.last dest
request (Ending.updates values) = Finisher.updates values
request (Ending.delete value) = Finisher.delete value []
request (Ending.create value) = Finisher.create value
request (Ending.scan_row dest) = Finisher.scan dest
request (Ending.count has_target) = Finisher.count
request (Ending.pluck column dest) = Finisher.pluck column dest
request (Ending.create_in_batches value size) = Finisher.create_in_batches value size
request (Ending.first_or_init dest conds) = Finisher.first_or_init dest conds
request (Ending.first_or_create dest conds) = Finisher.first_or_create dest conds
request Ending.query_rows = Finisher.rows
