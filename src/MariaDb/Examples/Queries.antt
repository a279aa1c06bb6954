-- ===== src/MariaDb/Examples/Queries.antt =====
-- MariaDB's query builder on a chain that asks for locks which it does not have.
use stdlib_lab.Prelude.{List, [], ◌∷◌, Text, codes, ◌≡◌, refl}
use stdlib_lab.Database.Methods.{Method}
use stdlib_lab.Database.Gorm.{Call}
use stdlib_lab.Database.Sample.{sample_gorm}
use stdlib_lab.MariaDb.Query.{QueryBuilder, build}
use stdlib_lab.MariaDb.Query.Portable.{build_agrees}
use stdlib_lab.Postgres.Query as Pg

abbrev calls : List (Method Text)
calls =
    Method.where_by (codes "age > ?") (codes "18" ∷ [])
    ∷ Method.for_key_share
    ∷ Method.left_join (codes "teams") []
    ∷ Method.returning (codes "id" ∷ [])
    ∷ Method.for_share
    ∷ []

abbrev here : QueryBuilder (List (Call Text Text))
here = record { db = [] }

abbrev there : Pg.QueryBuilder (List (Call Text Text))
there = record { db = [] }

build_agrees_example :
    (build sample_gorm calls here).db
    ≡ (Pg.build sample_gorm
        (Method.where_by (codes "age > ?") (codes "18" ∷ [])
          ∷ Method.left_join (codes "teams") []
          ∷ Method.for_share
          ∷ [])
        there).db
build_agrees_example = build_agrees sample_gorm calls here there refl
