-- ===== src/Postgres/Examples/Queries.antt =====
-- The query builder on a GORM that counts its requests, and a vector index with a quote in its name.
use stdlib_lab.Prelude.{true, List, [], ◌∷◌, some, Text, codes, ◌≡◌, refl}
use stdlib_lab.Database.Observer.{Client}
use stdlib_lab.Database.Gorm.{Clause, Call}
use stdlib_lab.Database.Methods.{Method}
use stdlib_lab.Database.Endings.{Ending, request}
use stdlib_lab.Database.Sample.{sample_gorm}
use stdlib_lab.Postgres.Query.{returning_columns, query, build}
use stdlib_lab.Postgres.Query.Refines.{ShownOne, asked_by, chained, end_query, query-refines}
use stdlib_lab.Postgres.Vectors.{build_vector_index_sql}
use stdlib_lab.Postgres.Vectors.Reading.{read_index}
use stdlib_lab.Postgres.Vectors.Quoting.{Lacks, read_index-build}

abbrev calls : List (Method Text)
calls =
    Method.where_by (codes "age > ?") (codes "18" ∷ [])
    ∷ Method.right_join (codes "teams") []
    ∷ Method.on_conflict (codes "conflict")
    ∷ Method.on_conflict (codes "no clause")
    ∷ Method.for_update_skip_locked
    ∷ Method.returning (codes "id" ∷ codes "*" ∷ [])
    ∷ []

abbrev watched : Client Text
watched = record { db_name = codes "app"; observer = some [] }

asked_example :
    asked_by sample_gorm calls
    ≡ Call.where_by (codes "age > ?") (codes "18" ∷ [])
      ∷ Call.joins (codes "RIGHT JOIN teams") []
      ∷ Call.clauses (Clause.given (codes "conflict") ∷ [])
      ∷ Call.clauses (Clause.locking (codes "UPDATE") (codes "SKIP LOCKED") ∷ [])
      ∷ Call.clauses (Clause.returning (codes "*" ∷ []) ∷ [])
      ∷ []
unfolding returning_columns
asked_example = refl

query-refines_example :
    let result =
      end_query sample_gorm
        (Ending.create (codes "ann"))
        (build sample_gorm calls (query sample_gorm 1))
        watched
        1 in
    let answer =
      sample_gorm.finish
        (request (Ending.create (codes "ann")))
        (chained sample_gorm [] (asked_by sample_gorm calls))
        1 in
    ShownOne watched [] answer.0.error result.1.0
    × (result.0 ≡ answer.0.error)
    × (result.1.1 ≡ answer.1)
query-refines_example = query-refines sample_gorm calls (Ending.create (codes "ann")) watched 1 refl

hnsw-Lacks : Lacks b' ' (codes "hnsw")
hnsw-Lacks = (refl, (refl, (refl, (refl, tt))))

class-Lacks : Lacks b')' (codes "vector_l2_ops")
class-Lacks = (
  refl,
  (
    refl,
    (refl, (refl, (refl, (refl, (refl, (refl, (refl, (refl, (refl, (refl, (refl, tt))))))))))),
  ),
)

parameters-Lacks : Lacks b')' (codes "m = 16")
parameters-Lacks = (refl, (refl, (refl, (refl, (refl, (refl, tt))))))

read_index-build_example :
    read_index (
      build_vector_index_sql
        (codes "hnsw")
        (codes "my\"docs")
        (codes "embedding")
        (codes "vector_l2_ops")
        (codes "idx")
        true
        (codes "m = 16"))
    ≡ some (record {
      concurrently = true;
      name = codes "idx";
      table = codes "my\"docs";
      method = codes "hnsw";
      column = codes "embedding";
      op_class = codes "vector_l2_ops";
      with_clause = codes "m = 16";
    })
read_index-build_example =
    read_index-build (codes "hnsw") (codes "my\"docs") (codes "embedding") (codes "vector_l2_ops")
      (codes "idx") true (codes "m = 16") hnsw-Lacks class-Lacks parameters-Lacks
