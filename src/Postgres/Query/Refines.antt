-- ===== src/Postgres/Query/Refines.antt =====
-- What a query stands for: the clauses that were asked for, in their order, and one request.
use stdlib_lab.Prelude.{
  ℤ, List, [], ◌∷◌, ◌++◌, Option, none, some, Text, codes, ◌≡◌, refl, ap, sym, ◌∙◌, arith,
}
use stdlib_lab.Observability.{Metadatum, Operation}
use stdlib_lab.Database.Observer.{Client, or_db_name}
use stdlib_lab.Database.Gorm.{Clause, locking, given, Call, Gorm}
use stdlib_lab.Database.Methods.{Method}
use stdlib_lab.Postgres.Observer.{observe_operation}
use stdlib_lab.Postgres.Query.{QueryBuilder, query, apply, build, expressions, returning_columns}
use stdlib_lab.Database.Endings.{Ending, request}
use stdlib_lab.Postgres.Query.Finishers as Run

-- The client after, if the observer has been shown one operation more, of the given error.
unfoldable pub ShownOne :
    {E : Type 0} → Client E → List (Operation E) → Option E → Client E → Type 0
ShownOne {E} p shown e after =
    (op : Operation E) × (after ≡ record p { observer = some (op ∷ shown) }) × (op.error ≡ e)

observe_operation-ShownOne :
    {E : Type 0} (name resource sub : Text) (e : Option E) (size : ℤ)
    (metadata : List (Text × Metadatum)) (p : Client E) {shown : List (Operation E)}
    → p.observer ≡ some shown
    → ShownOne p shown e (observe_operation name resource sub e size metadata p)
unfolding observe_operation ShownOne
observe_operation-ShownOne name resource sub e size metadata p {shown} watched = (
  record {
    component = codes "postgres";
    operation = name;
    resource = or_db_name p resource;
    sub_resource = sub;
    error = e;
    size = size;
    metadata = metadata;
  },
  rw watched refl,
  refl,
)

module _ {V X Db E W : Type 0} (gorm : Gorm V X Db E W) where
  abbrev just_error : (ℤ × Option E) × (Client E × W) → Option E × (Client E × W)
  just_error ((rows, e), rest) = (e, rest)

  -- The error of an ending, and what it leaves.
  abbrev pub end_query : Ending V → QueryBuilder Db → Client E → W → Option E × (Client E × W)
  end_query (Ending.scan dest) = Run.scan gorm dest
  end_query (Ending.find dest) = Run.find gorm dest
  end_query (Ending.first dest) = Run.first gorm dest
  end_query (Ending.last dest) = Run.last gorm dest
  end_query (Ending.updates values) = λ qb p w. just_error (Run.updates gorm values qb p w)
  end_query (Ending.delete value) = λ qb p w. just_error (Run.delete gorm value qb p w)
  end_query (Ending.create value) = λ qb p w. just_error (Run.create gorm value qb p w)
  end_query (Ending.scan_row dest) = Run.scan_row gorm dest
  end_query (Ending.count has_target) = Run.count gorm has_target
  end_query (Ending.pluck column dest) = λ qb p w. just_error (Run.pluck gorm column dest qb p w)
  end_query (Ending.create_in_batches value size) =
      λ qb p w. just_error (Run.create_in_batches gorm value size qb p w)
  end_query (Ending.first_or_init dest conds) = Run.first_or_init gorm dest conds
  end_query (Ending.first_or_create dest conds) = Run.first_or_create gorm dest conds
  end_query Ending.query_rows = Run.query_rows gorm

  abbrev lock : Text → Text → List (Call V X)
  lock strength options = Call.clauses (locking strength options ∷ []) ∷ []

  -- The specification: what each method asks GORM for.
  abbrev pub asked : Method V → List (Call V X)
  asked (Method.select q args) = Call.select q args ∷ []
  asked (Method.where_by q args) = Call.where_by q args ∷ []
  asked (Method.or_by q args) = Call.or_by q args ∷ []
  asked (Method.not_by q args) = Call.not_by q args ∷ []
  asked (Method.having q args) = Call.having q args ∷ []
  asked (Method.joins q args) = Call.joins q args ∷ []
  asked (Method.left_join q args) = Call.joins (codes "LEFT JOIN " ++ q) args ∷ []
  asked (Method.right_join q args) = Call.joins (codes "RIGHT JOIN " ++ q) args ∷ []
  asked (Method.preload q args) = Call.preload q args ∷ []
  asked (Method.raw q args) = Call.raw q args ∷ []
  asked (Method.group q) = Call.group q ∷ []
  asked (Method.table name) = Call.table name ∷ []
  asked (Method.order value) = Call.order value ∷ []
  asked (Method.model value) = Call.model value ∷ []
  asked (Method.limit n) = Call.limit n ∷ []
  asked (Method.offset n) = Call.offset n ∷ []
  asked (Method.distinct args) = Call.distinct args ∷ []
  asked (Method.scopes funcs) = Call.scopes funcs ∷ []
  asked Method.unscoped = Call.unscoped ∷ []
  asked Method.for_update = lock (codes "UPDATE") []
  asked Method.for_share = lock (codes "SHARE") []
  asked Method.for_update_skip_locked = lock (codes "UPDATE") (codes "SKIP LOCKED")
  asked Method.for_share_skip_locked = lock (codes "SHARE") (codes "SKIP LOCKED")
  asked Method.for_update_no_wait = lock (codes "UPDATE") (codes "NOWAIT")
  asked Method.for_no_key_update = lock (codes "NO KEY UPDATE") []
  asked Method.for_key_share = lock (codes "KEY SHARE") []
  asked (Method.on_conflict value) = elim (gorm.as_on_conflict value) [
    | none ↦ []
    | some oc ↦ Call.clauses (given oc ∷ []) ∷ []
  ]
  asked (Method.returning columns) =
      Call.clauses (Clause.returning (returning_columns [] columns) ∷ []) ∷ []
  asked (Method.clauses conds) = Call.clauses (expressions gorm conds) ∷ []

  abbrev pub asked_by : List (Method V) → List (Call V X)
  asked_by [] = []
  asked_by (m ∷ ms) = asked m ++ asked_by ms

  abbrev pub chained : Db → List (Call V X) → Db
  chained db [] = db
  chained db (call ∷ calls) = chained (gorm.chain db call) calls

  chained-append :
      (db : Db) (front back : List (Call V X))
      → chained db (front ++ back) ≡ chained (chained db front) back
  chained-append db [] back = refl
  chained-append db (call ∷ front) back = chained-append (gorm.chain db call) front back

  apply-asked :
      (m : Method V) (qb : QueryBuilder Db) → (apply gorm m qb).db ≡ chained qb.db (asked m)
  unfolding apply
  apply-asked (Method.on_conflict value) qb = ground arith
  apply-asked (Method.select q args) qb = refl
  apply-asked _ qb = refl

  build-asked_by :
      (ms : List (Method V)) (qb : QueryBuilder Db)
      → (build gorm ms qb).db ≡ chained qb.db (asked_by ms)
  unfolding build
  build-asked_by [] qb = refl
  build-asked_by (m ∷ ms) qb =
      build-asked_by ms (apply gorm m qb)
      ∙ ap (λ db. chained db (asked_by ms)) (apply-asked m qb)
      ∙ sym (chained-append qb.db (asked m) (asked_by ms))

  -- One ending is one request on the query, whose error is returned and shown to the observer in one
  -- operation.
  end_query-request :
      (ending : Ending V) (qb : QueryBuilder Db) (p : Client E) (w : W) {shown : List (Operation E)}
      → p.observer ≡ some shown
      → let result = end_query ending qb p w in
        let answer = gorm.finish (request ending) qb.db w in
        ShownOne p shown answer.0.error result.1.0
        × (result.0 ≡ answer.0.error)
        × (result.1.1 ≡ answer.1)
  unfolding Run.scan Run.find Run.first Run.last Run.count Run.updates Run.delete Run.pluck
      Run.create Run.create_in_batches Run.first_or_init Run.first_or_create Run.scan_row
      Run.query_rows
  end_query-request (Ending.scan dest) qb p w watched =
      (observe_operation-ShownOne _ _ _ _ _ _ p watched, refl, refl)
  end_query-request _ qb p w watched =
      (observe_operation-ShownOne _ _ _ _ _ _ p watched, refl, refl)

  -- What a chain of builder methods and an ending do: the query of GORM that the chain stands for, its
  -- clauses in their order, is given one request; the error of the answer is returned and is the error
  -- of the one operation that the observer, which is set, is shown.
  pub query-refines :
      (ms : List (Method V)) (ending : Ending V) (p : Client E) (w : W) {shown : List (Operation E)}
      → p.observer ≡ some shown
      → let result = end_query ending (build gorm ms (query gorm w)) p w in
        let answer = gorm.finish (request ending) (chained (gorm.connection w) (asked_by ms)) w in
        ShownOne p shown answer.0.error result.1.0
        × (result.0 ≡ answer.0.error)
        × (result.1.1 ≡ answer.1)
  unfolding query
  query-refines ms ending p w watched =
      rw (sym (build-asked_by ms (query gorm w)))
        (end_query-request ending (build gorm ms (query gorm w)) p w watched)
