-- ===== src/MariaDb/Query/Portable.antt =====
-- The two query builders side by side.
use stdlib_lab.Prelude.{
  Bool, true, false, List, [], ◌∷◌, ◌≡◌, refl, ap, ◌∙◌, arith, inl, inr, Bool-cases, if◌then◌else◌,
}
use stdlib_lab.Database.Gorm.{Call, Gorm}
use stdlib_lab.Database.Methods.{Method}
use stdlib_lab.MariaDb.Query.{QueryBuilder, apply, build, expressions}
use stdlib_lab.Postgres.Query as Pg

-- The methods that MariaDB's builder takes for nothing.
abbrev pub is_portable : {V : Type 0} → Method V → Bool
is_portable Method.for_no_key_update = false
is_portable Method.for_key_share = false
is_portable (Method.returning columns) = false
is_portable _ = true

abbrev pub portable : {V : Type 0} → List (Method V) → List (Method V)
portable [] = []
portable (m ∷ ms) = if is_portable m then m ∷ portable ms else portable ms

module _ {V X Db E W : Type 0} (gorm : Gorm V X Db E W) where
  expressions_agree : (conds : List V) → expressions gorm conds ≡ Pg.expressions gorm conds
  expressions_agree [] = refl
  expressions_agree (cond ∷ conds) = ground (arith, expressions_agree conds)

  -- A builder of the other package over the same query.
  abbrev pg : QueryBuilder Db → Pg.QueryBuilder Db
  pg qb = record { db = qb.db }

  apply_agrees :
      (m : Method V) (qb : QueryBuilder Db)
      → is_portable m ≡ true
      → (apply gorm m qb).db ≡ (Pg.apply gorm m (pg qb)).db
  unfolding apply Pg.apply
  apply_agrees Method.for_no_key_update qb h = cc
  apply_agrees Method.for_key_share qb h = cc
  apply_agrees (Method.returning columns) qb h = cc
  apply_agrees (Method.on_conflict value) qb h = ground arith
  apply_agrees (Method.clauses conds) qb h =
      ap (λ es. gorm.chain qb.db (Call.clauses es)) (expressions_agree conds)
  apply_agrees (Method.select query args) qb h = refl
  apply_agrees _ qb h = refl

  apply_ignores :
      (m : Method V) (qb : QueryBuilder Db) → is_portable m ≡ false → (apply gorm m qb).db ≡ qb.db
  unfolding apply
  apply_ignores Method.for_no_key_update qb h = refl
  apply_ignores Method.for_key_share qb h = refl
  apply_ignores (Method.returning columns) qb h = refl
  apply_ignores _ qb h = cc

  -- A chain of calls gives MariaDB the query that PostgreSQL's builder makes of the chain without its
  -- calls of `ForNoKeyUpdate`, `ForKeyShare` and `Returning`: these are dropped without an error, and all
  -- others build the same.
  pub build_agrees :
      (ms : List (Method V)) (qb : QueryBuilder Db) (other : Pg.QueryBuilder Db)
      → qb.db ≡ other.db
      → (build gorm ms qb).db ≡ (Pg.build gorm (portable ms) other).db
  unfolding build Pg.build
  build_agrees [] qb other same = same
  build_agrees (m ∷ ms) qb other same = elim (Bool-cases (is_portable m)) [
    | inl both ↦
        let over : Db → Pg.QueryBuilder Db = λ db. record { db = db } in
        let moved : (Pg.apply gorm m (over qb.db)).db ≡ (Pg.apply gorm m (over other.db)).db =
          ap (λ db. (Pg.apply gorm m (over db)).db) same in
        rw both (
          build_agrees ms (apply gorm m qb) (Pg.apply gorm m other)
            (apply_agrees m qb both ∙ moved))
    | inr dropped ↦
        rw dropped (build_agrees ms (apply gorm m qb) other (apply_ignores m qb dropped ∙ same))
  ]
