-- ===== src/Postgres/Vectors.antt =====
-- postgres/pgvector.go: the statements that make vector indexes. What runs a statement is a parameter.
pub mod Reading
pub mod Quoting
use stdlib_lab.Prelude.{
  ℕ, zero, Bool, true, false, List, [], ◌∷◌, ◌++◌, Option, none, some, Result, ok, err, ℤ, pos,
  negsuc, int_ltb, nat_eqb, Text, codes, text_eqb, itoa, if◌then◌else◌,
}
use stdlib_lab.Observability.{Metadatum, text, int, flag}
use stdlib_lab.Database.Observer.{Client}
use stdlib_lab.Postgres.Observer.{observe_operation}

abbrev pub quote : ℕ
quote = b'"'

-- `strings.ReplaceAll(s, `"`, `""`)`.
abbrev pub double_quotes : Text → Text
double_quotes [] = []
double_quotes (c ∷ s) =
    if nat_eqb c quote then quote ∷ quote ∷ double_quotes s else c ∷ double_quotes s

unfoldable pub quote_ident : Text → Text
quote_ident s = quote ∷ (double_quotes s ++ (quote ∷ []))

unfoldable pub build_vector_index_sql : Text → Text → Text → Text → Text → Bool → Text → Text
build_vector_index_sql method table column op_class name concurrently with_clause =
    codes "CREATE INDEX "
    ++ ((if concurrently then codes "CONCURRENTLY " else [])
        ++ ((if text_eqb name [] then [] else quote_ident name ++ codes " ")
            ++ (codes "ON "
                ++ (quote_ident table
                    ++ (codes " USING "
                        ++ (method
                            ++ (codes " ("
                                ++ (quote_ident column
                                    ++ (codes " "
                                        ++ (op_class
                                            ++ (codes ")"
                                                ++ (if text_eqb with_clause []
                                                    then []
                                                    else codes " WITH ("
                                                      ++ (with_clause ++ codes ")")))))))))))))

pub record HnswOptions : Type 0 where
  pub m : ℤ
  pub ef_construction : ℤ
  pub name : Text
  pub concurrently : Bool

pub record IvfFlatOptions : Type 0 where
  pub lists : ℤ
  pub name : Text
  pub concurrently : Bool

-- `strings.Join`.
abbrev pub join : Text → List Text → Text
join sep [] = []
join sep (part ∷ []) = part
join sep (part ∷ next ∷ parts) = part ++ (sep ++ join sep (next ∷ parts))

unfoldable pub hnsw_with_clause : HnswOptions → Text
hnsw_with_clause opts = join (codes ", ") (
    (if int_ltb (pos 0) opts.m then (codes "m = " ++ itoa opts.m) ∷ [] else [])
    ++ (if int_ltb (pos 0) opts.ef_construction
        then (codes "ef_construction = " ++ itoa opts.ef_construction) ∷ []
        else []))

pub data IndexError (E : Type 0) : Type 0 where
  failed : E → IndexError E
  lists_not_positive : IndexError E

module _ {W E : Type 0} (exec : Text → W → Option E × W) where
  abbrev returned : Option E → Result (IndexError E) (Unit {0})
  returned none = ok tt
  returned (some e) = err (failed e)

  unfoldable pub enable_vector_extension :
      Client E → W → Result (IndexError E) (Unit {0}) × (Client E × W)
  enable_vector_extension p w =
      let (e, w') = exec (codes "CREATE EXTENSION IF NOT EXISTS vector") w in
      (
        returned e,
        (
          observe_operation (codes "enable_extension") [] [] e (pos 0)
              ((codes "extension", text (codes "vector")) ∷ []) p,
          w',
        ),
      )

  unfoldable pub create_hnsw_index :
      Text
      → Text
      → Text
      → HnswOptions
      → Client E
      → W
      → Result (IndexError E) (Unit {0}) × (Client E × W)
  create_hnsw_index table column op_class opts p w =
      let (e, w') =
        exec
          (build_vector_index_sql (codes "hnsw") table column op_class opts.name opts.concurrently
            (hnsw_with_clause opts))
          w in
      (
        returned e,
        (
          observe_operation (codes "create_hnsw_index") table column e (pos 0)
              ((codes "op_class", text op_class)
                ∷ (codes "m", int opts.m)
                ∷ (codes "ef_construction", int opts.ef_construction)
                ∷ (codes "concurrently", flag opts.concurrently)
                ∷ [])
              p,
          w',
        ),
      )

  unfoldable pub create_ivf_flat_index :
      Text
      → Text
      → Text
      → IvfFlatOptions
      → Client E
      → W
      → Result (IndexError E) (Unit {0}) × (Client E × W)
  create_ivf_flat_index table column op_class opts p w =
      if int_ltb (pos 0) opts.lists
      then (let (e, w') =
            exec
              (build_vector_index_sql (codes "ivfflat") table column op_class opts.name
                opts.concurrently (codes "lists = " ++ itoa opts.lists))
              w in
          (
            returned e,
            (
              observe_operation (codes "create_ivfflat_index") table column e (pos 0)
                  ((codes "op_class", text op_class)
                    ∷ (codes "lists", int opts.lists)
                    ∷ (codes "concurrently", flag opts.concurrently)
                    ∷ [])
                  p,
              w',
            ),
          ))
      else (err lists_not_positive, (p, w))
