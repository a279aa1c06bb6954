-- ===== src/Postgres/Vectors/Quoting.antt =====
-- The statements of pgvector.go are read back with the names that they were made from.
use stdlib_lab.Prelude.{
  ℕ, Bool, true, false, [], ◌∷◌, ◌++◌, some, nat_eqb, nat_eqb_iff, Text, codes, text_eqb,
  if◌then◌else◌, ◌≡◌, refl, ap, ◌∙◌, arith, inl, inr, Bool-cases, All,
}
use mathlib.Core.List.{append_assoc}
use stdlib_lab.Postgres.Vectors.{quote, double_quotes, quote_ident, build_vector_index_sql}
use stdlib_lab.Postgres.Vectors.Reading.{
  with_char, read_quoted, read_ident, read_until, after_prefix, ◌>>=◌, Index, read_with,
  read_columns, read_table, read_name, read_index,
}

-- What follows an identifier does not go on with it.
abbrev IsEnd : Text → Type 0
IsEnd [] = Unit {0}
IsEnd (c ∷ s) = nat_eqb c quote ≡ false

read_quoted-end : (rest : Text) → IsEnd rest → read_quoted true rest ≡ some ([], rest)
unfolding read_quoted
read_quoted-end [] h = refl
read_quoted-end (c ∷ s) h = rw (h, read_quoted) refl

read_quoted-double_quotes :
    (s rest : Text)
    → IsEnd rest
    → read_quoted false (double_quotes s ++ (quote ∷ rest)) ≡ some (s, rest)
unfolding read_quoted
read_quoted-double_quotes [] rest h = read_quoted-end rest h
read_quoted-double_quotes (c ∷ s) rest h = elim (Bool-cases (nat_eqb c quote)) [
  | inl same ↦
      let e : c ≡ quote = (nat_eqb_iff c quote).0 same in
      rw e (ap (with_char quote) (read_quoted-double_quotes s rest h))
  | inr differs ↦
      rw differs (rw (differs, read_quoted) (ap (with_char c) (read_quoted-double_quotes s rest h)))
]

-- A quoted identifier is read back whole, whatever it holds.
pub read_ident-quote_ident :
    (s rest : Text) → IsEnd rest → read_ident (quote_ident s ++ rest) ≡ some (s, rest)
unfolding read_ident quote_ident
read_ident-quote_ident s rest h =
    ap (read_quoted false) (append_assoc (double_quotes s) (quote ∷ []) rest)
    ∙ read_quoted-double_quotes s rest h

abbrev pub Lacks : ℕ → Text → Type 0
Lacks stop s = All (λ c. nat_eqb c stop ≡ false) s

read_until-append :
    (stop : ℕ) (s rest : Text)
    → Lacks stop s
    → read_until stop (s ++ (stop ∷ rest)) ≡ some (s, rest)
unfolding read_until
read_until-append stop [] rest h = ground arith
read_until-append stop (c ∷ s) rest h =
    rw (h.0, read_until) (ap (with_char c) (read_until-append stop s rest h.1))

abbrev with_part : Text → Text
with_part clause = if text_eqb clause [] then [] else codes " WITH (" ++ (clause ++ codes ")")

read_with-with_part :
    (clause : Text) → Lacks b')' clause → read_with (with_part clause) ≡ some clause
read_with-with_part [] h = refl
read_with-with_part (c ∷ s) h = rw (read_until-append b')' (c ∷ s) [] h) refl

read_columns-parts :
    (column op_class clause : Text)
    → Lacks b')' op_class
    → Lacks b')' clause
    → read_columns
        (quote_ident column ++ (codes " " ++ (op_class ++ (codes ")" ++ with_part clause))))
      ≡ some (column, op_class, clause)
unfolding read_columns
read_columns-parts column op_class clause h k =
    let named =
      read_ident-quote_ident column (codes " " ++ (op_class ++ (codes ")" ++ with_part clause)))
        refl in
    let classed = read_until-append b')' op_class (with_part clause) h in
    rw (named, read_columns) (rw classed (rw (read_with-with_part clause k) refl))

read_name-quote_ident :
    (concurrently : Bool) (name rest : Text)
    → read_name concurrently (quote_ident name ++ (codes " " ++ rest))
      ≡ read_table concurrently name rest
unfolding read_name quote_ident
read_name-quote_ident concurrently name rest =
    ap
      (λ r. r >>= λ (name, rest).
        after_prefix (codes " ") rest >>= λ rest. read_table concurrently name rest)
      (read_ident-quote_ident name (codes " " ++ rest) refl)

module _ (concurrently : Bool) (table method column op_class clause : Text)
    (plain_method : Lacks b' ' method) (plain_class : Lacks b')' op_class)
    (plain_clause : Lacks b')' clause) where
  -- The statement after its name.
  abbrev table_part : Text
  table_part =
      codes "ON "
      ++ (quote_ident table
          ++ (codes " USING "
              ++ (method
                  ++ (codes " ("
                      ++ (quote_ident column
                          ++ (codes " " ++ (op_class ++ (codes ")" ++ with_part clause))))))))

  abbrev index_named : Text → Index
  index_named name = record {
    concurrently = concurrently;
    name = name;
    table = table;
    method = method;
    column = column;
    op_class = op_class;
    with_clause = clause;
  }

  read_table-table_part :
      (name : Text) → read_table concurrently name table_part ≡ some (index_named name)
  unfolding read_table
  read_table-table_part name =
      let columns = read_columns-parts column op_class clause plain_class plain_clause in
      let rest =
        quote_ident column ++ (codes " " ++ (op_class ++ (codes ")" ++ with_part clause))) in
      let tabled =
        read_ident-quote_ident table (codes " USING " ++ (method ++ (codes " (" ++ rest))) refl in
      let by_method = read_until-append b' ' method (codes "(" ++ rest) plain_method in
      rw (tabled, read_table) (rw by_method (rw columns refl))

  abbrev name_part : Text → Text
  name_part name = if text_eqb name [] then [] else quote_ident name ++ codes " "

  read_name-name_part :
      (name : Text)
      → read_name concurrently (name_part name ++ table_part) ≡ some (index_named name)
  unfolding read_name quote_ident
  read_name-name_part [] = read_table-table_part []
  read_name-name_part (c ∷ s) =
      ap (read_name concurrently) (append_assoc (quote_ident (c ∷ s)) (codes " ") table_part)
      ∙ read_name-quote_ident concurrently (c ∷ s) table_part
      ∙ read_table-table_part (c ∷ s)

-- The statement that `buildVectorIndexSQL` writes is read back as the index that it was made for: its
-- name, table and column are those given, whatever characters they hold, quotes included. The method
-- has no space, and the operator class and the storage parameters no closing parenthesis.
pub read_index-build :
    (method table column op_class name : Text) (concurrently : Bool) (with_clause : Text)
    → Lacks b' ' method
    → Lacks b')' op_class
    → Lacks b')' with_clause
    → read_index (build_vector_index_sql method table column op_class name concurrently with_clause)
      ≡ some (record {
        concurrently = concurrently;
        name = name;
        table = table;
        method = method;
        column = column;
        op_class = op_class;
        with_clause = with_clause;
      })
unfolding read_index build_vector_index_sql quote_ident
read_index-build method table column op_class name true with_clause h k l =
    read_name-name_part true table method column op_class with_clause h k l name
read_index-build method table column op_class [] false with_clause h k l =
    read_name-name_part false table method column op_class with_clause h k l []
read_index-build method table column op_class (c ∷ s) false with_clause h k l =
    read_name-name_part false table method column op_class with_clause h k l (c ∷ s)
