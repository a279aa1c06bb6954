-- ===== src/Postgres/Vectors/Reading.antt =====
-- How PostgreSQL reads a `CREATE INDEX` statement, as far as the statements of pgvector.go go. In a
-- quoted identifier two quotes stand for one, and a single one ends it.
use stdlib_lab.Prelude.{
  ℕ, Bool, true, false, [], ◌∷◌, Option, none, some, nat_eqb, Text, codes, if◌then◌else◌,
}
use stdlib_lab.Postgres.Vectors.{quote}

abbrev pub with_char : ℕ → Option (Text × Text) → Option (Text × Text)
with_char c none = none
with_char c (some (name, rest)) = some (c ∷ name, rest)

-- What an identifier goes on with, `true` right after a quote.
unfoldable pub read_quoted : Bool → Text → Option (Text × Text)
read_quoted false [] = none
read_quoted true [] = some ([], [])
read_quoted false (c ∷ s) = elim (nat_eqb c quote) [
  | true ↦ read_quoted true s
  | false ↦ with_char c (read_quoted false s)
]
read_quoted true (c ∷ s) = elim (nat_eqb c quote) [
  | true ↦ with_char quote (read_quoted false s)
  | false ↦ some ([], c ∷ s)
]

unfoldable pub read_ident : Text → Option (Text × Text)
read_ident [] = none
read_ident (c ∷ s) = if nat_eqb c quote then read_quoted false s else none

-- The text up to a character, and what follows it.
unfoldable pub read_until : ℕ → Text → Option (Text × Text)
read_until stop [] = none
read_until stop (c ∷ s) = elim (nat_eqb c stop) [
  | true ↦ some ([], s)
  | false ↦ with_char c (read_until stop s)
]

abbrev pub after_prefix : Text → Text → Option Text
after_prefix [] s = some s
after_prefix (c ∷ p) [] = none
after_prefix (c ∷ p) (d ∷ s) = if nat_eqb c d then after_prefix p s else none

infixl 5 ◌>>=◌
abbrev pub ◌>>=◌ : {A B : Type 0} → Option A → (A → Option B) → Option B
none >>= f = none
some a >>= f = f a

pub record Index : Type 0 where
  pub concurrently : Bool
  pub name : Text
  pub table : Text
  pub method : Text
  pub column : Text
  pub op_class : Text
  pub with_clause : Text

-- The statement from the end of its columns on.
abbrev pub read_with : Text → Option Text
read_with [] = some []
read_with (c ∷ s) = do
  rest ← after_prefix (codes " WITH (") (c ∷ s)
  (clause, rest) ← read_until b')' rest
  elim rest [ [] ↦ some clause | _ ↦ none ]

unfoldable pub read_columns : Text → Option (Text × Text × Text)
unfolding read_ident read_until
read_columns s = do
  (column, rest) ← read_ident s
  rest ← after_prefix (codes " ") rest
  (op_class, rest) ← read_until b')' rest
  clause ← read_with rest
  some (column, op_class, clause)

unfoldable pub read_table : Bool → Text → Text → Option Index
unfolding read_ident read_until read_columns
read_table concurrently name s = do
  rest ← after_prefix (codes "ON ") s
  (table, rest) ← read_ident rest
  rest ← after_prefix (codes " USING ") rest
  (method, rest) ← read_until b' ' rest
  rest ← after_prefix (codes "(") rest
  (column, op_class, clause) ← read_columns rest
  some (record {
    concurrently = concurrently;
    name = name;
    table = table;
    method = method;
    column = column;
    op_class = op_class;
    with_clause = clause;
  })

-- An index without a name has none before `ON`.
unfoldable pub read_name : Bool → Text → Option Index
unfolding read_ident read_table
read_name concurrently s = elim (after_prefix (quote ∷ []) s) [
  | none ↦ read_table concurrently [] s
  | some _ ↦ do
    (name, rest) ← read_ident s
    rest ← after_prefix (codes " ") rest
    read_table concurrently name rest
]

unfoldable pub read_index : Text → Option Index
unfolding read_name
read_index s = do
  rest ← after_prefix (codes "CREATE INDEX ") s
  elim (after_prefix (codes "CONCURRENTLY ") rest) [
    | none ↦ read_name false rest
    | some later ↦ read_name true later
  ]
