-- ===== src/Postgres/Migrations/Files.antt =====
-- postgres/migrations.go: migration files, their names, `loadMigrations` and `CreateMigration`.
pub mod Names
use stdlib_lab.Prelude.{
  ℕ, Bool, true, false, ◌&&◌, List, [], ◌∷◌, ◌++◌, Option, none, some, Result, ok, err, Text, codes,
  text_eqb, nat_eqb, if◌then◌else◌, ◌>>=◌,
}

-- `strings.Split` at one character.
abbrev push : ℕ → List Text → List Text
push c [] = (c ∷ []) ∷ []
push c (w ∷ ws) = (c ∷ w) ∷ ws

unfoldable pub split : ℕ → Text → List Text
split sep [] = [] ∷ []
split sep (c ∷ s) = let rest = split sep s in if nat_eqb c sep then [] ∷ rest else push c rest

-- `strings.Join` with one character.
unfoldable pub join : ℕ → List Text → Text
join sep [] = []
join sep (w ∷ []) = w
join sep (w ∷ v ∷ ws) = w ++ (sep ∷ join sep (v ∷ ws))

pub data Direction : Type 0 where
  up down : Direction

-- The value of the Go constant, as it stands in a file's name.
abbrev pub direction_text : Direction → Text
direction_text up = codes "up"
direction_text down = codes "down"

pub record Migration : Type 0 where
  pub id : Text
  pub name : Text
  pub migration_type : Text
  pub direction : Direction
  pub sql : Text

-- What a file's name says: id, type and name.
pub record Header : Type 0 where
  pub id : Text
  pub migration_type : Text
  pub name : Text

-- The parts of the name's stem: three at least, of which all from the third on are the name.
unfoldable pub header_of : List Text → Option Header
unfolding join
header_of (id ∷ kind ∷ n ∷ ns) =
    some (record { id = id; migration_type = kind; name = join b'_' (n ∷ ns) })
header_of _ = none

abbrev from_parts : Direction → List Text → Option Header
from_parts direction (stem ∷ dir ∷ ext ∷ []) =
    if text_eqb ext (codes "sql") && text_eqb dir (direction_text direction)
    then header_of (split b'_' stem)
    else none
from_parts direction _ = none

-- The tests that the loop of `loadMigrations` makes on a file's name, `none` where it skips.
unfoldable pub parse_filename : Direction → Text → Option Header
parse_filename direction filename = from_parts direction (split b'.' filename)

abbrev migration_of : Direction → Header → Text → Migration
migration_of direction h sql = record {
  id = h.id;
  name = h.name;
  migration_type = h.migration_type;
  direction = direction;
  sql = sql;
}

-- The files that `filepath.Glob` lists for `*.sql`, each with what `os.ReadFile` gives.
unfoldable pub load_entries :
    Direction → List (Text × Result Text Text) → Result Text (List Migration)
load_entries direction [] = ok []
load_entries direction ((filename, content) ∷ entries) =
    let rest = load_entries direction entries in
    elim (parse_filename direction filename) [
      | none ↦ rest
      | some h ↦ do sql ← content; ms ← rest; ok (migration_of direction h sql ∷ ms)
    ]

unfoldable pub load_migrations :
    Direction → Result Text (List (Text × Result Text Text)) → Result Text (List Migration)
unfolding load_entries
load_migrations direction entries = do es ← entries; load_entries direction es

-- The base name of the two files that `CreateMigration` writes, and the two names.
unfoldable pub base_filename : Text → Text → Text → Text
base_filename id migration_type name = id ++ (b'_' ∷ (migration_type ++ (b'_' ∷ name)))

unfoldable pub migration_filename : Direction → Text → Text → Text → Text
unfolding base_filename
migration_filename direction id migration_type name =
    base_filename id migration_type name
    ++ (b'.' ∷ (direction_text direction ++ (b'.' ∷ codes "sql")))
