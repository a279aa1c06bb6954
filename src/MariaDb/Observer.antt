-- ===== src/MariaDb/Observer.antt =====
-- mariadb/observer.go.
use stdlib_lab.Prelude.{List, ◌∷◌, Option, none, some, ℤ, Text, codes}
use stdlib_lab.Observability.{Metadatum}
use stdlib_lab.Database.Observer.{Client, or_db_name}

unfoldable pub observe_operation :
    {E : Type 0} → Text → Text → Text → Option E → ℤ → List (Text × Metadatum) → Client E → Client E
observe_operation name resource sub_resource error rows metadata p = elim p.observer [
  | none ↦ p
  | some shown ↦ record p {
    observer = some (
        record {
          component = codes "mariadb";
          operation = name;
          resource = or_db_name p resource;
          sub_resource = sub_resource;
          error = error;
          size = rows;
          metadata = metadata;
        }
        ∷ shown);
  }
]
