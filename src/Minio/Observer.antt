-- ===== src/Minio/Observer.antt =====
-- minio/observer.go, and what of a client the operations on objects use: the observer, which is the
-- operations that it has been shown, the latest first.
use stdlib_lab.Prelude.{List, ◌∷◌, Option, none, some, ℤ, Text, codes}
use stdlib_lab.Observability.{Metadatum, Operation}

-- The errors of these operations: `ErrConnectionFailed`, one of minio-go's, and one that is wrapped
-- with the words before it.
pub data Fault : Type 0 where
  connection_failed : Fault
  raised : Text → Fault
  wrapped : Text → Text → Fault

pub record Client : Type 0 where
  pub observer : Option (List (Operation Fault))

unfoldable pub observe_operation :
    Text → Text → Text → Option Fault → ℤ → List (Text × Metadatum) → Client → Client
observe_operation name bucket object_key error size metadata c = elim c.observer [
  | none ↦ c
  | some shown ↦ record {
    observer = some (
        record {
          component = codes "minio";
          operation = name;
          resource = bucket;
          sub_resource = object_key;
          error = error;
          size = size;
          metadata = metadata;
        }
        ∷ shown);
  }
]
