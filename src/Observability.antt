-- ===== src/Observability.antt =====
-- observability/interface.go: what an observer is shown. `E` is the type of a package's errors.
use stdlib_lab.Prelude.{Bool, List, Option, ℤ, Text}

-- A value of an operation's metadata.
pub data Metadatum : Type 0 where
  text : Text → Metadatum
  int : ℤ → Metadatum
  flag : Bool → Metadatum

-- `OperationContext` without the duration.
pub record Operation (E : Type 0) : Type 0 where
  pub component : Text
  pub operation : Text
  pub resource : Text
  pub sub_resource : Text
  pub error : Option E
  pub size : ℤ
  pub metadata : List (Text × Metadatum)
