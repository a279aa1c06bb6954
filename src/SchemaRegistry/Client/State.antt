-- ===== src/SchemaRegistry/Client/State.antt =====
-- The data of schema_registry/client.go: `Client`, `Config` and `NewClient`, its errors, and what
-- `observeOperation` of observer.go hands to the observer.
use stdlib_lab.Prelude.{
  ℕ, Bool, true, false, List, [], ◌∷◌, ◌++◌, Option, some, Result, ok, err, ℤ, pos, Text, codes,
  text_eqb, int_eqb, if◌then◌else◌,
}

-- The error that an operation meets, with the text of the foreign error.
pub data Cause : Type 0 where
  marshal_error request_error send_error decode_error : Text → Cause
  status_error : ℕ → Text → Cause

-- The error that it returns: `context: cause`, or the cause alone where the context is empty.
pub record ClientError : Type 0 where
  pub context : Text
  pub cause : Cause

pub data Value : Type 0 where
  flag : Bool → Value
  number : ℤ → Value
  text : Text → Value

-- `OperationContext`, less the component, which is constant, and the duration.
pub record Event : Type 0 where
  pub operation : Text
  pub resource : Text
  pub sub_resource : Text
  pub error : Option Cause
  pub metadata : List (Text × Value)

-- `observed` is what the observer has been sent, the last first; an observer and a logger are
-- there or not, and the methods below never call the logger.
pub record Client : Type 0 where
  pub url : Text
  pub timeout : ℤ
  pub schema_cache : List (ℤ × Text)
  pub id_cache : List (Text × ℤ)
  pub username : Text
  pub password : Text
  pub observer : Bool
  pub logger : Bool
  pub observed : List Event

pub record Config : Type 0 where
  pub url : Text
  pub username : Text
  pub password : Text
  pub timeout : ℤ

-- Ten seconds in nanoseconds.
abbrev pub default_timeout : ℤ
default_timeout = pos 10000000000

unfoldable pub new_client : Config → Result Text Client
new_client config =
    if text_eqb config.url []
    then err (codes "schema registry URL is required")
    else ok (record {
      url = config.url;
      timeout = if int_eqb config.timeout (pos 0) then default_timeout else config.timeout;
      schema_cache = [];
      id_cache = [];
      username = config.username;
      password = config.password;
      observer = false;
      logger = false;
      observed = [];
    })

unfoldable pub with_observer : Client → Client
with_observer c = record c { observer = true }

unfoldable pub with_logger : Client → Client
with_logger c = record c { logger = true }

abbrev pub event : Text → Text → Text → Option Cause → List (Text × Value) → Event
event operation resource sub_resource error metadata = record {
  operation = operation;
  resource = resource;
  sub_resource = sub_resource;
  error = error;
  metadata = metadata;
}

-- A reply with a bad status adds its code to the metadata.
abbrev pub error_metadata : List (Text × Value) → Option Cause → List (Text × Value)
error_metadata base (some (status_error code body)) =
    base ++ (codes "status_code", number (pos code)) ∷ []
error_metadata base _ = base

-- `observeOperation`: nothing without an observer.
unfoldable pub observe : Client → Event → Client
observe c e = if c.observer then record c { observed = e ∷ c.observed } else c
