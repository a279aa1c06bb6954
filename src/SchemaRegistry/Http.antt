-- ===== src/SchemaRegistry/Http.antt =====
-- What schema_registry/client.go takes from net/http and encoding/json, as a record of functions
-- over the state `W` of everything outside the process, and the data that crosses it.
use stdlib_lab.Prelude.{ℕ, List, Option, Bool, Result, ℤ, Text}

pub data Method : Type 0 where
  get post : Method

pub record Request : Type 0 where
  pub method : Method
  pub url : Text
  pub auth : Option (Text × Text)
  pub header : Text × Text
  pub body : Option Text

pub record Response : Type 0 where
  pub status : ℕ
  pub body : Text

-- `Metadata` of client.go; the field `Type` is `schema_type`.
pub record Metadata : Type 0 where
  pub id : ℤ
  pub version : ℤ
  pub schema : Text
  pub subject : Text
  pub schema_type : Text

pub record Http (W : Type 0) : Type 0 where
  -- `json.Marshal` of an object of texts.
  pub marshal : List (Text × Text) → Result Text Text
  -- The error of `http.NewRequestWithContext`, if it gives one.
  pub refuses : Request → Option Text
  -- `httpClient.Do`, and the body read to its end.
  pub send : Request → W → Result Text Response × W
  -- The four uses of `json.NewDecoder(resp.Body).Decode`.
  pub decode_schema : Text → Result Text Text
  pub decode_metadata : Text → Result Text Metadata
  pub decode_id : Text → Result Text ℤ
  pub decode_compatible : Text → Result Text Bool
