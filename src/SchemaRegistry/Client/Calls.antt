-- ===== src/SchemaRegistry/Client/Calls.antt =====
-- The four methods of the registry client as one type of calls, so that what holds of every method
-- is one statement.
use stdlib_lab.Prelude.{
  true, List, [], ◌∷◌, Option, none, some, Result, ok, err, ℤ, Text, ◌≡◌, arith,
}
use stdlib_lab.SchemaRegistry.Http.{Http}
use stdlib_lab.SchemaRegistry.Client.{
  Reply, get_schema_by_id, get_latest_schema, register_schema, check_compatibility,
}
use stdlib_lab.SchemaRegistry.Client.State.{Cause, ClientError, Event, Client, observe}

pub data Call : Type 0 where
  schema_by_id : ℤ → Call
  latest_schema : Text → Call
  register compatibility : Text → Text → Text → Call

abbrev forget : {W A : Type 0} → Reply W A → Reply W (Unit {0})
forget (ok a, c, w) = (ok tt, c, w)
forget (err e, c, w) = (err e, c, w)

abbrev pub newest_error : List Event → Option (Option Cause)
newest_error [] = none
newest_error (e ∷ es) = some e.error

abbrev pub older : List Event → List Event
older [] = []
older (e ∷ es) = es

module _ {W : Type 0} (api : Http W) where
  unfoldable pub perform : Call → Client → W → Reply W (Unit {0})
  perform (schema_by_id id) c w = forget (get_schema_by_id api id c w)
  perform (latest_schema subject) c w = forget (get_latest_schema api subject c w)
  perform (register subject schema schema_type) c w =
      forget (register_schema api subject schema schema_type c w)
  perform (compatibility subject schema schema_type) c w =
      forget (check_compatibility api subject schema schema_type c w)

  -- A method that returns an error leaves both caches as they were.
  pub perform-error_caches :
      (call : Call) (c : Client) (w : W) (e : ClientError)
      → (perform call c w).0 ≡ err e
      → ((perform call c w).1.schema_cache ≡ c.schema_cache)
        × ((perform call c w).1.id_cache ≡ c.id_cache)
  unfolding perform get_schema_by_id get_latest_schema register_schema check_compatibility observe
  perform-error_caches (schema_by_id id) c w e h = ground arith
  perform-error_caches (latest_schema subject) c w e h = ground arith
  perform-error_caches (register subject schema schema_type) c w e h = ground arith
  perform-error_caches (compatibility subject schema schema_type) c w e h = ground arith

  abbrev cause_of : Result ClientError (Unit {0}) → Option Cause
  cause_of (ok _) = none
  cause_of (err e) = some e.cause

  -- With an observer attached, every method sends it exactly one event, whose error is the cause of
  -- the error that the method returns, and none on success.
  pub perform-observed :
      (call : Call) (c : Client) (w : W)
      → c.observer ≡ true
      → (newest_error (perform call c w).1.observed ≡ some (cause_of (perform call c w).0))
        × (older (perform call c w).1.observed ≡ c.observed)
  unfolding perform get_schema_by_id get_latest_schema register_schema check_compatibility observe
  perform-observed (schema_by_id id) c w h = ground arith
  perform-observed (latest_schema subject) c w h = ground arith
  perform-observed (register subject schema schema_type) c w h = ground arith
  perform-observed (compatibility subject schema schema_type) c w h = ground arith
