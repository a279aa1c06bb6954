-- ===== src/SchemaRegistry/Client.antt =====
-- schema_registry/client.go and observer.go: the registry client with its two caches. A method
-- returns its result, the client afterwards and the outside world afterwards. The locks are left
-- out: each method is one step. Durations are left out of what the observer is sent.
pub mod State
pub mod Calls
pub mod Cached
pub mod Coherent
pub mod Keys
use stdlib_lab.Prelude.{
  ℕ, Bool, true, false, not, List, [], ◌∷◌, ◌++◌, Option, none, some, Result, ok, err, ℤ, pos, Text,
  codes, text_eqb, nat_eqb, if◌then◌else◌, lookup, insert, itoa, ◌&&◌, Key, int_key, text_key,
}
use stdlib_lab.SchemaRegistry.Http.{Method, get, post, Request, Response, Metadata, Http}
use stdlib_lab.SchemaRegistry.Client.State.{
  Cause, marshal_error, request_error, send_error, status_error, decode_error, ClientError, Value,
  flag, number, text, Event, Client, observe, event, error_metadata,
}

abbrev pub Reply : Type 0 → Type 0 → Type 0
Reply W A = Result ClientError A × Client × W

abbrev auth_of : Client → Option (Text × Text)
auth_of c = if not (text_eqb c.username []) then some (c.username, c.password) else none

-- The content type of the registry, which goes into `Accept` or `Content-Type`.
abbrev registry_json : Text
registry_json = codes "application/vnd.schemaregistry.v1+json"

abbrev get_request : Client → Text → Request
get_request c path = record {
  method = get;
  url = c.url ++ path;
  auth = auth_of c;
  header = (codes "Accept", registry_json);
  body = none;
}

abbrev post_request : Client → Text → Text → Request
post_request c path payload = record {
  method = post;
  url = c.url ++ path;
  auth = auth_of c;
  header = (codes "Content-Type", registry_json);
  body = some payload;
}

abbrev pub schema_request : Client → ℤ → Request
schema_request c id = get_request c (codes "/schemas/ids/" ++ itoa id)

abbrev pub latest_request : Client → Text → Request
latest_request c subject = get_request c (codes "/subjects/" ++ subject ++ codes "/versions/latest")

abbrev pub register_request : Client → Text → Text → Request
register_request c subject payload =
    post_request c (codes "/subjects/" ++ subject ++ codes "/versions") payload

abbrev pub compatibility_request : Client → Text → Text → Request
compatibility_request c subject payload =
    post_request c (codes "/compatibility/subjects/" ++ subject ++ codes "/versions/latest") payload

-- The body that is posted: the type is named only if it is set and not AVRO.
abbrev pub payload_of : Text → Text → List (Text × Text)
payload_of schema schema_type =
    (codes "schema", schema)
    ∷ (if not (text_eqb schema_type []) && not (text_eqb schema_type (codes "AVRO"))
        then (codes "schemaType", schema_type) ∷ []
        else [])

-- `fmt.Sprintf("%s:%s:%s", subject, schemaType, schema)`.
abbrev pub cache_key : Text → Text → Text → Text
cache_key subject schema_type schema = subject ++ (b':' ∷ (schema_type ++ (b':' ∷ schema)))

module _ {W : Type 0} (api : Http W) where
  -- From a request to the body of a 200 reply; `what` is the text that a failed `Do` is wrapped in.
  pub answer : Text → Result Text Response × W → Result ClientError Text × W
  answer what (err e, w) = (err (record { context = what; cause = send_error e }), w)
  answer what (ok r, w) = (
    if nat_eqb r.status 200
        then ok r.body
        else err (record { context = []; cause = status_error r.status r.body }),
    w,
  )

  pub exchange : Text → Request → W → Result ClientError Text × W
  unfolding answer
  exchange what req w = elim (api.refuses req) [
    | some e ↦
        (err (record { context = codes "failed to create request"; cause = request_error e }), w)
    | none ↦ answer what (api.send req w)
  ]

  abbrev undecoded : Text → ClientError
  undecoded e = record { context = codes "failed to decode response"; cause = decode_error e }

  abbrev get_event : ℤ → Bool → Option Cause → Event
  get_event id hit cause =
      event (codes "get_schema_by_id") (codes "registry") (itoa id) cause
        (error_metadata ((codes "cache_hit", flag hit) ∷ []) cause)

  pub received_schema : ℤ → Client → Result ClientError Text × W → Reply W Text
  received_schema id c (err e, w) = (err e, observe c (get_event id false (some e.cause)), w)
  received_schema id c (ok body, w) = elim (api.decode_schema body) [
    | err e ↦ (err (undecoded e), observe c (get_event id false (some (decode_error e))), w)
    | ok schema ↦ (
      ok schema,
      observe (record c { schema_cache = insert id schema c.schema_cache })
          (get_event id false none),
      w,
    )
  ]

  unfoldable pub get_schema_by_id : ℤ → Client → W → Reply W Text
  unfolding received_schema exchange
  get_schema_by_id id c w = elim (lookup id c.schema_cache) [
    | some schema ↦ (ok schema, observe c (get_event id true none), w)
    | none ↦
        received_schema id c (exchange (codes "failed to fetch schema") (schema_request c id) w)
  ]

  abbrev latest_event : Text → Option Cause → List (Text × Value) → Event
  latest_event subject cause metadata =
      event (codes "get_latest_schema") subject (codes "latest") cause metadata

  pub received_latest : Text → Client → Result ClientError Text × W → Reply W Metadata
  received_latest subject c (err e, w) =
      (err e, observe c (latest_event subject (some e.cause) (error_metadata [] (some e.cause))), w)
  received_latest subject c (ok body, w) = elim (api.decode_metadata body) [
    | err e ↦ (err (undecoded e), observe c (latest_event subject (some (decode_error e)) []), w)
    | ok m ↦ (
      ok (record m { subject = subject }),
      observe (record c { schema_cache = insert m.id m.schema c.schema_cache })
          (latest_event subject none (
            (codes "schema_id", number m.id)
            ∷ (codes "version", number m.version)
            ∷ (codes "schema_type", text m.schema_type)
            ∷ [])),
      w,
    )
  ]

  unfoldable pub get_latest_schema : Text → Client → W → Reply W Metadata
  unfolding received_latest exchange
  get_latest_schema subject c w =
      received_latest subject c
        (exchange (codes "failed to fetch schema") (latest_request c subject) w)

  abbrev register_event : Text → Text → Text → Bool → Option Cause → List (Text × Value) → Event
  register_event subject schema_type sub hit cause more =
      event (codes "register_schema") subject sub cause (
        error_metadata
          ((codes "cache_hit", flag hit) ∷ (codes "schema_type", text schema_type) ∷ more) cause)

  pub received_id : Text → Text → Text → Client → Result ClientError Text × W → Reply W ℤ
  received_id subject schema schema_type c (err e, w) =
      (err e, observe c (register_event subject schema_type [] false (some e.cause) []), w)
  received_id subject schema schema_type c (ok body, w) = elim (api.decode_id body) [
    | err e ↦ (
      err (undecoded e),
      observe c (register_event subject schema_type [] false (some (decode_error e)) []),
      w,
    )
    | ok id ↦ (
      ok id,
      observe (record c { id_cache = insert (cache_key subject schema_type schema) id c.id_cache })
          (register_event subject schema_type (itoa id) false none
            ((codes "schema_id", number id) ∷ [])),
      w,
    )
  ]

  pub register_uncached : Text → Text → Text → Client → W → Reply W ℤ
  unfolding received_id exchange
  register_uncached subject schema schema_type c w =
      elim (api.marshal (payload_of schema schema_type)) [
        | err e ↦ (
          err (record { context = codes "failed to marshal request"; cause = marshal_error e }),
          observe c (register_event subject schema_type [] false (some (marshal_error e)) []),
          w,
        )
        | ok body ↦
            received_id subject schema schema_type c
              (exchange (codes "failed to register schema") (register_request c subject body) w)
      ]

  unfoldable pub register_schema : Text → Text → Text → Client → W → Reply W ℤ
  unfolding register_uncached
  register_schema subject schema schema_type c w =
      elim (lookup (cache_key subject schema_type schema) c.id_cache) [
        | some id ↦
            (ok id, observe c (register_event subject schema_type (itoa id) true none []), w)
        | none ↦ register_uncached subject schema schema_type c w
      ]

  abbrev check_event : Text → Text → Option Cause → List (Text × Value) → Event
  check_event subject schema_type cause more =
      event (codes "check_compatibility") subject (codes "latest") cause
        (error_metadata ((codes "schema_type", text schema_type) ∷ more) cause)

  pub received_verdict : Text → Text → Client → Result ClientError Text × W → Reply W Bool
  received_verdict subject schema_type c (err e, w) =
      (err e, observe c (check_event subject schema_type (some e.cause) []), w)
  received_verdict subject schema_type c (ok body, w) = elim (api.decode_compatible body) [
    | err e ↦ (
      err (undecoded e),
      observe c (check_event subject schema_type (some (decode_error e)) []),
      w,
    )
    | ok verdict ↦ (
      ok verdict,
      observe c (check_event subject schema_type none ((codes "is_compatible", flag verdict) ∷ [])),
      w,
    )
  ]

  unfoldable pub check_compatibility : Text → Text → Text → Client → W → Reply W Bool
  unfolding received_verdict exchange
  check_compatibility subject schema schema_type c w =
      elim (api.marshal (payload_of schema schema_type)) [
        | err e ↦ (
          err (record { context = codes "failed to marshal request"; cause = marshal_error e }),
          observe c (check_event subject schema_type (some (marshal_error e)) []),
          w,
        )
        | ok body ↦ received_verdict subject schema_type c (
            exchange (codes "failed to check compatibility") (compatibility_request c subject body)
              w)
      ]
