-- ===== src/SchemaRegistry/Examples.antt =====
-- Runs of the registry client and of the serializers over a small registry, which knows one schema
-- of id 7 and counts the requests that it is sent.
mod Codecs
use stdlib_lab.Prelude.{
  if◌then◌else◌, nat_eqb, ℕ, suc, ◌≡◌, ◌≢◌, refl, true, false, [], ◌∷◌, ◌++◌, Option, none, some,
  ok, err, ℤ, pos, negsuc, Text, codes, arith, to_uint32, lookup,
}
use stdlib_lab.SchemaRegistry.Http.{Http}
use stdlib_lab.SchemaRegistry.Wire.{Bytes, encode_schema_id, decode_schema_id}
use stdlib_lab.SchemaRegistry.Wire.RoundTrip.{decode-encode, encode-decode}
use stdlib_lab.SchemaRegistry.Client.{get_schema_by_id, register_schema}
use stdlib_lab.SchemaRegistry.Client.State.{
  Client, ClientError, Config, send_error, new_client, observe,
}
use stdlib_lab.SchemaRegistry.Client.Calls.{
  schema_by_id, perform, perform-observed, perform-error_caches, newest_error, older,
}
use stdlib_lab.SchemaRegistry.Client.Cached.{get_schema_by_id-cached, register_schema-cached}
use stdlib_lab.SchemaRegistry.Client.Coherent.{IsTruthful, fresh, called, get_schema_by_id_truthful}
use stdlib_lab.SchemaRegistry.Client.Keys.{cache_key_injective, register_schema-collides}
use stdlib_lab.SchemaRegistry.Serializer.{
  Registry, nil_function, Dynamic, WrapperSerializer, WrapperDeserializer, codec_failed, encoded,
  serialize, decoded, deserialize, new_wrapper_serializer, new_wrapper_deserializer,
}
use stdlib_lab.SchemaRegistry.Serializer.Formats.{
  new_avro_serializer, new_avro_deserializer, new_protobuf_deserializer, avro_inner_serialize,
  avro_inner_deserialize,
}
use stdlib_lab.SchemaRegistry.Serializer.RoundTrip.{
  serialize-ok, deserialize-ok, deserialize-serialize, avro_round_trip,
}
use stdlib_lab.SchemaRegistry.Serializer.NilFunctions.{avro_never_nil, protobuf_calls_nil}
use stdlib_lab.SchemaRegistry.Serializer.Registered.{client_registry, deserialize-cached}

abbrev small : Text
small = codes "s"

abbrev known : Http ℕ
known = record {
  marshal = λ fields. ok small;
  refuses = λ req. none;
  send = λ req w. (ok (record { status = 200; body = small }), suc w);
  decode_schema = λ body. ok small;
  decode_metadata = λ body. ok (record {
    id = pos 7;
    version = pos 1;
    schema = small;
    subject = small;
    schema_type = codes "AVRO";
  });
  decode_id = λ body. ok (pos 7);
  decode_compatible = λ body. ok true;
}

-- A registry that cannot be reached.
abbrev broken : Http ℕ
broken = record known { send = λ req w. (err small, suc w) }

abbrev config : Config
config = record { url = small; username = []; password = []; timeout = pos 0 }

abbrev client : Client
client = record {
  url = small;
  timeout = pos 10000000000;
  schema_cache = [];
  id_cache = [];
  username = [];
  password = [];
  observer = false;
  logger = false;
  observed = [];
}

decode-encode_example :
    decode_schema_id (encode_schema_id (negsuc 0) ++ (1 ∷ [])) ≡ ok (pos 4294967295, 1 ∷ [])
decode-encode_example = decode-encode (negsuc 0) (1 ∷ [])

encode-decode_example :
    (encode_schema_id (pos 258) ++ (9 ∷ []) ≡ 0 ∷ 0 ∷ 0 ∷ 1 ∷ 2 ∷ 9 ∷ [])
    × (pos (to_uint32 (pos 258)) ≡ pos 258)
unfolding decode_schema_id
encode-decode_example =
    encode-decode (0 ∷ 0 ∷ 0 ∷ 1 ∷ 2 ∷ 9 ∷ []) (9 ∷ []) (pos 258) (omega arith) refl

-- A registry that answers once, and then has nothing to say but that something is missing.
abbrev forgetful : Http ℕ
forgetful = record known {
  send = λ req w. (
    if nat_eqb w 0
        then ok (record { status = 200; body = small })
        else ok (record { status = 404; body = codes "not found" }),
    suc w,
  );
  decode_schema = λ body. ok body;
  decode_metadata = λ body. ok (record {
    id = pos 7;
    version = pos 1;
    schema = body;
    subject = small;
    schema_type = codes "AVRO";
  });
}

every_id : ℤ → Option Text
every_id id = some small

forgetful-IsTruthful : IsTruthful forgetful every_id
unfolding every_id
forgetful-IsTruthful = record {
  by_id = λ c id w r schema sent success parsed. ground arith;
  latest = λ c subject w r m sent success parsed. ground arith;
}

-- The client after a call that was answered with the status 404.
abbrev refused_once : Client
refused_once = (perform forgetful (schema_by_id (pos 9)) client 3).1

get_schema_by_id_truthful_example : every_id (pos 7) ≡ some small
unfolding perform get_schema_by_id observe new_client lookup
get_schema_by_id_truthful_example =
    get_schema_by_id_truthful forgetful every_id (pos 7) refused_once 0 forgetful-IsTruthful
      (called (schema_by_id (pos 9)) 3 (fresh config refl)) refl

register_schema-collides_example :
    let c' = (register_schema known (codes "a") (codes "c:d") (codes "b") client 0).1 in
    let again = register_schema known (codes "a:b") (codes "d") (codes "c") c' 5 in
    (again.0 ≡ ok (pos 7)) × (again.2 ≡ 5)
unfolding register_schema observe lookup
register_schema-collides_example =
    register_schema-collides known (codes "a") (codes "b") (codes "c") (codes "d") client 0 5 refl

perform-observed_example :
    (newest_error
        (perform broken (schema_by_id (pos 7)) (record client { observer = true }) 0).1.observed
      ≡ some (some (send_error small)))
    × (older
          (perform broken (schema_by_id (pos 7)) (record client { observer = true }) 0).1.observed
        ≡ [])
unfolding perform get_schema_by_id observe lookup
perform-observed_example =
    perform-observed broken (schema_by_id (pos 7)) (record client { observer = true }) 0 refl
