-- ===== src/SchemaRegistry/Examples/Codecs.antt =====
-- Runs of the serializers over that registry.
use stdlib_lab.Prelude.{ℕ, ◌≡◌, refl, [], ◌∷◌, none, some, ok, Text, codes, arith, lookup}
use stdlib_lab.SchemaRegistry.Wire.{Bytes, encode_schema_id}
use stdlib_lab.SchemaRegistry.Client.{get_schema_by_id, register_schema}
use stdlib_lab.SchemaRegistry.Client.State.{Client, ClientError, observe}
use stdlib_lab.SchemaRegistry.Serializer.{
  Registry, Dynamic, WrapperSerializer, WrapperDeserializer, encoded, serialize, deserialize,
  new_wrapper_serializer, new_wrapper_deserializer,
}
use stdlib_lab.SchemaRegistry.Serializer.Formats.{
  new_avro_serializer, new_avro_deserializer, avro_inner_serialize, avro_inner_deserialize,
}
use stdlib_lab.SchemaRegistry.Serializer.RoundTrip.{avro_round_trip}
use stdlib_lab.SchemaRegistry.Serializer.Registered.{client_registry}
use stdlib_lab.SchemaRegistry.Examples.{small, known, client}

-- Values and targets are bytes or not.
abbrev texts : Dynamic Text Bytes
texts = record { as_bytes = λ value. none; store_bytes = λ target bytes. some bytes }

abbrev registry : Registry (Client × ℕ) ClientError
registry = client_registry known

abbrev writer : WrapperSerializer Text (Client × ℕ) ClientError
writer = record {
  registry = registry;
  subject = small;
  schema_type = codes "AVRO";
  schema = small;
  inner = some (λ value. ok value);
}

abbrev reader : WrapperDeserializer Bytes (Client × ℕ) ClientError
reader = record { registry = registry; inner = some (λ bytes target. ok bytes) }

-- The header of the id 7, and one byte.
abbrev message : Bytes
message = 0 ∷ 0 ∷ 0 ∷ 0 ∷ 7 ∷ 9 ∷ []

abbrev avro_writer : WrapperSerializer Text (Client × ℕ) ClientError
avro_writer = record writer { inner = some (avro_inner_serialize texts (some (λ value. ok value))) }

abbrev avro_reader : WrapperDeserializer Bytes (Client × ℕ) ClientError
avro_reader = record reader {
  inner = some (avro_inner_deserialize (some (λ bytes target. ok bytes)));
}

avro_round_trip_example : (deserialize texts avro_reader message [] (client, 5)).0 ≡ ok (9 ∷ [])
unfolding serialize encoded client_registry register_schema get_schema_by_id observe lookup
    encode_schema_id new_avro_serializer new_avro_deserializer new_wrapper_serializer
    new_wrapper_deserializer avro_inner_serialize
avro_round_trip_example =
    avro_round_trip texts registry registry small small small (λ value. ok value)
      (λ bytes target. ok bytes) (9 ∷ []) [] (9 ∷ []) (9 ∷ []) 7 (client, 0) (client, 5)
      {s = avro_writer} {d = avro_reader} {message = message} refl refl refl refl refl refl
      (omega arith) refl refl
