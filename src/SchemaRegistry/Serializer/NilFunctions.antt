-- ===== src/SchemaRegistry/Serializer/NilFunctions.antt =====
-- Codec functions that the user leaves nil: which constructors refuse them.
use stdlib_lab.Prelude.{ℤ, Option, none, some, Result, ok, err, Text, ◌≡◌, ◌≢◌, arith}
use stdlib_lab.SchemaRegistry.Wire.{Bytes, decode_schema_id}
use stdlib_lab.SchemaRegistry.Serializer.{
  Registry, nil_function, Dynamic, WrapperDeserializer, codec_failed, deserialize, decoded,
  new_wrapper_deserializer,
}
use stdlib_lab.SchemaRegistry.Serializer.Formats.{
  avro_inner_deserialize, protobuf_inner_deserialize, new_avro_deserializer,
  new_protobuf_deserializer,
}

module _ {V T : Type 0} (dyn : Dynamic V T) {S E : Type 0} where
  -- An Avro deserializer that `NewAvroDeserializer` returns never calls a nil function.
  pub avro_never_nil :
      (registry : Option (Registry S E)) (unmarshal : Option (Bytes → T → Result Text T))
      (message : Bytes) (target : T) (st : S) {d : WrapperDeserializer T S E}
      → new_avro_deserializer registry unmarshal ≡ ok d
      → (deserialize dyn d message target st).0 ≢ err (codec_failed nil_function)
  unfolding new_avro_deserializer new_wrapper_deserializer avro_inner_deserialize deserialize
      decoded
  avro_never_nil registry none message target st made = λ h. cc
  avro_never_nil none (some f) message target st made = λ h. cc
  avro_never_nil (some registry) (some f) message target st made = λ h. ground arith

  -- `NewProtobufDeserializer` accepts a nil unmarshal function, and then every message with a valid
  -- header and a known schema makes the deserializer call it.
  pub protobuf_calls_nil :
      (registry : Registry S E) (message payload : Bytes) (target : T) (id : ℤ) (schema : Text)
      (st : S)
      → decode_schema_id message ≡ ok (id, payload)
      → (registry.get_schema_by_id id st).0 ≡ ok schema
      → (d : WrapperDeserializer T S E) × (new_protobuf_deserializer (some registry) none ≡ ok d)
        × ((deserialize dyn d message target st).0 ≡ err (codec_failed nil_function))
  unfolding new_protobuf_deserializer new_wrapper_deserializer protobuf_inner_deserialize
      deserialize decoded
  protobuf_calls_nil registry message payload target id schema st header known = (
    record { registry = registry; inner = some (protobuf_inner_deserialize none) },
    ground arith,
    ground arith,
  )
