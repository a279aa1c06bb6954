-- ===== src/SchemaRegistry/Serializer/Formats.antt =====
-- schema_registry/avro.go, protobuf.go and json.go: the three formats as inner codecs of the
-- wrapper. The functions that the user passes may be nil; package encoding/json is a parameter.
use stdlib_lab.Prelude.{Option, none, some, Result, ok, err, Text, codes, ◌++◌}
use stdlib_lab.SchemaRegistry.Wire.{Bytes}
use stdlib_lab.SchemaRegistry.Serializer.{
  Registry, CodecError, codec_error, nil_function, Dynamic, WrapperSerializer, WrapperDeserializer,
  WrapperSerializerConfig, new_wrapper_serializer, new_wrapper_deserializer,
}

abbrev Marshal : Type 0 → Type 0
Marshal V = V → Result Text Bytes

abbrev Unmarshal : Type 0 → Type 0
Unmarshal T = Bytes → T → Result Text T

abbrev called : {A : Type 0} → Result Text A → Result CodecError A
called (ok a) = ok a
called (err e) = err (codec_error e)

module _ {V T : Type 0} (dyn : Dynamic V T) where
  unfoldable pub avro_inner_serialize : Option (Marshal V) → V → Result CodecError Bytes
  avro_inner_serialize marshal value = elim (dyn.as_bytes value) [
    | some bytes ↦ ok bytes
    | none ↦ elim marshal [ some f ↦ called (f value) | none ↦ err nil_function ]
  ]

  unfoldable pub protobuf_inner_serialize : Option (Marshal V) → V → Result CodecError Bytes
  protobuf_inner_serialize marshal value = elim (dyn.as_bytes value) [
    | some bytes ↦ ok bytes
    | none ↦ elim marshal [
      | some f ↦ called (f value)
      | none ↦ err (codec_error (codes "protobuf marshal function not provided"))
    ]
  ]

  -- `json.Marshal` is the parameter.
  unfoldable pub json_inner_serialize : Marshal V → V → Result CodecError Bytes
  json_inner_serialize marshal value = elim (dyn.as_bytes value) [
    | some bytes ↦ ok bytes
    | none ↦ elim (marshal value) [
      | ok bytes ↦ ok bytes
      | err e ↦ err (codec_error (codes "failed to marshal JSON: " ++ e))
    ]
  ]

module _ {T : Type 0} where
  -- `avroInnerDeserializer` calls its function with no test for nil.
  unfoldable pub avro_inner_deserialize : Option (Unmarshal T) → Bytes → T → Result CodecError T
  avro_inner_deserialize none bytes target = err nil_function
  avro_inner_deserialize (some f) bytes target = called (f bytes target)

  -- So does `protobufInnerDeserializer`.
  unfoldable pub protobuf_inner_deserialize : Option (Unmarshal T) → Bytes → T → Result CodecError T
  protobuf_inner_deserialize none bytes target = err nil_function
  protobuf_inner_deserialize (some f) bytes target = called (f bytes target)

  -- `json.Unmarshal` is the parameter.
  unfoldable pub json_inner_deserialize : Unmarshal T → Bytes → T → Result CodecError T
  json_inner_deserialize unmarshal bytes target = elim (unmarshal bytes target) [
    | ok filled ↦ ok filled
    | err e ↦ err (codec_error (codes "failed to unmarshal JSON: " ++ e))
  ]

  module _ {S E : Type 0} where
    unfoldable pub new_avro_deserializer :
        Option (Registry S E) → Option (Unmarshal T) → Result Text (WrapperDeserializer T S E)
    new_avro_deserializer registry none =
        err (codes "unmarshalFunc is required for Avro deserialization")
    new_avro_deserializer registry (some f) =
        new_wrapper_deserializer registry (some (avro_inner_deserialize (some f)))

    unfoldable pub new_protobuf_deserializer :
        Option (Registry S E) → Option (Unmarshal T) → Result Text (WrapperDeserializer T S E)
    new_protobuf_deserializer registry unmarshal =
        new_wrapper_deserializer registry (some (protobuf_inner_deserialize unmarshal))

    unfoldable pub new_json_deserializer :
        Option (Registry S E) → Unmarshal T → Result Text (WrapperDeserializer T S E)
    new_json_deserializer registry unmarshal =
        new_wrapper_deserializer registry (some (json_inner_deserialize unmarshal))

module _ {V T : Type 0} (dyn : Dynamic V T) {S E : Type 0} where
  abbrev format_config :
      Option (Registry S E)
      → Text
      → Text
      → Text
      → (V → Result CodecError Bytes)
      → WrapperSerializerConfig V S E
  format_config registry subject schema_type schema inner = record {
    registry = registry;
    subject = subject;
    schema_type = schema_type;
    schema = schema;
    inner = some inner;
  }

  unfoldable pub new_avro_serializer :
      Option (Registry S E)
      → Text
      → Text
      → Option (Marshal V)
      → Result Text (WrapperSerializer V S E)
  new_avro_serializer registry subject schema none =
      err (codes "marshalFunc is required for Avro serialization")
  new_avro_serializer registry subject schema (some f) =
      new_wrapper_serializer
        (format_config registry subject (codes "AVRO") schema (avro_inner_serialize dyn (some f)))

  unfoldable pub new_protobuf_serializer :
      Option (Registry S E)
      → Text
      → Text
      → Option (Marshal V)
      → Result Text (WrapperSerializer V S E)
  new_protobuf_serializer registry subject schema marshal = new_wrapper_serializer (
      format_config registry subject (codes "PROTOBUF") schema
        (protobuf_inner_serialize dyn marshal))

  unfoldable pub new_json_serializer :
      Option (Registry S E) → Text → Text → Marshal V → Result Text (WrapperSerializer V S E)
  new_json_serializer registry subject schema marshal =
      new_wrapper_serializer
        (format_config registry subject (codes "JSON") schema (json_inner_serialize dyn marshal))
