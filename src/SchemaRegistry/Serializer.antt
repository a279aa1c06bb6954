-- ===== src/SchemaRegistry/Serializer.antt =====
-- schema_registry/serializer.go: data wrapped in the wire format, over any `Registry`. `V` is what
-- is serialized (`interface{}`), `T` what is deserialized into, with the value that a pointer
-- holds; `S` is the registry's state and `E` its errors. A nil interface is `none`.
pub mod Formats
pub mod RoundTrip
pub mod NilFunctions
pub mod Registered
use stdlib_lab.Prelude.{
  ℕ, Bool, List, [], ◌++◌, Option, none, some, Result, ok, err, ℤ, Text, codes, text_eqb,
  if◌then◌else◌, ◌>>=◌, ◌>>◌, map_err,
}
use stdlib_lab.SchemaRegistry.Http.{Metadata}
use stdlib_lab.SchemaRegistry.Wire.{Bytes, encode_schema_id, DecodeError, decode_schema_id}

-- The interface `Registry`. A method takes the state and returns the state afterwards.
pub record Registry (S E : Type 0) : Type 0 where
  pub get_schema_by_id : ℤ → S → Result E Text × S
  pub get_latest_schema : Text → S → Result E Metadata × S
  pub register_schema : Text → Text → Text → S → Result E ℤ × S
  pub check_compatibility : Text → Text → Text → S → Result E Bool × S

-- A failure of a codec: an error that it returns, or a call of a function that is nil, a panic.
pub data CodecError : Type 0 where
  codec_error : Text → CodecError
  nil_function : CodecError

-- The assertions `data.([]byte)` and `target.(*[]byte)`, the latter with the store through it.
pub record Dynamic (V T : Type 0) : Type 0 where
  pub as_bytes : V → Option Bytes
  pub store_bytes : T → Bytes → Option T

pub data SerializeError (E : Type 0) : Type 0 where
  inner_failed : CodecError → SerializeError E
  no_inner_serializer : SerializeError E
  register_failed : E → SerializeError E

pub data DeserializeError (E : Type 0) : Type 0 where
  bad_header : DecodeError → DeserializeError E
  unknown_schema : ℤ → E → DeserializeError E
  codec_failed : CodecError → DeserializeError E
  no_inner_deserializer : DeserializeError E

pub record WrapperSerializer (V S E : Type 0) : Type 0 where
  pub registry : Registry S E
  pub subject : Text
  pub schema_type : Text
  pub schema : Text
  pub inner : Option (V → Result CodecError Bytes)

pub record WrapperSerializerConfig (V S E : Type 0) : Type 0 where
  pub registry : Option (Registry S E)
  pub subject : Text
  pub schema_type : Text
  pub schema : Text
  pub inner : Option (V → Result CodecError Bytes)

pub record WrapperDeserializer (T S E : Type 0) : Type 0 where
  pub registry : Registry S E
  pub inner : Option (Bytes → T → Result CodecError T)

module _ {V S E : Type 0} where
  unfoldable pub new_wrapper_serializer :
      WrapperSerializerConfig V S E → Result Text (WrapperSerializer V S E)
  new_wrapper_serializer config = elim config.registry [
    | none ↦ err (codes "schema registry is required")
    | some registry ↦
        if text_eqb config.subject []
        then err (codes "subject is required")
        else if text_eqb config.schema []
        then err (codes "schema is required")
        else ok (record {
          registry = registry;
          subject = config.subject;
          schema_type = if text_eqb config.schema_type [] then codes "AVRO" else config.schema_type;
          schema = config.schema;
          inner = config.inner;
        })
  ]

module _ {V T : Type 0} (dyn : Dynamic V T) {S E : Type 0} where
  -- The first part of `Serialize`: bytes stand for themselves, all else goes to the inner one.
  unfoldable pub encoded : WrapperSerializer V S E → V → Result (SerializeError E) Bytes
  encoded s value = elim (dyn.as_bytes value) [
    | some bytes ↦ ok bytes
    | none ↦ elim s.inner [
      | some serialize ↦ map_err inner_failed (serialize value)
      | none ↦ err no_inner_serializer
    ]
  ]

  abbrev wrapped : Bytes → Result E ℤ × S → Result (SerializeError E) Bytes × S
  wrapped bytes (err e, st) = (err (register_failed e), st)
  wrapped bytes (ok id, st) = (ok (encode_schema_id id ++ bytes), st)

  unfoldable pub serialize : WrapperSerializer V S E → V → S → Result (SerializeError E) Bytes × S
  serialize s value st = elim (encoded s value) [
    | err e ↦ (err e, st)
    | ok bytes ↦ wrapped bytes (s.registry.register_schema s.subject s.schema s.schema_type st)
  ]

  -- The last part of `Deserialize`.
  unfoldable pub decoded : WrapperDeserializer T S E → Bytes → T → Result (DeserializeError E) T
  decoded d payload target = elim d.inner [
    | some deserialize ↦ map_err codec_failed (deserialize payload target)
    | none ↦ elim (dyn.store_bytes target payload) [
      | some filled ↦ ok filled
      | none ↦ err no_inner_deserializer
    ]
  ]

  abbrev looked_up :
      WrapperDeserializer T S E
      → ℤ
      → Bytes
      → T
      → Result E Text × S
      → Result (DeserializeError E) T × S
  looked_up d id payload target (err e, st) = (err (unknown_schema id e), st)
  looked_up d id payload target (ok _, st) = (decoded d payload target, st)

  unfoldable pub deserialize :
      WrapperDeserializer T S E → Bytes → T → S → Result (DeserializeError E) T × S
  deserialize d bytes target st = elim (decode_schema_id bytes) [
    | err e ↦ (err (bad_header e), st)
    | ok (id, payload) ↦ looked_up d id payload target (d.registry.get_schema_by_id id st)
  ]

module _ {T S E : Type 0} where
  unfoldable pub new_wrapper_deserializer :
      Option (Registry S E)
      → Option (Bytes → T → Result CodecError T)
      → Result Text (WrapperDeserializer T S E)
  new_wrapper_deserializer none inner = err (codes "schema registry is required")
  new_wrapper_deserializer (some registry) inner =
      ok (record { registry = registry; inner = inner })
