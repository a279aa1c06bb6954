-- ===== src/Kafka/Serializers.antt =====
-- kafka/serializer.go. A value of the interface `Serializer` is its one method, and nil is `none`; the
-- same for `Deserializer`. `V` is what is serialized and `T` what is deserialized into, with the value
-- that a pointer holds. Type assertions, encoding/json, encoding/gob and fmt are the record Runtime.
pub mod Multi
pub mod Defaults
pub mod Formats
use stdlib_lab.Prelude.{
  ℕ, Bool, true, false, List, [], ◌∷◌, Option, none, some, Result, ok, err, Text, codes, text_eqb,
  if◌then◌else◌, not, map_err, lookup, insert, text_key, to_lower, ◌||◌,
}

abbrev pub Bytes : Type 0
Bytes = List ℕ

pub record Runtime (V T : Type 0) : Type 0 where
  -- `data.([]byte)`, and `data.(string)` as bytes.
  pub as_bytes : V → Option Bytes
  pub as_string : V → Option Bytes
  -- `fmt.Sprintf("%v", data)` as bytes.
  pub formatted : V → Bytes
  pub json_marshal : V → Result Text Bytes
  pub json_unmarshal : Bytes → T → Result Text T
  -- The methods of `ProtoMarshaler` and `ProtoUnmarshaler`, where the value has them.
  pub proto_marshal : V → Option (Result Text Bytes)
  pub proto_unmarshal : T → Option (Bytes → Result Text T)
  pub gob_encode : V → Result Text Bytes
  pub gob_decode : Bytes → T → Result Text T
  -- A store through `target.(*string)` and `target.(*[]byte)`.
  pub store_string : T → Bytes → Option T
  pub store_bytes : T → Bytes → Option T

pub data Format : Type 0 where
  json protobuf avro string gob noop : Format

-- What the codec failed with, or that it was given a value or a target it does not take.
pub data CodecError : Type 0 where
  codec_failed : Format → Text → CodecError
  not_accepted : Format → CodecError
  unknown_format : Text → CodecError

abbrev pub Serializer : Type 0 → Type 0
Serializer V = V → Result CodecError Bytes

abbrev pub Deserializer : Type 0 → Type 0
Deserializer T = Bytes → T → Result CodecError T

abbrev stored : {T : Type 0} → Format → Option T → Result CodecError T
stored format (some filled) = ok filled
stored format none = err (not_accepted format)

module _ {V T : Type 0} (runtime : Runtime V T) where
  -- Bytes pass through every serializer but are not looked for by a deserializer.
  abbrev unless_bytes : V → Result CodecError Bytes → Result CodecError Bytes
  unless_bytes value rest = elim (runtime.as_bytes value) [ some bytes ↦ ok bytes | none ↦ rest ]

  unfoldable pub json_serialize : Serializer V
  json_serialize value = unless_bytes value (elim (runtime.as_string value) [
    | some bytes ↦ ok bytes
    | none ↦ map_err (codec_failed json) (runtime.json_marshal value)
  ])

  unfoldable pub json_deserialize : Deserializer T
  json_deserialize bytes target = map_err (codec_failed json) (runtime.json_unmarshal bytes target)

  unfoldable pub protobuf_serialize : Option (V → Result Text Bytes) → Serializer V
  protobuf_serialize marshal value = unless_bytes value (elim marshal [
    | some f ↦ map_err (codec_failed protobuf) (f value)
    | none ↦ elim (runtime.proto_marshal value) [
      | some r ↦ map_err (codec_failed protobuf) r
      | none ↦ err (not_accepted protobuf)
    ]
  ])

  unfoldable pub protobuf_deserialize : Option (Bytes → T → Result Text T) → Deserializer T
  protobuf_deserialize unmarshal bytes target = elim unmarshal [
    | some f ↦ map_err (codec_failed protobuf) (f bytes target)
    | none ↦ elim (runtime.proto_unmarshal target) [
      | some f ↦ map_err (codec_failed protobuf) (f bytes)
      | none ↦ err (not_accepted protobuf)
    ]
  ]

  unfoldable pub avro_serialize : Option (V → Result Text Bytes) → Serializer V
  avro_serialize marshal value = unless_bytes value (elim marshal [
    | some f ↦ map_err (codec_failed avro) (f value)
    | none ↦ err (not_accepted avro)
  ])

  unfoldable pub avro_deserialize : Option (Bytes → T → Result Text T) → Deserializer T
  avro_deserialize unmarshal bytes target = elim unmarshal [
    | some f ↦ map_err (codec_failed avro) (f bytes target)
    | none ↦ err (not_accepted avro)
  ]

  unfoldable pub string_serialize : Serializer V
  string_serialize value = unless_bytes value (elim (runtime.as_string value) [
    | some bytes ↦ ok bytes
    | none ↦ ok (runtime.formatted value)
  ])

  unfoldable pub string_deserialize : Deserializer T
  string_deserialize bytes target = elim (runtime.store_string target bytes) [
    | some filled ↦ ok filled
    | none ↦ stored string (runtime.store_bytes target bytes)
  ]

  unfoldable pub gob_serialize : Serializer V
  gob_serialize value = unless_bytes value (map_err (codec_failed gob) (runtime.gob_encode value))

  unfoldable pub gob_deserialize : Deserializer T
  gob_deserialize bytes target = map_err (codec_failed gob) (runtime.gob_decode bytes target)

  unfoldable pub noop_serialize : Serializer V
  noop_serialize value = unless_bytes value (err (not_accepted noop))

  unfoldable pub noop_deserialize : Deserializer T
  noop_deserialize bytes target = stored noop (runtime.store_bytes target bytes)

  -- `none` where the user has to provide one.
  unfoldable pub get_default_serializer : Text → Option (Serializer V)
  get_default_serializer data_type =
      if text_eqb data_type (codes "string")
      then some string_serialize
      else if text_eqb data_type (codes "protobuf")
      then none
      else if text_eqb data_type (codes "avro")
      then none
      else if text_eqb data_type (codes "gob")
      then some gob_serialize
      else if text_eqb data_type (codes "bytes")
      then some noop_serialize
      else some json_serialize

  unfoldable pub get_default_deserializer : Text → Option (Deserializer T)
  get_default_deserializer data_type =
      if text_eqb data_type (codes "string")
      then some string_deserialize
      else if text_eqb data_type (codes "protobuf")
      then none
      else if text_eqb data_type (codes "avro")
      then none
      else if text_eqb data_type (codes "gob")
      then some gob_deserialize
      else if text_eqb data_type (codes "bytes")
      then some noop_deserialize
      else some json_deserialize

pub data Missing : Type 0 where
  serializer deserializer : Text → Missing

unfoldable pub validate_data_type : Text → Bool → Bool → Result Missing (Unit {0})
validate_data_type data_type has_serializer has_deserializer =
    if text_eqb data_type (codes "protobuf") || text_eqb data_type (codes "avro")
    then if not has_serializer
      then err (serializer data_type)
      else if not has_deserializer
      then err (deserializer data_type)
      else ok tt
    else ok tt
