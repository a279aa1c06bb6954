-- ===== src/Kafka/Serializers/Multi.antt =====
-- kafka/serializer.go: `MultiFormatSerializer` and `MultiFormatDeserializer`. A nil serializer is not
-- registered.
use stdlib_lab.Prelude.{
  List, [], ◌∷◌, none, some, Result, err, Text, codes, text_eqb, if◌then◌else◌, lookup, insert,
  text_key, to_lower,
}
use stdlib_lab.Kafka.Serializers.{
  Bytes, Runtime, CodecError, unknown_format, Serializer, Deserializer, json_serialize,
  json_deserialize, string_serialize, string_deserialize, gob_serialize, gob_deserialize,
  noop_serialize, noop_deserialize,
}

pub record MultiFormatSerializer (V : Type 0) : Type 0 where
  pub default_format : Text
  pub serializers : List (Text × Serializer V)

pub record MultiFormatDeserializer (T : Type 0) : Type 0 where
  pub default_format : Text
  pub deserializers : List (Text × Deserializer T)

module _ {V T : Type 0} (runtime : Runtime V T) where
  unfoldable pub new_multi_format_serializer : MultiFormatSerializer V
  new_multi_format_serializer = record {
    default_format = codes "json";
    serializers =
        (codes "json", json_serialize runtime)
        ∷ (codes "string", string_serialize runtime)
        ∷ (codes "gob", gob_serialize runtime)
        ∷ (codes "noop", noop_serialize runtime)
        ∷ [];
  }

  unfoldable pub new_multi_format_deserializer : MultiFormatDeserializer T
  new_multi_format_deserializer = record {
    default_format = codes "json";
    deserializers =
        (codes "json", json_deserialize runtime)
        ∷ (codes "string", string_deserialize runtime)
        ∷ (codes "gob", gob_deserialize runtime)
        ∷ (codes "noop", noop_deserialize runtime)
        ∷ [];
  }

abbrev pub format_or_json : Text → Text
format_or_json format = if text_eqb format [] then codes "json" else format

module _ {V : Type 0} where
  unfoldable pub register_serializer :
      Text → Serializer V → MultiFormatSerializer V → MultiFormatSerializer V
  register_serializer format s m = record m {
    serializers = insert (to_lower format) s m.serializers;
  }

  pub serialize_by : Text → Text → V → MultiFormatSerializer V → Result CodecError Bytes
  serialize_by shown format value m = elim (lookup format m.serializers) [
    | some s ↦ s value
    | none ↦ err (unknown_format shown)
  ]

  -- The default format is looked up as it is written.
  unfoldable pub serialize : V → MultiFormatSerializer V → Result CodecError Bytes
  unfolding serialize_by
  serialize value m =
      serialize_by (format_or_json m.default_format) (format_or_json m.default_format) value m

  unfoldable pub serialize_with_format :
      Text → V → MultiFormatSerializer V → Result CodecError Bytes
  unfolding serialize_by
  serialize_with_format format value m = serialize_by format (to_lower format) value m

module _ {T : Type 0} where
  unfoldable pub register_deserializer :
      Text → Deserializer T → MultiFormatDeserializer T → MultiFormatDeserializer T
  register_deserializer format d m = record m {
    deserializers = insert (to_lower format) d m.deserializers;
  }

  pub deserialize_by : Text → Text → Bytes → T → MultiFormatDeserializer T → Result CodecError T
  deserialize_by shown format bytes target m = elim (lookup format m.deserializers) [
    | some d ↦ d bytes target
    | none ↦ err (unknown_format shown)
  ]

  unfoldable pub deserialize : Bytes → T → MultiFormatDeserializer T → Result CodecError T
  unfolding deserialize_by
  deserialize bytes target m =
      deserialize_by (format_or_json m.default_format) (format_or_json m.default_format) bytes
        target m

  unfoldable pub deserialize_with_format :
      Text → Bytes → T → MultiFormatDeserializer T → Result CodecError T
  unfolding deserialize_by
  deserialize_with_format format bytes target m =
      deserialize_by format (to_lower format) bytes target m
