-- ===== src/Kafka/Serializers/Defaults.antt =====
-- The default serializers by data type.
use stdlib_lab.Prelude.{
  Bool, true, false, Option, none, some, ok, Text, codes, text_eqb, not, ◌||◌, ◌&&◌, ◌≡◌,
  text_eqb_iff, Bool-cases, inl, inr, ◌↔◌, refl, arith,
}
use stdlib_lab.Kafka.Serializers.{
  Bytes, Runtime, Serializer, json_serialize, string_serialize, gob_serialize, noop_serialize,
  get_default_serializer, get_default_deserializer, validate_data_type,
}

abbrev pub is_some : {A : Type 0} → Option A → Bool
is_some (some a) = true
is_some none = false

module _ {V T : Type 0} (runtime : Runtime V T) (data_type : Text) where
  -- The two data types with no default are the two that are checked.
  has_default :
      (is_some (get_default_serializer runtime data_type)
        ≡ not (text_eqb data_type (codes "protobuf") || text_eqb data_type (codes "avro")))
      × (is_some (get_default_deserializer runtime data_type)
          ≡ not (text_eqb data_type (codes "protobuf") || text_eqb data_type (codes "avro")))
  unfolding get_default_serializer get_default_deserializer
  has_default = elim (Bool-cases (text_eqb data_type (codes "string"))) [
    | inl same ↦ let e = (text_eqb_iff data_type (codes "string")).0 same in rw e (refl, refl)
    | inr other ↦ ground arith
  ]

  -- `ValidateDataType` accepts a data type exactly if a serializer and a deserializer are given or
  -- there is a default for what is not given.
  pub validate-get_default :
      (given_s given_d : Bool)
      → (validate_data_type data_type given_s given_d ≡ ok tt) ↔ (
          (given_s || is_some (get_default_serializer runtime data_type))
            && (given_d || is_some (get_default_deserializer runtime data_type))
          ≡ true)
  unfolding validate_data_type
  validate-get_default given_s given_d = ground (arith, has_default)

-- Every default serializer hands bytes on as they are.
pub default_passes_bytes :
    {V T : Type 0} (runtime : Runtime V T) (data_type : Text) (value : V) (bytes : Bytes)
    {s : Serializer V}
    → get_default_serializer runtime data_type ≡ some s
    → runtime.as_bytes value ≡ some bytes
    → s value ≡ ok bytes
unfolding get_default_serializer json_serialize string_serialize gob_serialize noop_serialize
default_passes_bytes runtime data_type value bytes found given = ground arith
