-- ===== src/SchemaRegistry/Serializer/RoundTrip.antt =====
-- What a wrapper deserializer makes of the bytes that a wrapper serializer wrote.
use stdlib_lab.Prelude.{
  ℕ, ◌<◌, ◌++◌, none, some, Result, ok, ℤ, pos, Text, ◌≡◌, arith, Result-cases, inl, inr, codes,
}
use stdlib_lab.SchemaRegistry.Wire.{Bytes, encode_schema_id, decode_schema_id}
use stdlib_lab.SchemaRegistry.Wire.RoundTrip.{decode-encode_in_range}
use stdlib_lab.SchemaRegistry.Serializer.Formats.{
  new_avro_serializer, new_avro_deserializer, avro_inner_serialize, avro_inner_deserialize,
}
use stdlib_lab.SchemaRegistry.Serializer.{
  new_wrapper_serializer, new_wrapper_deserializer, Registry, Dynamic, WrapperSerializer,
  WrapperDeserializer, encoded, serialize, decoded, deserialize,
}

module _ {V T : Type 0} (dyn : Dynamic V T) {S E : Type 0} where
  -- A message that `Serialize` returns is the header of the id that the registry gave for the
  -- serializer's subject, schema and type, followed by the encoded value.
  pub serialize-ok :
      (s : WrapperSerializer V S E) (value : V) (st : S) {message : Bytes}
      → (serialize dyn s value st).0 ≡ ok message
      → (bytes : Bytes) × (id : ℤ) × (encoded dyn s value ≡ ok bytes)
        × ((s.registry.register_schema s.subject s.schema s.schema_type st).0 ≡ ok id)
        × (message ≡ encode_schema_id id ++ bytes)
  unfolding serialize
  serialize-ok s value st h = elim (Result-cases (encoded dyn s value)) [
    | inl (e, failed) ↦ absurd (ground arith)
    | inr (bytes, enc) ↦
        elim (Result-cases (s.registry.register_schema s.subject s.schema s.schema_type st).0) [
          | inl (e, failed) ↦ absurd (ground arith)
          | inr (id, registered) ↦ (bytes, id, enc, registered, ground arith)
        ]
  ]

  -- A target that `Deserialize` returns was decoded from a payload behind a valid header, whose id
  -- the registry knows.
  pub deserialize-ok :
      (d : WrapperDeserializer T S E) (message : Bytes) (target : T) (st : S) {filled : T}
      → (deserialize dyn d message target st).0 ≡ ok filled
      → (id : ℤ) × (payload : Bytes) × (schema : Text) × (decode_schema_id message
          ≡ ok (id, payload))
        × ((d.registry.get_schema_by_id id st).0 ≡ ok schema)
        × (decoded dyn d payload target ≡ ok filled)
  unfolding deserialize
  deserialize-ok d message target st h = elim (Result-cases (decode_schema_id message)) [
    | inl (e, failed) ↦ absurd (ground arith)
    | inr ((id, payload), header) ↦ elim (Result-cases (d.registry.get_schema_by_id id st).0) [
      | inl (e, failed) ↦ absurd (ground arith)
      | inr (schema, known) ↦ (id, payload, schema, header, known, ground arith)
    ]
  ]

  -- Suppose the registry gave an id that fits 32 bits when a value was serialized, and that
  -- the deserializer's registry, in its own state, finds a schema under that id. Then
  -- deserializing the result is decoding the encoded value into the target.
  pub deserialize-serialize :
      (s : WrapperSerializer V S E) (d : WrapperDeserializer T S E) (value : V) (target : T)
      (st st' : S) (bytes : Bytes) (n : ℕ) (schema : Text) {message : Bytes}
      → encoded dyn s value ≡ ok bytes
      → (s.registry.register_schema s.subject s.schema s.schema_type st).0 ≡ ok (pos n)
      → n < 4294967296
      → (d.registry.get_schema_by_id (pos n) st').0 ≡ ok schema
      → (serialize dyn s value st).0 ≡ ok message
      → (deserialize dyn d message target st').0 ≡ decoded dyn d bytes target
  unfolding serialize deserialize
  deserialize-serialize s d value target st st' bytes n schema {message} enc reg fits found ser =
      ground (arith, decode-encode_in_range n bytes fits)

  -- Through the Avro serializer and deserializer that the constructors give, a value that is not
  -- bytes comes back as what unmarshalling its marshalled form puts into the target, if the id that
  -- the one registry gave fits 32 bits and the other knows it.
  pub avro_round_trip :
      (reg reg' : Registry S E) (subject schema found : Text) (marshal : V → Result Text Bytes)
      (unmarshal : Bytes → T → Result Text T) (value : V) (target filled : T) (bytes : Bytes)
      (n : ℕ) (st st' : S) {s : WrapperSerializer V S E} {d : WrapperDeserializer T S E}
      {message : Bytes}
      → new_avro_serializer dyn (some reg) subject schema (some marshal) ≡ ok s
      → new_avro_deserializer (some reg') (some unmarshal) ≡ ok d
      → dyn.as_bytes value ≡ none
      → marshal value ≡ ok bytes
      → unmarshal bytes target ≡ ok filled
      → (reg.register_schema subject schema (codes "AVRO") st).0 ≡ ok (pos n)
      → n < 4294967296
      → (reg'.get_schema_by_id (pos n) st').0 ≡ ok found
      → (serialize dyn s value st).0 ≡ ok message
      → (deserialize dyn d message target st').0 ≡ ok filled
  unfolding new_avro_serializer new_avro_deserializer new_wrapper_serializer
      new_wrapper_deserializer avro_inner_serialize avro_inner_deserialize serialize deserialize
      encoded decoded
  avro_round_trip reg reg' subject schema found marshal unmarshal value target filled bytes n st st'
        {s} {d} {message} made made' not_bytes m u registered fits known ser =
      ground (arith, decode-encode_in_range n bytes fits)
