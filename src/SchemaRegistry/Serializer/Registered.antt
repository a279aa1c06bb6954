-- ===== src/SchemaRegistry/Serializer/Registered.antt =====
-- The client of client.go as the registry of the serializers.
use stdlib_lab.Prelude.{ℤ, Option, Result, Result-cases, inl, inr, ok, ◌≡◌, arith}
use stdlib_lab.SchemaRegistry.Wire.{Bytes, decode_schema_id}
use stdlib_lab.SchemaRegistry.Http.{Http}
use stdlib_lab.SchemaRegistry.Client.{
  get_schema_by_id, get_latest_schema, register_schema, check_compatibility, Reply,
}
use stdlib_lab.SchemaRegistry.Client.State.{Client, ClientError}
use stdlib_lab.SchemaRegistry.Client.Cached.{get_schema_by_id-cached}
use stdlib_lab.SchemaRegistry.Serializer.{
  Registry, CodecError, Dynamic, WrapperDeserializer, deserialize, decoded,
}

abbrev as_state : {W A : Type 0} → Reply W A → Result ClientError A × (Client × W)
as_state (r, c, w) = (r, (c, w))

-- `*Client` implements `Registry`.
unfoldable pub client_registry : {W : Type 0} → Http W → Registry (Client × W) ClientError
client_registry api = record {
  get_schema_by_id = λ id st. as_state (get_schema_by_id api id st.0 st.1);
  get_latest_schema = λ subject st. as_state (get_latest_schema api subject st.0 st.1);
  register_schema = λ subject schema schema_type st.
      as_state (register_schema api subject schema schema_type st.0 st.1);
  check_compatibility = λ subject schema schema_type st.
      as_state (check_compatibility api subject schema schema_type st.0 st.1);
}

abbrev pub over_client :
    {T W : Type 0}
    → Http W
    → Option (Bytes → T → Result CodecError T)
    → WrapperDeserializer T (Client × W) ClientError
over_client api inner = record { registry = client_registry api; inner = inner }

-- Over the client, once a message has been deserialized, any message with the same schema id is
-- decoded by its payload alone, whatever the world has become, and no request is sent.
pub deserialize-cached :
    {V T W : Type 0} (dyn : Dynamic V T) (api : Http W)
    (inner : Option (Bytes → T → Result CodecError T)) (message message' payload payload' : Bytes)
    (id : ℤ) (target target' filled : T) (c : Client) (w v : W)
    → decode_schema_id message ≡ ok (id, payload)
    → decode_schema_id message' ≡ ok (id, payload')
    → (deserialize dyn (over_client api inner) message target (c, w)).0 ≡ ok filled
    → let c' = (deserialize dyn (over_client api inner) message target (c, w)).1.0 in
      let again = deserialize dyn (over_client api inner) message' target' (c', v) in
      (again.0 ≡ decoded dyn (over_client api inner) payload' target') × (again.1.1 ≡ v)
unfolding deserialize client_registry
deserialize-cached dyn api inner message message' payload payload' id target target' filled c w v
      header header' h =
    elim (Result-cases (get_schema_by_id api id c w).0) [
      | inl (e, failed) ↦ absurd (ground arith)
      | inr (schema, known) ↦ ground (arith, get_schema_by_id-cached api id c w v known)
    ]
