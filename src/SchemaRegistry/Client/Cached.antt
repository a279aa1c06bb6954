-- ===== src/SchemaRegistry/Client/Cached.antt =====
-- A second call is answered from the cache: nothing is sent to the registry.
use stdlib_lab.Prelude.{
  some, ok, ℤ, Text, ◌≡◌, arith, lookup, int_key, text_key, lookup-insert_self,
}
use stdlib_lab.SchemaRegistry.Http.{Http}
use stdlib_lab.SchemaRegistry.Client.{get_schema_by_id, register_schema, cache_key}
use stdlib_lab.SchemaRegistry.Client.State.{Client, observe}

module _ {W : Type 0} (api : Http W) where
  pub get-fills :
      (id : ℤ) (c : Client) (w : W) {schema : Text}
      → (get_schema_by_id api id c w).0 ≡ ok schema
      → lookup id (get_schema_by_id api id c w).1.schema_cache ≡ some schema
  unfolding get_schema_by_id observe
  get-fills id c w {schema} h = ground (arith, lookup-insert_self id schema c.schema_cache)

  -- Once `GetSchemaByID` has returned a schema, a second call with that id returns the same schema
  -- in every later state of the world, sends no request, and leaves both caches as they are.
  pub get_schema_by_id-cached :
      (id : ℤ) (c : Client) (w v : W) {schema : Text}
      → (get_schema_by_id api id c w).0 ≡ ok schema
      → let again = get_schema_by_id api id (get_schema_by_id api id c w).1 v in
        (again.0 ≡ ok schema)
        × (again.2 ≡ v)
        × (again.1.schema_cache ≡ (get_schema_by_id api id c w).1.schema_cache)
        × (again.1.id_cache ≡ (get_schema_by_id api id c w).1.id_cache)
  get_schema_by_id-cached id c w v h = hit id _ v (get-fills id c w h)
    where
      hit :
          (id : ℤ) (c : Client) (v : W) {schema : Text}
          → lookup id c.schema_cache ≡ some schema
          → let again = get_schema_by_id api id c v in
            (again.0 ≡ ok schema)
            × (again.2 ≡ v)
            × (again.1.schema_cache ≡ c.schema_cache)
            × (again.1.id_cache ≡ c.id_cache)
      hit id c v e = unfold get_schema_by_id observe in ground arith

  register-fills :
      (subject schema schema_type : Text) (c : Client) (w : W) {id : ℤ}
      → (register_schema api subject schema schema_type c w).0 ≡ ok id
      → lookup
          (cache_key subject schema_type schema)
          (register_schema api subject schema schema_type c w).1.id_cache
        ≡ some id
  unfolding register_schema observe
  register-fills subject schema schema_type c w {id} h =
      ground (arith, lookup-insert_self (cache_key subject schema_type schema) id c.id_cache)

  register-hit :
      (subject schema schema_type : Text) (c : Client) (v : W) {id : ℤ}
      → lookup (cache_key subject schema_type schema) c.id_cache ≡ some id
      → let again = register_schema api subject schema schema_type c v in
        (again.0 ≡ ok id)
        × (again.2 ≡ v)
        × (again.1.schema_cache ≡ c.schema_cache)
        × (again.1.id_cache ≡ c.id_cache)
  unfolding register_schema observe
  register-hit subject schema schema_type c v e = ground arith

  -- Once `RegisterSchema` has returned an id, a call with any arguments of the same cache key returns
  -- the same id in every later state of the world, sends no request, and leaves both caches as they
  -- are.
  pub register_schema-cached :
      (subject schema schema_type : Text) (c : Client) (w : W) (subject' schema' type' : Text)
      (v : W) {id : ℤ}
      → (register_schema api subject schema schema_type c w).0 ≡ ok id
      → cache_key subject' type' schema' ≡ cache_key subject schema_type schema
      → let c' = (register_schema api subject schema schema_type c w).1 in
        let again = register_schema api subject' schema' type' c' v in
        (again.0 ≡ ok id)
        × (again.2 ≡ v)
        × (again.1.schema_cache ≡ c'.schema_cache)
        × (again.1.id_cache ≡ c'.id_cache)
  register_schema-cached subject schema schema_type c w subject' schema' type' v {id} h same =
      register-hit subject' schema' type' _ v {id = id}
        (rw same (register-fills subject schema schema_type c w h))
