-- ===== src/SchemaRegistry/Client/Keys.antt =====
-- The key of the id cache, subject, type and schema joined by colons: where it tells calls apart.
use stdlib_lab.Prelude.{[], ◌∷◌, ◌++◌, ok, ℤ, Text, ◌≡◌, refl, All, ◌≢◌}
use mathlib.Core.List.{append_assoc}
use stdlib_lab.SchemaRegistry.Http.{Http}
use stdlib_lab.SchemaRegistry.Client.{register_schema, cache_key}
use stdlib_lab.SchemaRegistry.Client.State.{Client}
use stdlib_lab.SchemaRegistry.Client.Cached.{register_schema-cached}

abbrev pub HasNoColon : Text → Type 0
HasNoColon s = All (λ c. c ≢ b':') s

first_colon :
    (s t x y : Text)
    → HasNoColon s
    → HasNoColon t
    → s ++ (b':' ∷ x) ≡ t ++ (b':' ∷ y)
    → (s ≡ t) × (x ≡ y)
first_colon [] [] x y hs ht e = (refl, cc)
first_colon [] (b ∷ t) x y hs ht e = absurd (ht.0 (cc))
first_colon (a ∷ s) [] x y hs ht e = absurd (hs.0 (cc))
first_colon (a ∷ s) (b ∷ t) x y hs ht e =
    let (same, rest) = first_colon s t x y hs.1 ht.1 (cc) in (cc, rest)

-- Where neither subject nor type holds a colon, two calls share a cache key only if they agree in
-- subject, type and schema.
pub cache_key_injective :
    (subject subject' schema_type type' schema schema' : Text)
    → HasNoColon subject
    → HasNoColon subject'
    → HasNoColon schema_type
    → HasNoColon type'
    → cache_key subject schema_type schema ≡ cache_key subject' type' schema'
    → (subject ≡ subject') × (schema_type ≡ type') × (schema ≡ schema')
cache_key_injective subject subject' schema_type type' schema schema' hs hs' ht ht' e =
    let (same, e') = first_colon subject subject' _ _ hs hs' e in
    let (same', rest) = first_colon schema_type type' _ _ ht ht' e' in (same, same', rest)

-- A colon in the subject defeats the cache: after a registration of the schema `type':schema` under
-- `subject`, a registration of `schema` under the other subject `subject:schema_type` is answered
-- with the first one's id, without a request.
pub register_schema-collides :
    {W : Type 0} (api : Http W) (subject schema_type type' schema : Text) (c : Client) (w v : W)
    {id : ℤ}
    → (register_schema api subject (type' ++ (b':' ∷ schema)) schema_type c w).0 ≡ ok id
    → let c' = (register_schema api subject (type' ++ (b':' ∷ schema)) schema_type c w).1 in
      let again = register_schema api (subject ++ (b':' ∷ schema_type)) schema type' c' v in
      (again.0 ≡ ok id) × (again.2 ≡ v)
register_schema-collides api subject schema_type type' schema c w v {id} h =
    let r =
      register_schema-cached api subject (type' ++ (b':' ∷ schema)) schema_type c w
        (subject ++ (b':' ∷ schema_type)) schema type' v {id = id} h
        (append_assoc subject (b':' ∷ schema_type) (b':' ∷ (type' ++ (b':' ∷ schema)))) in
    (r.0, r.1)
