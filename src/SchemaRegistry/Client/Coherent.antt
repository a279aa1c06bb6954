-- ===== src/SchemaRegistry/Client/Coherent.antt =====
-- The caches agree with the registry. A registry's schemas never change once they have an id, which
-- is a hypothesis here: its successful replies speak of one table of schemas and one of ids.
use stdlib_lab.Prelude.{
  List, Option, some, ok, ℤ, Text, Result-cases, inl, inr, Bool-cases, nat_eqb, nat_eqb_iff, ◌≡◌,
  arith, lookup, insert, lookup-insert, int_key, text_key, int_eqb_iff,
}
use stdlib_lab.SchemaRegistry.Http.{Http, Response, Metadata}
use stdlib_lab.SchemaRegistry.Client.{
  get_schema_by_id, get_latest_schema, register_schema, check_compatibility, schema_request,
  latest_request,
}
use stdlib_lab.SchemaRegistry.Client.State.{Client, Config, observe, new_client}
use stdlib_lab.SchemaRegistry.Client.Cached.{get-fills}
use stdlib_lab.SchemaRegistry.Client.Calls.{
  Call, schema_by_id, latest_schema, register, compatibility, perform,
}

-- Every reply with the status 200 that decodes tells the truth about the registry's table of schemas;
-- of other replies nothing is known.
pub record IsTruthful {W : Type 0} (api : Http W) (table : ℤ → Option Text) : Type 0 where
  pub by_id :
      (c : Client) (id : ℤ) (w : W) (r : Response) (schema : Text)
      → (api.send (schema_request c id) w).0 ≡ ok r
      → r.status ≡ 200
      → api.decode_schema r.body ≡ ok schema
      → table id ≡ some schema
  pub latest :
      (c : Client) (subject : Text) (w : W) (r : Response) (m : Metadata)
      → (api.send (latest_request c subject) w).0 ≡ ok r
      → r.status ≡ 200
      → api.decode_metadata r.body ≡ ok m
      → table m.id ≡ some m.schema

abbrev pub IsCoherent : (ℤ → Option Text) → Client → Type 0
IsCoherent table c =
    (id : ℤ) (schema : Text) → lookup id c.schema_cache ≡ some schema → table id ≡ some schema

module _ {W : Type 0} (api : Http W) (table : ℤ → Option Text) (honest : IsTruthful api table) where
  insert-coherent :
      (k : ℤ) (v : Text) (m : List (ℤ × Text))
      → table k ≡ some v
      → ((id : ℤ) (schema : Text) → lookup id m ≡ some schema → table id ≡ some schema)
      → (id : ℤ) (schema : Text) → lookup id (insert k v m) ≡ some schema
      → table id ≡ some schema
  insert-coherent k v m e h id schema found =
      ground (arith, lookup-insert k id v m, int_eqb_iff k id, h id schema)

  get-IsCoherent :
      (id : ℤ) (c : Client) (w : W)
      → IsCoherent table c
      → IsCoherent table (get_schema_by_id api id c w).1
  unfolding get_schema_by_id observe
  get-IsCoherent id c w h k s found = elim (Result-cases (api.send (schema_request c id) w).0) [
    | inl (e, failed) ↦ ground (arith, h k s)
    | inr (r, sent) ↦ elim (Result-cases (api.decode_schema r.body)) [
      | inl (e, failed) ↦ ground (arith, h k s)
      | inr (schema, decoded) ↦ elim (Bool-cases (nat_eqb r.status 200)) [
        | inr other ↦ ground (arith, h k s)
        | inl success ↦
            let found_one = (nat_eqb_iff r.status 200).0 success in
            let true_schema = honest.by_id c id w r schema sent found_one decoded in
            ground (arith, h k s, insert-coherent id schema c.schema_cache true_schema h k s)
      ]
    ]
  ]

  latest-IsCoherent :
      (subject : Text) (c : Client) (w : W)
      → IsCoherent table c
      → IsCoherent table (get_latest_schema api subject c w).1
  unfolding get_latest_schema observe
  latest-IsCoherent subject c w h k s found =
      elim (Result-cases (api.send (latest_request c subject) w).0) [
        | inl (e, failed) ↦ ground (arith, h k s)
        | inr (r, sent) ↦ elim (Result-cases (api.decode_metadata r.body)) [
          | inl (e, failed) ↦ ground (arith, h k s)
          | inr (m, decoded) ↦ elim (Bool-cases (nat_eqb r.status 200)) [
            | inr other ↦ ground (arith, h k s)
            | inl success ↦
                let found_one = (nat_eqb_iff r.status 200).0 success in
                let true_schema = honest.latest c subject w r m sent found_one decoded in
                ground
                  (arith, h k s, insert-coherent m.id m.schema c.schema_cache true_schema h k s)
          ]
        ]
      ]

  register-IsCoherent :
      (subject schema schema_type : Text) (c : Client) (w : W)
      → IsCoherent table c
      → IsCoherent table (register_schema api subject schema schema_type c w).1
  unfolding register_schema observe
  register-IsCoherent subject schema schema_type c w h k s found = ground (arith, h k s)

  check-IsCoherent :
      (subject schema schema_type : Text) (c : Client) (w : W)
      → IsCoherent table c
      → IsCoherent table (check_compatibility api subject schema schema_type c w).1
  unfolding check_compatibility observe
  check-IsCoherent subject schema schema_type c w h k s found = ground (arith, h k s)

  perform-IsCoherent :
      (call : Call) (c : Client) (w : W)
      → IsCoherent table c
      → IsCoherent table (perform api call c w).1
  unfolding perform
  perform-IsCoherent (schema_by_id id) c w h k s found = get-IsCoherent id c w h k s (ground arith)
  perform-IsCoherent (latest_schema subject) c w h k s found =
      latest-IsCoherent subject c w h k s (ground arith)
  perform-IsCoherent (register subject schema schema_type) c w h k s found =
      register-IsCoherent subject schema schema_type c w h k s (ground arith)
  perform-IsCoherent (compatibility subject schema schema_type) c w h k s found =
      check-IsCoherent subject schema schema_type c w h k s (ground arith)

-- What a new client becomes by any calls of its methods, the world changing freely in between.
pub data Reached {W : Type 0} (api : Http W) : Client → Type 0 where
  fresh : (config : Config) {c : Client} → new_client config ≡ ok c → Reached api c
  called : (call : Call) (w : W) {c : Client} → Reached api c → Reached api (perform api call c w).1

Reached-IsCoherent :
    {W : Type 0} (api : Http W) (table : ℤ → Option Text) {c : Client}
    → IsTruthful api table
    → Reached api c
    → IsCoherent table c
unfolding new_client lookup
Reached-IsCoherent api table honest (fresh config made) k s found = ground arith
Reached-IsCoherent api table honest (called call w r) k s found =
    perform-IsCoherent api table honest call _ w (Reached-IsCoherent api table honest r) k s found

-- Over a registry whose replies with the status 200 are truthful, whatever its other replies say and whatever a client has done before, in whatever states of the world, a
-- schema that `GetSchemaByID` returns is the registry's schema of that id.
pub get_schema_by_id_truthful :
    {W : Type 0} (api : Http W) (table : ℤ → Option Text) (id : ℤ) (c : Client) (w : W)
    {schema : Text}
    → IsTruthful api table
    → Reached api c
    → (get_schema_by_id api id c w).0 ≡ ok schema
    → table id ≡ some schema
get_schema_by_id_truthful api table id c w {schema} honest r h =
    get-IsCoherent api table honest id c w (Reached-IsCoherent api table honest r) id schema
      (get-fills api id c w h)
