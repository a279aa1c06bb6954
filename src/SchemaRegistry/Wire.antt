-- ===== src/SchemaRegistry/Wire.antt =====
-- schema_registry/client.go, `EncodeSchemaID` and `DecodeSchemaID`: the Confluent wire format,
-- a zero byte and the schema id in four bytes, most significant first. Bytes are numbers below 256.
pub mod RoundTrip
use stdlib_lab.Prelude.{
  ℕ, ◌+◌, ◌*◌, ◌/◌, ◌%◌, ◌<◌, ◌≡◌, refl, List, [], ◌∷◌, ◌++◌, Result, ok, err, ℤ, pos, to_uint32,
  length, nat_eqb, if◌then◌else◌, arith,
}

abbrev pub Bytes : Type 0
Bytes = List ℕ

-- `binary.BigEndian.PutUint32`.
abbrev pub put_uint32 : ℕ → Bytes
put_uint32 n = (n / 16777216 % 256) ∷ (n / 65536 % 256) ∷ (n / 256 % 256) ∷ (n % 256) ∷ []

-- `binary.BigEndian.Uint32`.
abbrev pub get_uint32 : ℕ → ℕ → ℕ → ℕ → ℕ
get_uint32 a b c d = a * 16777216 + b * 65536 + c * 256 + d

unfoldable pub encode_schema_id : ℤ → Bytes
encode_schema_id schema_id = 0 ∷ put_uint32 (to_uint32 schema_id)

pub data DecodeError : Type 0 where
  too_short : ℕ → DecodeError
  bad_magic : ℕ → DecodeError

-- `data[1:5]` and `data[5:]` are the four bytes and the rest that the first clause names; fewer
-- than five bytes are refused before the magic byte is looked at.
unfoldable pub decode_schema_id : Bytes → Result DecodeError (ℤ × Bytes)
decode_schema_id (m ∷ a ∷ b ∷ c ∷ d ∷ payload) =
    if nat_eqb m 0 then ok (pos (get_uint32 a b c d), payload) else err (bad_magic m)
decode_schema_id bytes = err (too_short (length bytes))
