-- ===== src/SchemaRegistry/Wire/RoundTrip.antt =====
-- The wire format read back: what `DecodeSchemaID` accepts, and that the two functions are inverse.
use stdlib_lab.Prelude.{
  ℕ, ◌/◌, ◌%◌, ◌<◌, ◌≡◌, [], ◌∷◌, ◌++◌, ok, ℤ, pos, to_uint32, to_uint32_lt, arith, All,
}
use native.Mathlib.Nat.{mod-eq_of_lt}
use stdlib_lab.SchemaRegistry.Wire.{
  Bytes, put_uint32, get_uint32, encode_schema_id, decode_schema_id,
}

get-put_uint32 :
    (n : ℕ)
    → n < 4294967296
    → get_uint32 (n / 16777216 % 256) (n / 65536 % 256) (n / 256 % 256) (n % 256) ≡ n
get-put_uint32 n h = omega arith

-- Decoding what `EncodeSchemaID` writes before any payload gives back the payload and the id's
-- low 32 bits, for every `int`, negative or too large ones included.
pub decode-encode :
    (id : ℤ) (payload : Bytes)
    → decode_schema_id (encode_schema_id id ++ payload) ≡ ok (pos (to_uint32 id), payload)
unfolding decode_schema_id encode_schema_id
decode-encode id payload = rw (get-put_uint32 (to_uint32 id) (to_uint32_lt id))

-- An id that fits 32 bits comes back unchanged.
pub decode-encode_in_range :
    (n : ℕ) (payload : Bytes)
    → n < 4294967296
    → decode_schema_id (encode_schema_id (pos n) ++ payload) ≡ ok (pos n, payload)
decode-encode_in_range n payload h = rw (decode-encode (pos n) payload, mod-eq_of_lt h)

abbrev IsByte : ℕ → Type 0
IsByte b = b < 256

put-get_uint32 :
    (a b c d : ℕ)
    → a < 256
    → b < 256
    → c < 256
    → d < 256
    → put_uint32 (get_uint32 a b c d % 4294967296) ≡ a ∷ b ∷ c ∷ d ∷ []
put-get_uint32 a b c d ha hb hc hd = ground arith

-- What `DecodeSchemaID` accepts is exactly what `EncodeSchemaID` writes: five bytes that encode an
-- id of 32 bits, followed by the payload.
pub encode-decode :
    (bytes payload : Bytes) (id : ℤ)
    → All IsByte bytes
    → decode_schema_id bytes ≡ ok (id, payload)
    → (encode_schema_id id ++ payload ≡ bytes) × (pos (to_uint32 id) ≡ id)
unfolding decode_schema_id encode_schema_id
encode-decode (m ∷ a ∷ b ∷ c ∷ d ∷ rest) payload id h e =
    ground (arith, put-get_uint32 a b c d h.1.0 h.1.1.0 h.1.1.1.0 h.1.1.1.1.0)
encode-decode [] payload id h e = cc
encode-decode (_ ∷ []) payload id h e = cc
encode-decode (_ ∷ _ ∷ []) payload id h e = cc
encode-decode (_ ∷ _ ∷ _ ∷ []) payload id h e = cc
encode-decode (_ ∷ _ ∷ _ ∷ _ ∷ []) payload id h e = cc
