-- ===== src/Kafka/Examples/Serializing.antt =====
-- Serializers of numbers and of bytes: a number is number_bytes as itself, in one byte.
use stdlib_lab.Prelude.{
  ℕ, true, false, [], ◌∷◌, Option, none, some, Result, ok, err, Text, codes, text_eqb_iff, ◌≢◌,
  to_lower, ◌≡◌,
}
use stdlib_lab.Kafka.Serializers.{Bytes, Runtime, Serializer}

pub data Value : Type 0 where
  number : ℕ → Value
  blob : Bytes → Value

abbrev blob_of : Value → Option Bytes
blob_of (number n) = none
blob_of (blob b) = some b

abbrev pub number_bytes : Value → Bytes
number_bytes (number n) = n ∷ []
number_bytes (blob b) = b

abbrev pub read_number : Bytes → Value → Result Text Value
read_number [] target = err (codes "unexpected end")
read_number (n ∷ []) target = ok (number n)
read_number _ target = err (codes "too long")

abbrev pub numbers : Runtime Value Value
numbers = record {
  as_bytes = blob_of;
  as_string = λ v. none;
  formatted = number_bytes;
  json_marshal = λ v. ok (number_bytes v);
  json_unmarshal = read_number;
  proto_marshal = λ v. none;
  proto_unmarshal = λ t. none;
  gob_encode = λ v. ok (number_bytes v);
  gob_decode = read_number;
  store_string = λ t b. none;
  store_bytes = λ t b. some (blob b);
}

abbrev custom : Serializer Value
custom v = ok (0 ∷ number_bytes v)

mixed : to_lower (codes "CBOR") ≢ codes "CBOR"
mixed e = let t : false ≡ true = (text_eqb_iff (to_lower (codes "CBOR")) (codes "CBOR")).1 e in cc
