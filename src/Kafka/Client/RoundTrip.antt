-- ===== src/Kafka/Client/RoundTrip.antt =====
-- From `Publish` to what a consumer reads.
use stdlib_lab.Prelude.{
  List, [], ◌∷◌, ◌++◌, Option, none, some, ok, Text, codes, text_eqb, text_eqb_iff, lookup, insert,
  lookup-insert, text_key, ◌≡◌, ◌∙◌, false, refl, arith, inl, inr, Result-cases, Option-cases,
  Bool-cases,
}
use stdlib_lab.Kafka.Serializers.{Bytes, Runtime, json_serialize, json_deserialize}
use stdlib_lab.Kafka.Client.Settings.{WriterConfig, Config, Security}
use stdlib_lab.Kafka.Client.{
  Conversion, Message, HeaderValue, string, other, bytes, Dialer, KafkaClient, Broker, new_client,
  attempt, message_bytes, publish, kafka_headers, header_bytes,
}
use stdlib_lab.Kafka.Client.Messages
use stdlib_lab.Kafka.Client.Messages.{ConsumerMessage, received, body_as, header, add_headers}
use stdlib_lab.Kafka.Client.Starts.{json_codecs, writer_async}

-- A broker with the messages that it holds, the oldest first: a write of a writer that is not
-- asynchronous adds the message if it gives no error. An asynchronous writer may give none and lose it.
pub record Topic {W Cert Mechanism : Type 0} (broker : Broker W Cert Mechanism) : Type 0 where
  pub messages : W → List Message
  pub written :
      (writer : WriterConfig × Dialer Cert Mechanism) (m : Message) (w : W)
      → writer.0.async ≡ false
      → (broker.write_messages writer m w).0 ≡ ok tt
      → messages (broker.write_messages writer m w).1 ≡ messages w ++ (m ∷ [])

module _ {V T Cert Mechanism W : Type 0} {broker : Broker W Cert Mechanism} (topic : Topic broker)
    (runtime : Runtime V T) (conversion : Conversion) (done : Option Text) (key : Text) (value : V)
    (headers : List (Text × HeaderValue)) (k : KafkaClient V T Cert Mechanism) (w : W) where
  -- What a writer that is not asynchronous publishes without an error is one message more in the topic.
  publish-ok :
      ((writer : WriterConfig × Dialer Cert Mechanism)
        → k.writer ≡ some writer
        → writer.0.async ≡ false)
      → (publish broker runtime conversion done key value headers k w).0 ≡ ok tt
      → (encoded : Bytes) × (message_bytes runtime value k ≡ ok encoded)
        × (topic.messages (publish broker runtime conversion done key value headers k w).1.1
            ≡ topic.messages w
              ++ (record {
                key = conversion.to_bytes key;
                value = encoded;
                headers = kafka_headers conversion headers;
              }
                  ∷ []))
  unfolding publish attempt
  publish-ok waits published = elim (Result-cases (message_bytes runtime value k)) [
    | inl (e, failed) ↦ ground arith
    | inr (encoded, made) ↦ elim (Option-cases k.writer) [
      | inl missing ↦ ground arith
      | inr (writer, has) ↦
          let message : Message = record {
            key = conversion.to_bytes key;
            value = encoded;
            headers = kafka_headers conversion headers;
          } in
          (encoded, made, ground (arith, has, topic.written writer message w (waits writer has)))
    ]
  ]

-- The keys of a map.
abbrev pub IsMap : List (Text × HeaderValue) → Type 0
IsMap [] = Unit {0}
IsMap ((k, v) ∷ rest) = (lookup k rest ≡ none) × IsMap rest

-- What a header value is as a string.
abbrev pub shown : Conversion → HeaderValue → Text
shown conversion (string s) = s
shown conversion (other s) = s
shown conversion (bytes b) = conversion.to_string b

abbrev pub found_or : Conversion → Option HeaderValue → Option Text → Option Text
found_or conversion none before = before
found_or conversion (some v) before = some (shown conversion v)

module _ (conversion : Conversion)
    (exact : (s : Text) → conversion.to_string (conversion.to_bytes s) ≡ s) where
  header_text :
      (v : HeaderValue) → conversion.to_string (header_bytes conversion v) ≡ shown conversion v
  header_text (string s) = exact s
  header_text (other s) = exact s
  header_text (bytes b) = exact (conversion.to_string b)

  lookup-add_headers :
      (name : Text) (headers : List (Text × HeaderValue)) (made : List (Text × Text))
      → IsMap headers
      → lookup name (add_headers conversion (kafka_headers conversion headers) made)
        ≡ found_or conversion (lookup name headers) (lookup name made)
  unfolding lookup
  lookup-add_headers name [] made h = refl
  lookup-add_headers name ((k, v) ∷ rest) made h =
      let made' = insert k (conversion.to_string (header_bytes conversion v)) made in
      let later = lookup-add_headers name rest made' h.1 in
      let inserted = lookup-insert k name (conversion.to_string (header_bytes conversion v)) made in
      elim (Bool-cases (text_eqb name k)) [
        | inl same ↦
            let e : name ≡ k = (text_eqb_iff name k).0 same in
            let absent : lookup name rest ≡ none = cc (e, h.0) in
            rw (same, later, absent, inserted, same, header_text v) refl
        | inr differs ↦ rw (differs, later, inserted, differs) refl
      ]

-- What a consumer reads of a message that a writer which is not asynchronous has published without an
-- error: the topic has one message
-- more, its key is the given one, and `Header` has, under every name, the value that was given under
-- that name as a string, and nothing under any other. The strings are read back from their bytes, and
-- no two headers have the same name, as in a map.
pub publish-header :
    {V T Cert Mechanism W : Type 0} {broker : Broker W Cert Mechanism} (topic : Topic broker)
    (runtime : Runtime V T) (conversion : Conversion) (done : Option Text) (key : Text) (value : V)
    (headers : List (Text × HeaderValue)) (k reading : KafkaClient V T Cert Mechanism) (w : W)
    (name : Text)
    → ((s : Text) → conversion.to_string (conversion.to_bytes s) ≡ s)
    → IsMap headers
    → ((writer : WriterConfig × Dialer Cert Mechanism)
        → k.writer ≡ some writer
        → writer.0.async ≡ false)
    → (publish broker runtime conversion done key value headers k w).0 ≡ ok tt
    → (message : Message) × (topic.messages
          (publish broker runtime conversion done key value headers k w).1.1
        ≡ topic.messages w ++ (message ∷ []))
      × (Messages.key conversion (received reading message) ≡ key)
      × (lookup name (header conversion (received reading message))
          ≡ found_or conversion (lookup name headers) none)
unfolding Messages.key received header lookup
publish-header topic runtime conversion done key value headers k reading w name exact distinct waits
      published =
    let (encoded, made, added) =
      publish-ok topic runtime conversion done key value headers k w waits published in
    (_, added, exact key, lookup-add_headers conversion exact name headers [] distinct)

-- The two ends made by `NewClient` with the data type json, the writing one not asynchronous: what is published without an error is read
-- back by `BodyAs`, if encoding/json reads back what it writes of the value. The value is neither a
-- `[]byte` nor a string, which are published as they are.
pub publish-body_as :
    {V T Cert Mechanism W : Type 0} {broker : Broker W Cert Mechanism} (topic : Topic broker)
    (security : Security Cert Mechanism) (runtime : Runtime V T) (conversion : Conversion)
    (done : Option Text) (key : Text) (value : V) (headers : List (Text × HeaderValue))
    (cfg cfg' : Config) {k reading : KafkaClient V T Cert Mechanism} (w : W) (target filled : T)
    → new_client security runtime cfg ≡ ok k
    → new_client security runtime cfg' ≡ ok reading
    → cfg.async ≡ false
    → cfg.data_type ≡ codes "json"
    → cfg'.data_type ≡ codes "json"
    → runtime.as_bytes value ≡ none
    → runtime.as_string value ≡ none
    → ((written : Bytes)
        → runtime.json_marshal value ≡ ok written
        → runtime.json_unmarshal written target ≡ ok filled)
    → (publish broker runtime conversion done key value headers k w).0 ≡ ok tt
    → (message : Message) × (topic.messages
          (publish broker runtime conversion done key value headers k w).1.1
        ≡ topic.messages w ++ (message ∷ []))
      × (body_as runtime (received reading message) target ≡ ok filled)
unfolding body_as received message_bytes json_serialize json_deserialize
publish-body_as topic security runtime conversion done key value headers cfg cfg' {k} {reading} w
      target filled made made' waits json json' structured plain codec published =
    let (encoder, _) = json_codecs security runtime cfg made json in
    let (_, decoder) = json_codecs security runtime cfg' made' json' in
    let (encoded, coded, added) =
      publish-ok topic runtime conversion done key value headers k w
        (λ writer has. writer_async security runtime cfg made has ∙ waits) published in
    let marshalled : runtime.json_marshal value ≡ ok encoded = ground arith in
    (_, added, rw (decoder, codec encoded marshalled) refl)
