-- ===== src/Kafka/Client/Messages.antt =====
-- What a consumer reads of a message: the methods of `ConsumerMessage` in kafka/utils.go that do not
-- go to the broker, and `Deserialize` of the client. `CommitMsg`, which only calls the reader, and the
-- partition and the offset, which kafka-go sets, are left out.
use stdlib_lab.Prelude.{List, [], ◌∷◌, Option, none, some, Result, Text, insert, text_key}
use stdlib_lab.Kafka.Serializers.{Bytes, Runtime, CodecError, Deserializer, json_deserialize}
use stdlib_lab.Kafka.Client.{Conversion, Message, KafkaClient}

pub record ConsumerMessage (T : Type 0) : Type 0 where
  pub message : Message
  pub deserializer : Option (Deserializer T)

-- What `consumeWorker` sends for a message that it has fetched.
unfoldable pub received :
    {V T Cert Mechanism : Type 0} → KafkaClient V T Cert Mechanism → Message → ConsumerMessage T
received k m = record { message = m; deserializer = k.deserializer }

module _ {V T : Type 0} (runtime : Runtime V T) where
  abbrev or_json : Option (Deserializer T) → Deserializer T
  or_json none = json_deserialize runtime
  or_json (some d) = d

  unfoldable pub body_as : ConsumerMessage T → T → Result CodecError T
  body_as cm target = or_json cm.deserializer cm.message.value target

  unfoldable pub deserialize :
      {Cert Mechanism : Type 0}
      → KafkaClient V T Cert Mechanism
      → ConsumerMessage T
      → T
      → Result CodecError T
  deserialize k cm target = or_json k.deserializer cm.message.value target

unfoldable pub key : {T : Type 0} → Conversion → ConsumerMessage T → Text
key conversion cm = conversion.to_string cm.message.key

abbrev pub add_headers : Conversion → List (Text × Bytes) → List (Text × Text) → List (Text × Text)
add_headers conversion [] made = made
add_headers conversion ((k, v) ∷ rest) made =
    add_headers conversion rest (insert k (conversion.to_string v) made)

unfoldable pub header : {T : Type 0} → Conversion → ConsumerMessage T → List (Text × Text)
header conversion cm = add_headers conversion cm.message.headers []
