-- ===== src/Kafka/Examples/Clients.antt =====
-- A producer and a consumer of numbers, over a topic that is the list of its messages.
use stdlib_lab.Prelude.{
  true, false, List, [], ◌∷◌, ◌++◌, none, some, ok, pos, Text, codes, text_key, ◌≡◌, refl,
}
use stdlib_lab.Kafka.Serializers.{
  Bytes, get_default_serializer, get_default_deserializer, json_serialize,
}
use stdlib_lab.Kafka.Examples.Serializing.{Value, number, numbers}
use stdlib_lab.Kafka.Client.Settings.{
  Config, with_defaults, create_writer, create_reader, Security, TlsSettings, create_tls_config,
  load_root_cas, load_certificate,
}
use stdlib_lab.Kafka.Client.{
  Conversion, Message, HeaderValue, string, bytes, Operation, Dialer, KafkaClient, Broker,
  set_default_serializers, create_dialer, new_client, message_bytes, attempt, publish, error_of,
}
use stdlib_lab.Kafka.Client.Messages.{received, body_as}
use stdlib_lab.Kafka.Client.Starts.{tls_kept}
use stdlib_lab.Kafka.Client.Publishing.{Sized, publish-observed}
use stdlib_lab.Kafka.Client.RoundTrip.{Topic, publish-body_as}

abbrev security : Security Text Text
security = record {
  read_file = λ path. ok path;
  append_certs_from_pem = λ pem. true;
  load_x509_key_pair = λ cert key. ok cert;
  plain = λ user password. user;
  scram = λ mechanism user password. ok user;
}

abbrev asked : Config
asked = record {
  brokers = codes "b:9092" ∷ [];
  topic = codes "t";
  group_id = [];
  is_consumer = false;
  min_bytes = pos 0;
  max_bytes = pos 0;
  max_wait = pos 0;
  commit_interval = pos 0;
  enable_auto_commit = false;
  enable_auto_offset_store = false;
  start_offset = pos 0;
  partition = pos 0;
  required_acks = pos 0;
  write_timeout = pos 0;
  async = false;
  batch_size = pos 0;
  batch_timeout = pos 0;
  compression_codec = [];
  max_attempts = pos 0;
  allow_auto_topic_creation = false;
  tls = record {
    enabled = true;
    ca_cert_path = codes "ca";
    client_cert_path = [];
    client_key_path = [];
    insecure_skip_verify = false;
  };
  sasl = record { enabled = false; mechanism = []; username = []; password = [] };
  data_type = codes "json";
}

abbrev consuming : Config
consuming = record asked { is_consumer = true }

abbrev settings : TlsSettings Text
settings = record { insecure_skip_verify = false; root_cas = some (codes "ca"); certificate = none }

abbrev dialer : Dialer Text Text
dialer = record { tls = some settings; sasl_mechanism = none }

abbrev producer : KafkaClient Value Value Text Text
producer = record {
  cfg = with_defaults asked;
  observer = none;
  writer = some (create_writer (with_defaults asked), dialer);
  reader = none;
  serializer = get_default_serializer numbers (codes "json");
  deserializer = get_default_deserializer numbers (codes "json");
}

abbrev consumer : KafkaClient Value Value Text Text
consumer = record producer {
  cfg = with_defaults consuming;
  writer = none;
  reader = some (create_reader (with_defaults consuming), dialer);
}

producer_made : new_client security numbers asked ≡ ok producer
unfolding new_client create_dialer create_tls_config load_root_cas load_certificate with_defaults
    set_default_serializers get_default_serializer get_default_deserializer
producer_made = refl

consumer_made : new_client security numbers consuming ≡ ok consumer
unfolding new_client create_dialer create_tls_config load_root_cas load_certificate with_defaults
    set_default_serializers get_default_serializer get_default_deserializer
consumer_made = refl

tls_kept_example :
    (made : TlsSettings Text) × (create_tls_config security asked.tls ≡ ok made)
    × (dialer.tls ≡ some made)
tls_kept_example = tls_kept security numbers asked producer_made refl refl

-- A topic that takes every message, and strings that are their own bytes.
abbrev broker : Broker (List Message) Text Text
broker = record { write_messages = λ writer m w. (ok tt, w ++ (m ∷ [])) }

abbrev topic : Topic broker
topic = record { messages = λ w. w; written = λ writer m w waits h. refl }

abbrev plainly : Conversion
plainly = record { to_bytes = λ s. s; to_string = λ b. b }

abbrev watched : KafkaClient Value Value Text Text
watched = record producer { observer = some [] }

publish-observed_example :
    let result = publish broker numbers plainly none (codes "k") (number 5) [] watched [] in
    (op : Operation) × (result.1.0 ≡ record watched { observer = some (op ∷ []) })
    × (op.error ≡ error_of result.0)
    × (op.resource ≡ watched.cfg.topic)
    × Sized broker numbers plainly none
        (codes "k")
        (number 5)
        []
        watched
        []
        (error_of result.0)
        op.size
publish-observed_example =
    publish-observed broker numbers plainly none (codes "k") (number 5) [] watched [] refl

abbrev traced : List (Text × HeaderValue)
traced = (codes "trace", string (codes "abc")) ∷ (codes "raw", bytes (1 ∷ [])) ∷ []

published :
    (publish broker numbers plainly none (codes "k") (number 5) traced producer []).0 ≡ ok tt
unfolding publish attempt message_bytes get_default_serializer json_serialize
published = refl

read_back :
    (written : Bytes)
    → numbers.json_marshal (number 5) ≡ ok written
    → numbers.json_unmarshal written (number 0) ≡ ok (number 5)
read_back [] h = cc
read_back (n ∷ []) h = cc
read_back (n ∷ m ∷ rest) h = cc

publish-body_as_example :
    (message : Message) × ((publish broker numbers plainly none
        (codes "k")
        (number 5)
        traced
        producer
        []).1.1
      ≡ [] ++ (message ∷ []))
    × (body_as numbers (received consumer message) (number 0) ≡ ok (number 5))
publish-body_as_example =
    publish-body_as topic security numbers plainly none (codes "k") (number 5) traced asked
      consuming [] (number 0) (number 5) producer_made consumer_made refl refl refl refl refl
      read_back published
