-- ===== src/Kafka/Client.antt =====
-- The Kafka client: `KafkaClient` and `NewClient` of kafka/setup.go, `SetDefaultSerializers` of
-- kafka/serializer.go, `observeOperation` of kafka/observer.go and `Publish` of kafka/utils.go. The
-- locks are left out, since a method is one step, and so is the logger. kafka-go's writers and readers
-- are what they are made from, and what a writer does is the record Broker.
pub mod Settings
pub mod Messages
pub mod Starts
pub mod Publishing
pub mod RoundTrip
use stdlib_lab.Prelude.{
  ℕ, Bool, true, false, List, [], ◌∷◌, ◌++◌, map, Option, none, some, Result, ok, err, map_err,
  Text, codes, length, if◌then◌else◌, ◌≡◌,
}
use stdlib_lab.Kafka.Serializers.{
  Bytes, Runtime, CodecError, Serializer, Deserializer, get_default_serializer,
  get_default_deserializer,
}
use stdlib_lab.Kafka.Client.Settings.{
  TlsConfig, SaslConfig, Config, with_defaults, WriterConfig, create_writer, ReaderConfig,
  create_reader, Security, TlsSettings, SecurityError, create_tls_config, create_sasl_mechanism,
}

-- The `[]byte` of a string and the string of a `[]byte`, for Text is a list of code points.
pub record Conversion : Type 0 where
  pub to_bytes : Text → Bytes
  pub to_string : Bytes → Text

-- kafka-go's message as it is written, each header with its key.
pub record Message : Type 0 where
  pub key : Bytes
  pub value : Bytes
  pub headers : List (Text × Bytes)

-- A value of the map of headers, as the switch on its type tells them apart. `other` is what
-- `fmt.Sprintf("%v", val)` makes of it.
pub data HeaderValue : Type 0 where
  string other : Text → HeaderValue
  bytes : Bytes → HeaderValue

pub data PublishError : Type 0 where
  context_done write_failed : Text → PublishError
  writer_not_initialized no_serializer : PublishError
  serialize_failed : CodecError → PublishError

-- `observability.OperationContext`, less the duration.
pub record Operation : Type 0 where
  pub component : Text
  pub operation : Text
  pub resource : Text
  pub sub_resource : Text
  pub error : Option PublishError
  pub size : ℕ

pub record Dialer (Cert Mechanism : Type 0) : Type 0 where
  pub tls : Option (TlsSettings Cert)
  pub sasl_mechanism : Option Mechanism

-- An observer is the operations it has been shown, the latest first.
pub record KafkaClient (V T Cert Mechanism : Type 0) : Type 0 where
  pub cfg : Config
  pub observer : Option (List Operation)
  pub writer : Option (WriterConfig × Dialer Cert Mechanism)
  pub reader : Option (ReaderConfig × Dialer Cert Mechanism)
  pub serializer : Option (Serializer V)
  pub deserializer : Option (Deserializer T)

-- What kafka-go's writer does with the world `W`.
pub record Broker (W Cert Mechanism : Type 0) : Type 0 where
  pub write_messages :
      WriterConfig × Dialer Cert Mechanism → Message → W → Result Text (Unit {0}) × W

-- `publishErr` and `msgSize` are what the deferred function of `Publish` reads.
pub record Attempt (W : Type 0) : Type 0 where
  pub returned : Result PublishError (Unit {0})
  pub publish_err : Option PublishError
  pub msg_size : ℕ
  pub world : W

abbrev or_else : {A : Type 0} → Option A → Option A → Option A
or_else (some a) b = some a
or_else none b = b

abbrev optional : {A : Type 0} → Bool → Result SecurityError A → Result SecurityError (Option A)
optional false made = ok none
optional true (ok a) = ok (some a)
optional true (err e) = err e

-- The TLS settings and the mechanism, each if it is enabled.
unfoldable pub create_dialer :
    {Cert Mechanism : Type 0}
    → Security Cert Mechanism
    → Config
    → Result SecurityError (Dialer Cert Mechanism)
create_dialer security cfg = elim (optional cfg.tls.enabled (create_tls_config security cfg.tls)) [
  | err e ↦ err e
  | ok tls ↦ elim (optional cfg.sasl.enabled (create_sasl_mechanism security cfg.sasl)) [
    | err e ↦ err e
    | ok mechanism ↦ ok (record { tls = tls; sasl_mechanism = mechanism })
  ]
]

abbrev pub error_of : {A : Type 0} → Result PublishError A → Option PublishError
error_of (ok a) = none
error_of (err e) = some e

abbrev pub header_bytes : Conversion → HeaderValue → Bytes
header_bytes conversion (string s) = conversion.to_bytes s
header_bytes conversion (other s) = conversion.to_bytes s
header_bytes conversion (bytes b) = conversion.to_bytes (conversion.to_string b)

abbrev pub kafka_headers : Conversion → List (Text × HeaderValue) → List (Text × Bytes)
kafka_headers conversion [] = []
kafka_headers conversion ((k, v) ∷ rest) =
    (k, header_bytes conversion v) ∷ kafka_headers conversion rest

module _ {V T Cert Mechanism : Type 0} where
  unfoldable pub with_observer :
      List Operation → KafkaClient V T Cert Mechanism → KafkaClient V T Cert Mechanism
  with_observer observer k = record k { observer = some observer }

  unfoldable pub set_serializer :
      Option (Serializer V) → KafkaClient V T Cert Mechanism → KafkaClient V T Cert Mechanism
  set_serializer s k = record k { serializer = s }

  unfoldable pub set_deserializer :
      Option (Deserializer T) → KafkaClient V T Cert Mechanism → KafkaClient V T Cert Mechanism
  set_deserializer d k = record k { deserializer = d }

  unfoldable pub set_default_serializers :
      Runtime V T → KafkaClient V T Cert Mechanism → KafkaClient V T Cert Mechanism
  set_default_serializers runtime k = record k {
    serializer = or_else k.serializer (get_default_serializer runtime k.cfg.data_type);
    deserializer = or_else k.deserializer (get_default_deserializer runtime k.cfg.data_type);
  }

  unfoldable pub new_client :
      Security Cert Mechanism
      → Runtime V T
      → Config
      → Result SecurityError (KafkaClient V T Cert Mechanism)
  new_client security runtime given =
      let cfg = with_defaults given in
      elim (create_dialer security cfg) [
        | err e ↦ err e
        | ok dialer ↦ ok (
            set_default_serializers runtime (record {
              cfg = cfg;
              observer = none;
              writer = if cfg.is_consumer then none else some (create_writer cfg, dialer);
              reader = if cfg.is_consumer then some (create_reader cfg, dialer) else none;
              serializer = none;
              deserializer = none;
            }))
      ]

  unfoldable pub observe_operation :
      Operation → KafkaClient V T Cert Mechanism → KafkaClient V T Cert Mechanism
  observe_operation op k = elim k.observer [
    | none ↦ k
    | some shown ↦ record k { observer = some (op ∷ shown) }
  ]

  unfoldable pub message_bytes :
      Runtime V T → V → KafkaClient V T Cert Mechanism → Result PublishError Bytes
  message_bytes runtime value k = elim (runtime.as_bytes value) [
    | some given ↦ ok given
    | none ↦ elim k.serializer [
      | some s ↦ map_err serialize_failed (s value)
      | none ↦ err no_serializer
    ]
  ]

module _ {V T Cert Mechanism W : Type 0} (broker : Broker W Cert Mechanism) (runtime : Runtime V T)
    (conversion : Conversion) where
  -- The body of `Publish`: what it returns, and the variables `publishErr` and `msgSize` as they are
  -- then. The headers are the first of the variadic argument, in the order that the map is gone through.
  unfoldable pub attempt :
      Option Text
      → Text
      → V
      → List (Text × HeaderValue)
      → KafkaClient V T Cert Mechanism
      → W
      → Attempt W
  attempt done key value headers k w = elim done [
    | some e ↦ record {
      returned = err (context_done e);
      publish_err = some (context_done e);
      msg_size = 0;
      world = w;
    }
    | none ↦ elim k.writer [
      | none ↦ record {
        returned = err writer_not_initialized;
        publish_err = some writer_not_initialized;
        msg_size = 0;
        world = w;
      }
      | some writer ↦ elim (message_bytes runtime value k) [
        | err e ↦ record { returned = err e; publish_err = some e; msg_size = 0; world = w }
        | ok encoded ↦
            let message : Message = record {
              key = conversion.to_bytes key;
              value = encoded;
              headers = kafka_headers conversion headers;
            } in
            let (written, w') = broker.write_messages writer message w in
            elim written [
              | err e ↦ record {
                returned = err (write_failed e);
                publish_err = some (write_failed e);
                msg_size = length encoded;
                world = w';
              }
              | ok done_well ↦ record {
                returned = ok tt;
                publish_err = none;
                msg_size = length encoded;
                world = w';
              }
            ]
      ]
    ]
  ]

  -- The deferred function shows the observer the two variables.
  unfoldable pub publish :
      Option Text
      → Text
      → V
      → List (Text × HeaderValue)
      → KafkaClient V T Cert Mechanism
      → W
      → Result PublishError (Unit {0}) × (KafkaClient V T Cert Mechanism × W)
  publish done key value headers k w =
      let a = attempt done key value headers k w in
      (
        a.returned,
        (
          observe_operation
              (record {
                component = codes "kafka";
                operation = codes "produce";
                resource = k.cfg.topic;
                sub_resource = [];
                error = a.publish_err;
                size = a.msg_size;
              })
              k,
          a.world,
        ),
      )
