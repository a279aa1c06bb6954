-- ===== src/Kafka/Client/Settings.antt =====
-- kafka/configs.go with the defaults of `NewClient`, and the settings that kafka/setup.go makes of a
-- configuration for kafka-go. Durations are nanoseconds.
use stdlib_lab.Prelude.{
  ℕ, Bool, List, [], Option, none, some, Result, ok, err, ℤ, pos, negsuc, int_eqb, Text, codes,
  text_eqb, if◌then◌else◌, not, ◌&&◌, ◌||◌,
}

pub record TlsConfig : Type 0 where
  pub enabled : Bool
  pub ca_cert_path : Text
  pub client_cert_path : Text
  pub client_key_path : Text
  pub insecure_skip_verify : Bool

pub record SaslConfig : Type 0 where
  pub enabled : Bool
  pub mechanism : Text
  pub username : Text
  pub password : Text

pub record Config : Type 0 where
  pub brokers : List Text
  pub topic : Text
  pub group_id : Text
  pub is_consumer : Bool
  pub min_bytes : ℤ
  pub max_bytes : ℤ
  pub max_wait : ℤ
  pub commit_interval : ℤ
  pub enable_auto_commit : Bool
  pub enable_auto_offset_store : Bool
  pub start_offset : ℤ
  pub partition : ℤ
  pub required_acks : ℤ
  pub write_timeout : ℤ
  pub async : Bool
  pub batch_size : ℤ
  pub batch_timeout : ℤ
  pub compression_codec : Text
  pub max_attempts : ℤ
  pub allow_auto_topic_creation : Bool
  pub tls : TlsConfig
  pub sasl : SaslConfig
  pub data_type : Text

abbrev or_default : ℤ → ℤ → ℤ
or_default value default = if int_eqb value (pos 0) then default else value

abbrev pub second : ℕ
second = 1000000000

-- The first part of `NewClient`.
unfoldable pub with_defaults : Config → Config
with_defaults cfg = record cfg {
  min_bytes = or_default cfg.min_bytes (pos 1);
  max_bytes = or_default cfg.max_bytes (pos 10000000);
  max_wait = or_default cfg.max_wait (pos 10000000000);
  commit_interval = or_default cfg.commit_interval (pos second);
  start_offset = or_default cfg.start_offset (negsuc 1);
  partition = or_default cfg.partition (negsuc 0);
  required_acks = or_default cfg.required_acks (negsuc 0);
  batch_size = or_default cfg.batch_size (pos 100);
  batch_timeout = or_default cfg.batch_timeout (pos second);
  max_attempts = or_default cfg.max_attempts (pos 10);
  write_timeout = or_default cfg.write_timeout (pos 10000000000);
}

-- What kafka-go's writer is made from, less the balancer, the dialer and the error logger. The batch
-- size and its timeout are zero, kafka-go's own default, unless the writer is asynchronous.
pub record WriterConfig : Type 0 where
  pub brokers : List Text
  pub topic : Text
  pub max_attempts : ℤ
  pub write_timeout : ℤ
  pub required_acks : ℤ
  pub async : Bool
  pub batch_size : ℤ
  pub batch_timeout : ℤ
  pub compression : Option Text

-- The four codecs; any other name means none.
abbrev compression_of : Text → Option Text
compression_of name =
    if text_eqb name (codes "gzip")
      || text_eqb name (codes "snappy")
      || text_eqb name (codes "lz4")
      || text_eqb name (codes "zstd")
    then some name
    else none

unfoldable pub create_writer : Config → WriterConfig
create_writer cfg = record {
  brokers = cfg.brokers;
  topic = cfg.topic;
  max_attempts = cfg.max_attempts;
  write_timeout = cfg.write_timeout;
  required_acks = cfg.required_acks;
  async = cfg.async;
  batch_size = if cfg.async then cfg.batch_size else pos 0;
  batch_timeout = if cfg.async then cfg.batch_timeout else pos 0;
  compression = compression_of cfg.compression_codec;
}

pub record ReaderConfig : Type 0 where
  pub brokers : List Text
  pub topic : Text
  pub group_id : Text
  pub min_bytes : ℤ
  pub max_bytes : ℤ
  pub max_wait : ℤ
  pub start_offset : ℤ
  pub commit_interval : ℤ
  pub partition : ℤ

unfoldable pub create_reader : Config → ReaderConfig
create_reader cfg = record {
  brokers = cfg.brokers;
  topic = cfg.topic;
  group_id = cfg.group_id;
  min_bytes = cfg.min_bytes;
  max_bytes = cfg.max_bytes;
  max_wait = cfg.max_wait;
  start_offset = cfg.start_offset;
  commit_interval = if cfg.enable_auto_commit then cfg.commit_interval else pos 0;
  partition = if int_eqb cfg.partition (negsuc 0) then pos 0 else cfg.partition;
}

-- The files, the certificates and the mechanisms of other packages. `Cert` is a key pair.
pub record Security (Cert Mechanism : Type 0) : Type 0 where
  pub read_file : Text → Result Text Text
  pub append_certs_from_pem : Text → Bool
  pub load_x509_key_pair : Text → Text → Result Text Cert
  pub plain : Text → Text → Mechanism
  pub scram : Text → Text → Text → Result Text Mechanism

pub record TlsSettings (Cert : Type 0) : Type 0 where
  pub insecure_skip_verify : Bool
  pub root_cas : Option Text
  pub certificate : Option Cert

pub data SecurityError : Type 0 where
  ca_unreadable cert_unloadable mechanism_failed unsupported_mechanism : Text → SecurityError
  ca_unparsable : SecurityError

module _ {Cert Mechanism : Type 0} (security : Security Cert Mechanism) where
  unfoldable pub load_root_cas : Text → Result SecurityError (Option Text)
  load_root_cas path = if text_eqb path [] then ok none else elim (security.read_file path) [
    | err e ↦ err (ca_unreadable e)
    | ok pem ↦ if security.append_certs_from_pem pem then ok (some pem) else err ca_unparsable
  ]

  unfoldable pub load_certificate : Text → Text → Result SecurityError (Option Cert)
  load_certificate cert_path key_path =
      if not (text_eqb cert_path []) && not (text_eqb key_path [])
      then elim (security.load_x509_key_pair cert_path key_path) [
        | err e ↦ err (cert_unloadable e)
        | ok cert ↦ ok (some cert)
      ]
      else ok none

  unfoldable pub create_tls_config : TlsConfig → Result SecurityError (TlsSettings Cert)
  create_tls_config cfg = elim (load_root_cas cfg.ca_cert_path) [
    | err e ↦ err e
    | ok roots ↦ elim (load_certificate cfg.client_cert_path cfg.client_key_path) [
      | err e ↦ err e
      | ok cert ↦ ok (record {
        insecure_skip_verify = cfg.insecure_skip_verify;
        root_cas = roots;
        certificate = cert;
      })
    ]
  ]

  abbrev made : Result Text Mechanism → Result SecurityError Mechanism
  made (ok m) = ok m
  made (err e) = err (mechanism_failed e)

  unfoldable pub create_sasl_mechanism : SaslConfig → Result SecurityError Mechanism
  create_sasl_mechanism cfg =
      if text_eqb cfg.mechanism (codes "PLAIN")
      then ok (security.plain cfg.username cfg.password)
      else if text_eqb cfg.mechanism (codes "SCRAM-SHA-256")
          || text_eqb cfg.mechanism (codes "SCRAM-SHA-512")
      then made (security.scram cfg.mechanism cfg.username cfg.password)
      else err (unsupported_mechanism cfg.mechanism)
