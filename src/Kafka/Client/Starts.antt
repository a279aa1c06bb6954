-- ===== src/Kafka/Client/Starts.antt =====
-- The client that `NewClient` makes.
use stdlib_lab.Prelude.{
  true, List, Option, none, some, ok, err, pos, Text, codes, if◌then◌else◌, ◌≡◌, ◌≢◌, refl, arith,
  Result-cases, inl, inr, ap, ◌∙◌,
}
use stdlib_lab.Kafka.Serializers.{
  Runtime, get_default_serializer, get_default_deserializer, json_serialize, json_deserialize,
}
use stdlib_lab.Kafka.Client.Settings.{
  Config, TlsSettings, with_defaults, create_tls_config, create_writer, create_reader, Security,
  WriterConfig,
}
use stdlib_lab.Kafka.Client.{
  Conversion, HeaderValue, writer_not_initialized, KafkaClient, Broker, set_default_serializers,
  new_client, create_dialer, Dialer, attempt, publish,
}

-- A client as `NewClient` leaves it for a dialer.
abbrev client_with :
    {V T Cert Mechanism : Type 0}
    → Runtime V T
    → Config
    → Dialer Cert Mechanism
    → KafkaClient V T Cert Mechanism
client_with runtime cfg dialer =
    let full = with_defaults cfg in
    record {
      cfg = full;
      observer = none;
      writer = if full.is_consumer then none else some (create_writer full, dialer);
      reader = if full.is_consumer then some (create_reader full, dialer) else none;
      serializer = get_default_serializer runtime full.data_type;
      deserializer = get_default_deserializer runtime full.data_type;
    }

-- The dialer of a client's writer or else of its reader.
abbrev pub dialer_of :
    {V T Cert Mechanism : Type 0} → KafkaClient V T Cert Mechanism → Option (Dialer Cert Mechanism)
dialer_of k = elim k.writer [
  | some w ↦ some w.1
  | none ↦ elim k.reader [ some r ↦ some r.1 | none ↦ none ]
]

module _ {V T Cert Mechanism : Type 0} (security : Security Cert Mechanism) (runtime : Runtime V T)
    (cfg : Config) {k : KafkaClient V T Cert Mechanism} where
  pub new_client-ok :
      new_client security runtime cfg ≡ ok k
      → (dialer : Dialer Cert Mechanism) × (create_dialer security (with_defaults cfg) ≡ ok dialer)
        × (k ≡ client_with runtime cfg dialer)
  unfolding new_client set_default_serializers
  new_client-ok made = elim (Result-cases (create_dialer security (with_defaults cfg))) [
    | inl (e, failed) ↦ ground arith
    | inr (dialer, dialed) ↦ (dialer, dialed, cc)
  ]

  pub json_codecs :
      new_client security runtime cfg ≡ ok k
      → cfg.data_type ≡ codes "json"
      → (k.serializer ≡ some (json_serialize runtime))
        × (k.deserializer ≡ some (json_deserialize runtime))
  unfolding with_defaults get_default_serializer get_default_deserializer
  json_codecs made json =
      let (dialer, dialed, e) = new_client-ok made in
      (ap (λ k. k.serializer) e ∙ rw json refl, ap (λ k. k.deserializer) e ∙ rw json refl)

  pub writer_async :
      {w : WriterConfig × Dialer Cert Mechanism}
      → new_client security runtime cfg ≡ ok k
      → k.writer ≡ some w
      → w.0.async ≡ cfg.async
  unfolding with_defaults create_writer
  writer_async made has = let (dialer, dialed, e) = new_client-ok made in ground arith

  -- The writer of a client that `NewClient` returns never has zero acknowledgments required, whatever
  -- the configuration asks for.
  pub acks_required :
      {w : WriterConfig × Dialer Cert Mechanism}
      → new_client security runtime cfg ≡ ok k
      → k.writer ≡ some w
      → w.0.required_acks ≢ pos 0
  unfolding with_defaults create_writer
  acks_required made has none_asked = let (dialer, dialed, e) = new_client-ok made in ground arith

  -- A client of a configuration with TLS enabled has the TLS settings of that configuration in its
  -- dialer, whether it writes or reads.
  pub tls_kept :
      {d : Dialer Cert Mechanism}
      → new_client security runtime cfg ≡ ok k
      → cfg.tls.enabled ≡ true
      → dialer_of k ≡ some d
      → (settings : TlsSettings Cert) × (create_tls_config security cfg.tls ≡ ok settings)
        × (d.tls ≡ some settings)
  unfolding with_defaults create_dialer
  tls_kept made enabled has = let (dialer, dialed, e) = new_client-ok made in ground arith

  -- A client made for consuming publishes nothing: whatever it is given, the result is the error that
  -- the writer is not initialized, and the broker is left as it was.
  pub consumer_never_publishes :
      {W : Type 0} (broker : Broker W Cert Mechanism) (conversion : Conversion) (key : Text)
      (value : V) (headers : List (Text × HeaderValue)) (w : W)
      → new_client security runtime cfg ≡ ok k
      → cfg.is_consumer ≡ true
      → let result = publish broker runtime conversion none key value headers k w in
        (result.0 ≡ err writer_not_initialized) × (result.1.1 ≡ w)
  unfolding publish attempt with_defaults
  consumer_never_publishes broker conversion key value headers w made consumes =
      let (dialer, dialed, e) = new_client-ok made in ground arith
