-- ===== src/Kafka/Client/Publishing.antt =====
-- What `Publish` does to the broker and what the observer is shown of it.
use stdlib_lab.Prelude.{
  ℕ, Result, Bool, true, false, Option-cases, none, List, [], ◌∷◌, Option, some, ok, err, Text,
  codes, length, ◌≡◌, ◌≢◌, refl, arith, Result-cases, inl, inr, ◌⊎◌,
}
use mathlib.Core.Path.{subst}
use stdlib_lab.Kafka.Serializers.{Bytes, Runtime}
use stdlib_lab.Kafka.Client.{
  Conversion, Message, kafka_headers, HeaderValue, PublishError, context_done,
  writer_not_initialized, no_serializer, serialize_failed, write_failed, Operation, KafkaClient,
  Broker, Attempt, attempt, observe_operation, message_bytes, publish, error_of,
}

-- The error of a message that was not given to the writer.
abbrev pub is_unsent : Option PublishError → Bool
is_unsent none = false
is_unsent (some (write_failed reason)) = false
is_unsent (some e) = true

module _ {V T Cert Mechanism W : Type 0} (broker : Broker W Cert Mechanism) (runtime : Runtime V T)
    (conversion : Conversion) (done : Option Text) (key : Text) (value : V)
    (headers : List (Text × HeaderValue)) (k : KafkaClient V T Cert Mechanism) (w : W) where
  message_bytes-unsent :
      {e : PublishError} → message_bytes runtime value k ≡ err e → is_unsent (some e) ≡ true
  unfolding message_bytes
  message_bytes-unsent {e = write_failed reason} h = absurd (ground arith)
  message_bytes-unsent {e = context_done reason} h = refl
  message_bytes-unsent {e = writer_not_initialized} h = refl
  message_bytes-unsent {e = no_serializer} h = refl
  message_bytes-unsent {e = serialize_failed reason} h = refl

  -- The size goes with the error: that of the encoded data once the message is given to the writer.
  abbrev pub Sized : Option PublishError → ℕ → Type 0
  Sized e size =
      ((is_unsent e ≡ true) × (size ≡ 0))
      ⊎ ((is_unsent e ≡ false)
          × (encoded : Bytes) × (message_bytes runtime value k ≡ ok encoded)
          × (size ≡ length encoded))

  -- The two variables go with what is returned.
  abbrev Tracks : Attempt W → Type 0
  Tracks a = (a.publish_err ≡ error_of a.returned) × Sized (error_of a.returned) a.msg_size

  abbrev ended : Result PublishError (Unit {0}) → Option PublishError → ℕ → W → Attempt W
  ended returned publish_err msg_size world = record {
    returned = returned;
    publish_err = publish_err;
    msg_size = msg_size;
    world = world;
  }

  attempt-Tracks : Tracks (attempt broker runtime conversion done key value headers k w)
  unfolding attempt
  attempt-Tracks = elim (Option-cases done) [
    | inr (e, stopped) ↦
        let out : ended (err (context_done e)) (some (context_done e)) 0 w
            ≡ attempt broker runtime conversion done key value headers k w =
          ground arith in
        subst Tracks out (refl, inl (refl, refl))
    | inl going ↦ elim (Option-cases k.writer) [
      | inl missing ↦
          let out : ended (err writer_not_initialized) (some writer_not_initialized) 0 w
              ≡ attempt broker runtime conversion done key value headers k w =
            ground arith in
          subst Tracks out (refl, inl (refl, refl))
      | inr (writer, has) ↦ elim (Result-cases (message_bytes runtime value k)) [
        | inl (e, failed) ↦
            let out : ended (err e) (some e) 0 w
                ≡ attempt broker runtime conversion done key value headers k w =
              ground arith in
            subst Tracks out (refl, inl (message_bytes-unsent failed, refl))
        | inr (encoded, made) ↦
            let message : Message = record {
              key = conversion.to_bytes key;
              value = encoded;
              headers = kafka_headers conversion headers;
            } in
            let after = (broker.write_messages writer message w).1 in
            elim (Result-cases (broker.write_messages writer message w).0) [
              | inl (e, failed) ↦
                  let out : ended (err (write_failed e)) (some (write_failed e)) (length encoded)
                        after
                      ≡ attempt broker runtime conversion done key value headers k w =
                    ground arith in
                  subst Tracks out (refl, inr (refl, encoded, made, refl))
              | inr (unit, written) ↦
                  let out : ended (ok tt) none (length encoded) after
                      ≡ attempt broker runtime conversion done key value headers k w =
                    ground arith in
                  subst Tracks out (refl, inr (refl, encoded, made, refl))
            ]
      ]
    ]
  ]

  -- Whatever happens, an observer is shown one operation more, which carries the error that is
  -- returned; its size is the number of bytes that the data encodes to if the message was given to the
  -- writer, whether that failed or not, and 0 if not; the client is otherwise as it was.
  pub publish-observed :
      {shown : List Operation}
      → k.observer ≡ some shown
      → let result = publish broker runtime conversion done key value headers k w in
        (op : Operation) × (result.1.0 ≡ record k { observer = some (op ∷ shown) })
        × (op.error ≡ error_of result.0)
        × (op.resource ≡ k.cfg.topic)
        × Sized (error_of result.0) op.size
  unfolding publish observe_operation
  publish-observed watched =
      let a = attempt broker runtime conversion done key value headers k w in
      let (same, size) = attempt-Tracks in
      (
        record {
          component = codes "kafka";
          operation = codes "produce";
          resource = k.cfg.topic;
          sub_resource = [];
          error = a.publish_err;
          size = a.msg_size;
        },
        cc watched,
        same,
        refl,
        size,
      )

  -- An error that is not the broker's leaves the broker as it was.
  pub publish-unsent :
      {e : PublishError}
      → (publish broker runtime conversion done key value headers k w).0 ≡ err e
      → ((reason : Text) → e ≢ write_failed reason)
      → (publish broker runtime conversion done key value headers k w).1.1 ≡ w
  unfolding publish attempt
  publish-unsent {e = write_failed reason} failed own = absurd (own reason refl)
  publish-unsent {e = context_done reason} failed own = ground arith
  publish-unsent {e = writer_not_initialized} failed own = ground arith
  publish-unsent {e = no_serializer} failed own = ground arith
  publish-unsent {e = serialize_failed reason} failed own = ground arith
