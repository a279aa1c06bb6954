-- ===== src/Kafka/Errors.antt =====
-- kafka/errors.go: `TranslateError` and the predicates on errors. A leaf of an error is a sentinel of
-- this package or any other error with its text.
pub mod Sentinels
pub mod Messages
pub mod Laws
use stdlib_lab.Prelude.{
  Bool, true, false, ◌||◌, List, [], ◌∷◌, Option, none, some, Text, any, to_lower,
}
use stdlib_lab.GoError.{GoError, leaf, is_error, error_text}
use stdlib_lab.Kafka.Errors.Messages.{translate_by_error_message}
use stdlib_lab.Kafka.Errors.Sentinels.{
  KafkaError, same, sentinel_text, authentication_failed, authorization_failed,
  broker_not_available, connection_failed, connection_lost, context_canceled,
  group_coordinator_not_available, invalid_config, invalid_credentials, invalid_group_id,
  invalid_message, invalid_partition, invalid_request, leader_not_available, network_error,
  not_group_coordinator, not_leader_for_partition, partition_not_found, rebalance_in_progress,
  replica_not_available, request_timed_out, topic_already_exists, topic_not_found,
  unsupported_version,
}

pub data Leaf : Type 0 where
  sentinel : KafkaError → Leaf
  other : Text → Leaf

abbrev pub leaf_text : Leaf → Text
leaf_text (sentinel s) = sentinel_text s
leaf_text (other text) = text

-- `errors.Is(err, s)` for a sentinel `s` of the package.
leaf_is : KafkaError → Leaf → Bool
unfolding same
leaf_is s (sentinel t) = same s t
leaf_is s (other text) = false

unfoldable pub is_sentinel : GoError Leaf → KafkaError → Bool
unfolding leaf_is
is_sentinel err s = is_error (leaf_is s) err

unfoldable pub translate_present : GoError Leaf → GoError Leaf
translate_present err = elim (translate_by_error_message (to_lower (error_text leaf_text err))) [
  | some s ↦ leaf (sentinel s)
  | none ↦ err
]

unfoldable pub translate_error : Option (GoError Leaf) → Option (GoError Leaf)
unfolding translate_present
translate_error none = none
translate_error (some err) = some (translate_present err)

unfoldable pub retryable_errors : List KafkaError
retryable_errors =
    connection_failed ∷ connection_lost ∷ broker_not_available ∷ replica_not_available
    ∷ leader_not_available ∷ not_leader_for_partition ∷ request_timed_out ∷ network_error
    ∷ group_coordinator_not_available ∷ not_group_coordinator ∷ rebalance_in_progress ∷ []

unfoldable pub is_retryable_error : GoError Leaf → Bool
unfolding retryable_errors
is_retryable_error err = any (is_sentinel err) retryable_errors

unfoldable pub is_temporary_error : GoError Leaf → Bool
is_temporary_error err =
    is_retryable_error err
    || is_sentinel err rebalance_in_progress
    || is_sentinel err leader_not_available

unfoldable pub permanent_errors : List KafkaError
permanent_errors =
    authentication_failed ∷ authorization_failed ∷ invalid_credentials ∷ topic_not_found
    ∷ topic_already_exists ∷ partition_not_found ∷ invalid_partition ∷ invalid_group_id
    ∷ invalid_message ∷ invalid_request ∷ invalid_config ∷ unsupported_version ∷ context_canceled
    ∷ []

unfoldable pub is_permanent_error : GoError Leaf → Bool
unfolding permanent_errors
is_permanent_error err = any (is_sentinel err) permanent_errors

unfoldable pub authentication_errors : List KafkaError
authentication_errors = authentication_failed ∷ authorization_failed ∷ invalid_credentials ∷ []

unfoldable pub is_authentication_error : GoError Leaf → Bool
unfolding authentication_errors
is_authentication_error err = any (is_sentinel err) authentication_errors
