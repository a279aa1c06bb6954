-- ===== src/Kafka/Errors/Messages.antt =====
-- kafka/errors.go, `translateByErrorMessage`: the cases in order. A case with several texts wants
-- all of them in the message.
use stdlib_lab.Prelude.{List, [], ◌∷◌, Option, Text, codes}
use stdlib_lab.GoError.Switch.{switch_contains}
use stdlib_lab.Kafka.Errors.Sentinels.{
  KafkaError, authentication_failed, authorization_failed, broker_not_available, connection_failed,
  connection_lost, context_canceled, context_deadline_exceeded, duplicate_sequence,
  group_coordinator_not_available, invalid_commit_offset, invalid_config, invalid_credentials,
  invalid_group_id, invalid_message, invalid_message_size, invalid_partition,
  invalid_producer_epoch, invalid_replication_factor, invalid_request, invalid_session_timeout,
  invalid_transaction_state, invalid_txn_state, leader_not_available, message_too_large,
  network_error, not_group_coordinator, not_leader_for_partition, offset_out_of_range,
  out_of_order_sequence, partition_not_found, producer_fenced, rebalance_in_progress,
  replica_not_available, request_timed_out, topic_already_exists, topic_not_found,
  transaction_coordinator_fenced, unknown_member_id, unsupported_for_message_format,
  unsupported_version,
}

unfoldable pub message_cases : List (List Text × KafkaError)
message_cases =
    (codes "connection refused" ∷ [], connection_failed)
    ∷ (codes "connection reset" ∷ [], connection_lost)
    ∷ (codes "connection closed" ∷ [], connection_lost)
    ∷ (codes "broker not available" ∷ [], broker_not_available)
    ∷ (codes "replica not available" ∷ [], replica_not_available)
    ∷ (codes "authentication failed" ∷ [], authentication_failed)
    ∷ (codes "sasl authentication failed" ∷ [], authentication_failed)
    ∷ (codes "authorization failed" ∷ [], authorization_failed)
    ∷ (codes "invalid credentials" ∷ [], invalid_credentials)
    ∷ (codes "topic not found" ∷ [], topic_not_found)
    ∷ (codes "unknown topic" ∷ [], topic_not_found)
    ∷ (codes "topic already exists" ∷ [], topic_already_exists)
    ∷ (codes "partition not found" ∷ [], partition_not_found)
    ∷ (codes "unknown partition" ∷ [], partition_not_found)
    ∷ (codes "invalid partition" ∷ [], invalid_partition)
    ∷ (codes "group coordinator not available" ∷ [], group_coordinator_not_available)
    ∷ (codes "not coordinator for group" ∷ [], not_group_coordinator)
    ∷ (codes "not group coordinator" ∷ [], not_group_coordinator)
    ∷ (codes "invalid group id" ∷ [], invalid_group_id)
    ∷ (codes "unknown member id" ∷ [], unknown_member_id)
    ∷ (codes "invalid session timeout" ∷ [], invalid_session_timeout)
    ∷ (codes "rebalance in progress" ∷ [], rebalance_in_progress)
    ∷ (codes "offset out of range" ∷ [], offset_out_of_range)
    ∷ (codes "invalid commit offset" ∷ [], invalid_commit_offset)
    ∷ (codes "message too large" ∷ [], message_too_large)
    ∷ (codes "record too large" ∷ [], message_too_large)
    ∷ (codes "invalid message" ∷ [], invalid_message)
    ∷ (codes "invalid message size" ∷ [], invalid_message_size)
    ∷ (codes "leader not available" ∷ [], leader_not_available)
    ∷ (codes "not leader for partition" ∷ [], not_leader_for_partition)
    ∷ (codes "request timed out" ∷ [], request_timed_out)
    ∷ (codes "timeout" ∷ [], request_timed_out)
    ∷ (codes "deadline exceeded" ∷ [], context_deadline_exceeded)
    ∷ (codes "network" ∷ [], network_error)
    ∷ (codes "dial" ∷ [], network_error)
    ∷ (codes "i/o timeout" ∷ [], network_error)
    ∷ (codes "producer fenced" ∷ [], producer_fenced)
    ∷ (codes "invalid producer epoch" ∷ [], invalid_producer_epoch)
    ∷ (codes "transaction coordinator fenced" ∷ [], transaction_coordinator_fenced)
    ∷ (codes "invalid transaction state" ∷ [], invalid_transaction_state)
    ∷ (codes "invalid txn state" ∷ [], invalid_txn_state)
    ∷ (codes "unsupported version" ∷ [], unsupported_version)
    ∷ (codes "unsupported for message format" ∷ [], unsupported_for_message_format)
    ∷ (codes "invalid request" ∷ [], invalid_request)
    ∷ (codes "invalid config" ∷ [], invalid_config)
    ∷ (codes "invalid replication factor" ∷ [], invalid_replication_factor)
    ∷ (codes "out of order sequence" ∷ [], out_of_order_sequence)
    ∷ (codes "duplicate sequence" ∷ [], duplicate_sequence)
    ∷ (codes "context canceled" ∷ [], context_canceled)
    ∷ (codes "context cancelled" ∷ [], context_canceled)
    ∷ []

-- `none` where the default returns the original error.
unfoldable pub translate_by_error_message : Text → Option KafkaError
unfolding message_cases
translate_by_error_message msg = switch_contains msg message_cases
