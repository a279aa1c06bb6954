-- ===== src/Kafka/Errors/Sentinels.antt =====
-- kafka/errors.go, the sentinel errors.
use stdlib_lab.Prelude.{ℕ, Bool, Text, codes, nat_eqb}

pub data KafkaError : Type 0 where
  connection_failed connection_lost broker_not_available replica_not_available : KafkaError
  authentication_failed authorization_failed invalid_credentials topic_not_found : KafkaError
  topic_already_exists partition_not_found invalid_partition group_not_found : KafkaError
  group_coordinator_not_available not_group_coordinator invalid_group_id : KafkaError
  unknown_member_id invalid_session_timeout rebalance_in_progress invalid_commit_offset : KafkaError
  message_too_large invalid_message invalid_message_size offset_out_of_range : KafkaError
  invalid_fetch_size leader_not_available not_leader_for_partition request_timed_out : KafkaError
  network_error producer_fenced transaction_coordinator_fenced : KafkaError
  invalid_transaction_state invalid_producer_epoch invalid_txn_state : KafkaError
  invalid_producer_id_mapping invalid_transaction unsupported_version : KafkaError
  unsupported_for_message_format invalid_request invalid_config not_controller : KafkaError
  invalid_replication_factor invalid_replica replica_not_available_error : KafkaError
  policy_violation out_of_order_sequence duplicate_sequence too_many_in_flight_requests : KafkaError
  writer_not_initialized reader_not_initialized context_canceled : KafkaError
  context_deadline_exceeded unknown_error : KafkaError

-- The place in the declaration.
unfoldable pub rank : KafkaError → ℕ
rank connection_failed = 0
rank connection_lost = 1
rank broker_not_available = 2
rank replica_not_available = 3
rank authentication_failed = 4
rank authorization_failed = 5
rank invalid_credentials = 6
rank topic_not_found = 7
rank topic_already_exists = 8
rank partition_not_found = 9
rank invalid_partition = 10
rank group_not_found = 11
rank group_coordinator_not_available = 12
rank not_group_coordinator = 13
rank invalid_group_id = 14
rank unknown_member_id = 15
rank invalid_session_timeout = 16
rank rebalance_in_progress = 17
rank invalid_commit_offset = 18
rank message_too_large = 19
rank invalid_message = 20
rank invalid_message_size = 21
rank offset_out_of_range = 22
rank invalid_fetch_size = 23
rank leader_not_available = 24
rank not_leader_for_partition = 25
rank request_timed_out = 26
rank network_error = 27
rank producer_fenced = 28
rank transaction_coordinator_fenced = 29
rank invalid_transaction_state = 30
rank invalid_producer_epoch = 31
rank invalid_txn_state = 32
rank invalid_producer_id_mapping = 33
rank invalid_transaction = 34
rank unsupported_version = 35
rank unsupported_for_message_format = 36
rank invalid_request = 37
rank invalid_config = 38
rank not_controller = 39
rank invalid_replication_factor = 40
rank invalid_replica = 41
rank replica_not_available_error = 42
rank policy_violation = 43
rank out_of_order_sequence = 44
rank duplicate_sequence = 45
rank too_many_in_flight_requests = 46
rank writer_not_initialized = 47
rank reader_not_initialized = 48
rank context_canceled = 49
rank context_deadline_exceeded = 50
rank unknown_error = 51

-- The text of `errors.New`.
unfoldable pub sentinel_text : KafkaError → Text
sentinel_text connection_failed = codes "connection failed"
sentinel_text connection_lost = codes "connection lost"
sentinel_text broker_not_available = codes "broker not available"
sentinel_text replica_not_available = codes "replica not available"
sentinel_text authentication_failed = codes "authentication failed"
sentinel_text authorization_failed = codes "authorization failed"
sentinel_text invalid_credentials = codes "invalid credentials"
sentinel_text topic_not_found = codes "topic not found"
sentinel_text topic_already_exists = codes "topic already exists"
sentinel_text partition_not_found = codes "partition not found"
sentinel_text invalid_partition = codes "invalid partition"
sentinel_text group_not_found = codes "consumer group not found"
sentinel_text group_coordinator_not_available = codes "group coordinator not available"
sentinel_text not_group_coordinator = codes "not group coordinator"
sentinel_text invalid_group_id = codes "invalid group id"
sentinel_text unknown_member_id = codes "unknown member id"
sentinel_text invalid_session_timeout = codes "invalid session timeout"
sentinel_text rebalance_in_progress = codes "rebalance in progress"
sentinel_text invalid_commit_offset = codes "invalid commit offset"
sentinel_text message_too_large = codes "message too large"
sentinel_text invalid_message = codes "invalid message"
sentinel_text invalid_message_size = codes "invalid message size"
sentinel_text offset_out_of_range = codes "offset out of range"
sentinel_text invalid_fetch_size = codes "invalid fetch size"
sentinel_text leader_not_available = codes "leader not available"
sentinel_text not_leader_for_partition = codes "not leader for partition"
sentinel_text request_timed_out = codes "request timed out"
sentinel_text network_error = codes "network error"
sentinel_text producer_fenced = codes "producer fenced"
sentinel_text transaction_coordinator_fenced = codes "transaction coordinator fenced"
sentinel_text invalid_transaction_state = codes "invalid transaction state"
sentinel_text invalid_producer_epoch = codes "invalid producer epoch"
sentinel_text invalid_txn_state = codes "invalid transaction state"
sentinel_text invalid_producer_id_mapping = codes "invalid producer id mapping"
sentinel_text invalid_transaction = codes "invalid transaction"
sentinel_text unsupported_version = codes "unsupported version"
sentinel_text unsupported_for_message_format = codes "unsupported for message format"
sentinel_text invalid_request = codes "invalid request"
sentinel_text invalid_config = codes "invalid config"
sentinel_text not_controller = codes "not controller"
sentinel_text invalid_replication_factor = codes "invalid replication factor"
sentinel_text invalid_replica = codes "invalid replica"
sentinel_text replica_not_available_error = codes "replica not available"
sentinel_text policy_violation = codes "policy violation"
sentinel_text out_of_order_sequence = codes "out of order sequence"
sentinel_text duplicate_sequence = codes "duplicate sequence"
sentinel_text too_many_in_flight_requests = codes "too many in-flight requests"
sentinel_text writer_not_initialized = codes "writer not initialized"
sentinel_text reader_not_initialized = codes "reader not initialized"
sentinel_text context_canceled = codes "context canceled"
sentinel_text context_deadline_exceeded = codes "context deadline exceeded"
sentinel_text unknown_error = codes "unknown error"

-- Two sentinels are one value: the pointers that `errors.Is` compares.
unfoldable pub same : KafkaError → KafkaError → Bool
unfolding rank
same a b = nat_eqb (rank a) (rank b)
