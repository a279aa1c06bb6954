-- ===== src/MariaDb/Errors/Sentinels.antt =====
-- mariadb/errors.go, the sentinel errors.
use stdlib_lab.Prelude.{ℕ, Bool, Text, codes, nat_eqb}

pub data DbError : Type 0 where
  record_not_found duplicate_key foreign_key invalid_data connection_failed : DbError
  transaction_failed query_timeout invalid_query permission_denied table_not_found : DbError
  column_not_found constraint_violation check_constraint_violation not_null_violation : DbError
  data_too_long deadlock lock_timeout invalid_data_type division_by_zero : DbError
  numeric_overflow disk_full too_many_connections invalid_json index_corruption : DbError
  configuration_error unsupported_operation migration_failed backup_failed : DbError
  restore_failed schema_validation serialization_failure insufficient_privileges : DbError
  invalid_password account_locked database_not_found schema_not_found : DbError
  function_not_found trigger_not_found index_not_found view_not_found : DbError
  sequence_not_found invalid_cursor cursor_not_found statement_timeout : DbError
  idle_in_transaction connection_lost protocol_violation internal_error system_error : DbError

-- The place in the declaration.
unfoldable pub rank : DbError → ℕ
rank record_not_found = 0
rank duplicate_key = 1
rank foreign_key = 2
rank invalid_data = 3
rank connection_failed = 4
rank transaction_failed = 5
rank query_timeout = 6
rank invalid_query = 7
rank permission_denied = 8
rank table_not_found = 9
rank column_not_found = 10
rank constraint_violation = 11
rank check_constraint_violation = 12
rank not_null_violation = 13
rank data_too_long = 14
rank deadlock = 15
rank lock_timeout = 16
rank invalid_data_type = 17
rank division_by_zero = 18
rank numeric_overflow = 19
rank disk_full = 20
rank too_many_connections = 21
rank invalid_json = 22
rank index_corruption = 23
rank configuration_error = 24
rank unsupported_operation = 25
rank migration_failed = 26
rank backup_failed = 27
rank restore_failed = 28
rank schema_validation = 29
rank serialization_failure = 30
rank insufficient_privileges = 31
rank invalid_password = 32
rank account_locked = 33
rank database_not_found = 34
rank schema_not_found = 35
rank function_not_found = 36
rank trigger_not_found = 37
rank index_not_found = 38
rank view_not_found = 39
rank sequence_not_found = 40
rank invalid_cursor = 41
rank cursor_not_found = 42
rank statement_timeout = 43
rank idle_in_transaction = 44
rank connection_lost = 45
rank protocol_violation = 46
rank internal_error = 47
rank system_error = 48

-- The text of `errors.New`.
unfoldable pub sentinel_text : DbError → Text
sentinel_text record_not_found = codes "record not found"
sentinel_text duplicate_key = codes "duplicate key violation"
sentinel_text foreign_key = codes "foreign key violation"
sentinel_text invalid_data = codes "invalid data"
sentinel_text connection_failed = codes "database connection failed"
sentinel_text transaction_failed = codes "transaction failed"
sentinel_text query_timeout = codes "query timeout exceeded"
sentinel_text invalid_query = codes "invalid query"
sentinel_text permission_denied = codes "permission denied"
sentinel_text table_not_found = codes "table not found"
sentinel_text column_not_found = codes "column not found"
sentinel_text constraint_violation = codes "constraint violation"
sentinel_text check_constraint_violation = codes "check constraint violation"
sentinel_text not_null_violation = codes "not null constraint violation"
sentinel_text data_too_long = codes "data too long for column"
sentinel_text deadlock = codes "deadlock detected"
sentinel_text lock_timeout = codes "lock acquisition timeout"
sentinel_text invalid_data_type = codes "invalid data type"
sentinel_text division_by_zero = codes "division by zero"
sentinel_text numeric_overflow = codes "numeric value overflow"
sentinel_text disk_full = codes "disk full"
sentinel_text too_many_connections = codes "too many connections"
sentinel_text invalid_json = codes "invalid JSON data"
sentinel_text index_corruption = codes "index corruption detected"
sentinel_text configuration_error = codes "database configuration error"
sentinel_text unsupported_operation = codes "unsupported operation"
sentinel_text migration_failed = codes "migration failed"
sentinel_text backup_failed = codes "backup operation failed"
sentinel_text restore_failed = codes "restore operation failed"
sentinel_text schema_validation = codes "schema validation failed"
sentinel_text serialization_failure = codes "serialization failure"
sentinel_text insufficient_privileges = codes "insufficient privileges"
sentinel_text invalid_password = codes "invalid password"
sentinel_text account_locked = codes "account locked"
sentinel_text database_not_found = codes "database not found"
sentinel_text schema_not_found = codes "schema not found"
sentinel_text function_not_found = codes "function not found"
sentinel_text trigger_not_found = codes "trigger not found"
sentinel_text index_not_found = codes "index not found"
sentinel_text view_not_found = codes "view not found"
sentinel_text sequence_not_found = codes "sequence not found"
sentinel_text invalid_cursor = codes "invalid cursor"
sentinel_text cursor_not_found = codes "cursor not found"
sentinel_text statement_timeout = codes "statement timeout"
sentinel_text idle_in_transaction = codes "idle in transaction timeout"
sentinel_text connection_lost = codes "connection lost"
sentinel_text protocol_violation = codes "protocol violation"
sentinel_text internal_error = codes "internal database error"
sentinel_text system_error = codes "system error"

-- Two sentinels are one value: the pointers that `errors.Is` compares.
unfoldable pub same : DbError → DbError → Bool
unfolding rank
same a b = nat_eqb (rank a) (rank b)
