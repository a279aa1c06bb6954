-- ===== src/Postgres/Errors/Messages.antt =====
-- postgres/errors.go, `translateByErrorMessage`: the cases in order. A case with several texts wants
-- all of them in the message.
use stdlib_lab.Prelude.{List, [], ◌∷◌, Option, Text, codes}
use stdlib_lab.GoError.Switch.{switch_contains}
use stdlib_lab.Postgres.Errors.Sentinels.{
  DbError, backup_failed, check_constraint_violation, column_not_found, connection_failed,
  connection_lost, cursor_not_found, data_too_long, database_not_found, deadlock, disk_full,
  division_by_zero, duplicate_key, foreign_key, function_not_found, idle_in_transaction,
  index_corruption, index_not_found, insufficient_privileges, internal_error, invalid_cursor,
  invalid_data_type, invalid_json, invalid_password, lock_timeout, migration_failed,
  not_null_violation, numeric_overflow, permission_denied, query_timeout, restore_failed,
  schema_not_found, sequence_not_found, statement_timeout, system_error, table_not_found,
  too_many_connections, trigger_not_found, view_not_found,
}

unfoldable pub message_cases : List (List Text × DbError)
message_cases =
    (codes "connection refused" ∷ [], connection_failed)
    ∷ (codes "connection reset" ∷ [], connection_lost)
    ∷ (codes "too many clients" ∷ [], too_many_connections)
    ∷ (codes "connection timed out" ∷ [], connection_failed)
    ∷ (codes "server closed the connection" ∷ [], connection_lost)
    ∷ (codes "statement timeout" ∷ [], statement_timeout)
    ∷ (codes "canceling statement due to statement timeout" ∷ [], statement_timeout)
    ∷ (codes "lock timeout" ∷ [], lock_timeout)
    ∷ (codes "timeout" ∷ [], query_timeout)
    ∷ (codes "idle in transaction" ∷ [], idle_in_transaction)
    ∷ (codes "deadlock" ∷ [], deadlock)
    ∷ (codes "could not obtain lock" ∷ [], lock_timeout)
    ∷ (codes "value too long" ∷ [], data_too_long)
    ∷ (codes "invalid input syntax" ∷ [], invalid_data_type)
    ∷ (codes "invalid json" ∷ [], invalid_json)
    ∷ (codes "division by zero" ∷ [], division_by_zero)
    ∷ (codes "numeric field overflow" ∷ [], numeric_overflow)
    ∷ (codes "violates check constraint" ∷ [], check_constraint_violation)
    ∷ (codes "duplicated key not allowed" ∷ [], duplicate_key)
    ∷ (codes "duplicate key" ∷ [], duplicate_key)
    ∷ (codes "violates not-null constraint" ∷ [], not_null_violation)
    ∷ (codes "violates foreign key constraint" ∷ [], foreign_key)
    ∷ (codes "violates unique constraint" ∷ [], duplicate_key)
    ∷ (codes "relation" ∷ codes "does not exist" ∷ [], table_not_found)
    ∷ (codes "column" ∷ codes "does not exist" ∷ [], column_not_found)
    ∷ (codes "function" ∷ codes "does not exist" ∷ [], function_not_found)
    ∷ (codes "database" ∷ codes "does not exist" ∷ [], database_not_found)
    ∷ (codes "schema" ∷ codes "does not exist" ∷ [], schema_not_found)
    ∷ (codes "sequence" ∷ codes "does not exist" ∷ [], sequence_not_found)
    ∷ (codes "index" ∷ codes "does not exist" ∷ [], index_not_found)
    ∷ (codes "view" ∷ codes "does not exist" ∷ [], view_not_found)
    ∷ (codes "trigger" ∷ codes "does not exist" ∷ [], trigger_not_found)
    ∷ (codes "invalid field" ∷ [], column_not_found)
    ∷ (codes "permission denied" ∷ [], permission_denied)
    ∷ (codes "insufficient privilege" ∷ [], insufficient_privileges)
    ∷ (codes "authentication failed" ∷ [], invalid_password)
    ∷ (codes "role" ∷ codes "does not exist" ∷ [], invalid_password)
    ∷ (codes "disk full" ∷ [], disk_full)
    ∷ (codes "out of memory" ∷ [], system_error)
    ∷ (codes "internal error" ∷ [], internal_error)
    ∷ (codes "index corruption" ∷ [], index_corruption)
    ∷ (codes "corrupted" ∷ [], index_corruption)
    ∷ (codes "cursor" ∷ codes "does not exist" ∷ [], cursor_not_found)
    ∷ (codes "invalid cursor" ∷ [], invalid_cursor)
    ∷ (codes "migration" ∷ [], migration_failed)
    ∷ (codes "backup" ∷ [], backup_failed)
    ∷ (codes "restore" ∷ [], restore_failed)
    ∷ []

-- `none` where the default returns the original error.
unfoldable pub translate_by_error_message : Text → Option DbError
unfolding message_cases switch_contains
translate_by_error_message msg = switch_contains msg message_cases
