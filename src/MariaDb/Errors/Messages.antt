-- ===== src/MariaDb/Errors/Messages.antt =====
-- mariadb/errors.go, `translateByErrorMessage`: the cases in order. A case with several texts wants
-- all of them in the message.
use stdlib_lab.Prelude.{List, [], ◌∷◌, Option, Text, codes}
use stdlib_lab.GoError.Switch.{switch_contains}
use stdlib_lab.MariaDb.Errors.Sentinels.{
  DbError, check_constraint_violation, column_not_found, connection_failed, connection_lost,
  data_too_long, database_not_found, deadlock, disk_full, division_by_zero, duplicate_key,
  foreign_key, insufficient_privileges, invalid_data_type, invalid_json, lock_timeout,
  not_null_violation, numeric_overflow, permission_denied, system_error, table_not_found,
  too_many_connections,
}

unfoldable pub message_cases : List (List Text × DbError)
message_cases =
    (codes "connection refused" ∷ [], connection_failed)
    ∷ (codes "connection reset" ∷ [], connection_lost)
    ∷ (codes "too many connections" ∷ [], too_many_connections)
    ∷ (codes "connection timed out" ∷ [], connection_failed)
    ∷ (codes "server has gone away" ∷ [], connection_lost)
    ∷ (codes "broken pipe" ∷ [], connection_lost)
    ∷ (codes "deadlock" ∷ [], deadlock)
    ∷ (codes "lock wait timeout" ∷ [], lock_timeout)
    ∷ (codes "try restarting transaction" ∷ [], deadlock)
    ∷ (codes "data too long" ∷ [], data_too_long)
    ∷ (codes "out of range" ∷ [], numeric_overflow)
    ∷ (codes "invalid json" ∷ [], invalid_json)
    ∷ (codes "division by zero" ∷ [], division_by_zero)
    ∷ (codes "incorrect" ∷ [], invalid_data_type)
    ∷ (codes "duplicate entry" ∷ [], duplicate_key)
    ∷ (codes "duplicate key" ∷ [], duplicate_key)
    ∷ (codes "cannot be null" ∷ [], not_null_violation)
    ∷ (codes "foreign key constraint" ∷ [], foreign_key)
    ∷ (codes "check constraint" ∷ [], check_constraint_violation)
    ∷ (codes "table" ∷ codes "doesn't exist" ∷ [], table_not_found)
    ∷ (codes "unknown column" ∷ [], column_not_found)
    ∷ (codes "unknown database" ∷ [], database_not_found)
    ∷ (codes "no such table" ∷ [], table_not_found)
    ∷ (codes "access denied" ∷ [], permission_denied)
    ∷ (codes "command denied" ∷ [], insufficient_privileges)
    ∷ (codes "disk full" ∷ [], disk_full)
    ∷ (codes "out of memory" ∷ [], system_error)
    ∷ []

-- `none` where the default returns the original error.
unfoldable pub translate_by_error_message : Text → Option DbError
unfolding message_cases switch_contains
translate_by_error_message msg = switch_contains msg message_cases
