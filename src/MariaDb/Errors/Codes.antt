-- ===== src/MariaDb/Errors/Codes.antt =====
-- mariadb/errors.go, `translateMySQLError`: the switch on the number of a server's error.
use stdlib_lab.Prelude.{ℕ, List, [], ◌∷◌, nat_key}
use stdlib_lab.GoError.Switch.{switch_on}
use stdlib_lab.MariaDb.Errors.Sentinels.{
  DbError, system_error, check_constraint_violation, column_not_found, connection_failed,
  connection_lost, constraint_violation, data_too_long, database_not_found, deadlock, disk_full,
  division_by_zero, duplicate_key, foreign_key, function_not_found, index_not_found,
  insufficient_privileges, invalid_data_type, invalid_json, invalid_password, invalid_query,
  lock_timeout, not_null_violation, numeric_overflow, permission_denied, statement_timeout,
  table_not_found, too_many_connections, transaction_failed,
}

unfoldable pub code_cases : List (ℕ × DbError)
code_cases =
    (1062, duplicate_key)
    ∷ (1586, duplicate_key)
    ∷ (1216, foreign_key)
    ∷ (1217, foreign_key)
    ∷ (1451, foreign_key)
    ∷ (1452, foreign_key)
    ∷ (1557, foreign_key)
    ∷ (1761, foreign_key)
    ∷ (1051, table_not_found)
    ∷ (1054, column_not_found)
    ∷ (1091, column_not_found)
    ∷ (1146, table_not_found)
    ∷ (1406, data_too_long)
    ∷ (1264, numeric_overflow)
    ∷ (1048, not_null_violation)
    ∷ (1364, not_null_violation)
    ∷ (1690, constraint_violation)
    ∷ (3819, check_constraint_violation)
    ∷ (4025, check_constraint_violation)
    ∷ (1205, lock_timeout)
    ∷ (1213, deadlock)
    ∷ (1637, deadlock)
    ∷ (1040, too_many_connections)
    ∷ (1158, connection_lost)
    ∷ (1159, connection_lost)
    ∷ (1160, connection_lost)
    ∷ (1161, connection_lost)
    ∷ (2002, connection_failed)
    ∷ (2003, connection_failed)
    ∷ (2006, connection_lost)
    ∷ (2013, connection_lost)
    ∷ (2055, connection_lost)
    ∷ (1064, invalid_query)
    ∷ (1065, invalid_query)
    ∷ (1149, invalid_query)
    ∷ (1044, permission_denied)
    ∷ (1045, invalid_password)
    ∷ (1142, permission_denied)
    ∷ (1143, permission_denied)
    ∷ (1227, insufficient_privileges)
    ∷ (1568, transaction_failed)
    ∷ (1792, transaction_failed)
    ∷ (1365, division_by_zero)
    ∷ (3140, invalid_json)
    ∷ (3141, invalid_json)
    ∷ (3143, invalid_json)
    ∷ (1049, database_not_found)
    ∷ (1008, database_not_found)
    ∷ (1305, function_not_found)
    ∷ (1370, function_not_found)
    ∷ (1061, duplicate_key)
    ∷ (1176, index_not_found)
    ∷ (3, system_error)
    ∷ (9, system_error)
    ∷ (1021, disk_full)
    ∷ (1969, statement_timeout)
    ∷ (1366, invalid_data_type)
    ∷ (1582, invalid_data_type)
    ∷ []

-- The default is the system error, for a number that is none of these.
unfoldable pub translate_my_sql_error : ℕ → DbError
unfolding code_cases switch_on
translate_my_sql_error number = switch_on number code_cases system_error
