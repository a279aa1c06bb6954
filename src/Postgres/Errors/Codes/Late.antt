-- ===== src/Postgres/Errors/Codes/Late.antt =====
-- postgres/errors.go, `translatePostgreSQLError`: the cases from "40001" to "57P02".
use Prim.Native.String.{String}
use stdlib_lab.Prelude.{List, [], ◌∷◌}
use stdlib_lab.Postgres.Errors.Sentinels.{
  DbError, check_constraint_violation, column_not_found, configuration_error, constraint_violation,
  data_too_long, deadlock, disk_full, duplicate_key, foreign_key, function_not_found,
  insufficient_privileges, invalid_cursor, invalid_data_type, invalid_query, lock_timeout,
  query_timeout, schema_validation, serialization_failure, system_error, table_not_found,
  too_many_connections, transaction_failed, unsupported_operation,
}

unfoldable pub late_codes : List (String × DbError)
late_codes =
    ("40001", serialization_failure)
    ∷ ("40002", constraint_violation)
    ∷ ("40003", transaction_failed)
    ∷ ("40P01", deadlock)
    ∷ ("42000", invalid_query)
    ∷ ("42501", insufficient_privileges)
    ∷ ("42601", invalid_query)
    ∷ ("42602", invalid_query)
    ∷ ("42611", invalid_query)
    ∷ ("42622", data_too_long)
    ∷ ("42701", duplicate_key)
    ∷ ("42702", column_not_found)
    ∷ ("42703", column_not_found)
    ∷ ("42704", table_not_found)
    ∷ ("42710", duplicate_key)
    ∷ ("42712", duplicate_key)
    ∷ ("42723", duplicate_key)
    ∷ ("42725", function_not_found)
    ∷ ("42803", invalid_query)
    ∷ ("42804", invalid_data_type)
    ∷ ("42809", invalid_query)
    ∷ ("42830", foreign_key)
    ∷ ("42846", invalid_data_type)
    ∷ ("42883", function_not_found)
    ∷ ("42939", invalid_query)
    ∷ ("42P01", table_not_found)
    ∷ ("42P02", invalid_query)
    ∷ ("42P03", invalid_cursor)
    ∷ ("42P04", duplicate_key)
    ∷ ("42P05", duplicate_key)
    ∷ ("42P06", duplicate_key)
    ∷ ("42P07", duplicate_key)
    ∷ ("42P08", invalid_query)
    ∷ ("42P09", invalid_query)
    ∷ ("42P10", column_not_found)
    ∷ ("42P11", invalid_cursor)
    ∷ ("42P12", configuration_error)
    ∷ ("42P13", function_not_found)
    ∷ ("42P14", invalid_query)
    ∷ ("42P15", schema_validation)
    ∷ ("42P16", schema_validation)
    ∷ ("42P17", schema_validation)
    ∷ ("42P18", invalid_data_type)
    ∷ ("42P19", invalid_query)
    ∷ ("42P20", invalid_query)
    ∷ ("42P21", invalid_data_type)
    ∷ ("42P22", invalid_data_type)
    ∷ ("44000", check_constraint_violation)
    ∷ ("53000", system_error)
    ∷ ("53100", disk_full)
    ∷ ("53200", system_error)
    ∷ ("53300", too_many_connections)
    ∷ ("53400", configuration_error)
    ∷ ("54000", system_error)
    ∷ ("54001", invalid_query)
    ∷ ("54011", schema_validation)
    ∷ ("54023", invalid_query)
    ∷ ("55000", system_error)
    ∷ ("55006", system_error)
    ∷ ("55P02", configuration_error)
    ∷ ("55P03", lock_timeout)
    ∷ ("55P04", unsupported_operation)
    ∷ ("57000", system_error)
    ∷ ("57014", query_timeout)
    ∷ ("57P01", system_error)
    ∷ ("57P02", system_error)
    ∷ []
