-- ===== src/Postgres/Errors/Codes/Final.antt =====
-- postgres/errors.go, `translatePostgreSQLError`: the cases from "57P03" to "XX002".
use Prim.Native.String.{String}
use stdlib_lab.Prelude.{List, [], ◌∷◌}
use stdlib_lab.Postgres.Errors.Sentinels.{
  DbError, check_constraint_violation, column_not_found, configuration_error, connection_failed,
  constraint_violation, data_too_long, database_not_found, function_not_found, index_corruption,
  internal_error, invalid_data, invalid_data_type, query_timeout, record_not_found,
  schema_not_found, system_error, table_not_found,
}

unfoldable pub final_codes : List (String × DbError)
final_codes =
    ("57P03", connection_failed)
    ∷ ("57P04", database_not_found)
    ∷ ("57P05", query_timeout)
    ∷ ("58000", system_error)
    ∷ ("58030", system_error)
    ∷ ("58P01", system_error)
    ∷ ("58P02", system_error)
    ∷ ("F0000", configuration_error)
    ∷ ("F0001", configuration_error)
    ∷ ("HV000", system_error)
    ∷ ("HV005", column_not_found)
    ∷ ("HV007", invalid_data)
    ∷ ("HV008", function_not_found)
    ∷ ("HV009", system_error)
    ∷ ("HV00A", invalid_data)
    ∷ ("HV00B", column_not_found)
    ∷ ("HV00C", column_not_found)
    ∷ ("HV00D", invalid_data_type)
    ∷ ("HV00J", invalid_data)
    ∷ ("HV00K", system_error)
    ∷ ("HV00L", invalid_data)
    ∷ ("HV00M", invalid_data)
    ∷ ("HV00N", data_too_long)
    ∷ ("HV00P", invalid_data)
    ∷ ("HV00Q", invalid_data)
    ∷ ("HV00R", system_error)
    ∷ ("HV010", system_error)
    ∷ ("HV014", system_error)
    ∷ ("HV016", system_error)
    ∷ ("HV017", connection_failed)
    ∷ ("HV018", schema_not_found)
    ∷ ("HV019", configuration_error)
    ∷ ("HV01A", system_error)
    ∷ ("HV01B", schema_not_found)
    ∷ ("HV01C", table_not_found)
    ∷ ("HV01D", system_error)
    ∷ ("P0000", function_not_found)
    ∷ ("P0001", function_not_found)
    ∷ ("P0002", record_not_found)
    ∷ ("P0003", constraint_violation)
    ∷ ("P0004", check_constraint_violation)
    ∷ ("XX000", internal_error)
    ∷ ("XX001", index_corruption)
    ∷ ("XX002", index_corruption)
    ∷ []
