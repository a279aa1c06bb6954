-- ===== src/Postgres/Errors/Codes/Early.antt =====
-- postgres/errors.go, `translatePostgreSQLError`: the cases from "01000" to "2203E".
use Prim.Native.String.{String}
use stdlib_lab.Prelude.{List, [], ◌∷◌}
use stdlib_lab.Postgres.Errors.Sentinels.{
  DbError, connection_failed, connection_lost, constraint_violation, data_too_long,
  division_by_zero, insufficient_privileges, invalid_cursor, invalid_data, invalid_data_type,
  invalid_json, invalid_query, not_null_violation, numeric_overflow, permission_denied,
  protocol_violation, record_not_found, system_error, transaction_failed, trigger_not_found,
  unsupported_operation,
}

unfoldable pub early_codes : List (String × DbError)
early_codes =
    ("01000", invalid_data)
    ∷ ("02000", record_not_found)
    ∷ ("02001", record_not_found)
    ∷ ("03000", invalid_query)
    ∷ ("08000", connection_failed)
    ∷ ("08001", connection_failed)
    ∷ ("08003", connection_lost)
    ∷ ("08004", connection_failed)
    ∷ ("08006", connection_lost)
    ∷ ("08007", transaction_failed)
    ∷ ("08P01", protocol_violation)
    ∷ ("09000", trigger_not_found)
    ∷ ("0A000", unsupported_operation)
    ∷ ("0B000", transaction_failed)
    ∷ ("0F000", invalid_cursor)
    ∷ ("0F001", invalid_cursor)
    ∷ ("0L000", permission_denied)
    ∷ ("0LP01", insufficient_privileges)
    ∷ ("0P000", permission_denied)
    ∷ ("0Z000", system_error)
    ∷ ("0Z002", system_error)
    ∷ ("20000", record_not_found)
    ∷ ("21000", constraint_violation)
    ∷ ("22000", invalid_data)
    ∷ ("22001", data_too_long)
    ∷ ("22002", not_null_violation)
    ∷ ("22003", numeric_overflow)
    ∷ ("22004", not_null_violation)
    ∷ ("22005", invalid_data_type)
    ∷ ("22007", invalid_data_type)
    ∷ ("22008", numeric_overflow)
    ∷ ("22009", invalid_data)
    ∷ ("22012", division_by_zero)
    ∷ ("22015", numeric_overflow)
    ∷ ("22018", invalid_data_type)
    ∷ ("22019", invalid_data)
    ∷ ("22021", invalid_data_type)
    ∷ ("22022", numeric_overflow)
    ∷ ("22023", invalid_data)
    ∷ ("22024", invalid_data)
    ∷ ("22025", invalid_data)
    ∷ ("22026", data_too_long)
    ∷ ("22027", invalid_data)
    ∷ ("2202E", invalid_data)
    ∷ ("2202F", invalid_data)
    ∷ ("22030", invalid_json)
    ∷ ("22032", invalid_json)
    ∷ ("22033", invalid_json)
    ∷ ("22034", invalid_json)
    ∷ ("22035", invalid_json)
    ∷ ("22036", invalid_json)
    ∷ ("22037", invalid_json)
    ∷ ("22038", invalid_json)
    ∷ ("22039", invalid_json)
    ∷ ("2203A", invalid_json)
    ∷ ("2203B", invalid_json)
    ∷ ("2203C", invalid_json)
    ∷ ("2203D", invalid_json)
    ∷ ("2203E", invalid_json)
    ∷ []
